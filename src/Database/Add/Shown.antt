-- ===== src/Database/Add/Shown.antt =====
-- What an addition to a path that has a node shows.
use apteryx.Prelude.{
  ℕ, List, ◌≡◌, ap, sym, ◌∙◌, Option, none, some, true, inl, inr, if◌then◌else◌, Option-cases,
  Bool-cases,
}
use apteryx.CString.{CString}
use apteryx.Database.Table.{HashTable}
use apteryx.Database.Heap.{Heap, Node}
use apteryx.Database.View.{IsTree, node_at, view, path_eq, is_prefix}
use apteryx.Database.View.Keys.{is_prefix-append}
use apteryx.Database.View.Descent.{descend_prefix}
use apteryx.Database.View.Reading.{node_at_root, node_at_live}
use apteryx.Database.View.Growth.{node_at-descend, view-some, view-none}
use apteryx.Database.View.NewValue.{with_value, IsTree-with_value, view-with_value}
use apteryx.Database.Add.{or_blank, with_prefixes, added_view, Added}

module _ (G : HashTable) (h : Heap G.Table) (tree : IsTree G h) where
  pub node_of_view :
      (ks : List CString) {o : Option (List ℕ)}
      → view G h ks ≡ some o
      → (y : ℕ) × (node_at G h ks ≡ some y)
  node_of_view ks e = elim (Option-cases (node_at G h ks)) [
    | inl gone ↦ cc (e, view-none G h ks gone)
    | inr found ↦ found
  ]

  pub no_node_of_view : (ks : List CString) → view G h ks ≡ none → node_at G h ks ≡ none
  no_node_of_view ks e = elim (Option-cases (node_at G h ks)) [
    | inl gone ↦ gone
    | inr (y, d) ↦ let (n, l) = node_at_live G h tree ks y d in cc (e, view-some G h ks y n d l)
  ]

  -- Where there is a node there is one at each prefix.
  prefix_shown :
      (js ks : List CString) (p : ℕ)
      → node_at G h ks ≡ some p
      → is_prefix js ks ≡ true
      → (o : Option (List ℕ)) × (view G h js ≡ some o)
  prefix_shown js ks p at pre =
      let (ls, e) = is_prefix-append js ks pre in
      let (r, root, d) = node_at_root G h tree ks p at in
      let (q, d') = descend_prefix _ r js ls p (rw e at d) in
      let at' = node_at-descend G h r js root ∙ d' in
      let (n, l) = node_at_live G h tree js q at' in (n.value, view-some G h js q n at' l)

  pub with_prefixes_same :
      (ks : List CString) (p : ℕ)
      → node_at G h ks ≡ some p
      → (js : List CString) → with_prefixes (view G h) ks js ≡ view G h js
  unfolding with_prefixes or_blank
  with_prefixes_same ks p at js = elim (Bool-cases (is_prefix js ks)) [
    | inl pre ↦ let (o, e) = prefix_shown js ks p at pre in rw (pre, e)
    | inr not_pre ↦ rw not_pre
  ]

  -- The path is there: only its value changes.
  pub Added-found :
      (ks : List CString) (v : List ℕ) (p : ℕ) (n : Node G.Table)
      → (at : node_at G h ks ≡ some p) → (live : h.cell p ≡ some n)
      → Added G h (with_value G h tree p n live v) ks v
  unfolding added_view
  Added-found ks v p n at live = record {
    tree = IsTree-with_value G h tree p n live v;
    shows = λ js.
        view-with_value G h tree p n live v ks at js
        ∙ ap (λ o. if path_eq js ks then some (some v) else o)
            (sym (with_prefixes_same ks p at js));
  }
