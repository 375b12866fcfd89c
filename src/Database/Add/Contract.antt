-- ===== src/Database/Add/Contract.antt =====
-- `db_add` meets its specification.
use apteryx.Prelude.{
  ℕ, zero, suc, ◌<◌, List, [], ◌∷◌, ◌++◌, ◌≡◌, ◌≢◌, refl, ap, sym, ◌∙◌, none, some, true, false,
  inl, inr, Result, ok, arith, Option-cases, length, length-append,
}
use apteryx.CString.{CString}
use apteryx.Database.Table.{HashTable}
use apteryx.Database.Heap.{Heap}
use apteryx.Database.Update.{db_parent_get, db_add_fuel, db_add}
use apteryx.Database.View.{IsKey, IsPath, IsTree, render, node_at, view, path_eq, is_prefix}
use apteryx.Database.View.Keys.{
  snoc_cases, IsPath-append, is_prefix-snoc, is_prefix_refl, path_eq_iff,
}
use apteryx.Database.View.Reading.{db_path_to_node-render, node_at_live}
use apteryx.Database.View.Growth.{view-none}
use apteryx.Database.View.NewValue.{with_value, write_value-with_value}
use apteryx.Database.Add.{View, blank, or_blank, with_prefixes, added_view, Added}
use apteryx.Database.Add.Root.{made}
use apteryx.Database.Add.Parent.{
  db_parent_get-found, db_parent_get-made, find_or_add-made, find_or_add-found, db_add_fuel-suc,
}
use apteryx.Database.Add.Shown.{node_of_view, no_node_of_view, with_prefixes_same, Added-found}
use apteryx.Database.Add.Parented.{
  Parented, grown, finished, added, written, Added-finished, prefix_self, longer_same, blank_added,
  nil_cases, IsPath-snoc,
}
use apteryx.Database.Add.Start.{no_nodes, root_prefixes, root_add}

-- The recursive call, as the induction hypothesis gives it.
abbrev AddsAt : (G : HashTable) → ℕ → Type 0
AddsAt G f =
    (h : Heap G.Table) (ks : List CString) (v : List ℕ)
    → IsTree G h
    → IsPath ks
    → ks ≢ []
    → length ks < f
    → (h' : Heap G.Table) × (db_add_fuel G f h (render ks) v ≡ ok h') × Added G h h' ks v

module _ (G : HashTable) (f : ℕ) (ih : AddsAt G f) (h : Heap G.Table) (tree : IsTree G h)
    (js : List CString) (k : CString) (w : IsPath js) (wk : IsKey k) (fuel : length js < f)
    (free : node_at G h (js ++ k ∷ []) ≡ none) where
  abbrev add : Heap G.Table → CString → Result (Heap G.Table)
  add h₀ parent = db_add_fuel G f h₀ parent []

  parent_there :
      (q : ℕ)
      → node_at G h js ≡ some q
      → (db_parent_get G add h (render (js ++ k ∷ [])) ≡ ok (some q, h)) × Parented G h h js k q
  parent_there q at = (
    db_parent_get-found G add h js k wk q (db_path_to_node-render G h tree js w ∙ ap ok at),
    record {
      tree = tree;
      parent = at;
      free = free;
      shows = λ is. sym (with_prefixes_same G h tree js q at is);
    },
  )

  parent_new :
      (h' : Heap G.Table)
      → node_at G h js ≡ none
      → add h (render js) ≡ ok h'
      → IsTree G h'
      → ((is : List CString) → view G h' is ≡ with_prefixes (view G h) js is)
      → (q : ℕ) × (db_parent_get G add h (render (js ++ k ∷ [])) ≡ ok (some q, h'))
        × Parented G h h' js k q
  parent_new h' gone made tree' shows =
      let (q, at) =
        node_of_view G h' tree' js (shows js ∙ prefix_self (view G h) js (view-none G h js gone)) in
      (
        q,
        db_parent_get-made G add h js k wk h' q (db_path_to_node-render G h tree js w ∙ ap ok gone)
            made (db_path_to_node-render G h' tree' js w ∙ ap ok at),
        record {
          tree = tree';
          parent = at;
          free = no_node_of_view G h' tree' (js ++ k ∷ []) (
              shows (js ++ k ∷ [])
              ∙ longer_same (view G h) js k
              ∙ view-none G h (js ++ k ∷ []) free);
          shows = shows;
        },
      )

  -- The parent is the root, and there is none.
  parent_root :
      js ≡ []
      → node_at G h js ≡ none
      → (h' : Heap G.Table) × (q : ℕ) × (db_parent_get G add h (render (js ++ k ∷ []))
          ≡ ok (some q, h'))
        × Parented G h h' js k q
  parent_root e gone =
      let top : node_at G h [] ≡ none = rw e at gone in
      let (h', made, tree', shows) = root_add G h tree top f (rw e at fuel) in
      let (q, got, up) =
        parent_new h' gone (ap (λ x. add h (render x)) e ∙ (unfold render in made)) tree' (λ is.
          shows is
          ∙ root_prefixes (view G h) is (λ ks. view-none G h ks (no_nodes G h tree top ks))
          ∙ ap (λ x. with_prefixes (view G h) x is) (sym e)) in
      (h', q, got, up)

  parent_other :
      js ≢ []
      → node_at G h js ≡ none
      → (h' : Heap G.Table) × (q : ℕ) × (db_parent_get G add h (render (js ++ k ∷ []))
          ≡ ok (some q, h'))
        × Parented G h h' js k q
  parent_other ne gone =
      let (h', made, spec) = ih h js [] tree w ne fuel in
      let (q, got, up) =
        parent_new h' gone made spec.tree
          (λ is. spec.shows is ∙ blank_added (view G h) js is ne (view-none G h js gone)) in
      (h', q, got, up)

  parent_any :
      (h' : Heap G.Table) × (q : ℕ) × (db_parent_get G add h (render (js ++ k ∷ []))
        ≡ ok (some q, h'))
      × Parented G h h' js k q
  parent_any = elim (Option-cases (node_at G h js)) [
    | inr (q, at) ↦ let (got, up) = parent_there q at in (h, q, got, up)
    | inl gone ↦ elim (nil_cases js) [ inl e ↦ parent_root e gone | inr ne ↦ parent_other ne gone ]
  ]

  add-missing :
      (v : List ℕ)
      → (h'' : Heap G.Table) × (db_add_fuel G (suc f) h (render (js ++ k ∷ [])) v ≡ ok h'')
        × Added G h h'' (js ++ k ∷ []) v
  unfolding grown
  add-missing v =
      let (h', q, got, up) = parent_any in
      let (m, live) = node_at_live G h' up.tree js q up.parent in
      (
        finished G h h' js k q up v m live,
        db_add_fuel-suc G f h (render (js ++ k ∷ [])) v h'.next
            (find_or_add-made G add h js k wk h' _ q h'.next
              (db_path_to_node-render G h tree (js ++ k ∷ []) (IsPath-snoc js k w wk) ∙ ap ok free)
              got (added G h h' js k q up v m live))
            (written G h h' js k q up v m live),
        Added-finished G h h' js k q up v m live,
      )

-- By induction on the fuel: as many rounds as the path has keys, and one.
add-Added : (G : HashTable) (f : ℕ) → AddsAt G f
add-Added G zero h ks v tree w ne l = elim l [ ]
add-Added G (suc f) h ks v tree w ne l = elim (Option-cases (node_at G h ks)) [
  | inr (p, at) ↦
      let (n, live) = node_at_live G h tree ks p at in
      (
        with_value G h tree p n live v,
        db_add_fuel-suc G f h (render ks) v p
            (find_or_add-found G _ h (render ks) p
              (db_path_to_node-render G h tree ks w ∙ ap ok at))
            (write_value-with_value G h tree p n live v),
        Added-found G h tree ks v p n at live,
      )
  | inl gone ↦ elim (snoc_cases ks) [
    | inl e ↦ absurd (ne e)
    | inr (js, k, e) ↦
        let (wj, wk) = IsPath-append js (k ∷ []) (rw e at w) in
        rw e (
          add-missing G f (add-Added G f) h tree js k wj wk.0
            (omega (arith, ap length e, length-append {0} js (k ∷ []), l)) (rw e at gone) v)
  ]
]

length-render : (ks : List CString) → length ks < suc (length (render ks))
unfolding render
length-render [] = omega arith
length-render (k ∷ ks) = omega (arith, length-append {0} k (render ks), length-render ks)

-- From a tree, for every canonical path but the root's and every value, `db_add` does not fault
-- and does not run out of fuel. It leaves a tree. A client then sees the new value at the path; at
-- each path above it what was there, or a blank node if there was none; and no other change.
pub db_add-Added :
    (G : HashTable) (h : Heap G.Table) (ks : List CString) (v : List ℕ)
    → IsTree G h
    → IsPath ks
    → ks ≢ []
    → (h' : Heap G.Table) × (db_add G h (render ks) v ≡ ok h') × Added G h h' ks v
unfolding db_add
db_add-Added G h ks v tree w ne =
    add-Added G (suc (length (render ks))) h ks v tree w ne (length-render ks)

added_view_self :
    (old : View) (ks : List CString) (v : List ℕ) → added_view old ks v ks ≡ some (some v)
unfolding added_view
added_view_self old ks v = rw ((path_eq_iff ks ks).1 refl)

snoc-ne : (js : List CString) (k : CString) → js ≢ js ++ k ∷ []
snoc-ne [] k e = cc
snoc-ne (j ∷ js) k e = snoc-ne js k (ground arith)

module _ (G : HashTable) (h h' : Heap G.Table) (v : List ℕ) where
  pub shows_self : (ks : List CString) → Added G h h' ks v → view G h' ks ≡ some (some v)
  shows_self ks a = a.shows ks ∙ added_view_self (view G h) ks v

  -- The parent of a new path, where it was not there: an empty value.
  pub shows_parent :
      (js : List CString) (k : CString)
      → js ≢ []
      → view G h js ≡ none
      → Added G h h' (js ++ k ∷ []) v
      → view G h' js ≡ some (some [])
  unfolding added_view with_prefixes or_blank
  shows_parent js k ne e a =
      let other : path_eq js (js ++ k ∷ []) ≡ false =
        ground (arith, (path_eq_iff js (js ++ k ∷ [])).0, snoc-ne js k) in
      let prefix : is_prefix js (js ++ k ∷ []) ≡ true =
        ground (arith, is_prefix-snoc js js k, is_prefix_refl js) in
      a.shows js ∙ rw (other, prefix, e) (ap some (not_root js ne))
    where
      not_root : (js : List CString) → js ≢ [] → blank js ≡ some []
      not_root [] ne = absurd (ne refl)
      not_root (j ∷ js) ne = unfold blank in refl
