-- ===== src/Database/Add/Parented.antt =====
-- What an addition below an existing parent shows.
use apteryx.Prelude.{
  ℕ, List, [], ◌∷◌, ◌++◌, ◌≡◌, ◌≢◌, refl, ap, sym, ◌∙◌, none, some, false, ◌⊎◌, inl, inr,
  if◌then◌else◌, ok, arith, Bool-cases,
}
use apteryx.CString.{CString}
use apteryx.Database.Table.{HashTable}
use apteryx.Database.Heap.{Heap, Node, fresh_node}
use apteryx.Database.Update.{db_node_add, write_value}
use apteryx.Database.View.{IsKey, IsPath, IsTree, node_at, view, path_eq, is_prefix}
use apteryx.Database.View.Keys.{is_prefix-snoc, is_prefix_refl, path_eq_iff}
use apteryx.Database.View.Growth.{node_at-with_node, view-with_node}
use apteryx.Database.View.NewNode.{with_node, new_cell, db_node_add-with_node, IsTree-with_node}
use apteryx.Database.View.NewValue.{
  with_value, write_value-with_value, IsTree-with_value, view-with_value,
}
use apteryx.Database.Add.{View, blank, or_blank, with_prefixes, added_view, Added}

-- What `db_parent_get` leaves: the parent, and no node at the path yet.
pub record Parented (G : HashTable) (h h' : Heap G.Table) (js : List CString) (k : CString) (q : ℕ)
    : Type 0 where
  pub tree : IsTree G h'
  pub parent : node_at G h' js ≡ some q
  pub free : node_at G h' (js ++ k ∷ []) ≡ none
  pub shows : (is : List CString) → view G h' is ≡ with_prefixes (view G h) js is

module _ (js : List CString) (k : CString) (old : View) (v : List ℕ) where
  -- The prefixes of a path are the path and the prefixes of its parent.
  added_view-snoc :
      (is : List CString)
      → added_view old (js ++ k ∷ []) v is ≡ (
          if path_eq is (js ++ k ∷ [])
          then some (some v)
          else (if path_eq is (js ++ k ∷ []) then some none else with_prefixes old js is))
  unfolding added_view with_prefixes
  added_view-snoc is = ground (arith, is_prefix-snoc is js k)

module _ (G : HashTable) (h h' : Heap G.Table) (js : List CString) (k : CString) (q : ℕ)
    (up : Parented G h h' js k q) (v : List ℕ) where
  module _ (m : Node G.Table) (live : h'.cell q ≡ some m) where
    unfoldable pub grown : Heap G.Table
    grown = with_node G h' q m k

    grown_tree : IsTree G grown
    unfolding grown
    grown_tree = IsTree-with_node G h' up.tree q m live k

    grown_live : grown.cell h'.next ≡ some (fresh_node k (some q))
    unfolding grown
    grown_live = new_cell G h' up.tree q m live k

    grown_at : node_at G grown (js ++ k ∷ []) ≡ some h'.next
    unfolding grown
    grown_at = node_at-with_node G h' up.tree q m live k js up.parent up.free

    pub finished : Heap G.Table
    finished = with_value G grown grown_tree h'.next (fresh_node k (some q)) grown_live v

    pub added : db_node_add G h' (some q) k ≡ ok (h'.next, grown)
    unfolding grown
    added = db_node_add-with_node G h' up.tree q m live k

    pub written : write_value G grown h'.next v ≡ ok finished
    unfolding finished
    written = write_value-with_value G grown grown_tree h'.next (fresh_node k (some q)) grown_live v

    grown_shows :
        (is : List CString)
        → view G grown is
          ≡ (if path_eq is (js ++ k ∷ []) then some none else with_prefixes (view G h) js is)
    unfolding grown
    grown_shows is =
        view-with_node G h' up.tree q m live k js up.parent up.free is
        ∙ ap (λ o. if path_eq is (js ++ k ∷ []) then some none else o) (up.shows is)

    pub Added-finished : Added G h finished (js ++ k ∷ []) v
    unfolding finished
    Added-finished = record {
      tree = IsTree-with_value G grown grown_tree h'.next (fresh_node k (some q)) grown_live v;
      shows = λ is.
          view-with_value G grown grown_tree h'.next (fresh_node k (some q)) grown_live v
            (js ++ k ∷ []) grown_at is
          ∙ ap (λ o. if path_eq is (js ++ k ∷ []) then some (some v) else o) (grown_shows is)
          ∙ sym (added_view-snoc js k (view G h) v is);
    }

pub prefix_self :
    (old : View) (js : List CString) → old js ≡ none → with_prefixes old js js ≡ some (blank js)
unfolding with_prefixes or_blank
prefix_self old js e = rw (is_prefix_refl js, e)

longer : (js : List CString) (k : CString) → is_prefix (js ++ k ∷ []) js ≡ false
unfolding is_prefix
longer [] k = refl
longer (j ∷ js) k = ground (arith, longer js k)

pub longer_same :
    (old : View) (js : List CString) (k : CString)
    → with_prefixes old js (js ++ k ∷ []) ≡ old (js ++ k ∷ [])
unfolding with_prefixes
longer_same old js k = rw (longer js k)

-- A new node other than the root is blank.
pub blank_added :
    (old : View) (js is : List CString)
    → js ≢ []
    → old js ≡ none
    → added_view old js [] is ≡ with_prefixes old js is
blank_added old js is ne e = elim (Bool-cases (path_eq is js)) [
  | inl same ↦
      let is_js = (path_eq_iff is js).0 same in
      let blank_js : blank js ≡ some [] = not_root js ne in
      let kept : with_prefixes old js is ≡ some (some []) =
        ap (with_prefixes old js) is_js ∙ prefix_self old js e ∙ ap some blank_js in
      unfold added_view in rw same (sym kept)
  | inr other ↦ unfold added_view in rw other
]
  where
    not_root : (js : List CString) → js ≢ [] → blank js ≡ some []
    not_root [] ne = absurd (ne refl)
    not_root (j ∷ js) ne = unfold blank in refl

pub nil_cases : (js : List CString) → (js ≡ []) ⊎ (js ≢ [])
nil_cases [] = inl refl
nil_cases (j ∷ js) = inr (λ e. cc)

pub IsPath-snoc : (js : List CString) (k : CString) → IsPath js → IsKey k → IsPath (js ++ k ∷ [])
IsPath-snoc [] k w wk = (wk, tt)
IsPath-snoc (j ∷ js) k w wk = (w.0, IsPath-snoc js k w.1 wk)
