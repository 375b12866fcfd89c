-- ===== src/Server/Prune/Below.antt =====
-- What lies below a path, and what a deletion can change.
use apteryx.Prelude.{
  ℕ, ◌+◌, ◌≤◌, ◌<◌, ◌≡◌, ◌⊎◌, refl, ap, ◌∙◌, List, [], ◌∷◌, ◌++◌, Bool, true, false, not, ◌==◌,
  Option, none, some, inl, inr, ok, All, length, arith, Option-cases, Bool-cases,
}
use apteryx.CString.{CString, slash, last_char}
use apteryx.CString.Laws.{last_char-append}
use apteryx.Registry.{CbInfo}
use apteryx.Database.Table.{HashTable}
use apteryx.Database.Heap.{Heap}
use apteryx.Database.Delete.{db_delete}
use apteryx.Database.View.{IsPath, IsTree, render, descend, child, node_at, view, path_eq}
use apteryx.Database.View.Descent.{descend_step, descend_prefix}
use apteryx.Database.View.Reading.{node_at_root, node_at_live, db_path_to_node-render}
use apteryx.Database.View.Growth.{node_at-descend, view-none}
use apteryx.Database.Add.{View}
use apteryx.Database.Add.Shown.{node_of_view, no_node_of_view}
use apteryx.Database.Remove.{Pruned, without}
use apteryx.Server.Notify.Copies.{Readable}

-- A watched path that is not empty and does not end in '/'.
unfoldable pub plain : CString → Bool
unfolding last_char
plain path = elim (last_char path) [ none ↦ false | some c ↦ not (c == slash) ]

plain-Readable : (path : CString) (w : CbInfo) → plain w.path ≡ true → Readable path w
unfolding plain
plain-Readable path w h = (λ e. cc (ap plain e, h, empty), λ e. cc (ap plain e, h, ends))
  where
    empty : plain [] ≡ false
    empty = unfold last_char in refl

    ends : plain (path ++ slash ∷ []) ≡ false
    ends = rw (last_char-append path slash, plain)

pub plain-All :
    (path : CString) (list : List CbInfo)
    → All (λ (w : CbInfo). plain w.path ≡ true) list
    → All (Readable path) list
plain-All path [] all = tt
plain-All path (w ∷ list) (h, all) = (plain-Readable path w h, plain-All path list all)

module _ (G : HashTable) (h : Heap G.Table) (tree : IsTree G h) where
  descend-length :
      (p : ℕ) (ks : List CString) (y : ℕ) → descend (child G h) p ks ≡ some y → p + length ks ≤ y
  descend-length p [] y d = let e : p ≡ y = unfold descend in ground arith in omega (arith, e)
  descend-length p (k ∷ ks) y d =
      let (c, e, d') = descend_step (child G h) p k ks y d in
      let (_, _, _, _, lt) = tree.children_live p k c e in
      omega (arith, lt, descend-length c ks y d')

  -- A path that is there is shorter than there are nodes.
  pub shown-length :
      (ks : List CString) (o : Option (List ℕ)) → view G h ks ≡ some o → length ks < h.next
  shown-length ks o e =
      let (p, at) = node_of_view G h tree ks e in
      let (r, root, d) = node_at_root G h tree ks p at in
      let (n, live) = node_at_live G h tree ks p at in
      omega (arith, descend-length r ks p d, tree.below_next p n live)

  -- Nothing is below a path that is not there.
  pub below_none : (ks ls : List CString) → view G h ks ≡ none → view G h (ks ++ ls) ≡ none
  below_none ks ls e = elim (Option-cases (node_at G h (ks ++ ls))) [
    | inl gone ↦ view-none G h (ks ++ ls) gone
    | inr (y, at) ↦
        let (r, root, d) = node_at_root G h tree (ks ++ ls) y at in
        let (q, d') = descend_prefix (child G h) r ks ls y d in
        cc (node_at-descend G h r ks root ∙ d', no_node_of_view G h tree ks e)
  ]

  pub db_delete-missing :
      (ks : List CString) → IsPath ks → view G h ks ≡ none → db_delete G h (render ks) ≡ ok h
  unfolding db_delete
  db_delete-missing ks w e =
      rw (db_path_to_node-render G h tree ks w, no_node_of_view G h tree ks e)

without-cases :
    (old : View) (ks is : List CString) → (without old ks is ≡ none) ⊎ (without old ks is ≡ old is)
unfolding without
without-cases old ks is = elim (Bool-cases (path_eq is ks)) [
  | inl e ↦ inl (rw e)
  | inr e ↦ inr (rw e)
]

pub Pruned-shrinks :
    {new old : View} {ks : List CString}
    → Pruned new old ks
    → (is : List CString) → (new is ≡ none) ⊎ (new is ≡ old is)
Pruned-shrinks {new} {old} (Pruned.stop js k o _ _ same) is =
    elim (without-cases old (js ++ k ∷ []) is) [
      | inl e ↦ inl (same is ∙ e)
      | inr e ↦ inr (same is ∙ e)
    ]
Pruned-shrinks {new} {old} (Pruned.up js k o _ _ _ rest) is = elim (Pruned-shrinks rest is) [
  | inl e ↦ inl e
  | inr e ↦ elim (without-cases old (js ++ k ∷ []) is) [
    | inl e' ↦ inl (e ∙ e')
    | inr e' ↦ inr (e ∙ e')
  ]
]
Pruned-shrinks {new} {old} (Pruned.root only gone) is = inl (gone is)
