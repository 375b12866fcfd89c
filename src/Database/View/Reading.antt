-- ===== src/Database/View/Reading.antt =====
-- `db_path_to_node` and `db_get` on canonical paths: they read the view.
use apteryx.Prelude.{
  ℕ, List, [], ◌∷◌, ◌≡◌, ◌∙◌, none, some, Bool, inl, inr, ok, arith, Option-cases, take-length_self,
}
use apteryx.CString.{CString}
use apteryx.CString.Laws.{strcmp_eq_refl}
use apteryx.Database.Table.{HashTable}
use apteryx.Database.Heap.{Heap, Node, load-live}
use apteryx.Database.Walk.{walk, db_path_to_node, db_get, node_bytes}
use apteryx.Database.View.{
  IsPath, IsTree, render, descend, child, child_of, node_at, value_of, view,
}
use apteryx.Database.View.Keys.{tokens-render, trim-render}
use apteryx.Database.View.Descent.{descend-cons, descend-none, descend_step}

module _ (G : HashTable) where
  -- The child of a live node, by the node's table.
  pub child-live :
      (h : Heap G.Table) (p : ℕ) (k : CString) (n : Node G.Table)
      → h.cell p ≡ some n
      → child G h p k ≡ child_of G (some n) k
  unfolding child
  child-live h p k n e = rw (e, child_of)

  pub child_of-none :
      (n : Node G.Table) (k : CString) → n.children ≡ none → child_of G (some n) k ≡ none
  unfolding child_of
  child_of-none n k e = rw (e, child_of)

  pub child_of-some :
      (n : Node G.Table) (k : CString) (t : G.Table)
      → n.children ≡ some t
      → child_of G (some n) k ≡ G.lookup t k
  unfolding child_of
  child_of-some n k t e = rw (e, child_of)

module _ (G : HashTable) (h : Heap G.Table) (tree : IsTree G h) where
  walk-descend :
      (trimmed : Bool) (key : CString) (ks : List CString) (p : ℕ) (n : Node G.Table)
      → h.cell p ≡ some n
      → n.key ≡ key
      → walk G h trimmed key ks p ≡ ok (descend (child G h) p ks)
  unfolding walk
  walk-descend trimmed key [] p n live same =
      unfold descend in rw (load-live h p n live, same, strcmp_eq_refl key)
  walk-descend trimmed key (k ∷ ks) p n live same = elim (Option-cases n.children) [
    | inl e ↦ rw (
      load-live h p n live,
      e,
      descend-none _ p k ks (child-live G h p k n live ∙ child_of-none G n k e),
    )
    | inr (t, e) ↦
        let here = child-live G h p k n live ∙ child_of-some G n k t e in
        elim (Option-cases (G.lookup t k)) [
          | inl e' ↦ rw (load-live h p n live, e, e', descend-none _ p k ks (here ∙ e'))
          | inr (c, e') ↦
              let (m, live', key', _, _) = tree.children_live p k c (here ∙ e') in
              rw (load-live h p n live, e, e', descend-cons _ p k ks c (here ∙ e'))
                (walk-descend trimmed k ks c m live' key')
        ]
  ]

  -- The path's node, or NULL where there is none: no read goes out of bounds.
  pub db_path_to_node-render :
      (ks : List CString) → IsPath ks → db_path_to_node G h (render ks) ≡ ok (node_at G h ks)
  unfolding db_path_to_node node_at
  db_path_to_node-render ks w = elim (Option-cases h.root) [
    | inl e ↦ rw (e, db_path_to_node, node_at)
    | inr (r, e) ↦
        let (n, live, key, _) = tree.root_live r e in
        rw (e, db_path_to_node, node_at, trim-render ks w, tokens-render ks w)
          (walk-descend _ [] ks r n live key)
  ]

  -- A node that is found is live.
  descend_live :
      (p : ℕ) (n : Node G.Table) (ks : List CString) (y : ℕ)
      → h.cell p ≡ some n
      → descend (child G h) p ks ≡ some y
      → (m : Node G.Table) × (h.cell y ≡ some m)
  descend_live p n [] y live d =
      let e : p ≡ y = unfold descend in ground arith in (n, rw (← e) live)
  descend_live p n (k ∷ ks) y live d =
      let (c, e, d') = descend_step _ p k ks y d in
      let (m, live', _, _, _) = tree.children_live p k c e in descend_live c m ks y live' d'

  pub node_at_root :
      (ks : List CString) (y : ℕ)
      → node_at G h ks ≡ some y
      → (r : ℕ) × (h.root ≡ some r) × (descend (child G h) r ks ≡ some y)
  unfolding node_at
  node_at_root ks y d = elim (Option-cases h.root) [
    | inl e ↦ cc (rw (e, node_at) at d)
    | inr (r, e) ↦ (r, e, rw (e, node_at) at d)
  ]

  pub node_at_live :
      (ks : List CString) (y : ℕ)
      → node_at G h ks ≡ some y
      → (m : Node G.Table) × (h.cell y ≡ some m)
  node_at_live ks y d =
      let (r, e, d') = node_at_root ks y d in
      let (n, live, _, _) = tree.root_live r e in descend_live r n ks y live d'

  -- What db_get returns of a view.
  node_bytes-sized : (p : ℕ) (n : Node G.Table) → h.cell p ≡ some n → node_bytes G n ≡ n.value
  unfolding node_bytes
  node_bytes-sized p n live = elim (Option-cases n.value) [
    | inl e ↦ rw (e, node_bytes)
    | inr (v, e) ↦ rw (e, node_bytes, tree.sized p n v live e, take-length_self v)
  ]

  -- `db_get` returns the value that the view has at the path, and false where the view has no node
  -- or a node without a value.
  pub db_get-view :
      (ks : List CString)
      → IsPath ks
      → db_get G h (render ks) ≡ ok (elim (view G h ks) [ none ↦ none | some o ↦ o ])
  unfolding db_get view
  db_get-view ks w = elim (Option-cases (node_at G h ks)) [
    | inl e ↦ rw (db_path_to_node-render ks w, e, view)
    | inr (p, e) ↦
        let (n, live) = node_at_live ks p e in
        rw (
          db_path_to_node-render ks w,
          e,
          view,
          load-live h p n live,
          node_bytes-sized p n live,
          live,
          value_of,
        )
  ]
