-- ===== src/Database/Remove/Leaf.antt =====
-- `db_delete` of a leaf meets its specification.
use apteryx.Prelude.{
  ℕ, zero, suc, List, [], ◌∷◌, ◌++◌, ◌≡◌, ap, sym, ◌∙◌, Option, none, some, inl, inr, ok, arith,
  Option-cases, Bool-cases, ltb,
}
use apteryx.CString.{CString}
use apteryx.Database.Table.{HashTable}
use apteryx.Database.Heap.{Heap, Node}
use apteryx.Database.Delete.{delete_fuel, db_delete}
use apteryx.Database.View.{IsPath, IsTree, render, descend, child, node_at, view}
use apteryx.Database.View.Descent.{descend_prefix}
use apteryx.Database.View.Keys.{snoc_cases}
use apteryx.Database.View.Reading.{
  child-live, child_of-none, node_at_root, node_at_live, db_path_to_node-render,
}
use apteryx.Database.View.Growth.{node_at-descend}
use apteryx.Database.Add.Shown.{node_of_view, no_node_of_view}
use apteryx.Database.Remove.{Settled, Pruned}
use apteryx.Database.Remove.Deleted.{DeletesAt, root-Deleted, node_at-snoc}
use apteryx.Database.Remove.Above.{below-Deleted}

-- The node above one that a path of one key or more leads to.
module _ (G : HashTable) (h : Heap G.Table) (tree : IsTree G h) where
  pub parent_of :
      (js : List CString) (k : CString) (p : ℕ)
      → node_at G h (js ++ k ∷ []) ≡ some p
      → (q : ℕ) × (m : Node G.Table) × (t : G.Table) × (node_at G h js ≡ some q)
        × (h.cell q ≡ some m)
        × (m.children ≡ some t)
        × (child G h q k ≡ some p)
  parent_of js k p at =
      let (r, root, d) = node_at_root G h tree (js ++ k ∷ []) p at in
      let (q, d') = descend_prefix (child G h) r js (k ∷ []) p d in
      let at_q = node_at-descend G h r js root ∙ d' in
      let (m, live) = node_at_live G h tree js q at_q in
      let linked = sym (node_at-snoc G h tree js q k at_q) ∙ at in
      elim (Option-cases m.children) [
        | inl e ↦ cc (linked, child-live G h q k m live, child_of-none G m k e)
        | inr (t, e) ↦ (q, m, t, at_q, live, e, linked)
      ]

  -- A node is childless where no path through it leads anywhere.
  leaf_of_view :
      (ks : List CString) (p : ℕ)
      → node_at G h ks ≡ some p
      → ((j : CString) → view G h (ks ++ j ∷ []) ≡ none)
      → (j : CString) → child G h p j ≡ none
  leaf_of_view ks p at bare j =
      sym (node_at-snoc G h tree ks p j at) ∙ no_node_of_view G h tree (ks ++ j ∷ []) (bare j)

leaf-Deleted : (G : HashTable) (f : ℕ) → DeletesAt G f
leaf-Deleted G zero h p n ks tree live leaf at settled l = elim l [ ]
leaf-Deleted G (suc f) h p n ks tree live leaf at settled l = elim (snoc_cases ks) [
  | inl e ↦
      let (r, root, d) = node_at_root G h tree [] p (rw e at at) in
      let r_p : r ≡ p = unfold descend in ground arith in
      rw e (root-Deleted G f h tree p n live leaf settled (root ∙ ap some r_p))
  | inr (js, k, e) ↦
      let (q, m, t, at_q, live_q, table, linked) = parent_of G h tree js k p (rw e at at) in
      let (_, _, _, _, lt) = tree.children_live q k p linked in
      rw e (
        below-Deleted G f h tree q m t live_q table k p n live linked leaf js at_q settled
          (leaf-Deleted G f) (omega (arith, lt, l)))
]

-- The same, and that no node is made.
pub db_delete-next :
    (G : HashTable) (h : Heap G.Table) (ks : List CString) (o : Option (List ℕ))
    → IsTree G h
    → Settled h
    → IsPath ks
    → view G h ks ≡ some o
    → ((j : CString) → view G h (ks ++ j ∷ []) ≡ none)
    → (h' : Heap G.Table) × (db_delete G h (render ks) ≡ ok h')
      × IsTree G h'
      × Settled h'
      × Pruned (view G h') (view G h) ks
      × (h'.next ≡ h.next)
unfolding db_delete
db_delete-next G h ks o tree settled w there bare =
    let (p, at) = node_of_view G h tree ks there in
    let (n, live) = node_at_live G h tree ks p at in
    let below = tree.below_next p n live in
    let (h', done, d) =
      leaf-Deleted G (delete_fuel G h) h p n ks tree live (leaf_of_view G h tree ks p at bare) at
        (λ x a l e. settled x a e) (omega (arith, below)) in
    (
      h',
      rw (db_path_to_node-render G h tree ks w, at) done,
      d.tree,
      λ x a e. elim (Bool-cases (ltb p x)) [
        | inl b ↦ settled x a (sym (d.later x (ground (arith, b))) ∙ e)
        | inr b ↦ d.settled x a (ground (arith, b)) e
      ],
      d.shows,
      d.next_same,
    )

-- From a tree whose nodes are at rest, `db_delete` of a path that is there and has no path below it
-- does not fault and does not run out of fuel. It leaves such a tree. A client then sees the map
-- without that path, and without each path above it that has no bytes and is left without children,
-- up to the first that has bytes or another child, or up to the root; it sees no other change.
pub db_delete-Pruned :
    (G : HashTable) (h : Heap G.Table) (ks : List CString) (o : Option (List ℕ))
    → IsTree G h
    → Settled h
    → IsPath ks
    → view G h ks ≡ some o
    → ((j : CString) → view G h (ks ++ j ∷ []) ≡ none)
    → (h' : Heap G.Table) × (db_delete G h (render ks) ≡ ok h')
      × IsTree G h'
      × Settled h'
      × Pruned (view G h') (view G h) ks
db_delete-Pruned G h ks o tree settled w there bare =
    let (h', done, tree', settled', pruned, _) =
      db_delete-next G h ks o tree settled w there bare in
    (h', done, tree', settled', pruned)
