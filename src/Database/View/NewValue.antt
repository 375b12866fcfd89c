-- ===== src/Database/View/NewValue.antt =====
-- The write of a node's value at the end of `db_add`: what the view shows after it.
use mathlib.Core.Path.{fun_ext}
use apteryx.Prelude.{
  ℕ, ◌<◌, List, ◌≡◌, ◌≢◌, refl, ap, sym, ◌∙◌, some, false, inl, inr, ◌==◌, if◌then◌else◌, ok, arith,
  Option-cases, Bool-cases, length,
}
use apteryx.CString.{CString}
use apteryx.Database.Table.{HashTable}
use apteryx.Database.Heap.{Heap, Node, load-live, store, set_cell}
use apteryx.Database.Update.{write_value}
use apteryx.Database.View.{IsTree, descend, child, child_of, node_at, value_of, view, path_eq}
use apteryx.Database.View.Keys.{path_eq_iff}
use apteryx.Database.View.NewNode.{node_at_unique}
use apteryx.Database.View.Growth.{view-none, view-value_of, node_at-descend, node_at-none}

module _ (G : HashTable) (h : Heap G.Table) (tree : IsTree G h) (p : ℕ) (n : Node G.Table)
    (live : h.cell p ≡ some n) (v : List ℕ) where
  valued : Node G.Table
  valued = record n { value = some v; length = length v }

  pub with_value : Heap G.Table
  with_value = store h p valued

  pub write_value-with_value : write_value G h p v ≡ ok with_value
  unfolding write_value with_value valued
  write_value-with_value = rw (load-live h p n live)

  cell-with_value : (x : ℕ) → with_value.cell x ≡ (if p == x then some valued else h.cell x)
  unfolding with_value store set_cell
  cell-with_value x = refl

  pub cell-with_value_ne : (x : ℕ) → p ≢ x → with_value.cell x ≡ h.cell x
  cell-with_value_ne x ne = cell-with_value x ∙ ground (arith, ne)

  child-with_value : (x : ℕ) (k : CString) → child G with_value x k ≡ child G h x k
  unfolding child child_of valued
  child-with_value x k = elim (Bool-cases (p == x)) [
    | inl e ↦
        let p_x : p ≡ x = ground arith in
        rw (cell-with_value x, e) (ground (arith, live, ap (λ y. h.cell y) p_x))
    | inr ne ↦ rw (cell-with_value x, ne)
  ]

  pub root-with_value : with_value.root ≡ h.root
  unfolding with_value store
  root-with_value = refl

  next-with_value : with_value.next ≡ h.next
  unfolding with_value store
  next-with_value = refl

  pub node_at-with_value : (ks : List CString) → node_at G with_value ks ≡ node_at G h ks
  node_at-with_value ks = elim (Option-cases h.root) [
    | inl e ↦ node_at-none G _ ks (root-with_value ∙ e) ∙ sym (node_at-none G h ks e)
    | inr (r, e) ↦
        let children : child G with_value ≡ child G h =
          fun_ext (λ x. fun_ext (λ k. child-with_value x k)) in
        node_at-descend G _ r ks (root-with_value ∙ e)
        ∙ ap (λ f. descend f r ks) children
        ∙ sym (node_at-descend G h r ks e)
  ]

  -- A node keeps its key and parent.
  survives :
      (x : ℕ) (m : Node G.Table)
      → h.cell x ≡ some m
      → (m' : Node G.Table) × (with_value.cell x ≡ some m')
        × (m'.key ≡ m.key)
        × (m'.parent ≡ m.parent)
  unfolding valued
  survives x m e = elim (Bool-cases (p == x)) [
    | inl s ↦
        let p_x : p ≡ x = ground arith in
        let n_m : n ≡ m = ground (arith, live, e, ap (λ y. h.cell y) p_x) in
        (
          valued,
          cell-with_value x ∙ rw s,
          ap (λ (y : Node G.Table). y.key) n_m,
          ap (λ (y : Node G.Table). y.parent) n_m,
        )
    | inr s ↦ (m, cell-with_value x ∙ ground (arith, s, e), refl, refl)
  ]

  below-with_value : (x : ℕ) (m : Node G.Table) → with_value.cell x ≡ some m → x < with_value.next
  below-with_value x m e =
      let e' = sym (cell-with_value x) ∙ e in
      elim (Bool-cases (p == x)) [
        | inl s ↦ ground (arith, tree.below_next p n live, next-with_value)
        | inr s ↦ ground (arith, tree.below_next x m, e', s, next-with_value)
      ]

  sized-with_value :
      (x : ℕ) (m : Node G.Table) (w : List ℕ)
      → with_value.cell x ≡ some m
      → m.value ≡ some w
      → m.length ≡ length w
  unfolding valued
  sized-with_value x m w e f =
      let e' = sym (cell-with_value x) ∙ e in
      elim (Bool-cases (p == x)) [
        | inl s ↦
            let m_v : valued ≡ m = ground (arith, e', s) in
            let w_v : v ≡ w = ground (arith, f, ap (λ (y : Node G.Table). y.value) m_v) in
            sym (ap (λ (y : Node G.Table). y.length) m_v) ∙ ap length w_v
        | inr s ↦ tree.sized x m w (ground (arith, e', s)) f
      ]

  -- The tree stays one.
  pub IsTree-with_value : IsTree G with_value
  IsTree-with_value = record {
    children_live = λ x k c e.
        let (m, at, ke, pa, lt) = tree.children_live x k c (sym (child-with_value x k) ∙ e) in
        let (m', at', ke', pa') = survives c m at in (m', at', ke' ∙ ke, pa' ∙ pa, lt);
    root_live = λ r e.
        let (m, at, ke, pa) = tree.root_live r (sym root-with_value ∙ e) in
        let (m', at', ke', pa') = survives r m at in (m', at', ke' ∙ ke, pa' ∙ pa);
    below_next = below-with_value;
    sized = sized-with_value;
  }

  value_of-with_value :
      (x : ℕ)
      → value_of G (with_value.cell x) ≡ (if p == x then some (some v) else value_of G (h.cell x))
  unfolding value_of valued
  value_of-with_value x = elim (Bool-cases (p == x)) [
    | inl s ↦ rw (cell-with_value x, s)
    | inr s ↦ rw (cell-with_value x, s)
  ]

  -- The paths of the node written: only the one that was meant.
  same_node :
      (ks : List CString)
      → node_at G h ks ≡ some p
      → (js : List CString) (y : ℕ) → node_at G h js ≡ some y
      → (if p == y then some (some v) else value_of G (h.cell y))
        ≡ (if path_eq js ks then some (some v) else value_of G (h.cell y))
  same_node ks at js y d = elim (Bool-cases (path_eq js ks)) [
    | inl same ↦
        let p_y : p ≡ y = ground (arith, at, d, ap (node_at G h) ((path_eq_iff js ks).0 same)) in
        rw same (ground arith)
    | inr other ↦ elim (Bool-cases (p == y)) [
      | inl s ↦
          let p_y : p ≡ y = ground arith in
          let e = node_at_unique G h tree js ks y d (at ∙ ap some p_y) in
          cc (other, (path_eq_iff js ks).1 e)
      | inr s ↦ rw (other, s)
    ]
  ]

  pub view-with_value :
      (ks : List CString)
      → node_at G h ks ≡ some p
      → (js : List CString)
      → view G with_value js ≡ (if path_eq js ks then some (some v) else view G h js)
  view-with_value ks at js = elim (Option-cases (node_at G h js)) [
    | inl gone ↦
        let other : path_eq js ks ≡ false =
          ground (arith, (path_eq_iff js ks).0, at, gone, ap (node_at G h) {x = js} {y = ks}) in
        rw (view-none G _ js (node_at-with_value js ∙ gone), view-none G h js gone, other)
    | inr (y, d) ↦
        rw
          (
            view-value_of G _ js y (node_at-with_value js ∙ d),
            view-value_of G h js y d,
            value_of-with_value y,
          )
          (same_node ks at js y d)
  ]
