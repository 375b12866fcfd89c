-- ===== src/Database/Add/Root.antt =====
-- `db_add ("", NULL, 0)` where there is no root: the root is made, and the value goes to a second
-- node that nothing points to.
use apteryx.Prelude.{
  ℕ, suc, ◌+◌, List, [], ◌∷◌, ◌≡◌, refl, ap, sym, ◌∙◌, Option, none, some, ◌⊎◌, inl, inr, ◌==◌,
  if◌then◌else◌, ok, arith, Bool-cases,
}
use apteryx.CString.{CString}
use apteryx.Database.Table.{HashTable}
use apteryx.Database.Heap.{Heap, Node, alloc, fresh_node, set_cell}
use apteryx.Database.Walk.{db_path_to_node}
use apteryx.Database.Update.{db_node_add, link, db_parent_get, find_or_add, db_add_fuel}
use apteryx.Database.View.{IsTree, child, child_of, node_at, view, path_eq, descend}
use apteryx.Database.View.Descent.{descend-none}
use apteryx.Database.View.NewValue.{
  with_value, cell-with_value_ne, write_value-with_value, IsTree-with_value, node_at-with_value,
}
use apteryx.Database.View.Growth.{view-some, view-none, node_at-descend}

pub child-cell :
    (G : HashTable) (h h' : Heap G.Table) (x : ℕ) (k : CString) {o : Option (Node G.Table)}
    → h'.cell x ≡ o
    → child G h' x k ≡ child_of G o k
unfolding child
child-cell G h h' x k e = ap (λ c. child_of G c k) e

abbrev blank_node : {T : Type 0} → Node T
blank_node = fresh_node [] none

-- The root made, and the second node.
abbrev rooted : {T : Type 0} → Heap T → Heap T
rooted h = record (alloc h blank_node) { root = some h.next }

abbrev detached : {T : Type 0} → Heap T → Heap T
detached h = alloc (rooted h) blank_node

module _ (G : HashTable) (h : Heap G.Table) (tree : IsTree G h) where
  -- A node that nothing points to.
  alloc_cell :
      (x : ℕ) → (alloc h blank_node).cell x ≡ (if h.next == x then some blank_node else h.cell x)
  unfolding alloc set_cell
  alloc_cell x = refl

  next-alloc : (alloc h blank_node).next ≡ h.next + 1
  unfolding alloc
  next-alloc = refl

  root-alloc : (alloc h blank_node).root ≡ h.root
  unfolding alloc
  root-alloc = refl

  old_cell : (x : ℕ) (n : Node G.Table) → h.cell x ≡ some n → (alloc h blank_node).cell x ≡ some n
  old_cell x n e = alloc_cell x ∙ ground (arith, tree.below_next x n e, e)

  new_cell : (alloc h blank_node).cell h.next ≡ some blank_node
  new_cell = alloc_cell h.next ∙ ground arith

  blank_childless : (k : CString) → child_of G (some blank_node) k ≡ none
  unfolding child_of fresh_node
  blank_childless k = refl

  child-alloc :
      (x : ℕ) (k : CString) (c : ℕ)
      → child G (alloc h blank_node) x k ≡ some c
      → child G h x k ≡ some c
  child-alloc x k c e = elim (Bool-cases (h.next == x)) [
    | inl s ↦
        let here : (alloc h blank_node).cell x ≡ some blank_node = alloc_cell x ∙ rw s in
        cc (e, child-cell G h (alloc h blank_node) x k here, blank_childless k)
    | inr s ↦
        let here : (alloc h blank_node).cell x ≡ h.cell x = alloc_cell x ∙ rw s in
        child-cell G h h x k refl ∙ sym (child-cell G h (alloc h blank_node) x k here) ∙ e
  ]

  origin :
      (x : ℕ) (n : Node G.Table)
      → (alloc h blank_node).cell x ≡ some n
      → ((x ≡ h.next) × (n.value ≡ none)) ⊎ (h.cell x ≡ some n)
  unfolding fresh_node
  origin x n e =
      let e' = sym (alloc_cell x) ∙ e in
      elim (Bool-cases (h.next == x)) [
        | inl s ↦ inl (ground arith, ground (arith, e', s))
        | inr s ↦ inr (ground (arith, e', s))
      ]

  IsTree-alloc : IsTree G (alloc h blank_node)
  IsTree-alloc = record {
    children_live = λ x k c e.
        let (n, at, ke, pa, lt) = tree.children_live x k c (child-alloc x k c e) in
        (n, old_cell c n at, ke, pa, lt);
    root_live = λ r e.
        let (n, at, ke, pa) = tree.root_live r (sym root-alloc ∙ e) in (n, old_cell r n at, ke, pa);
    below_next = λ x n e. elim (origin x n e) [
      | inl (at, _) ↦ omega (arith, at, next-alloc)
      | inr at ↦ omega (arith, tree.below_next x n at, next-alloc)
    ];
    sized = λ x n v e w. elim (origin x n e) [
      | inl (_, empty) ↦ cc (empty, w)
      | inr at ↦ tree.sized x n v at w
    ];
  }

  IsTree-rooted : IsTree G (rooted h)
  unfolding fresh_node
  IsTree-rooted = record {
    children_live = unfold child in IsTree-alloc.children_live;
    root_live = λ r e.
        let here : h.next ≡ r = ground arith in (blank_node, rw (← here) new_cell, refl, refl);
    below_next = IsTree-alloc.below_next;
    sized = IsTree-alloc.sized;
  }

module _ (G : HashTable) (h : Heap G.Table) (tree : IsTree G h) (empty : h.root ≡ none) where
  tree₁ : IsTree G (rooted h)
  tree₁ = IsTree-rooted G h tree

  tree₂ : IsTree G (detached h)
  tree₂ = IsTree-alloc G (rooted h) tree₁

  fresh_live : (detached h).cell (rooted h).next ≡ some blank_node
  fresh_live = new_cell G (rooted h) tree₁

  root_live : (detached h).cell h.next ≡ some blank_node
  root_live = old_cell G (rooted h) tree₁ h.next blank_node (new_cell G h tree)

  pub made : List ℕ → Heap G.Table
  made v = with_value G (detached h) tree₂ (rooted h).next blank_node fresh_live v

  pub db_add_fuel-made : (f : ℕ) (v : List ℕ) → db_add_fuel G (suc f) h [] v ≡ ok (made v)
  unfolding db_add_fuel find_or_add db_path_to_node db_parent_get db_node_add link alloc made
  db_add_fuel-made f v =
      rw (empty, db_path_to_node)
        (write_value-with_value G (detached h) tree₂ (rooted h).next blank_node fresh_live v)

  pub IsTree-made : (v : List ℕ) → IsTree G (made v)
  unfolding made
  IsTree-made v = IsTree-with_value G (detached h) tree₂ (rooted h).next blank_node fresh_live v

  root-detached : (detached h).root ≡ some h.next
  unfolding alloc
  root-detached = refl

  node_at-made :
      (v : List ℕ) (js : List CString) → node_at G (made v) js ≡ node_at G (detached h) js
  unfolding made
  node_at-made v = node_at-with_value G (detached h) tree₂ (rooted h).next blank_node fresh_live v

  node_at-root : node_at G (detached h) [] ≡ some h.next
  node_at-root = node_at-descend G (detached h) h.next [] root-detached ∙ (unfold descend in refl)

  below_root : (k : CString) (js : List CString) → node_at G (detached h) (k ∷ js) ≡ none
  below_root k js =
      node_at-descend G (detached h) h.next (k ∷ js) root-detached
      ∙ descend-none (child G (detached h)) h.next k js
          (child-cell G h (detached h) h.next k root_live ∙ blank_childless G h tree k)

  cell-made : (v : List ℕ) → (made v).cell h.next ≡ some blank_node
  unfolding made
  cell-made v =
      cell-with_value_ne G (detached h) tree₂ (rooted h).next blank_node fresh_live v h.next
        (λ e. absurd (omega (arith, e, next-alloc G h tree)))
      ∙ root_live

  -- The view has the root, without a value, and nothing else.
  pub view-made :
      (v : List ℕ) (js : List CString)
      → view G (made v) js ≡ (if path_eq js [] then some none else none)
  unfolding path_eq
  view-made v [] =
      view-some G (made v) [] h.next blank_node (node_at-made v [] ∙ node_at-root) (cell-made v)
      ∙ (unfold fresh_node in refl)
  view-made v (k ∷ js) = view-none G (made v) (k ∷ js) (node_at-made v (k ∷ js) ∙ below_root k js)
