-- ===== src/Database/View/NewNode.antt =====
-- `db_node_add` below a live node: the tree that it leaves.
use apteryx.Prelude.{
  ℕ, ◌+◌, ◌<◌, List, ◌≡◌, ◌≢◌, refl, ap, sym, ◌∙◌, Option, none, some, ◌⊎◌, inl, inr, ◌==◌, ◌&&◌,
  if◌then◌else◌, ok, arith, Option-cases, Bool-cases,
}
use apteryx.CString.{CString, strcmp_eq}
use apteryx.CString.Laws.{strcmp_eq_iff}
use apteryx.Database.Table.{HashTable}
use apteryx.Database.Heap.{Heap, Node, load-live, store, alloc, fresh_node, set_cell}
use apteryx.Database.Update.{db_node_add, link, table_or_new}
use apteryx.Database.View.{IsTree, child, child_of, node_at}
use apteryx.Database.View.Descent.{descend_unique}
use apteryx.Database.View.Reading.{child-live, node_at_root}

module _ (G : HashTable) (h : Heap G.Table) (q : ℕ) (m : Node G.Table) (key : CString) where
  -- The parent, with the new node in its table.
  unfoldable pub grown : Node G.Table
  unfolding table_or_new
  grown = record m { children = some (G.insert (table_or_new G m.children) key h.next) }

  unfoldable pub with_node : Heap G.Table
  unfolding grown
  with_node = store (alloc h (fresh_node key (some q))) q grown

module _ (G : HashTable) (h : Heap G.Table) (tree : IsTree G h) (q : ℕ) (m : Node G.Table)
    (live : h.cell q ≡ some m) (key : CString) where
  q-lt-next : q < h.next
  q-lt-next = tree.below_next q m live

  alloc-cell : (alloc h (fresh_node key (some q))).cell q ≡ some m
  unfolding alloc set_cell
  alloc-cell = ground (arith, q-lt-next, live)

  pub db_node_add-with_node : db_node_add G h (some q) key ≡ ok (h.next, with_node G h q m key)
  unfolding db_node_add link with_node grown
  db_node_add-with_node = rw (load-live (alloc h (fresh_node key (some q))) q m alloc-cell)

  pub cell-with_node :
      (p : ℕ)
      → (with_node G h q m key).cell p ≡ (
          if q == p
          then some (grown G h q m key)
          else (if h.next == p then some (fresh_node key (some q)) else h.cell p))
  unfolding with_node store alloc set_cell
  cell-with_node p = refl

  next_dead : h.cell h.next ≡ none
  next_dead = elim (Option-cases (h.cell h.next)) [
    | inl e ↦ e
    | inr (n, e) ↦ absurd (omega (arith, tree.below_next h.next n e))
  ]

  table_or_new-lookup :
      (k : CString) → G.lookup (table_or_new G m.children) k ≡ child_of G (some m) k
  unfolding table_or_new child_of
  table_or_new-lookup k = ground (arith, G.lookup-new k)

  child_of-grown :
      (k : CString)
      → child_of G (some (grown G h q m key)) k
        ≡ (if strcmp_eq key k then some h.next else child_of G (some m) k)
  unfolding child_of grown
  child_of-grown k =
      G.lookup-insert (table_or_new G m.children) key h.next k
      ∙ ap (λ o. if strcmp_eq key k then some h.next else o) (table_or_new-lookup k)

  child_of-fresh : (k : CString) → child_of G (some (fresh_node key (some q))) k ≡ none
  unfolding child_of fresh_node
  child_of-fresh k = refl

  pub next-childless : (k : CString) → child G h h.next k ≡ none
  unfolding child child_of
  next-childless k = rw (next_dead, child_of)

  -- The only child more is the new node.
  pub child-with_node :
      (p : ℕ) (k : CString)
      → child G (with_node G h q m key) p k
        ≡ (if p == q && strcmp_eq key k then some h.next else child G h p k)
  unfolding child
  child-with_node p k =
      let cell = cell-with_node p in
      elim (Bool-cases (q == p)) [
        | inl e ↦
            let q_p : q ≡ p = ground arith in
            rw (cell, e, child_of-grown k)
              (ground (arith, child-live G h q k m live, q_p, ap (λ x. child G h x k) q_p))
        | inr ne ↦ elim (Bool-cases (h.next == p)) [
          | inl e ↦
              let n_p : h.next ≡ p = ground arith in
              rw (cell, ne, e, child_of-fresh k)
                (ground (arith, next-childless k, ap (λ x. child G h x k) n_p))
          | inr ne' ↦ rw (cell, ne, ne') (ground arith)
        ]
      ]

  -- A node of the old tree is a node of the new one, with its key, parent, value and length.
  pub survives :
      (p : ℕ) (n : Node G.Table)
      → h.cell p ≡ some n
      → (n' : Node G.Table) × ((with_node G h q m key).cell p ≡ some n')
        × (n'.key ≡ n.key)
        × (n'.parent ≡ n.parent)
        × (n'.value ≡ n.value)
        × (n'.length ≡ n.length)
  unfolding grown
  survives p n e =
      let cell = cell-with_node p in
      let lt = tree.below_next p n e in
      elim (Bool-cases (q == p)) [
        | inl s ↦
            let q_p : q ≡ p = ground arith in
            let m_n : m ≡ n = ground (arith, live, e, ap (λ x. h.cell x) q_p) in
            (
              grown G h q m key,
              cell ∙ rw s,
              ap (λ (x : Node G.Table). x.key) m_n,
              ap (λ (x : Node G.Table). x.parent) m_n,
              ap (λ (x : Node G.Table). x.value) m_n,
              ap (λ (x : Node G.Table). x.length) m_n,
            )
        | inr s ↦ (n, cell ∙ ground (arith, s, lt, e), refl, refl, refl, refl)
      ]

  pub new_cell : (with_node G h q m key).cell h.next ≡ some (fresh_node key (some q))
  new_cell = cell-with_node h.next ∙ ground (arith, q-lt-next)

  -- Each node of the new tree is the new one or an old one.
  origin :
      (p : ℕ) (n' : Node G.Table)
      → (with_node G h q m key).cell p ≡ some n'
      → ((p ≡ h.next) × (n'.value ≡ none))
        ⊎ ((n : Node G.Table) × (h.cell p ≡ some n) × (n'.value ≡ n.value) × (n'.length ≡ n.length))
  unfolding grown fresh_node
  origin p n' e =
      let e' = sym (cell-with_node p) ∙ e in
      elim (Bool-cases (q == p)) [
        | inl s ↦
            let q_p : q ≡ p = ground arith in
            inr (
              m,
              ground (arith, live, ap (λ x. h.cell x) q_p),
              ground (arith, e', s),
              ground (arith, e', s),
            )
        | inr s ↦ elim (Bool-cases (h.next == p)) [
          | inl t ↦ inl (ground arith, ground (arith, e', s, t))
          | inr t ↦ inr (n', ground (arith, e', s, t), refl, refl)
        ]
      ]

  pub root-with_node : (with_node G h q m key).root ≡ h.root
  unfolding with_node store alloc
  root-with_node = refl

  next-with_node : (with_node G h q m key).next ≡ h.next + 1
  unfolding with_node store alloc
  next-with_node = refl

  children-with_node :
      (p : ℕ) (k : CString) (c : ℕ)
      → child G (with_node G h q m key) p k ≡ some c
      → (n : Node G.Table) × ((with_node G h q m key).cell c ≡ some n)
        × (n.key ≡ k)
        × (n.parent ≡ some p)
        × (p < c)
  children-with_node p k c e =
      let e' = sym (child-with_node p k) ∙ e in
      elim (Bool-cases (p == q && strcmp_eq key k)) [
        | inl hit ↦
            let facts : (p ≡ q) × (key ≡ k) × (h.next ≡ c) =
              ground (arith, e', hit, strcmp_eq_iff key k) in
            (
              fresh_node key (some q),
              rw (← facts.2) new_cell,
              unfold fresh_node in facts.1,
              unfold fresh_node in ap some (sym facts.0),
              omega (arith, facts.0, facts.2, q-lt-next),
            )
        | inr miss ↦
            let (n, e'', k', p', lt) = tree.children_live p k c (ground (arith, e', miss)) in
            let (n', at, ke, pa, _, _) = survives c n e'' in (n', at, ke ∙ k', pa ∙ p', lt)
      ]

  -- The tree stays one.
  pub IsTree-with_node : IsTree G (with_node G h q m key)
  IsTree-with_node = record {
    children_live = children-with_node;
    root_live = λ r e.
        let (n, at, k, p) = tree.root_live r (sym root-with_node ∙ e) in
        let (n', at', k', p', _, _) = survives r n at in (n', at', k' ∙ k, p' ∙ p);
    below_next = λ p n e. elim (origin p n e) [
      | inl (at, _) ↦ omega (arith, at, next-with_node)
      | inr (n', e', _, _) ↦ omega (arith, tree.below_next p n' e', next-with_node)
    ];
    sized = λ p n v e w. elim (origin p n e) [
      | inl (_, empty) ↦ cc (empty, w)
      | inr (n', e', same, len) ↦ len ∙ tree.sized p n' v e' (sym same ∙ w)
    ];
  }

  pub leaf-ne : h.next ≢ q
  leaf-ne e = absurd (omega (arith, q-lt-next, e))

module _ (G : HashTable) (h : Heap G.Table) (tree : IsTree G h) where
  abbrev up_of : Option (Node G.Table) → Option (CString × ℕ)
  up_of none = none
  up_of (some n) = elim n.parent [ none ↦ none | some q ↦ some (n.key, q) ]

  child_up :
      (p : ℕ) (k : CString) (c : ℕ)
      → child G h p k ≡ some c
      → (up_of (h.cell c) ≡ some (k, p)) × (p < c)
  child_up p k c e = let (n, at, ke, pa, lt) = tree.children_live p k c e in (rw (at, pa, ke), lt)

  -- A node has one path.
  pub node_at_unique :
      (js ks : List CString) (y : ℕ) → node_at G h js ≡ some y → node_at G h ks ≡ some y → js ≡ ks
  node_at_unique js ks y d e =
      let (r, at, d') = node_at_root G h tree js y d in
      let (r', at', e') = node_at_root G h tree ks y e in
      let (n, live, _, top) = tree.root_live r at in
      let r_r : r' ≡ r = ground arith in
      descend_unique (child G h) (λ p. up_of (h.cell p)) child_up r (rw (live, top)) js ks y d'
        (rw r_r at e')
