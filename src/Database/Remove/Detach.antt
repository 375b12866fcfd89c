-- ===== src/Database/Remove/Detach.antt =====
-- The first part of `db_node_delete`: the node is marked and taken out of its parent's table.
use apteryx.Prelude.{
  ℕ, ◌+◌, ◌%◌, ◌^◌, ◌<◌, ◌≡◌, ◌≢◌, refl, ap, sym, ◌∙◌, none, some, ◌&&◌, inl, inr, ◌==◌,
  if◌then◌else◌, ok, arith, Option-cases, Bool-cases,
}
use apteryx.CString.{CString, strcmp_eq}
use apteryx.CString.Laws.{strcmp_eq_iff, strcmp_eq_refl}
use apteryx.Database.Table.{HashTable}
use apteryx.Database.Heap.{Heap, Node, load-live, store, set_cell}
use apteryx.Database.Delete.{Deleter, unlink}
use apteryx.Database.View.{IsTree, child, child_of}
use apteryx.Database.View.Reading.{child-live, child_of-some}

unfoldable pub marked : {T : Type 0} → Node T → Node T
marked n = record n { removing = (n.removing + 1) % 2 ^ 32 }

pub child_of-marked :
    (G : HashTable) (n : Node G.Table) (j : CString)
    → child_of G (some (marked n)) j ≡ child_of G (some n) j
unfolding child_of marked
child_of-marked G n j = refl

module _ (G : HashTable) (h : Heap G.Table) (q : ℕ) (m : Node G.Table) (t : G.Table) (k : CString)
    (p : ℕ) (n : Node G.Table) where
  -- The parent, without the child.
  unfoldable pub cut : Node G.Table
  cut = record m { children = some (G.remove t k) }

  unfoldable pub detached : Heap G.Table
  unfolding cut marked
  detached = store (store h p (marked n)) q cut

module _ (G : HashTable) (h : Heap G.Table) (tree : IsTree G h) (q : ℕ) (m : Node G.Table)
    (t : G.Table) (live_q : h.cell q ≡ some m) (table : m.children ≡ some t) (k : CString) (p : ℕ)
    (n : Node G.Table) (live : h.cell p ≡ some n) (linked : child G h q k ≡ some p) where
  abbrev out : Heap G.Table
  out = detached G h q m t k p n

  pub q-lt-p : q < p
  q-lt-p = let (_, _, _, _, lt) = tree.children_live q k p linked in lt

  pub cell-detached :
      (x : ℕ)
      → out.cell x ≡ (
          if q == x
          then some (cut G h q m t k p n)
          else (if p == x then some (marked n) else h.cell x))
  unfolding detached store set_cell
  cell-detached x = refl

  pub cell-detached_ne : (x : ℕ) → q ≢ x → p ≢ x → out.cell x ≡ h.cell x
  cell-detached_ne x a b = cell-detached x ∙ ground (arith, a, b)

  pub cell-detached_self : out.cell p ≡ some (marked n)
  cell-detached_self = cell-detached p ∙ ground (arith, q-lt-p)

  pub root-detached : out.root ≡ h.root
  unfolding detached store
  root-detached = refl

  pub next-detached : out.next ≡ h.next
  unfolding detached store
  next-detached = refl

  at_parent : (store h p (marked n)).cell q ≡ some m
  unfolding store set_cell
  at_parent = ground (arith, q-lt-p, live_q)

  pub unlink-detached :
      (del : Deleter G)
      → unlink G del (some q) k (store h p (marked n))
        ≡ (if G.size (G.remove t k) == 0 && m.length == 0 then del q out else ok out)
  unfolding unlink detached cut
  unlink-detached del = rw (load-live (store h p (marked n)) q m at_parent, table)

  -- A node keeps what the tree and its view are about.
  pub survives :
      (x : ℕ) (a : Node G.Table)
      → h.cell x ≡ some a
      → (a' : Node G.Table) × (out.cell x ≡ some a')
        × (a'.key ≡ a.key)
        × (a'.parent ≡ a.parent)
        × (a'.value ≡ a.value)
        × (a'.length ≡ a.length)
  unfolding cut marked
  survives x a e = elim (Bool-cases (q == x)) [
    | inl s ↦
        let q_x : q ≡ x = ground arith in
        let m_a : m ≡ a = ground (arith, live_q, e, ap (λ y. h.cell y) q_x) in
        (
          cut G h q m t k p n,
          cell-detached x ∙ rw s,
          ap (λ (y : Node G.Table). y.key) m_a,
          ap (λ (y : Node G.Table). y.parent) m_a,
          ap (λ (y : Node G.Table). y.value) m_a,
          ap (λ (y : Node G.Table). y.length) m_a,
        )
    | inr s ↦ elim (Bool-cases (p == x)) [
      | inl s' ↦
          let p_x : p ≡ x = ground arith in
          let n_a : n ≡ a = ground (arith, live, e, ap (λ y. h.cell y) p_x) in
          (
            marked n,
            cell-detached x ∙ rw (s, s'),
            ap (λ (y : Node G.Table). y.key) n_a,
            ap (λ (y : Node G.Table). y.parent) n_a,
            ap (λ (y : Node G.Table). y.value) n_a,
            ap (λ (y : Node G.Table). y.length) n_a,
          )
      | inr s' ↦ (a, cell-detached x ∙ rw (s, s') e, refl, refl, refl, refl)
    ]
  ]

  -- And nothing else is there.
  pub survivor :
      (x : ℕ) (a' : Node G.Table)
      → out.cell x ≡ some a'
      → (a : Node G.Table) × (h.cell x ≡ some a) × (a'.value ≡ a.value) × (a'.length ≡ a.length)
  survivor x a' e = elim (Option-cases (h.cell x)) [
    | inl gone ↦
        let q_ne : q ≢ x = λ s. cc (live_q, gone, s) in
        let p_ne : p ≢ x = λ s. cc (live, gone, s) in cc (e, cell-detached_ne x q_ne p_ne, gone)
    | inr (a, there) ↦
        let (a'', e', _, _, v, l) = survives x a there in
        let same : a' ≡ a'' = ground (arith, e, e') in
        (
          a,
          there,
          ap (λ (y : Node G.Table). y.value) same ∙ v,
          ap (λ (y : Node G.Table). y.length) same ∙ l,
        )
  ]

  child_of-cut :
      (j : CString)
      → child_of G (some (cut G h q m t k p n)) j ≡ (if strcmp_eq k j then none else G.lookup t j)
  unfolding child_of cut
  child_of-cut j = G.lookup-remove t k j

  pub child-detached :
      (x : ℕ) (j : CString)
      → child G out x j ≡ (if x == q && strcmp_eq k j then none else child G h x j)
  unfolding child
  child-detached x j =
      let cell = cell-detached x in
      elim (Bool-cases (q == x)) [
        | inl e ↦
            let q_x : q ≡ x = ground arith in
            rw (cell, e, child_of-cut j)
              (ground (
                arith,
                q_x,
                child-live G h q j m live_q,
                child_of-some G m j t table,
                ap (λ y. child G h y j) q_x,
              ))
        | inr ne ↦ elim (Bool-cases (p == x)) [
          | inl e ↦
              let p_x : p ≡ x = ground arith in
              rw (cell, ne, e, child_of-marked G n j)
                (ground (arith, child-live G h p j n live, q-lt-p, ap (λ y. child G h y j) p_x))
          | inr ne' ↦ rw (cell, ne, ne') (ground arith)
        ]
      ]

  pub IsTree-detached : IsTree G out
  IsTree-detached = record {
    children_live = λ x j c e.
        let (a, at, key, up, lt) =
          tree.children_live x j c (ground (arith, e, child-detached x j)) in
        let (a', at', key', up', _, _) = survives c a at in (a', at', key' ∙ key, up' ∙ up, lt);
    root_live = λ r e.
        let (a, at, key, up) = tree.root_live r (sym root-detached ∙ e) in
        let (a', at', key', up', _, _) = survives r a at in (a', at', key' ∙ key, up' ∙ up);
    below_next = λ x a' e.
        let (a, at, _, _) = survivor x a' e in omega (arith, tree.below_next x a at, next-detached);
    sized = λ x a' v e w.
        let (a, at, same, len) = survivor x a' e in len ∙ tree.sized x a v at (sym same ∙ w);
  }

  pub linked_gone : child G out q k ≡ none
  linked_gone = ground (arith, child-detached q k, strcmp_eq_refl k)

  pub child-back :
      (x : ℕ) (j : CString)
      → child G h x j ≡ (if x == q && strcmp_eq k j then some p else child G out x j)
  child-back x j = ground (
    arith,
    child-detached x j,
    linked,
    strcmp_eq_iff k j,
    ap (child G h q) {x = k} {y = j},
    ap (λ y. child G h y j) {x = q} {y = x},
  )
