-- ===== src/Database/Remove/Freed.antt =====
-- The last part of `db_node_delete`: the memory of a node that no other node leads to is freed.
use apteryx.Prelude.{
  ℕ, List, [], ◌∷◌, ◌≡◌, ◌≢◌, refl, sym, fun_ext, ◌∙◌, Option, none, some, true, false, inl, inr,
  ◌==◌, if◌then◌else◌, ok, arith, Option-cases, Bool-cases, Elem, ap,
}
use apteryx.CString.{CString}
use apteryx.Database.Table.{HashTable}
use apteryx.Database.Heap.{Heap, Node, load-live, free, store, set_cell}
use apteryx.Database.Delete.{Deleter, destroy, finish, delete_each, forget_root}
use apteryx.Database.View.{IsTree, child, child_of, descend, node_at, value_of, view}
use apteryx.Database.View.Descent.{descend-none, descend-cons, descend_step}
use apteryx.Database.View.Reading.{child-live, child_of-some}
use apteryx.Database.View.Growth.{view-none, view-value_of, node_at-descend, node_at-none}

no_elements : (xs : List ℕ) → ((x : ℕ) → Elem x xs → [] ≡ (x ∷ [])) → xs ≡ []
no_elements [] f = refl
no_elements (x ∷ xs) f = absurd (cc (f x (inl refl)))

-- Functions that find the same children lead to the same nodes.
descend_same :
    (f f' : ℕ → CString → Option ℕ)
    → ((p : ℕ) (k : CString) → f p k ≡ f' p k)
    → (p : ℕ) (ks : List CString) → descend f p ks ≡ descend f' p ks
unfolding descend
descend_same f f' same p [] = refl
descend_same f f' same p (k ∷ ks) = elim (Option-cases (f' p k)) [
  | inl e ↦ descend-none f p k ks (same p k ∙ e) ∙ sym (descend-none f' p k ks e)
  | inr (c, e) ↦
      descend-cons f p k ks c (same p k ∙ e)
      ∙ descend_same f f' same c ks
      ∙ sym (descend-cons f' p k ks c e)
]

-- A descent does not end in a node that no other leads to.
avoids :
    (f : ℕ → CString → Option ℕ) (p : ℕ)
    → ((x : ℕ) (j : CString) → f x j ≢ some p)
    → (r : ℕ) (ks : List CString) (y : ℕ) → r ≢ p
    → descend f r ks ≡ some y
    → y ≢ p
unfolding descend
avoids f p alone r [] y ne d = λ e. ne (ground arith)
avoids f p alone r (k ∷ ks) y ne d =
    let (c, e, d') = descend_step f r k ks y d in
    avoids f p alone c ks y (λ s. alone r k (e ∙ ap some s)) d'

module _ (G : HashTable) where
  pub no_values : (t : G.Table) → ((k : CString) → G.lookup t k ≡ none) → G.get_values t ≡ []
  no_values t empty =
      no_elements (G.get_values t)
        (λ x e. let (k, found) = G.get_values_sound t x e in cc (found, empty k))

module _ (G : HashTable) (h : Heap G.Table) (p : ℕ) where
  unfoldable pub freed : Heap G.Table
  freed = free (forget_root G h p) p

  cell-forget_root : (forget_root G h p).cell ≡ h.cell
  unfolding forget_root
  cell-forget_root = elim (Option-cases h.root) [
    | inl e ↦ rw (e, forget_root)
    | inr (r, e) ↦ elim (Bool-cases (r == p)) [
      | inl s ↦ rw (e, forget_root, s)
      | inr s ↦ rw (e, forget_root, s)
    ]
  ]

  next-forget_root : (forget_root G h p).next ≡ h.next
  unfolding forget_root
  next-forget_root = elim (Option-cases h.root) [
    | inl e ↦ rw (e, forget_root)
    | inr (r, e) ↦ elim (Bool-cases (r == p)) [
      | inl s ↦ rw (e, forget_root, s)
      | inr s ↦ rw (e, forget_root, s)
    ]
  ]

  pub cell-freed : (x : ℕ) → freed.cell x ≡ (if p == x then none else h.cell x)
  unfolding freed free set_cell
  cell-freed x =
      ap (λ (f : ℕ → Option (Node G.Table)). if p == x then none else f x) cell-forget_root

  pub next-freed : freed.next ≡ h.next
  unfolding freed free
  next-freed = next-forget_root

  pub root-freed_ne : (r : ℕ) → h.root ≡ some r → r ≢ p → freed.root ≡ some r
  unfolding freed free forget_root
  root-freed_ne r e ne = let s : (r == p) ≡ false = ground (arith, ne) in rw (e, forget_root, s) e

  pub root-freed_self : h.root ≡ some p → freed.root ≡ none
  unfolding freed free forget_root
  root-freed_self e = let s : (p == p) ≡ true = ground arith in rw (e, forget_root, s)

  root-freed_none : h.root ≡ none → freed.root ≡ none
  unfolding freed free forget_root
  root-freed_none g = rw (g, forget_root) g

  root-freed : (r : ℕ) → freed.root ≡ some r → h.root ≡ some r
  root-freed r e = elim (Option-cases h.root) [
    | inl gone ↦ cc (e, root-freed_none gone, gone)
    | inr (r', e') ↦ elim (Bool-cases (r' == p)) [
      | inl s ↦ let r_p : r' ≡ p = ground arith in cc (e, root-freed_self (e' ∙ ap some r_p))
      | inr s ↦ let ne : r' ≢ p = ground arith in cc (e, e', root-freed_ne r' e' ne)
    ]
  ]

  module _ (n : Node G.Table) (live : h.cell p ≡ some n)
      (leaf : (j : CString) → child G h p j ≡ none) where
    pub destroy-freed : (del : Deleter G) → destroy G del p n.children h ≡ ok freed
    unfolding destroy freed delete_each
    destroy-freed del = elim (Option-cases n.children) [
      | inl e ↦ rw (e, destroy)
      | inr (t, e) ↦
          let empty =
            no_values G t
              (λ k. sym (child-live G h p k n live ∙ child_of-some G n k t e) ∙ leaf k) in
          rw (e, destroy, empty, delete_each, load-live h p n live)
    ]

    pub finish-freed : (del : Deleter G) → n.removing ≡ 1 → finish G del p h ≡ ok freed
    unfolding finish
    finish-freed del once = rw (load-live h p n live, once) (destroy-freed del)

  module _ (tree : IsTree G h) (n : Node G.Table) (live : h.cell p ≡ some n)
      (leaf : (j : CString) → child G h p j ≡ none)
      (alone : (x : ℕ) (j : CString) → child G h x j ≢ some p) where
    pub child-freed : (x : ℕ) (j : CString) → child G freed x j ≡ child G h x j
    unfolding child child_of
    child-freed x j = elim (Bool-cases (p == x)) [
      | inl s ↦
          let p_x : p ≡ x = ground arith in
          rw (cell-freed x, s) (ground (arith, leaf j, ap (λ y. child G h y j) p_x))
      | inr s ↦ rw (cell-freed x, s)
    ]

    still_live : (x : ℕ) (a : Node G.Table) → freed.cell x ≡ some a → h.cell x ≡ some a
    still_live x a e = ground (arith, e, cell-freed x)

    pub IsTree-freed : IsTree G freed
    IsTree-freed = record {
      children_live = λ x j c e.
          let linked = sym (child-freed x j) ∙ e in
          let (a, at, key, up, lt) = tree.children_live x j c linked in
          let c_ne : p ≢ c = λ s. alone x j (linked ∙ ap some (sym s)) in
          (a, cell-freed c ∙ ground (arith, c_ne, at), key, up, lt);
      root_live = λ r e.
          let (a, at, key, up) = tree.root_live r (root-freed r e) in
          let r_ne : p ≢ r = λ s. cc (e, root-freed_self (root-freed r e ∙ ap some (sym s))) in
          (a, cell-freed r ∙ ground (arith, r_ne, at), key, up);
      below_next = λ x a e. omega (arith, tree.below_next x a (still_live x a e), next-freed);
      sized = λ x a v e w. tree.sized x a v (still_live x a e) w;
    }

    node_at-freed :
        (r : ℕ) (is : List CString) → h.root ≡ some r → r ≢ p → node_at G freed is ≡ node_at G h is
    node_at-freed r is at ne =
        node_at-descend G freed r is (root-freed_ne r at ne)
        ∙ descend_same (child G freed) (child G h) child-freed r is
        ∙ sym (node_at-descend G h r is at)

    -- The others are seen as before.
    pub view-freed : h.root ≢ some p → (is : List CString) → view G freed is ≡ view G h is
    view-freed other is = elim (Option-cases h.root) [
      | inl none_h ↦
          view-none G freed is (node_at-none G freed is (root-freed_none none_h))
          ∙ sym (view-none G h is (node_at-none G h is none_h))
      | inr (r, at) ↦
          let ne : r ≢ p = λ s. other (at ∙ ap some s) in
          elim (Option-cases (node_at G h is)) [
            | inl e ↦ view-none G freed is (node_at-freed r is at ne ∙ e) ∙ sym (view-none G h is e)
            | inr (y, e) ↦
                let d = sym (node_at-descend G h r is at) ∙ e in
                let y_ne : p ≢ y = λ s. avoids (child G h) p alone r is y ne d (sym s) in
                view-value_of G freed is y (node_at-freed r is at ne ∙ e)
                ∙ ap (value_of G) (cell-freed y ∙ ground (arith, y_ne))
                ∙ sym (view-value_of G h is y e)
          ]
    ]

  pub view-rootless : h.root ≡ some p → (is : List CString) → view G freed is ≡ none
  view-rootless at is = view-none G freed is (node_at-none G freed is (root-freed_self at))

set_cell-twice :
    {T : Type 0} (f : ℕ → Option (Node T)) (p : ℕ) (c d : Option (Node T))
    → set_cell (set_cell f p c) p d ≡ set_cell f p d
unfolding set_cell
set_cell-twice f p c d = fun_ext (λ x. elim (Bool-cases (p == x)) [ inl s ↦ rw s | inr s ↦ rw s ])

-- What is written to a node before it is freed does not matter.
pub freed-store :
    (G : HashTable) (h : Heap G.Table) (p : ℕ) (a : Node G.Table)
    → freed G (store h p a) p ≡ freed G h p
unfolding freed free forget_root store
freed-store G h p a = elim (Option-cases h.root) [
  | inl e ↦
      rw (e, forget_root)
        (ap (λ (c : ℕ → Option (Node G.Table)). record h { cell = c })
          (set_cell-twice h.cell p (some a) none))
  | inr (r, e) ↦ elim (Bool-cases (r == p)) [
    | inl s ↦
        rw (e, forget_root, s)
          (ap (λ (c : ℕ → Option (Node G.Table)). record h { cell = c; root = none })
            (set_cell-twice h.cell p (some a) none))
    | inr s ↦
        rw (e, forget_root, s)
          (ap (λ (c : ℕ → Option (Node G.Table)). record h { cell = c })
            (set_cell-twice h.cell p (some a) none))
  ]
]
