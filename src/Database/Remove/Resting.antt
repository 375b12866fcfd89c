-- ===== src/Database/Remove/Resting.antt =====
-- `db_add` leaves its nodes at rest.
use apteryx.Prelude.{
  ℕ, zero, suc, ◌≡◌, List, [], ◌∷◌, Option, none, some, inl, inr, Result, ok, ◌>>=◌, ◌==◌,
  >>=-split, Option-cases, Bool-cases, arith, refl, subst, length,
}
use apteryx.CString.{CString}
use apteryx.Database.Table.{HashTable}
use apteryx.Database.Heap.{Heap, Node, load, deref, store, alloc, fresh_node, set_cell}
use apteryx.Database.Walk.{db_path_to_node}
use apteryx.Database.Walk.Tokens.{parent_path, last_key}
use apteryx.Database.Update.{
  link, db_node_add, db_parent_get, find_or_add, write_value, db_add_fuel, db_add, table_or_new,
}
use apteryx.Database.Remove.{IsSettled, Settled}

module _ {T : Type 0} where
  store-Settled :
      (h : Heap T) (p : ℕ) (n : Node T) → Settled h → IsSettled n → Settled (store h p n)
  unfolding store set_cell
  store-Settled h p n s c x a e = elim (Bool-cases (p == x)) [
    | inl at ↦ let same : n ≡ a = ground (arith, e, at) in subst IsSettled same c
    | inr at ↦ s x a (ground (arith, e, at))
  ]

  alloc-Settled :
      (h : Heap T) (key : CString) (parent : Option ℕ)
      → Settled h
      → Settled (alloc h (fresh_node key parent))
  unfolding alloc set_cell fresh_node
  alloc-Settled h key parent s x a e = elim (Bool-cases (h.next == x)) [
    | inl at ↦
        let same : fresh_node key parent ≡ a = ground (arith, e, at) in
        subst IsSettled same (refl, λ _. refl)
    | inr at ↦ s x a (ground (arith, e, at))
  ]

  load-cell : (h : Heap T) (p : ℕ) (n : Node T) → load h p ≡ ok n → h.cell p ≡ some n
  unfolding load deref
  load-cell h p n e = elim (Option-cases (h.cell p)) [
    | inl gone ↦ cc (rw (gone, deref) at e)
    | inr (n', there) ↦ ground (arith, rw (there, deref) at e, there)
  ]

module _ (G : HashTable) where
  abbrev H : Type 0
  H = Heap G.Table

  link-Settled :
      (h : H) (parent : Option ℕ) (key : CString) (p : ℕ) (h' : H)
      → Settled h
      → link G h parent key p ≡ ok h'
      → Settled h'
  unfolding link
  link-Settled h none key p h' s e = let same : h ≡ h' = ground (arith, e) in rw (← same) s
  link-Settled h (some q) key p h' s e =
      let (n, loaded, stored) = >>=-split (load h q) _ e in
      let live = load-cell h q n loaded in
      let same : store h q
            (record n { children = some (G.insert (table_or_new G n.children) key p) })
          ≡ h' =
        ground (arith, stored) in
      subst Settled same (store-Settled h q _ s (s q n live))

  db_node_add-Settled :
      (h : H) (parent : Option ℕ) (key : CString) (p : ℕ) (h' : H)
      → Settled h
      → db_node_add G h parent key ≡ ok (p, h')
      → Settled h'
  unfolding db_node_add
  db_node_add-Settled h parent key p h' s e =
      let (h₁, linked, done) =
        >>=-split (link G (alloc h (fresh_node key parent)) parent key h.next) _ e in
      let same : h₁ ≡ h' = ground (arith, done) in
      subst Settled same (
        link-Settled (alloc h (fresh_node key parent)) parent key h.next h₁
          (alloc-Settled h key parent s) linked)

  -- The recursive call of `db_add`, as an argument.
  abbrev KeepsSettled : (H → CString → Result H) → Type 0
  KeepsSettled add = (h : H) (path : CString) (h' : H) → Settled h → add h path ≡ ok h' → Settled h'

  db_parent_get-Settled :
      (add : H → CString → Result H)
      → KeepsSettled add
      → (h : H) (path : CString) (parent : Option ℕ) (h' : H) → Settled h
      → db_parent_get G add h path ≡ ok (parent, h')
      → Settled h'
  unfolding db_parent_get
  db_parent_get-Settled add keeps h [] parent h' s e =
      let ((p, h₁), made, done) =
        >>=-split {b = (parent, h')} (db_node_add G h none [])
          (λ (p, h₁). ok (none, record h₁ { root = some p })) e in
      let same : record h₁ { root = some p } ≡ h' = ground (arith, done) in
      subst Settled same (db_node_add-Settled h none [] p h₁ s made)
  db_parent_get-Settled add keeps h (c ∷ path) parent h' s e =
      let (found, _, e') = >>=-split (db_path_to_node G h (parent_path (c ∷ path))) _ e in
      from found e'
    where
      from :
          (found : Option ℕ)
          → ◌≡◌ {A = Result (Option ℕ × H)}
              (elim found [
                | some q ↦ ok (some q, h)
                | none ↦ add h (parent_path (c ∷ path)) >>= λ h₁.
                    db_path_to_node G h₁ (parent_path (c ∷ path)) >>= λ node. ok (node, h₁)
              ])
              (ok (parent, h'))
          → Settled h'
      from (some q) e = let same : h ≡ h' = ground (arith, e) in subst Settled same s
      from none e =
          let (h₁, added, e₁) = >>=-split (add h (parent_path (c ∷ path))) _ e in
          let (node, _, e₂) = >>=-split (db_path_to_node G h₁ (parent_path (c ∷ path))) _ e₁ in
          let same : h₁ ≡ h' = ground (arith, e₂) in
          subst Settled same (keeps h (parent_path (c ∷ path)) h₁ s added)

  find_or_add-Settled :
      (add : H → CString → Result H)
      → KeepsSettled add
      → (h : H) (path : CString) (p : ℕ) (h' : H) → Settled h
      → find_or_add G add h path ≡ ok (p, h')
      → Settled h'
  unfolding find_or_add
  find_or_add-Settled add keeps h path p h' s e =
      let (found, _, e') = >>=-split (db_path_to_node G h path) _ e in from found e'
    where
      from :
          (found : Option ℕ)
          → (elim found [
            | some q ↦ ok (q, h)
            | none ↦ db_parent_get G add h path >>= λ (parent, h₁).
                db_node_add G h₁ parent (last_key path)
          ])
            ≡ ok (p, h')
          → Settled h'
      from (some q) e = let same : h ≡ h' = ground (arith, e) in subst Settled same s
      from none e =
          let ((parent, h₁), got, e₁) = >>=-split (db_parent_get G add h path) _ e in
          db_node_add-Settled h₁ parent (last_key path) p h'
            (db_parent_get-Settled add keeps h path parent h₁ s got) e₁

  write_value-Settled :
      (h : H) (p : ℕ) (v : List ℕ) (h' : H) → Settled h → write_value G h p v ≡ ok h' → Settled h'
  unfolding write_value
  write_value-Settled h p v h' s e =
      let (n, loaded, stored) = >>=-split (load h p) _ e in
      let (zeroed, _) = s p n (load-cell h p n loaded) in
      let same : store h p (record n { value = some v; length = length v }) ≡ h' =
        ground (arith, stored) in
      subst Settled same (store-Settled h p _ s (zeroed, λ e. cc e))

  db_add_fuel-Settled :
      (f : ℕ) (h : H) (path : CString) (v : List ℕ) (h' : H)
      → Settled h
      → db_add_fuel G f h path v ≡ ok h'
      → Settled h'
  unfolding db_add_fuel
  db_add_fuel-Settled zero h path v h' s e = cc e
  db_add_fuel-Settled (suc f) h path v h' s e =
      let ((p, h₁), made, written) =
        >>=-split (find_or_add G (λ h₀ parent. db_add_fuel G f h₀ parent []) h path) _ e in
      write_value-Settled h₁ p v h'
        (find_or_add-Settled (λ h₀ parent. db_add_fuel G f h₀ parent [])
          (λ h₀ parent h₂ s₀ e₀. db_add_fuel-Settled f h₀ parent [] h₂ s₀ e₀) h path p h₁ s made)
        written

  pub db_add-Settled :
      (h : H) (path : CString) (v : List ℕ) (h' : H)
      → Settled h
      → db_add G h path v ≡ ok h'
      → Settled h'
  unfolding db_add
  db_add-Settled h path v h' s e = db_add_fuel-Settled (suc (length path)) h path v h' s e
