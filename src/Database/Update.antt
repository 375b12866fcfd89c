-- ===== src/Database/Update.antt =====
-- database.c: the operations that build the tree.
use apteryx.Prelude.{
  ℕ, zero, suc, List, [], ◌∷◌, Option, none, some, Result, ok, fault, stack_overflow, ◌>>=◌, length,
}
use apteryx.CString.{CString}
use apteryx.Database.Table.{HashTable}
use apteryx.Database.Heap.{Heap, load, store, alloc, fresh_node}
use apteryx.Database.Walk.{db_path_to_node}
use apteryx.Database.Walk.Tokens.{parent_path, last_key}

module _ (G : HashTable) where
  open G use {Table, new, insert}

  unfoldable pub table_or_new : Option Table → Table
  table_or_new none = new
  table_or_new (some t) = t

  unfoldable pub link : Heap Table → Option ℕ → CString → ℕ → Result (Heap Table)
  unfolding table_or_new
  link h none key p = ok h
  link h (some q) key p = do
    n ← load h q
    ok (store h q (record n { children = some (insert (table_or_new n.children) key p) }))

  -- The node that is made, and the memory.
  unfoldable pub db_node_add : Heap Table → Option ℕ → CString → Result (ℕ × Heap Table)
  unfolding link alloc fresh_node
  db_node_add h parent key = do
    h' ← link (alloc h (fresh_node key parent)) parent key h.next
    ok (h.next, h')

  unfoldable pub db_init : Heap Table → Result (Heap Table)
  unfolding db_node_add
  db_init h = elim h.root [
    | some r ↦ ok h
    | none ↦ do (p, h') ← db_node_add h none []; ok (record h' { root = some p })
  ]

  -- The call of `db_add (parent, NULL, 0)` is an argument, since the two functions call each other.
  unfoldable pub db_parent_get :
      (Heap Table → CString → Result (Heap Table))
      → Heap Table
      → CString
      → Result (Option ℕ × Heap Table)
  unfolding db_node_add parent_path
  db_parent_get add h [] = do
    (p, h') ← db_node_add h none []
    ok (none, record h' { root = some p })
  db_parent_get add h (c ∷ s) = do
    found ← db_path_to_node G h (parent_path (c ∷ s))
    elim found [
      | some q ↦ ok (some q, h)
      | none ↦ do
        h' ← add h (parent_path (c ∷ s))
        node ← db_path_to_node G h' (parent_path (c ∷ s))
        ok (node, h')
    ]

  -- `new_value`: the node at the path, or a new one below its parent.
  unfoldable pub find_or_add :
      (Heap Table → CString → Result (Heap Table)) → Heap Table → CString → Result (ℕ × Heap Table)
  unfolding db_parent_get db_node_add last_key
  find_or_add add h path = do
    found ← db_path_to_node G h path
    elim found [
      | some p ↦ ok (p, h)
      | none ↦ do (parent, h') ← db_parent_get add h path; db_node_add h' parent (last_key path)
    ]

  unfoldable pub write_value : Heap Table → ℕ → List ℕ → Result (Heap Table)
  write_value h p value = do
    n ← load h p
    ok (store h p (record n { value = some value; length = length value }))

  -- The recursion through `db_parent_get`, on fuel. malloc (0) is not NULL, so a node that is
  -- written has a value, if only an empty one.
  unfoldable pub db_add_fuel : ℕ → Heap Table → CString → List ℕ → Result (Heap Table)
  unfolding find_or_add write_value
  db_add_fuel zero h path value = fault stack_overflow
  db_add_fuel (suc f) h path value = do
    (p, h') ← find_or_add (λ h₀ parent. db_add_fuel f h₀ parent []) h path
    write_value h' p value

  -- One round for each byte of the path and one for "": `Database.Add` shows that this is enough.
  unfoldable pub db_add : Heap Table → CString → List ℕ → Result (Heap Table)
  unfolding db_add_fuel
  db_add h path value = db_add_fuel (suc (length path)) h path value
