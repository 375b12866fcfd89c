-- ===== src/Database/Delete.antt =====
-- database.c: the operations that take nodes away.
use apteryx.Prelude.{
  ℕ, zero, suc, ◌+◌, ◌-◌, ◌*◌, ◌%◌, ◌^◌, List, [], ◌∷◌, Option, none, some, ◌&&◌, ◌==◌,
  if◌then◌else◌, Result, ok, fault, stack_overflow, null_pointer, ◌>>=◌,
}
use apteryx.CString.{CString}
use apteryx.Database.Table.{HashTable}
use apteryx.Database.Heap.{Heap, load, store, free}
use apteryx.Database.Walk.{db_path_to_node, db_search}

module _ (G : HashTable) where
  open G use {Table, remove, size, get_values}

  -- The recursive call of `db_node_delete` is an argument of the parts below.
  abbrev pub Deleter : Type 0
  Deleter = ℕ → Heap Table → Result (Heap Table)

  -- "if (node->parent)": out of the parent's table, and the parent too if it is left with no child
  -- and has no value. The hash table of a parent is not NULL: GLib rejects that as an error.
  unfoldable pub unlink : Deleter → Option ℕ → CString → Heap Table → Result (Heap Table)
  unlink del none key h = ok h
  unlink del (some q) key h = do
    m ← load h q
    elim m.children [
      | none ↦ fault null_pointer
      | some t ↦
          let h' = store h q (record m { children = some (remove t key) }) in
          if size (remove t key) == 0 && m.length == 0 then del q h' else ok h'
    ]

  unfoldable pub delete_each : Deleter → List ℕ → Heap Table → Result (Heap Table)
  delete_each del [] h = ok h
  delete_each del (c ∷ cs) h = do h' ← del c h; delete_each del cs h'

  unfoldable pub forget_root : Heap Table → ℕ → Heap Table
  forget_root h p = elim h.root [
    | none ↦ h
    | some r ↦ if r == p then record h { root = none } else h
  ]

  -- "if (node->removing == 1)": the children, and then the node itself.
  unfoldable pub destroy : Deleter → ℕ → Option Table → Heap Table → Result (Heap Table)
  unfolding forget_root
  destroy del p none h = ok (free (forget_root h p) p)
  destroy del p (some t) h = do
    h' ← delete_each del (get_values t) h
    n ← load h' p
    ok (free (forget_root h' p) p)

  unfoldable pub finish : Deleter → ℕ → Heap Table → Result (Heap Table)
  unfolding destroy
  finish del p h = do
    n ← load h p
    if n.removing == 1
        then destroy del p n.children h
        else ok (store h p (record n { removing = (n.removing + 2 ^ 32 - 1) % 2 ^ 32 }))

  unfoldable pub db_node_delete : ℕ → ℕ → Heap Table → Result (Heap Table)
  unfolding unlink finish delete_each
  db_node_delete zero p h = fault stack_overflow
  db_node_delete (suc f) p h = do
    n ← load h p
    h' ←
        unlink (db_node_delete f) n.parent n.key
          (store h p (record n { removing = (n.removing + 1) % 2 ^ 32 }))
    finish (db_node_delete f) p h'

  -- A deletion goes up at most the chain of parents, down to the leaves, and up again.
  abbrev pub delete_fuel : Heap Table → ℕ
  delete_fuel h = 3 * h.next + 3

  unfoldable pub db_delete : Heap Table → CString → Result (Heap Table)
  unfolding db_node_delete
  db_delete h path = do
    found ← db_path_to_node G h path
    elim found [ none ↦ ok h | some p ↦ db_node_delete (delete_fuel h) p h ]

  -- The paths printed as still set, and the memory.
  unfoldable pub db_shutdown : Heap Table → Result (List CString × Heap Table)
  db_shutdown h = do
    paths ← db_search G h []
    elim h.root [
      | none ↦ ok (paths, h)
      | some r ↦ do h' ← db_node_delete (delete_fuel h) r h; ok (paths, record h' { root = none })
    ]
