-- ===== src/Database/Walk.antt =====
-- database.c: from a path to a node and back, and the two operations that only read.
pub mod Tokens
use apteryx.Prelude.{
  ℕ, zero, suc, ◌++◌, List, [], ◌∷◌, Bool, true, false, Option, none, some, ◌==◌, if◌then◌else◌,
  Result, ok, fault, out_of_bounds, stack_overflow, ◌>>=◌, take,
}
use apteryx.CString.{CString, slash, strcmp_eq}
use apteryx.Database.Table.{HashTable}
use apteryx.Database.Heap.{Heap, Node, load}
use Tokens.{tokens, trim, ends_in_slash}

module _ (G : HashTable) where
  open G use {Table, lookup, get_values}

  -- The step that goes on from the last token, which does not fit the root's key: `key` moves past
  -- the terminator. Where a trailing '/' was trimmed there is one more byte, an empty key.
  unfoldable pub after_end : Heap Table → Bool → Option Table → Result (Option ℕ)
  after_end h trimmed none = ok none
  after_end h false (some t) = fault out_of_bounds
  after_end h true (some t) = elim (lookup t []) [
    | none ↦ ok none
    | some c ↦ do n ← load h c; elim n.children [ none ↦ ok none | some _ ↦ fault out_of_bounds ]
  ]

  -- The loop `while (current)`, at a token and those behind it.
  unfoldable pub walk : Heap Table → Bool → CString → List CString → ℕ → Result (Option ℕ)
  unfolding after_end load
  walk h trimmed key [] p = do
    n ← load h p
    if strcmp_eq key n.key then ok (some p) else after_end h trimmed n.children
  walk h trimmed key (k ∷ ks) p = do
    n ← load h p
    elim n.children [
      | none ↦ ok none
      | some t ↦ elim (lookup t k) [ none ↦ ok none | some c ↦ walk h trimmed k ks c ]
    ]

  unfoldable pub db_path_to_node : Heap Table → CString → Result (Option ℕ)
  unfolding walk tokens trim ends_in_slash
  db_path_to_node h path = elim h.root [
    | none ↦ ok none
    | some r ↦ let (key, rest) = tokens (trim path) in walk h (ends_in_slash path) key rest r
  ]

  -- `last` is the flag `end`: no '/' behind the key of the node asked for. Fuel: the chain of
  -- parents, whose pointers fall.
  unfoldable pub db_node_to_path : Heap Table → ℕ → ℕ → Bool → Result CString
  unfolding load
  db_node_to_path h zero p last = fault stack_overflow
  db_node_to_path h (suc f) p last = do
    n ← load h p
    before ← elim n.parent [ none ↦ ok [] | some q ↦ db_node_to_path h f q false ]
    ok (before ++ n.key ++ (if last then [] else slash ∷ []))

  -- What `db_get` returns: `none` for false, and else the bytes copied.
  unfoldable pub node_bytes : Node Table → Option (List ℕ)
  node_bytes n = elim n.value [ none ↦ none | some v ↦ some (take n.length v) ]

  unfoldable pub db_get : Heap Table → CString → Result (Option (List ℕ))
  unfolding db_path_to_node node_bytes
  db_get h path = do
    found ← db_path_to_node h path
    elim found [ none ↦ ok none | some p ↦ do n ← load h p; ok (node_bytes n) ]

  -- The loop over the children, which appends the path of each.
  unfoldable pub child_paths : Heap Table → List ℕ → Result (List CString)
  unfolding db_node_to_path
  child_paths h [] = ok []
  child_paths h (c ∷ cs) = do
    path ← db_node_to_path h (suc c) c true
    rest ← child_paths h cs
    ok (path ∷ rest)

  unfoldable pub db_search : Heap Table → CString → Result (List CString)
  unfolding db_path_to_node child_paths
  db_search h path = do
    found ← db_path_to_node h path
    elim found [
      | none ↦ ok []
      | some p ↦ do
        n ← load h p
        elim n.children [ none ↦ ok [] | some t ↦ child_paths h (get_values t) ]
    ]
