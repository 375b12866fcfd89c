-- ===== src/Examples/Runs.antt =====
-- Runs of the database on small inputs, and the strings that the other examples use.
use apteryx.Prelude.{
  ℕ, ◌≡◌, refl, List, [], ◌∷◌, Option, none, some, Result, ok, fault, use_after_free, ◌>>=◌,
}
pub use apteryx.CString.{codes}
use apteryx.CString.{CString}
use apteryx.Database.Table.Assoc.{assoc_table, Entries, find, without, values}
use apteryx.Database.Heap.{Heap, store, free}
use apteryx.Database.Walk.{db_path_to_node, db_get, db_search}
use apteryx.Database.Update.{db_init, db_add}
use apteryx.Database.Delete.{db_delete}

abbrev pub start : Heap Entries
start = record { cell = λ p. none; next = 0; root = none }

script : Result (Option (List ℕ))
script = do
  h₀ ← db_init assoc_table start
  h₁ ← db_add assoc_table h₀ (codes "/database/test") (codes "v")
  db_get assoc_table h₁ (codes "/database/test/")

get_after_add : script ≡ ok (some (codes "v"))
unfolding script db_init db_add db_get find values store
get_after_add = refl

search_script : Result (List CString)
search_script = do
  h₀ ← db_init assoc_table start
  h₁ ← db_add assoc_table h₀ (codes "/a/b/c") (codes "v")
  h₂ ← db_add assoc_table h₁ (codes "/a/b/d") (codes "v")
  db_search assoc_table h₂ (codes "/a/b/")

search_lists : search_script ≡ ok (codes "/a/b/d" ∷ codes "/a/b/c" ∷ [])
unfolding search_script db_init db_add db_search find values store
search_lists = refl

delete_script : CString → Result (Option ℕ × ℕ)
delete_script path = do
  h₀ ← db_init assoc_table start
  h₁ ← db_add assoc_table h₀ (codes "/a/b/c") (codes "v")
  h₂ ← db_delete assoc_table h₁ path
  ok (h₂.root, h₂.next)

delete_leaf : delete_script (codes "/a/b/c") ≡ ok (none, 4)
unfolding delete_script db_init db_add db_delete find without values db_path_to_node store free
delete_leaf = refl

-- Deleting an inner node that is its parent's only child.
delete_inner : delete_script (codes "/a/b") ≡ fault use_after_free
unfolding delete_script db_init db_add db_delete find without values db_path_to_node store free
delete_inner = refl

-- A path with a trailing '/' that is not there yet: the value is not found again.
trailing_script : CString → Result (Option (List ℕ))
trailing_script path = do
  h₀ ← db_init assoc_table start
  h₁ ← db_add assoc_table h₀ (codes "/a/") (codes "v")
  db_get assoc_table h₁ path

trailing_slash : trailing_script (codes "/a/") ≡ ok (some [])
unfolding trailing_script db_init db_add db_get find values store
trailing_slash = refl
