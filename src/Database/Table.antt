-- ===== src/Database/Table.antt =====
-- GLib's GHashTable from strings to nodes, which is not the program's code: an interface with the
-- functions that database.c calls, and what their documentation says of them.
pub mod Assoc
use apteryx.Prelude.{ℕ, zero, suc, ◌≡◌, List, [], Option, none, some, if◌then◌else◌, length, Elem}
use apteryx.CString.{CString, strcmp_eq}

pub record HashTable : Type 1 where
  pub Table : Type 0
  -- g_hash_table_new (g_str_hash, g_str_equal)
  pub new : Table
  pub insert : Table → CString → ℕ → Table
  pub lookup : Table → CString → Option ℕ
  pub remove : Table → CString → Table
  pub size : Table → ℕ
  -- g_hash_table_get_values, in an order that is not documented
  pub get_values : Table → List ℕ
  pub lookup-new : (k : CString) → lookup new k ≡ none
  pub lookup-insert :
      (t : Table) (k : CString) (v : ℕ) (j : CString)
      → lookup (insert t k v) j ≡ (if strcmp_eq k j then some v else lookup t j)
  pub lookup-remove :
      (t : Table) (k j : CString)
      → lookup (remove t k) j ≡ (if strcmp_eq k j then none else lookup t j)
  pub size-length : (t : Table) → size t ≡ length (get_values t)
  pub get_values_sound :
      (t : Table) (v : ℕ) → Elem v (get_values t) → (k : CString) × (lookup t k ≡ some v)
  pub get_values_complete :
      (t : Table) (k : CString) (v : ℕ) → lookup t k ≡ some v → Elem v (get_values t)
