-- ===== src/Database/Add.antt =====
-- `db_add`: from a tree to a tree, whatever path is set, with enough fuel.
pub mod Root
pub mod Parent
pub mod Shown
pub mod Contract
pub mod Start
pub mod Parented
use apteryx.Prelude.{ℕ, List, [], ◌∷◌, ◌≡◌, Option, none, some, if◌then◌else◌}
use apteryx.CString.{CString}
use apteryx.Database.Table.{HashTable}
use apteryx.Database.Heap.{Heap}
use apteryx.Database.View.{IsTree, view, path_eq, is_prefix}

-- What a client sees of a database: for each path no node, or a node with or without a value.
abbrev pub View : Type 0
View = List CString → Option (Option (List ℕ))

-- The value of a node that is made on the way: the root has none, and another one an empty value.
unfoldable pub blank : List CString → Option (List ℕ)
blank [] = none
blank (k ∷ ks) = some []

unfoldable pub or_blank : List CString → Option (Option (List ℕ)) → Option (Option (List ℕ))
unfolding blank
or_blank ks none = some (blank ks)
or_blank ks (some o) = some o

-- With a node at every prefix of a path.
unfoldable pub with_prefixes : View → List CString → View
unfolding or_blank is_prefix
with_prefixes old ks js = if is_prefix js ks then or_blank js (old js) else old js

-- The specification of `db_add`: the value at the path, a node at every path above, and no other
-- change.
unfoldable pub added_view : View → List CString → List ℕ → View
unfolding with_prefixes path_eq
added_view old ks v js = if path_eq js ks then some (some v) else with_prefixes old ks js

pub record Added (G : HashTable) (h h' : Heap G.Table) (ks : List CString) (v : List ℕ)
    : Type 0 where
  pub tree : IsTree G h'
  pub shows : (js : List CString) → view G h' js ≡ added_view (view G h) ks v js
