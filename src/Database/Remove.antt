-- ===== src/Database/Remove.antt =====
-- What `db_delete` does to the map that a client sees, where the path's node has no children: the
-- node goes, and then each node above it that has no bytes and is left without children.
pub mod Detach
pub mod Shown
pub mod Freed
pub mod Deleted
pub mod Above
pub mod Leaf
pub mod Client
pub mod Resting
pub mod Seen
use apteryx.Prelude.{ℕ, List, [], ◌∷◌, ◌++◌, ◌≡◌, ◌≢◌, Option, none, some, ◌⊎◌, if◌then◌else◌}
use apteryx.CString.{CString}
use apteryx.Database.Heap.{Heap, Node}
use apteryx.Database.Add.{View}
use apteryx.Database.View.{path_eq}

-- The map without the node at a path.
unfoldable pub without : View → List CString → View
unfolding path_eq
without old ks js = if path_eq js ks then none else old js

unfoldable pub bytes_of : Option (List ℕ) → List ℕ
bytes_of none = []
bytes_of (some v) = v

-- The specification: a path is taken out, and after it each path above that has no bytes and is
-- left without children, up to one that has either, or up to the root.
pub data Pruned (new : View) : View → List CString → Type 0 where
  stop :
      {old : View} (js : List CString) (k : CString) (o : Option (List ℕ))
      → without old (js ++ k ∷ []) js ≡ some o
      → (bytes_of o ≢ []) ⊎ ((j : CString) × (without old (js ++ k ∷ []) (js ++ j ∷ []) ≢ none))
      → ((is : List CString) → new is ≡ without old (js ++ k ∷ []) is)
      → Pruned new old (js ++ k ∷ [])
  up :
      {old : View} (js : List CString) (k : CString) (o : Option (List ℕ))
      → without old (js ++ k ∷ []) js ≡ some o
      → bytes_of o ≡ []
      → ((j : CString) → without old (js ++ k ∷ []) (js ++ j ∷ []) ≡ none)
      → Pruned new (without old (js ++ k ∷ [])) js
      → Pruned new old (js ++ k ∷ [])
  root :
      {old : View}
      → ((is : List CString) → is ≢ [] → old is ≡ none)
      → ((is : List CString) → new is ≡ none)
      → Pruned new old []

-- A node at rest: it is not being deleted, and it has no bytes where it has no value.
abbrev pub IsSettled : {T : Type 0} → Node T → Type 0
IsSettled n = (n.removing ≡ 0) × (n.value ≡ none → n.length ≡ 0)

abbrev pub Settled : {T : Type 0} → Heap T → Type 0
Settled {T} h = (p : ℕ) (n : Node T) → h.cell p ≡ some n → IsSettled n
