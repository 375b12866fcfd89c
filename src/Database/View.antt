-- ===== src/Database/View.antt =====
-- The database as its clients see it: a partial map from paths, as lists of keys, to values.
pub mod Keys
pub mod Descent
pub mod Reading
pub mod NewNode
pub mod Growth
pub mod NewValue
use apteryx.Prelude.{
  ℕ, List, [], ◌∷◌, ◌++◌, ◌≡◌, ◌≢◌, ◌<◌, Option, none, some, Bool, true, false, ◌&&◌, if◌then◌else◌,
  All, length,
}
use apteryx.CString.{CString, slash, strcmp_eq, strchr}
use apteryx.Database.Table.{HashTable}
use apteryx.Database.Heap.{Heap, Node}

-- A key of a canonical path: not empty, and without '/'.
abbrev pub IsKey : CString → Type 0
IsKey k = (k ≢ []) × (strchr k slash ≡ false)

abbrev pub IsPath : List CString → Type 0
IsPath = All IsKey

-- The path as the program spells it: each key with a '/' in front.
unfoldable pub render : List CString → CString
render [] = []
render (k ∷ ks) = slash ∷ (k ++ render ks)

unfoldable pub path_eq : List CString → List CString → Bool
path_eq [] [] = true
path_eq [] (k ∷ ks) = false
path_eq (j ∷ js) [] = false
path_eq (j ∷ js) (k ∷ ks) = strcmp_eq j k && path_eq js ks

unfoldable pub is_prefix : List CString → List CString → Bool
is_prefix [] ks = true
is_prefix (j ∷ js) [] = false
is_prefix (j ∷ js) (k ∷ ks) = strcmp_eq j k && is_prefix js ks

-- From a node down the keys of a path, by a function that finds a child.
unfoldable pub descend : (ℕ → CString → Option ℕ) → ℕ → List CString → Option ℕ
descend child p [] = some p
descend child p (k ∷ ks) = elim (child p k) [ none ↦ none | some c ↦ descend child c ks ]

module _ (G : HashTable) where
  open G use {Table, lookup}

  unfoldable pub child_of : Option (Node Table) → CString → Option ℕ
  child_of none k = none
  child_of (some n) k = elim n.children [ none ↦ none | some t ↦ lookup t k ]

  unfoldable pub child : Heap Table → ℕ → CString → Option ℕ
  unfolding child_of
  child h p k = child_of (h.cell p) k

  unfoldable pub node_at : Heap Table → List CString → Option ℕ
  unfolding descend child
  node_at h ks = elim h.root [ none ↦ none | some r ↦ descend (child h) r ks ]

  -- The outer `none`: no node at the path. The inner one: a node whose value is NULL.
  unfoldable pub value_of : Option (Node Table) → Option (Option (List ℕ))
  value_of none = none
  value_of (some n) = some n.value

  unfoldable pub view : Heap Table → List CString → Option (Option (List ℕ))
  unfolding node_at value_of
  view h ks = elim (node_at h ks) [ none ↦ none | some p ↦ value_of (h.cell p) ]

  -- The nodes form a tree: a child knows its key and its parent, which is older; the root has the
  -- empty key and no parent; and the length that a node keeps is that of its value.
  pub record IsTree (h : Heap Table) : Type 0 where
    pub children_live :
        (p : ℕ) (k : CString) (c : ℕ)
        → child h p k ≡ some c
        → (n : Node Table) × (h.cell c ≡ some n) × (n.key ≡ k) × (n.parent ≡ some p) × (p < c)
    pub root_live :
        (r : ℕ)
        → h.root ≡ some r
        → (n : Node Table) × (h.cell r ≡ some n) × (n.key ≡ []) × (n.parent ≡ none)
    pub below_next : (p : ℕ) (n : Node Table) → h.cell p ≡ some n → p < h.next
    pub sized :
        (p : ℕ) (n : Node Table) (v : List ℕ)
        → h.cell p ≡ some n
        → n.value ≡ some v
        → n.length ≡ length v
