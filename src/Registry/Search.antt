-- ===== src/Registry/Search.antt =====
-- What the search for an entry finds.
use apteryx.Prelude.{ℕ, suc, ◌≡◌, refl, List, [], ◌∷◌, none, arith, inl, inr, Bool-cases}
use apteryx.CString.{CString}
use apteryx.Registry.{CbInfo, Found, null, entry, wild, same_key, find_from, next}
use apteryx.Registry.Entries.{lookup, Fresh}

-- An entry that no other entry shares its key with stays alone.
pub lookup-Fresh :
    (path : CString) (id : ℕ) (list : List CbInfo) → Fresh path id list → lookup path id list ≡ none
unfolding lookup
lookup-Fresh path id [] h = refl
lookup-Fresh path id (info ∷ rest) h = rw h.0 (lookup-Fresh path id rest h.1)

next-null : (f : Found) → next f ≡ null → f ≡ null
unfolding next
next-null null h = refl
next-null (entry i) h = cc
next-null wild h = cc

pub next-entry : (f : Found) (k : ℕ) → next f ≡ entry k → (i : ℕ) × (f ≡ entry i) × (k ≡ suc i)
unfolding next
next-entry null k h = cc
next-entry (entry i) k h = (i, refl, ground arith)
next-entry wild k h = cc

next-wild : (f : Found) → next f ≡ wild → f ≡ wild
unfolding next
next-wild null h = cc
next-wild (entry i) h = cc
next-wild wild h = refl

pub find_from-ne-wild :
    (list : List CbInfo) (path : CString) (id : ℕ) → find_from list path id ≡ wild → ⊥
unfolding find_from
find_from-ne-wild [] path id h = cc
find_from-ne-wild (info ∷ rest) path id h = elim (Bool-cases (same_key path id info)) [
  | inl hit ↦ cc (rw hit at h)
  | inr miss ↦ find_from-ne-wild rest path id (next-wild _ (rw miss at h))
]

-- A search that ends in NULL has met no entry with the key.
pub find_from-null :
    (list : List CbInfo) (path : CString) (id : ℕ)
    → find_from list path id ≡ null
    → Fresh path id list
unfolding find_from
find_from-null [] path id h = tt
find_from-null (info ∷ rest) path id h = elim (Bool-cases (same_key path id info)) [
  | inl hit ↦ cc (rw hit at h)
  | inr miss ↦ (miss, find_from-null rest path id (next-null _ (rw miss at h)))
]
