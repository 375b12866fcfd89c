-- ===== src/Registry/Changes.antt =====
-- What a change or a removal of the entry found does to the list as a map.
use apteryx.Prelude.{
  ℕ, zero, suc, ◌≡◌, List, [], ◌∷◌, true, false, if◌then◌else◌, modify, erase_idx, none, some,
  arith, inl, inr, Bool-cases,
}
use apteryx.CString.{CString}
use apteryx.Registry.{CbInfo, entry, same_key, find_from, Request, created, updated}
use apteryx.Registry.Entries.{
  written-updated, lookup, Fresh, IsUnique, written, same_key-fields, same_key-created,
  same_key-updated, same_key_sym,
}
use apteryx.Registry.Search.{lookup-Fresh, next-entry}

module _ (r : Request) (path : CString) (id : ℕ) (info : CbInfo) where
  same_key_miss :
      same_key r.path r.id info ≡ false
      → same_key path id (created r) ≡ true
      → same_key path id info ≡ false
  same_key_miss h e = let (p, i) = same_key_sym r path id info e in rw (← p, ← i) h

Fresh-lookup :
    (path : CString) (id : ℕ) (info : CbInfo) (rest : List CbInfo)
    → Fresh info.path info.id rest
    → same_key path id info ≡ true
    → lookup path id rest ≡ none
Fresh-lookup path id info rest u e =
    let (p, i) = same_key-fields path id info e in rw (← p, ← i) (lookup-Fresh _ _ rest u)

removed_first :
    (r : Request) (path : CString) (id : ℕ) (info : CbInfo) (rest : List CbInfo)
    → same_key r.path r.id info ≡ true
    → Fresh info.path info.id rest
    → lookup path id rest ≡ (
        if same_key path id (created r)
        then none
        else (if same_key path id info then some info else lookup path id rest))
removed_first r path id info rest hit u =
    ground (arith, same_key-created r path id info hit, Fresh-lookup path id info rest u)

-- A write at the entry found, and a removal of it, as a client of the map sees them.
module _ (r : Request) (path : CString) (id : ℕ) where
  pub lookup-modify :
      (list : List CbInfo) (k : ℕ)
      → find_from list r.path r.id ≡ entry k
      → lookup path id (modify (updated r) list k) ≡ (
          if same_key path id (created r)
          then some (written r (lookup r.path r.id list))
          else lookup path id list)
  unfolding find_from lookup written
  lookup-modify [] k h = cc
  lookup-modify (info ∷ rest) zero h = elim (Bool-cases (same_key r.path r.id info)) [
    | inl hit ↦
        rw (hit, same_key-updated r path id info hit, same_key-created r path id info hit)
          (ground (arith, written-updated r info))
    | inr miss ↦ let (i, _, e) = next-entry _ zero (rw miss at h) in absurd (omega arith)
  ]
  lookup-modify (info ∷ rest) (suc k) h = elim (Bool-cases (same_key r.path r.id info)) [
    | inl hit ↦ cc (rw hit at h)
    | inr miss ↦
        let (i, e, n) = next-entry _ (suc k) (rw miss at h) in
        rw miss (
          ground
            (arith, lookup-modify rest k (ground (arith, e, n)), same_key_miss r path id info miss))
  ]

  pub lookup-erase_idx :
      (list : List CbInfo) (k : ℕ)
      → IsUnique list
      → find_from list r.path r.id ≡ entry k
      → lookup path id (erase_idx list k)
        ≡ (if same_key path id (created r) then none else lookup path id list)
  unfolding find_from lookup
  lookup-erase_idx [] k u h = cc
  lookup-erase_idx (info ∷ rest) zero u h = elim (Bool-cases (same_key r.path r.id info)) [
    | inl hit ↦ removed_first r path id info rest hit u.0
    | inr miss ↦ let (i, _, e) = next-entry _ zero (rw miss at h) in absurd (omega arith)
  ]
  lookup-erase_idx (info ∷ rest) (suc k) u h = elim (Bool-cases (same_key r.path r.id info)) [
    | inl hit ↦ cc (rw hit at h)
    | inr miss ↦
        let (i, e, n) = next-entry _ (suc k) (rw miss at h) in
        ground (
          arith,
          lookup-erase_idx rest k u.1 (ground (arith, e, n)),
          same_key_miss r path id info miss,
        )
  ]

-- The keys of the entries do not change, but for the one that is removed.
module _ (r : Request) where
  Fresh-modify :
      (path : CString) (id : ℕ) (list : List CbInfo) (k : ℕ)
      → find_from list r.path r.id ≡ entry k
      → Fresh path id list
      → Fresh path id (modify (updated r) list k)
  unfolding find_from
  Fresh-modify path id [] k h u = cc
  Fresh-modify path id (info ∷ rest) zero h u = elim (Bool-cases (same_key r.path r.id info)) [
    | inl hit ↦ (
      ground (arith, u.0, same_key-updated r path id info hit, same_key-created r path id info hit),
      u.1,
    )
    | inr miss ↦ let (i, _, e) = next-entry _ zero (rw miss at h) in absurd (omega arith)
  ]
  Fresh-modify path id (info ∷ rest) (suc k) h u = elim (Bool-cases (same_key r.path r.id info)) [
    | inl hit ↦ cc (rw hit at h)
    | inr miss ↦
        let (i, e, n) = next-entry _ (suc k) (rw miss at h) in
        (u.0, Fresh-modify path id rest k (ground (arith, e, n)) u.1)
  ]

  pub IsUnique-modify :
      (list : List CbInfo) (k : ℕ)
      → find_from list r.path r.id ≡ entry k
      → IsUnique list
      → IsUnique (modify (updated r) list k)
  unfolding find_from
  IsUnique-modify [] k h u = cc
  IsUnique-modify (info ∷ rest) zero h u = elim (Bool-cases (same_key r.path r.id info)) [
    | inl hit ↦
        let (p, i) = same_key-fields r.path r.id info hit in
        (unfold updated in (rw i at (u.0)), u.1)
    | inr miss ↦ let (i, _, e) = next-entry _ zero (rw miss at h) in absurd (omega arith)
  ]
  IsUnique-modify (info ∷ rest) (suc k) h u = elim (Bool-cases (same_key r.path r.id info)) [
    | inl hit ↦ cc (rw hit at h)
    | inr miss ↦
        let (i, e, n) = next-entry _ (suc k) (rw miss at h) in
        let found : find_from rest r.path r.id ≡ entry k = ground (arith, e, n) in
        (Fresh-modify info.path info.id rest k found u.0, IsUnique-modify rest k found u.1)
  ]

Fresh-erase_idx :
    (path : CString) (id : ℕ) (list : List CbInfo) (k : ℕ)
    → Fresh path id list
    → Fresh path id (erase_idx list k)
Fresh-erase_idx path id [] k u = u
Fresh-erase_idx path id (info ∷ rest) zero u = u.1
Fresh-erase_idx path id (info ∷ rest) (suc k) u = (u.0, Fresh-erase_idx path id rest k u.1)

pub IsUnique-erase_idx : (list : List CbInfo) (k : ℕ) → IsUnique list → IsUnique (erase_idx list k)
IsUnique-erase_idx [] k u = u
IsUnique-erase_idx (info ∷ rest) zero u = u.1
IsUnique-erase_idx (info ∷ rest) (suc k) u =
    (Fresh-erase_idx info.path info.id rest k u.0, IsUnique-erase_idx rest k u.1)
