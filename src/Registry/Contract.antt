-- ===== src/Registry/Contract.antt =====
-- A registration meets its specification.
use apteryx.Prelude.{
  ℕ, ◌≡◌, refl, List, [], ◌∷◌, true, false, ◌==◌, if◌then◌else◌, modify, erase_idx, none, some, ok,
  arith, inl, inr, Bool-cases,
}
use apteryx.CString.{CString}
use apteryx.Registry.{
  CbInfo, Found, null, entry, wild, same_key, find_from, cb_info_find, Request, created, updated,
  register_found, register,
}
use apteryx.Registry.Entries.{written-created, lookup, IsUnique, written, same_key-fields}
use apteryx.Registry.Search.{lookup-Fresh, find_from-ne-wild, find_from-null}
use apteryx.Registry.Changes.{lookup-modify, lookup-erase_idx, IsUnique-modify, IsUnique-erase_idx}

-- The slot of the variable `info` matters for an empty list only.
pub cb_info_find-from :
    (junk : Found) (list : List CbInfo) (path : CString) (id : ℕ)
    → (list ≡ [] → junk ≡ null)
    → cb_info_find junk list path id ≡ find_from list path id
unfolding cb_info_find find_from
cb_info_find-from junk [] path id h = h refl
cb_info_find-from junk (info ∷ rest) path id h = refl

-- What a registration promises of the list that it leaves.
pub record Registered (r : Request) (list list' : List CbInfo) : Type 0 where
  pub unique : IsUnique list'
  pub entries :
      (path : CString) (id : ℕ)
      → lookup path id list' ≡ (
          if same_key path id (created r)
          then (if r.cb == 0 then none else some (written r (lookup r.path r.id list)))
          else lookup path id list)

module _ (r : Request) (list : List CbInfo) (u : IsUnique list) where
  missing :
      find_from list r.path r.id ≡ null
      → (path : CString) (id : ℕ) → same_key path id (created r) ≡ true
      → lookup path id list ≡ none
  missing h path id e =
      let (p, i) = same_key-fields path id (created r) e in
      unfold created in rw (← p, ← i) (lookup-Fresh _ _ list (find_from-null list r.path r.id h))

  created-Registered :
      find_from list r.path r.id ≡ null → (r.cb == 0) ≡ false → Registered r list (created r ∷ list)
  created-Registered h on = record {
    unique = (unfold created in find_from-null list r.path r.id h, u);
    entries = λ path id.
        unfold lookup in
        rw (on, lookup-Fresh _ _ list (find_from-null list r.path r.id h))
          (ground (arith, written-created r));
  }

  ignored-Registered :
      find_from list r.path r.id ≡ null → (r.cb == 0) ≡ true → Registered r list list
  ignored-Registered h off = record {
    unique = u;
    entries = λ path id. rw off (ground (arith, missing h path id));
  }

  updated-Registered :
      (k : ℕ)
      → find_from list r.path r.id ≡ entry k
      → (r.cb == 0) ≡ false
      → Registered r list (modify (updated r) list k)
  updated-Registered k h on = record {
    unique = IsUnique-modify r list k h u;
    entries = λ path id. rw on (lookup-modify r path id list k h);
  }

  removed-Registered :
      (k : ℕ)
      → find_from list r.path r.id ≡ entry k
      → (r.cb == 0) ≡ true
      → Registered r list (erase_idx list k)
  removed-Registered k h off = record {
    unique = IsUnique-erase_idx list k u;
    entries = λ path id. rw off (lookup-erase_idx r path id list k u h);
  }

  register_found-Registered :
      (f : Found)
      → find_from list r.path r.id ≡ f
      → (list' : List CbInfo) × (register_found f list r ≡ ok list') × Registered r list list'
  unfolding register_found
  register_found-Registered null h = elim (Bool-cases (r.cb == 0)) [
    | inl off ↦ (list, rw off, ignored-Registered h off)
    | inr on ↦ (created r ∷ list, rw on, created-Registered h on)
  ]
  register_found-Registered (entry k) h = elim (Bool-cases (r.cb == 0)) [
    | inl off ↦ (erase_idx list k, rw off, removed-Registered k h off)
    | inr on ↦ (modify (updated r) list k, rw on, updated-Registered k h on)
  ]
  register_found-Registered wild h = absurd (find_from-ne-wild list r.path r.id h)

-- A registration succeeds on any list without duplicates, if the slot of `info` holds NULL where
-- the list is empty. It leaves no duplicates; its own path and client are then registered with the
-- new callback, or not at all if that is 0, and all others are as before.
pub register-Registered :
    (junk : Found) (r : Request) (list : List CbInfo)
    → IsUnique list
    → (list ≡ [] → junk ≡ null)
    → (list' : List CbInfo) × (register junk list r ≡ ok list') × Registered r list list'
unfolding register
register-Registered junk r list u h =
    rw (cb_info_find-from junk list r.path r.id h)
      (register_found-Registered r list u (find_from list r.path r.id) refl)
