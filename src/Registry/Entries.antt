-- ===== src/Registry/Entries.antt =====
-- The list as a map from (path, id) to the callback: what a registration writes.
use apteryx.Prelude.{
  refl, ℕ, ◌≡◌, List, [], ◌∷◌, true, false, ◌==◌, if◌then◌else◌, Option, none, some, arith, All,
  ==_iff,
}
use apteryx.CString.{CString, strcmp_eq}
use apteryx.CString.Laws.{strcmp_eq_iff, strcmp_eq_refl}
use apteryx.Registry.{CbInfo, same_key, Request, created, updated}

-- The first entry for a path and a client.
unfoldable pub lookup : CString → ℕ → List CbInfo → Option CbInfo
lookup path id [] = none
lookup path id (info ∷ rest) = if same_key path id info then some info else lookup path id rest

-- "We only allow a single watcher per table/key pair per socket".
abbrev pub Fresh : CString → ℕ → List CbInfo → Type 0
Fresh path id = All (λ other. same_key path id other ≡ false)

abbrev pub IsUnique : List CbInfo → Type 0
IsUnique [] = Unit {0}
IsUnique (info ∷ rest) = Fresh info.path info.id rest × IsUnique rest

-- What a registration leaves for its own path and client.
unfoldable pub written : Request → Option CbInfo → CbInfo
written r none = record { path = r.path; id = r.id; cb = r.cb; priv = r.priv; count = 0 }
written r (some info) = record {
  path = info.path;
  id = r.id;
  cb = r.cb;
  priv = r.priv;
  count = info.count;
}

pub written-created : (r : Request) → written r none ≡ created r
unfolding written created
written-created r = refl

pub written-updated : (r : Request) (info : CbInfo) → written r (some info) ≡ updated r info
unfolding written updated
written-updated r info = refl

pub same_key-fields :
    (path : CString) (id : ℕ) (info : CbInfo)
    → same_key path id info ≡ true
    → (info.path ≡ path) × (info.id ≡ id)
unfolding same_key
same_key-fields path id info h =
    let both : ((info.id == id) ≡ true) × (strcmp_eq info.path path ≡ true) = ground arith in
    ((strcmp_eq_iff info.path path).0 both.1, (==_iff info.id id).0 both.0)

pub same_key_self : (info : CbInfo) → same_key info.path info.id info ≡ true
unfolding same_key
same_key_self info = ground (arith, strcmp_eq_refl info.path)

module _ (r : Request) (path : CString) (id : ℕ) (info : CbInfo) where
  pub same_key-created :
      same_key r.path r.id info ≡ true → same_key path id info ≡ same_key path id (created r)
  unfolding same_key created
  same_key-created h = let (p, i) = same_key-fields r.path r.id info h in rw (p, i)

  pub same_key-updated :
      same_key r.path r.id info ≡ true
      → same_key path id (updated r info) ≡ same_key path id (created r)
  unfolding same_key created updated
  same_key-updated h = let (p, i) = same_key-fields r.path r.id info h in rw (p)

  pub same_key_sym : same_key path id (created r) ≡ true → (r.path ≡ path) × (r.id ≡ id)
  unfolding created
  same_key_sym h = same_key-fields path id (created r) h
