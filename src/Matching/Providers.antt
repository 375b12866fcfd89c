-- ===== src/Matching/Providers.antt =====
-- Which paths a provider is asked for.
use apteryx.Prelude.{
  ℕ, ◌-◌, ◌≡◌, refl, [], ◌∷◌, ◌++◌, true, ◌==◌, Option, none, some, ok, arith, inl, inr, ◌↔◌,
  Bool-cases, length, drop, ==_iff,
}
use apteryx.CString.{CString, star, strcmp_eq, strncmp_eq, last_char}
use apteryx.CString.Laws.{
  strcmp_eq_iff, strncmp_eq_prefix, strncmp_eq-append₂, last_char-append, last_char_split,
}
use apteryx.Matching.{star_test, provide_matches}
use apteryx.Matching.Watchers.{length-snoc}

-- A provider's path and a path that it is asked for: the path itself, or, with a '*' at the end,
-- each path that goes on from there.
pub data Provides (provided path : CString) : Type 0 where
  exact : provided ≡ path → Provides provided path
  recursive : (p s : CString) → provided ≡ p ++ star ∷ [] → path ≡ p ++ s → Provides provided path

star_sound :
    (c : ℕ) (p path : CString)
    → star_test (some c) (p ++ c ∷ []) path ≡ ok true
    → Provides (p ++ c ∷ []) path
unfolding star_test
star_sound c p path h =
    let both : ((c == star) ≡ true)
        × (strncmp_eq path (p ++ c ∷ []) (length (p ++ c ∷ []) - 1) ≡ true) =
      ground arith in
    let prefix = strncmp_eq_prefix path p (c ∷ []) (rw (length-snoc p c) at (both.1)) in
    rw ((==_iff c star).0 both.0) (recursive p (drop (length p) path) refl prefix)

module _ (provided path : CString) where
  ends_sound :
      (o : Option ℕ)
      → last_char provided ≡ o
      → star_test o provided path ≡ ok true
      → Provides provided path
  unfolding star_test
  ends_sound none e h = cc
  ends_sound (some c) e h =
      let split = last_char_split provided c e in rw split (star_sound c _ path (rw split at h))

  provide_matches_sound : provide_matches provided path ≡ ok true → Provides provided path
  unfolding provide_matches
  provide_matches_sound h = elim (Bool-cases (strcmp_eq provided path)) [
    | inl same ↦ exact ((strcmp_eq_iff provided path).0 same)
    | inr other ↦ ends_sound (last_char provided) refl (rw other at h)
  ]

  provide_matches_complete : Provides provided path → provide_matches provided path ≡ ok true
  unfolding provide_matches star_test
  provide_matches_complete (exact e) = rw ((strcmp_eq_iff provided path).1 e)
  provide_matches_complete (recursive p s w e) =
      let tail : star_test (last_char provided) provided path ≡ ok true = rw (
        w,
        e,
        last_char-append p star,
        star_test,
        length-snoc p star,
        strncmp_eq-append₂ p s (star ∷ []),
      ) in
      ground arith

-- The test of a provider's path comes out true exactly for the paths of `Provides`.
pub provide_matches_iff :
    (provided path : CString) → (provide_matches provided path ≡ ok true) ↔ Provides provided path
provide_matches_iff provided path =
    (provide_matches_sound provided path, provide_matches_complete provided path)
