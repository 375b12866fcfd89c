-- ===== src/Matching/Watchers.antt =====
-- Which paths a watcher is told of.
use apteryx.Prelude.{
  ℕ, ◌-◌, ◌≡◌, refl, ap, ◌∙◌, [], ◌∷◌, ◌++◌, Bool, true, false, ◌==◌, if◌then◌else◌, Option, none,
  some, Result, ok, arith, inl, inr, ◌↔◌, Bool-cases, length, length-append, drop, ==_iff,
}
use apteryx.CString.{CString, slash, star, strcmp_eq, strncmp_eq, strchr, last_char, advance}
use apteryx.CString.Laws.{
  strcmp_eq_iff, strncmp_eq_prefix, strncmp_eq-append₂, last_char-append, last_char_split,
}
use apteryx.Matching.{no_slash_after, one_level_test, tail_test, watch_matches}

-- A watcher's path and a path that its callback is called for: the path itself; with a '*' at the
-- end, each path that goes on from there; with a '/' at the end, each path that has one more byte
-- in the place of the '/', and then no '/' any more.
pub data Matches (watched path : CString) : Type 0 where
  exact : watched ≡ path → Matches watched path
  recursive : (p s : CString) → watched ≡ p ++ star ∷ [] → path ≡ p ++ s → Matches watched path
  one_level :
      (p : CString) (c : ℕ) (s : CString)
      → watched ≡ p ++ slash ∷ []
      → path ≡ p ++ c ∷ s
      → strchr s slash ≡ false
      → Matches watched path

-- The length of a path without its last byte.
pub length-snoc : (p : CString) (c : ℕ) → length (p ++ c ∷ []) - 1 ≡ length p
length-snoc p c = omega (arith, length-append {0} p (c ∷ []))

-- What is left of a path behind a common prefix.
advance_split :
    (p s r : CString) (c : ℕ)
    → advance (p ++ s) (length (p ++ c ∷ [])) ≡ some r
    → (d : ℕ) × (s ≡ d ∷ r)
unfolding advance
advance_split [] [] r c h = cc
advance_split [] (d ∷ s) r c h = (d, ground arith)
advance_split (e ∷ p) s r c h = advance_split p s r c h

pub advance-snoc : (p s : CString) (c d : ℕ) → advance (p ++ d ∷ s) (length (p ++ c ∷ [])) ≡ some s
unfolding advance
advance-snoc [] s c d = refl
advance-snoc (e ∷ p) s c d = advance-snoc p s c d

no_slash_after-true :
    (o : Option CString)
    → no_slash_after o ≡ ok true
    → (rest : CString) × (o ≡ some rest) × (strchr rest slash ≡ false)
unfolding no_slash_after
no_slash_after-true none h = cc
no_slash_after-true (some rest) h = (rest, refl, ground arith)

recursive_sound :
    (p path : CString)
    → strncmp_eq path (p ++ star ∷ []) (length (p ++ star ∷ []) - 1) ≡ true
    → Matches (p ++ star ∷ []) path
recursive_sound p path h =
    recursive p (drop (length p) path) refl
      (strncmp_eq_prefix path p (star ∷ []) (rw (length-snoc p star) at h))

one_level_sound :
    (p path : CString)
    → one_level_test (p ++ slash ∷ []) path ≡ ok true
    → Matches (p ++ slash ∷ []) path
unfolding one_level_test
one_level_sound p path h =
    elim (Bool-cases (strncmp_eq path (p ++ slash ∷ []) (length (p ++ slash ∷ []) - 1))) [
      | inl hit ↦
          let (rest, e, ns) = no_slash_after-true _ (rw hit at h) in
          let s : CString = drop (length p) path in
          let split : path ≡ p ++ s =
            strncmp_eq_prefix path p (slash ∷ []) (rw (length-snoc p slash) at hit) in
          let (d, e') = advance_split p s rest slash (rw split at e) in
          one_level p d rest refl (split ∙ ap (◌++◌ p) e') ns
      | inr miss ↦ cc (rw miss at h)
    ]

-- The bytes '*' and '/' differ, so the second test is made only where the first fails.
tail_test-star :
    (watched path : CString)
    → tail_test (some star) watched path ≡ ok (strncmp_eq path watched (length watched - 1))
unfolding tail_test
tail_test-star watched path = refl

pub tail_test-slash :
    (watched path : CString) → tail_test (some slash) watched path ≡ one_level_test watched path
unfolding tail_test
tail_test-slash watched path = refl

tail_sound :
    (c : ℕ) (p path : CString)
    → tail_test (some c) (p ++ c ∷ []) path ≡ ok true
    → Matches (p ++ c ∷ []) path
unfolding tail_test
tail_sound c p path h = elim (Bool-cases (c == star)) [
  | inl e ↦
      rw ((==_iff c star).0 e)
        (recursive_sound p path (ground (arith, rw ((==_iff c star).0 e) at h)))
  | inr ne ↦ elim (Bool-cases (c == slash)) [
    | inl e ↦ rw ((==_iff c slash).0 e) (one_level_sound p path (rw ((==_iff c slash).0 e) at h))
    | inr ne' ↦ cc (rw (ne, ne') at h)
  ]
]

module _ (watched path : CString) where
  ends_sound :
      (o : Option ℕ)
      → last_char watched ≡ o
      → tail_test o watched path ≡ ok true
      → Matches watched path
  unfolding tail_test
  ends_sound none e h = cc
  ends_sound (some c) e h =
      let split = last_char_split watched c e in rw split (tail_sound c _ path (rw split at h))

  watch_matches_sound : watch_matches watched path ≡ ok true → Matches watched path
  unfolding watch_matches
  watch_matches_sound h = elim (Bool-cases (strcmp_eq watched path)) [
    | inl same ↦ exact ((strcmp_eq_iff watched path).0 same)
    | inr other ↦ ends_sound (last_char watched) refl (rw other at h)
  ]

  -- Where the paths differ, the tail decides.
  if_same :
      (r : Result Bool) → r ≡ ok true → (if strcmp_eq watched path then ok true else r) ≡ ok true
  if_same r h = ground arith

  watch_matches_complete : Matches watched path → watch_matches watched path ≡ ok true
  unfolding watch_matches one_level_test no_slash_after
  watch_matches_complete (exact e) = rw ((strcmp_eq_iff watched path).1 e)
  watch_matches_complete (recursive p s w e) = if_same _ (
      rw (
        w,
        e,
        last_char-append p star,
        tail_test-star (p ++ star ∷ []) (p ++ s),
        length-snoc p star,
        strncmp_eq-append₂ p s (star ∷ []),
      ))
  watch_matches_complete (one_level p c s w e ns) = if_same _ (
      rw (
        w,
        e,
        last_char-append p slash,
        tail_test-slash (p ++ slash ∷ []) (p ++ c ∷ s),
        one_level_test,
        length-snoc p slash,
        strncmp_eq-append₂ p (c ∷ s) (slash ∷ []),
        advance-snoc p s slash c,
        ns,
      ))

-- The test of a watcher's path comes out true exactly for the paths of `Matches`.
pub watch_matches_iff :
    (watched path : CString) → (watch_matches watched path ≡ ok true) ↔ Matches watched path
watch_matches_iff watched path =
    (watch_matches_sound watched path, watch_matches_complete watched path)
