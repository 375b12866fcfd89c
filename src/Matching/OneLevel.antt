-- ===== src/Matching/OneLevel.antt =====
-- The watchers with a trailing slash, and where the test reads.
use apteryx.Prelude.{
  ℕ, ◌-◌, ◌≡◌, ◌≢◌, refl, sym, ap, ◌∙◌, [], ◌∷◌, ◌++◌, Bool, true, false, not, ◌==◌, none, some, ok,
  fault, out_of_bounds, arith, inl, inr, ◌↔◌, Bool-cases, Option-cases, length, drop, ==_iff,
  append-nil,
}
use apteryx.CString.{
  CString, slash, star, strcmp_eq, strncmp_eq, strchr, last_char, drop_last, advance,
}
use apteryx.CString.Laws.{
  strncmp_eq_prefix, last_char-append, last_char_split, strncmp_eq_self, last_char-none,
}
use apteryx.Matching.{no_slash_after, one_level_test, tail_test, watch_matches}
use apteryx.Matching.Watchers.{
  one_level, length-snoc, advance-snoc, tail_test-slash, watch_matches_iff,
}

-- The children of a path: one component further down.
pub data IsChild (p path : CString) : Type 0 where
  child : (k : CString) → path ≡ p ++ slash ∷ k → strchr k slash ≡ false → IsChild p path

drop_prefix : (p s t : CString) → p ++ s ≡ p ++ t → s ≡ t
drop_prefix [] s t h = h
drop_prefix (c ∷ p) s t h = drop_prefix p s t (ground arith)

-- A watcher of `p` with a '/' behind it is told of every child of `p`. It is told as well of each
-- path that is `p` with another byte in the place of the '/', which is no child of `p`.
pub one_level_children_and_siblings :
    (p : CString) (c : ℕ) (k : CString)
    → strchr k slash ≡ false
    → (watch_matches (p ++ slash ∷ []) (p ++ c ∷ k) ≡ ok true)
      × (IsChild p (p ++ c ∷ k) ↔ (c ≡ slash))
one_level_children_and_siblings p c k h =
    ((watch_matches_iff _ _).1 (one_level p c k refl refl h), (only_slash, is_child))
  where
    only_slash : IsChild p (p ++ c ∷ k) → c ≡ slash
    only_slash (child j e _) = let heads = drop_prefix p (c ∷ k) (slash ∷ j) e in ground arith

    is_child : c ≡ slash → IsChild p (p ++ c ∷ k)
    is_child e = child k (rw e) h

advance-end : (p : CString) (c : ℕ) → advance p (length (p ++ c ∷ [])) ≡ none
unfolding advance
advance-end [] c = refl
advance-end (d ∷ p) c = advance-end p c

snoc-ne : (p : CString) (c : ℕ) → strcmp_eq (p ++ c ∷ []) p ≡ false
unfolding strcmp_eq
snoc-ne [] c = refl
snoc-ne (d ∷ p) c = ground (arith, snoc-ne p c)

-- Setting the path itself makes the test of such a watcher read behind the end of that path.
pub one_level_overread : (p : CString) → watch_matches (p ++ slash ∷ []) p ≡ fault out_of_bounds
unfolding watch_matches one_level_test no_slash_after
one_level_overread p = rw (
  snoc-ne p slash,
  last_char-append p slash,
  tail_test-slash (p ++ slash ∷ []) p,
  one_level_test,
  length-snoc p slash,
  strncmp_eq_self p (slash ∷ []),
  advance-end p slash,
)

no_slash_after-some : (rest : CString) → (b : Bool) × (no_slash_after (some rest) ≡ ok b)
unfolding no_slash_after
no_slash_after-some rest = (not (strchr rest slash), refl)

one_level_total :
    (p path : CString) → path ≢ p → (b : Bool) × (one_level_test (p ++ slash ∷ []) path ≡ ok b)
unfolding one_level_test
one_level_total p path ne =
    elim (Bool-cases (strncmp_eq path (p ++ slash ∷ []) (length (p ++ slash ∷ []) - 1))) [
      | inr miss ↦ (false, rw miss)
      | inl hit ↦
          let prefix = strncmp_eq_prefix path p (slash ∷ []) (rw (length-snoc p slash) at hit) in
          let (c, s, e) = longer p path (drop (length p) path) prefix ne in
          let (b, e') = no_slash_after-some s in
          (
            b,
            rw hit (
                ap (λ x. no_slash_after (advance x (length (p ++ slash ∷ [])))) e
                ∙ ap no_slash_after (advance-snoc p s slash c)
                ∙ e'),
          )
    ]
  where
    longer :
        (p path s : CString)
        → path ≡ p ++ s
        → path ≢ p
        → (c : ℕ) × (t : CString) × (path ≡ p ++ c ∷ t)
    longer p path [] e ne = absurd (ne (e ∙ append-nil p))
    longer p path (c ∷ t) e ne = (c, t, e)

ends_total :
    (c : ℕ) (p path : CString)
    → path ++ slash ∷ [] ≢ p ++ c ∷ []
    → (b : Bool) × (tail_test (some c) (p ++ c ∷ []) path ≡ ok b)
unfolding tail_test
ends_total c p path ne = elim (Bool-cases (c == star)) [
  | inl e ↦ (strncmp_eq path (p ++ c ∷ []) (length (p ++ c ∷ []) - 1), rw e)
  | inr other ↦ elim (Bool-cases (c == slash)) [
    | inr other' ↦ (false, rw (other, other'))
    | inl e ↦
        let c_slash = (==_iff c slash).0 e in
        let path_ne : path ≢ p = λ same. ne (rw (same, c_slash)) in
        let (b, e') = one_level_total p path path_ne in (b, rw c_slash e')
  ]
]

-- The test reads within its strings and comes out true or false, unless the watcher's path is
-- empty, or is the path with a '/' behind it.
pub watch_matches_total :
    (watched path : CString)
    → watched ≢ []
    → path ++ slash ∷ [] ≢ watched
    → (b : Bool) × (watch_matches watched path ≡ ok b)
unfolding watch_matches
watch_matches_total watched path ne over = elim (Bool-cases (strcmp_eq watched path)) [
  | inl same ↦ (true, rw same)
  | inr other ↦ elim (Option-cases (last_char watched)) [
    | inl e ↦ absurd (ne (last_char-none watched e))
    | inr (c, e) ↦
        let split = last_char_split watched c e in
        let (b, e') = ends_total c (drop_last watched) path (λ x. over (x ∙ sym split)) in
        (b, rw (other, e) (ap (λ x. tail_test (some c) x path) split ∙ e'))
  ]
]
