-- ===== src/CString/Laws.antt =====
-- What the string tests decide.
use apteryx.Prelude.{ℕ, ◌≡◌, refl, ap, ◌↔◌, [], ◌∷◌, ◌++◌, true, none, some, arith, length, drop}
use apteryx.CString.{CString, strcmp_eq, strncmp_eq, last_char, drop_last, advance}

pub strcmp_eq_sound : (a b : CString) → strcmp_eq a b ≡ true → a ≡ b
unfolding strcmp_eq
strcmp_eq_sound [] [] h = refl
strcmp_eq_sound [] (d ∷ b) h = cc
strcmp_eq_sound (c ∷ a) [] h = cc
strcmp_eq_sound (c ∷ a) (d ∷ b) h = ground (arith, strcmp_eq_sound a b)

pub strcmp_eq_refl : (a : CString) → strcmp_eq a a ≡ true
unfolding strcmp_eq
strcmp_eq_refl [] = refl
strcmp_eq_refl (c ∷ a) = ground (arith, strcmp_eq_refl a)

pub strcmp_eq_iff : (a b : CString) → (strcmp_eq a b ≡ true) ↔ (a ≡ b)
strcmp_eq_iff a b = (strcmp_eq_sound a b, λ e. rw (← e) (strcmp_eq_refl a))

-- Up to the length of `p`, strncmp tests for a prefix.
pub strncmp_eq-append : (p s : CString) → strncmp_eq (p ++ s) p (length p) ≡ true
unfolding strncmp_eq
strncmp_eq-append [] s = refl
strncmp_eq-append (c ∷ p) s = ground (arith, strncmp_eq-append p s)

pub strncmp_eq_prefix :
    (s p q : CString) → strncmp_eq s (p ++ q) (length p) ≡ true → s ≡ p ++ drop (length p) s
unfolding strncmp_eq
strncmp_eq_prefix s [] q h = refl
strncmp_eq_prefix [] (d ∷ p) q h = cc
strncmp_eq_prefix (c ∷ s) (d ∷ p) q h = ground (arith, strncmp_eq_prefix s p q)

pub strncmp_eq-append₂ : (p s q : CString) → strncmp_eq (p ++ s) (p ++ q) (length p) ≡ true
unfolding strncmp_eq
strncmp_eq-append₂ [] s q = refl
strncmp_eq-append₂ (c ∷ p) s q = ground (arith, strncmp_eq-append₂ p s q)

pub advance-append : (p s : CString) → advance (p ++ s) (length p) ≡ some s
unfolding advance
advance-append [] s = refl
advance-append (c ∷ p) s = advance-append p s

pub last_char-append : (p : CString) (c : ℕ) → last_char (p ++ c ∷ []) ≡ some c
unfolding last_char
last_char-append [] c = refl
last_char-append (d ∷ []) c = refl
last_char-append (d ∷ e ∷ p) c = last_char-append (e ∷ p) c

pub drop_last-append : (p : CString) (c : ℕ) → drop_last (p ++ c ∷ []) ≡ p
unfolding drop_last
drop_last-append [] c = refl
drop_last-append (d ∷ []) c = refl
drop_last-append (d ∷ e ∷ p) c = ap (◌∷◌ d) (drop_last-append (e ∷ p) c)

-- A string with a last byte ends in it.
pub last_char_split : (s : CString) (c : ℕ) → last_char s ≡ some c → s ≡ drop_last s ++ c ∷ []
unfolding last_char drop_last
last_char_split [] c h = cc
last_char_split (d ∷ []) c h = ground arith
last_char_split (d ∷ e ∷ s) c h = ap (◌∷◌ d) (last_char_split (e ∷ s) c h)

pub strncmp_eq_self : (p q : CString) → strncmp_eq p (p ++ q) (length p) ≡ true
unfolding strncmp_eq
strncmp_eq_self [] q = refl
strncmp_eq_self (c ∷ p) q = ground (arith, strncmp_eq_self p q)

pub last_char-none : (s : CString) → last_char s ≡ none → s ≡ []
unfolding last_char
last_char-none [] h = refl
last_char-none (c ∷ []) h = cc
last_char-none (c ∷ d ∷ s) h = cc (last_char-none (d ∷ s) h)
