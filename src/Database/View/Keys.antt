-- ===== src/Database/View/Keys.antt =====
-- Canonical paths: how they are cut into keys, and when two of them are equal.
use apteryx.Prelude.{
  ℕ, List, [], ◌∷◌, ◌++◌, ◌≡◌, refl, ap, sym, ◌∙◌, none, some, true, false, ◌||◌, ◌⊎◌, inl, inr,
  ◌↔◌, arith, append_assoc, append-nil,
}
use apteryx.CString.{CString, slash, strchr, last_char, strcmp_eq}
use apteryx.CString.Laws.{strcmp_eq_iff, strcmp_eq_refl}
use apteryx.Database.Walk.Tokens.{tokens, trim, ends_in_slash, split_last}
use apteryx.Database.View.{IsKey, IsPath, render, path_eq, is_prefix}

path_eq_sound : (js ks : List CString) → path_eq js ks ≡ true → js ≡ ks
unfolding path_eq
path_eq_sound [] [] h = refl
path_eq_sound [] (k ∷ ks) h = cc
path_eq_sound (j ∷ js) [] h = cc
path_eq_sound (j ∷ js) (k ∷ ks) h = ground (arith, strcmp_eq_iff j k, path_eq_sound js ks)

path_eq_refl : (js : List CString) → path_eq js js ≡ true
unfolding path_eq
path_eq_refl [] = refl
path_eq_refl (j ∷ js) = ground (arith, strcmp_eq_refl j, path_eq_refl js)

pub path_eq_iff : (js ks : List CString) → (path_eq js ks ≡ true) ↔ (js ≡ ks)
path_eq_iff js ks = (path_eq_sound js ks, λ e. rw (← e) (path_eq_refl js))

tokens-append :
    (k s : CString) → strchr k slash ≡ false → tokens (k ++ s) ≡ (k ++ (tokens s).0, (tokens s).1)
unfolding tokens strchr
tokens-append [] s h = refl
tokens-append (c ∷ k) s h = ground (arith, tokens-append k s)

pub tokens-render : (ks : List CString) → IsPath ks → tokens (render ks) ≡ ([], ks)
unfolding tokens render
tokens-render [] h = refl
tokens-render (k ∷ ks) h =
    rw (tokens-append k (render ks) h.0.1, tokens-render ks h.1, append-nil) (ground arith)

last_char-append-cons :
    (s : CString) (c : ℕ) (t : CString) → last_char (s ++ c ∷ t) ≡ last_char (c ∷ t)
unfolding last_char
last_char-append-cons [] c t = refl
last_char-append-cons (d ∷ []) c t = refl
last_char-append-cons (d ∷ e ∷ s) c t = last_char-append-cons (e ∷ s) c t

ends_in_slash-key : (k : CString) → IsKey k → ends_in_slash k ≡ false
unfolding ends_in_slash last_char strchr
ends_in_slash-key [] h = absurd (h.0 refl)
ends_in_slash-key (c ∷ []) h = ground arith
ends_in_slash-key (c ∷ d ∷ k) h = ends_in_slash-key (d ∷ k) (λ e. cc, ground arith)

ends_in_slash-append-cons :
    (s : CString) (c : ℕ) (t : CString) → ends_in_slash (s ++ c ∷ t) ≡ ends_in_slash (c ∷ t)
unfolding ends_in_slash
ends_in_slash-append-cons s c t = rw (last_char-append-cons s c t, ends_in_slash)

pub ends_in_slash-render : (ks : List CString) → IsPath ks → ends_in_slash (render ks) ≡ false
unfolding render ends_in_slash last_char
ends_in_slash-render [] h = refl
ends_in_slash-render ([] ∷ ks) h = absurd (h.0.0 refl)
ends_in_slash-render ((c ∷ k) ∷ []) h =
    rw append-nil (ends_in_slash-append-cons (slash ∷ []) c k ∙ ends_in_slash-key (c ∷ k) h.0)
ends_in_slash-render (k ∷ j ∷ ks) h =
    ends_in_slash-append-cons (slash ∷ k) slash (j ++ render ks) ∙ ends_in_slash-render (j ∷ ks) h.1

pub trim-render : (ks : List CString) → IsPath ks → trim (render ks) ≡ render ks
unfolding trim
trim-render ks h = rw (ends_in_slash-render ks h)

split_last-key : (k : CString) → strchr k slash ≡ false → split_last k ≡ none
unfolding split_last strchr
split_last-key [] h = refl
split_last-key (c ∷ k) h = ground (arith, split_last-key k)

pub split_last-append :
    (s k : CString) → strchr k slash ≡ false → split_last (s ++ slash ∷ k) ≡ some (s, k)
unfolding split_last
split_last-append [] k h = rw (split_last-key k h)
split_last-append (c ∷ s) k h = rw (split_last-append s k h)

pub render-append : (js ks : List CString) → render (js ++ ks) ≡ render js ++ render ks
unfolding render
render-append [] ks = refl
render-append (j ∷ js) ks =
    rw (render-append js ks) (ap (λ s. slash ∷ s) (sym (append_assoc j (render js) (render ks))))

-- The last key and what stands before it.
pub split_last-render :
    (js : List CString) (k : CString)
    → IsKey k
    → split_last (render (js ++ k ∷ [])) ≡ some (render js, k)
unfolding render
split_last-render js k h =
    rw (render-append js (k ∷ []), append-nil) (split_last-append (render js) k h.1)

-- A path is empty or ends in a key.
pub snoc_cases :
    (ks : List CString) → (ks ≡ []) ⊎ ((js : List CString) × (k : CString) × (ks ≡ js ++ k ∷ []))
snoc_cases [] = inl refl
snoc_cases (k ∷ ks) = elim (snoc_cases ks) [
  | inl e ↦ inr ([], k, ap (◌∷◌ k) e)
  | inr (js, j, e) ↦ inr (k ∷ js, j, ap (◌∷◌ k) e)
]

pub IsPath-append : (js ks : List CString) → IsPath (js ++ ks) → IsPath js × IsPath ks
IsPath-append [] ks h = (tt, h)
IsPath-append (j ∷ js) ks h = let (a, b) = IsPath-append js ks h.1 in ((h.0, a), b)

pub is_prefix-append :
    (js ks : List CString) → is_prefix js ks ≡ true → (ls : List CString) × (ks ≡ js ++ ls)
unfolding is_prefix
is_prefix-append [] ks h = (ks, refl)
is_prefix-append (j ∷ js) [] h = cc
is_prefix-append (j ∷ js) (k ∷ ks) h =
    let both : (strcmp_eq j k ≡ true) × (is_prefix js ks ≡ true) = ground arith in
    let (ls, e) = is_prefix-append js ks both.1 in (ls, ground (arith, strcmp_eq_iff j k))

-- The prefixes of a path with one more key: those of the path, and the whole.
pub is_prefix-snoc :
    (js ks : List CString) (k : CString)
    → is_prefix js (ks ++ k ∷ []) ≡ (is_prefix js ks || path_eq js (ks ++ k ∷ []))
unfolding is_prefix path_eq
is_prefix-snoc [] ks k = refl
is_prefix-snoc (j ∷ []) [] k = ground arith
is_prefix-snoc (j ∷ i ∷ js) [] k = ground arith
is_prefix-snoc (j ∷ js) (i ∷ ks) k = ground (arith, is_prefix-snoc js ks k)

pub is_prefix_refl : (js : List CString) → is_prefix js js ≡ true
unfolding is_prefix
is_prefix_refl [] = refl
is_prefix_refl (j ∷ js) = ground (arith, strcmp_eq_refl j, is_prefix_refl js)

pub snoc-injective :
    (is js : List CString) (i j : CString) → is ++ i ∷ [] ≡ js ++ j ∷ [] → (is ≡ js) × (i ≡ j)
snoc-injective [] [] i j e = (refl, ground (arith, e))
snoc-injective [] (y ∷ []) i j e = cc
snoc-injective [] (y ∷ z ∷ js) i j e = cc
snoc-injective (x ∷ []) [] i j e = cc
snoc-injective (x ∷ z ∷ is) [] i j e = cc
snoc-injective (x ∷ is) (y ∷ js) i j e =
    let (same, last) = snoc-injective is js i j (ground (arith, e)) in
    (ground (arith, e, same), last)
