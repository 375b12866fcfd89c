-- ===== src/Client/Numbers/Decimal.antt =====
-- A number that is printed is read back.
use apteryx.Prelude.{
  ℕ, zero, suc, ◌+◌, ◌-◌, ◌*◌, ◌/◌, ◌%◌, ◌≤◌, ◌<◌, ◌≡◌, refl, ap, sym, ◌∙◌, List, [], ◌∷◌, ◌++◌,
  ◌&&◌, ◌||◌, ◌==◌, ltb, leb, true, false, ok, arith, append_assoc, Bool-cases, inl, inr,
}
use apteryx.Client.Numbers.{ℤ, IsInt32, decimal, print_int, digits, negate, atoi}

-- The fuel is enough for the digits.
abbrev pub Fits : ℕ → ℕ → Type 0
Fits zero n = n < 1
Fits (suc f) n = Fits f (n / 10)

-- One digit.
digits-digit : (n d : ℕ) (s : List ℕ) → d < 10 → digits n ((48 + d) ∷ s) ≡ digits (n * 10 + d) s
unfolding digits
digits-digit n d s l =
    let inside : (leb 48 (48 + d) && leb (48 + d) 57) ≡ true = ground (arith, l) in
    let e : n * 10 + (48 + d - 48) ≡ n * 10 + d = omega arith in rw (inside, e)

some_fuel : (f n : ℕ) → 10 ≤ n → Fits f (n / 10) → 0 < f
some_fuel zero n l fits = absurd (omega (arith, l, fits))
some_fuel (suc f) n l fits = omega arith

digits-decimal :
    (f n : ℕ) (s : List ℕ) → 0 < f → Fits f n → digits 0 (decimal f n ++ s) ≡ digits n s
unfolding decimal
digits-decimal zero n s l fits = absurd (omega (arith, l))
digits-decimal (suc f) n s l fits = elim (Bool-cases (ltb n 10)) [
  | inl b ↦
      let same : 0 * 10 + n ≡ n = omega arith in
      rw b (digits-digit 0 n s (ground (arith, b)) ∙ ap (λ m. digits m s) same)
  | inr b ↦
      let more : 0 < f = some_fuel f n (ground (arith, b)) fits in
      let last : n / 10 * 10 + n % 10 ≡ n = omega arith in
      rw b (
        ap (digits 0) (append_assoc (decimal f (n / 10)) ((48 + n % 10) ∷ []) s)
        ∙ digits-decimal f (n / 10) ((48 + n % 10) ∷ s) more fits
        ∙ digits-digit (n / 10) (n % 10) s (omega arith)
        ∙ ap (λ m. digits m s) last)
]

-- The text begins with a digit.
decimal-head :
    (f n : ℕ) → 0 < f → Fits f n → (d : ℕ) × (t : List ℕ) × (decimal f n ≡ (48 + d) ∷ t) × (d < 10)
unfolding decimal
decimal-head zero n l fits = absurd (omega (arith, l))
decimal-head (suc f) n l fits = elim (Bool-cases (ltb n 10)) [
  | inl b ↦ (n, [], rw b, ground (arith, b))
  | inr b ↦
      let more : 0 < f = some_fuel f n (ground (arith, b)) fits in
      let (d, t, e, l') = decimal-head f (n / 10) more fits in
      (d, t ++ (48 + n % 10) ∷ [], rw (b, e), l')
]

atoi-digit :
    (d n : ℕ) (t : List ℕ)
    → d < 10
    → digits 0 ((48 + d) ∷ t) ≡ ok n
    → atoi ((48 + d) ∷ t) ≡ ok (ℤ.pos n)
unfolding atoi
atoi-digit d n t l e =
    let space : (48 + d == 32 || leb 9 (48 + d) && leb (48 + d) 13) ≡ false = ground (arith, l) in
    let minus : (48 + d == 45) ≡ false = ground (arith, l) in
    let plus : (48 + d == 43) ≡ false = ground (arith, l) in rw (space, minus, plus, e)

minus_read : (m : ℕ) (t : List ℕ) → digits 0 t ≡ ok m → atoi (45 ∷ t) ≡ ok (negate m)
unfolding atoi
minus_read m t e = rw e

digits-end : (n : ℕ) (s : List ℕ) → digits n (zero ∷ s) ≡ ok n
unfolding digits
digits-end n s = refl

-- What `atoi` makes of what "%d" prints, with its terminator.
pub atoi-print_int : (z : ℤ) (s : List ℕ) → IsInt32 z → atoi (print_int z ++ zero ∷ s) ≡ ok z
unfolding print_int
atoi-print_int (ℤ.pos n) s h =
    let fits : Fits 10 n = omega (arith, h) in
    let (d, t, e, l) = decimal-head 10 n (omega arith) fits in
    let read = digits-decimal 10 n (zero ∷ s) (omega arith) fits ∙ digits-end n s in
    ap (λ x. atoi (x ++ zero ∷ s)) e
    ∙ atoi-digit d n (t ++ zero ∷ s) l (ap (λ x. digits 0 (x ++ zero ∷ s)) (sym e) ∙ read)
atoi-print_int (ℤ.negsuc n) s h =
    let fits : Fits 10 (n + 1) = omega (arith, h) in
    let read = digits-decimal 10 (n + 1) (zero ∷ s) (omega arith) fits ∙ digits-end (n + 1) s in
    minus_read (n + 1) (decimal 10 (n + 1) ++ zero ∷ s) read ∙ ap ok (negative n)
  where
    negative : (n : ℕ) → negate (n + 1) ≡ ℤ.negsuc n
    negative n = let e : n + 1 ≡ suc n = omega arith in ap negate e ∙ (unfold negate in refl)
