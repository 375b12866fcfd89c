-- ===== src/Logging/Bounds.antt =====
-- How long a value may be for the buffer of `bytes_to_string`.
use apteryx.Prelude.{
  subst, ◌/◌, ◌%◌, ◌-◌, All, ℕ, ◌+◌, ◌*◌, ◌≤◌, ◌<◌, ◌≡◌, ap, sym, ◌∙◌, List, [], ◌∷◌, ◌++◌, Bool,
  true, false, ltb, if◌then◌else◌, ok, fault, out_of_bounds, length, length-append, append_assoc,
  append-nil, arith, Bool-cases, inl, inr,
}
use apteryx.CString.{CString}
use apteryx.Logging.{buffer_size, hex, print_byte, print_from, bytes_to_string, printed}

-- A digit below 16 as a character.
pub data HexDigit : ℕ → ℕ → Type 0 where
  decimal : (d : ℕ) → d < 10 → HexDigit d (48 + d)
  letter : (d : ℕ) → d < 6 → HexDigit (10 + d) (97 + d)

-- The text of a value: each byte as it is, if it is printable, and else as a backslash and two
-- digits.
pub data Printed (isprint : ℕ → Bool) : List ℕ → CString → Type 0 where
  nothing : Printed isprint [] []
  plain :
      {b : ℕ} {bs : List ℕ} {s : CString}
      → isprint b ≡ true
      → Printed isprint bs s
      → Printed isprint (b ∷ bs) (b ∷ s)
  escaped :
      {b : ℕ} {bs : List ℕ} {s : CString} (hi lo c d : ℕ)
      → isprint b ≡ false
      → b ≡ 16 * hi + lo
      → HexDigit hi c
      → HexDigit lo d
      → Printed isprint bs s
      → Printed isprint (b ∷ bs) (92 ∷ c ∷ d ∷ s)

hex-HexDigit : (d : ℕ) → d < 16 → HexDigit d (hex d)
unfolding hex
hex-HexDigit d h = elim (Bool-cases (ltb d 10)) [
  | inl small ↦ rw small (HexDigit.decimal d (ground arith))
  | inr big ↦
      let digit : d ≡ 10 + (d - 10) = ground arith in
      let same : 97 + (d - 10) ≡ 87 + d = ground arith in
      rw big (
        subst (λ x. HexDigit x (87 + d)) (sym digit)
          (subst (HexDigit (10 + (d - 10))) same (HexDigit.letter (d - 10) (ground arith))))
]

module _ (isprint : ℕ → Bool) where
  printed-Printed : (bs : List ℕ) → All (λ b. b < 256) bs → Printed isprint bs (printed isprint bs)
  unfolding printed print_byte
  printed-Printed [] all = Printed.nothing
  printed-Printed (b ∷ bs) (h, all) = elim (Bool-cases (isprint b)) [
    | inl e ↦ rw e (Printed.plain e (printed-Printed bs all))
    | inr e ↦ rw e (
        Printed.escaped (b / 16) (b % 16) (hex (b / 16)) (hex (b % 16)) e (omega arith)
          (hex-HexDigit (b / 16) (omega (arith, h))) (hex-HexDigit (b % 16) (omega arith))
          (printed-Printed bs all))
  ]

  length-print_byte :
      (b : ℕ) → (1 ≤ length (print_byte isprint b)) × (length (print_byte isprint b) ≤ 3)
  unfolding print_byte
  length-print_byte b = elim (Bool-cases (isprint b)) [
    | inl e ↦ rw (e, print_byte) (omega arith, omega arith)
    | inr e ↦ rw (e, print_byte) (omega arith, omega arith)
  ]

  print_from-printed :
      (bs : List ℕ) (out : CString)
      → length out < buffer_size
      → print_from isprint bs out ≡ (
          if ltb (length out + length (printed isprint bs)) buffer_size
          then ok (out ++ printed isprint bs)
          else fault out_of_bounds)
  unfolding print_from printed
  print_from-printed [] out h =
      let fits : ltb (length out + 0) buffer_size ≡ true = ground (arith, h) in
      rw fits (ap ok (sym (append-nil out)))
  print_from-printed (b ∷ bs) out h =
      let p = print_byte isprint b in
      let here = length-append out p in
      let all = length-append p (printed isprint bs) in
      elim (Bool-cases (ltb (length (out ++ p)) buffer_size)) [
        | inl more ↦
            let ih = print_from-printed bs (out ++ p) (ground (arith, more)) in
            let same : length (out ++ p) + length (printed isprint bs)
                ≡ length out + length (p ++ printed isprint bs) =
              omega (arith, here, all) in
            rw more (
              ih
              ∙ ap
                  (λ n.
                    if ltb n buffer_size
                    then ok (out ++ p ++ printed isprint bs)
                    else fault out_of_bounds)
                  same
              ∙ ap
                  (λ s.
                    if ltb (length out + length (p ++ printed isprint bs)) buffer_size
                    then ok s
                    else fault out_of_bounds)
                  (append_assoc out p (printed isprint bs)))
        | inr full ↦
            let over : ltb (length out + length (p ++ printed isprint bs)) buffer_size ≡ false =
              ground (arith, full, here, all) in
            rw (full, over)
      ]

  length-printed :
      (bs : List ℕ)
      → (length bs ≤ length (printed isprint bs)) × (length (printed isprint bs) ≤ 3 * length bs)
  unfolding printed
  length-printed [] = (omega arith, omega arith)
  length-printed (b ∷ bs) =
      let here = length-print_byte b in
      let ih = length-printed bs in
      let all = length-append (print_byte isprint b) (printed isprint bs) in
      (omega (arith, here.0, ih.0, all), omega (arith, here.1, ih.1, all))

  -- The text of a value of bytes is the bytes that can be printed and the others as a backslash and
  -- two digits in hexadecimal. `bytes_to_string` writes within its buffer exactly if that text has
  -- at most 1023 characters, and then it returns it. They are at least as many as the bytes, and at
  -- most three times as many.
  pub bytes_to_string-Printed :
      (value : List ℕ)
      → All (λ b. b < 256) value
      → (text : CString) × Printed isprint value text
        × (bytes_to_string isprint value
            ≡ (if ltb (length text) buffer_size then ok text else fault out_of_bounds))
        × (length value ≤ length text)
        × (length text ≤ 3 * length value)
  unfolding bytes_to_string
  bytes_to_string-Printed value all =
      let (least, most) = length-printed value in
      (
        printed isprint value,
        printed-Printed value all,
        print_from-printed value [] (omega arith)
            ∙ ap
                (λ n. if ltb n buffer_size then ok (printed isprint value) else fault out_of_bounds)
                (omega arith),
        least,
        most,
      )
