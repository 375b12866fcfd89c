-- ===== src/Rpc/Messages.antt =====
-- What `next_message` finds, and that it does not depend on what follows.
use apteryx.Prelude.{
  ℕ, zero, suc, ◌+◌, ◌-◌, ◌≤◌, ◌<◌, ◌≡◌, refl, sym, ap, ◌∙◌, List, [], ◌∷◌, ◌++◌, false, ◌||◌, some,
  ltb, length, take, drop, length-append, arith, Bool-cases, inl, inr,
}
use apteryx.Rpc.Header.{Header, header_length, ltoh32, unpack_header}
use apteryx.Rpc.Framing.{next_message}

module _ {A : Type 0} where
  pub drop-append : (n : ℕ) (b y : List A) → n ≤ length b → drop n (b ++ y) ≡ drop n b ++ y
  drop-append zero b y h = refl
  drop-append (suc n) [] y h = absurd (omega (arith, h))
  drop-append (suc n) (x ∷ b) y h = drop-append n b y (omega (arith, h))

  pub take-append : (n : ℕ) (b y : List A) → n ≤ length b → take n (b ++ y) ≡ take n b
  take-append zero b y h = refl
  take-append (suc n) [] y h = absurd (omega (arith, h))
  take-append (suc n) (x ∷ b) y h = ap (◌∷◌ x) (take-append n b y (omega (arith, h)))

  pub length-drop : (n : ℕ) (b : List A) → length (drop n b) ≡ length b - n
  length-drop zero b = omega arith
  length-drop (suc n) [] = omega arith
  length-drop (suc n) (x ∷ b) = omega (arith, length-drop n b)

ltoh32-append : (b y : List ℕ) → 4 ≤ length b → ltoh32 (b ++ y) ≡ ltoh32 b
unfolding ltoh32
ltoh32-append [] y h = absurd (omega (arith, h))
ltoh32-append (a ∷ []) y h = absurd (omega (arith, h))
ltoh32-append (a ∷ b ∷ []) y h = absurd (omega (arith, h))
ltoh32-append (a ∷ b ∷ c ∷ []) y h = absurd (omega (arith, h))
ltoh32-append (a ∷ b ∷ c ∷ d ∷ s) y h = refl

unpack_header-append : (b y : List ℕ) → 12 ≤ length b → unpack_header (b ++ y) ≡ unpack_header b
unfolding unpack_header
unpack_header-append b y h =
    let first = ltoh32-append b y (omega (arith, h)) in
    let second =
      ap ltoh32 (drop-append 4 b y (omega (arith, h)))
      ∙ ltoh32-append (drop 4 b) y (omega (arith, h, length-drop 4 b)) in
    let third =
      ap ltoh32 (drop-append 8 b y (omega (arith, h)))
      ∙ ltoh32-append (drop 8 b) y (omega (arith, h, length-drop 8 b)) in
    cc (first, second, third)

some-injective : {A : Type 0} {a b : A} → some a ≡ some b → a ≡ b
some-injective e = cc

-- What it is for a message to be there.
pub record Whole (b : List ℕ) (h : Header) (payload rest : List ℕ) : Type 0 where
  pub header : h ≡ unpack_header b
  pub enough : header_length + h.message_length ≤ length b
  pub payload_eq : payload ≡ take h.message_length (drop header_length b)
  pub rest_eq : rest ≡ drop (header_length + h.message_length) b

pub next_message-Whole :
    (b : List ℕ) (h : Header) (payload rest : List ℕ)
    → next_message b ≡ some (h, payload, rest)
    → Whole b h payload rest
unfolding next_message
next_message-Whole b h payload rest e =
    let u = unpack_header b in
    elim (Bool-cases
      (ltb (length b) header_length || ltb (length b) (header_length + u.message_length))) [
        | inl short ↦ cc (rw short at e)
        | inr long ↦
            let parts = some-injective (rw long at e) in
            let length_eq = ap (λ t. t.0.message_length) parts in
            record {
              header = sym (ap (λ t. t.0) parts);
              enough = ground (arith, length_eq);
              payload_eq =
                  sym (ap (λ t. t.1) parts) ∙ ap (λ n. take n (drop header_length b)) length_eq;
              rest_eq = sym (ap (λ t. t.2) parts) ∙ ap (λ n. drop (header_length + n) b) length_eq;
            }
      ]

pub Whole-next_message :
    (b : List ℕ) (h : Header) (payload rest : List ℕ)
    → Whole b h payload rest
    → next_message b ≡ some (h, payload, rest)
unfolding next_message
Whole-next_message b h payload rest w =
    let length_eq : h.message_length ≡ (unpack_header b).message_length =
      ap (λ x. x.message_length) w.header in
    let long : (ltb (length b) header_length
          || ltb (length b) (header_length + (unpack_header b).message_length))
        ≡ false =
      ground (arith, w.enough, length_eq) in
    rw (w.payload_eq, w.rest_eq, w.header) (rw long refl)

pub next_message-append :
    (b y : List ℕ) (h : Header) (payload rest : List ℕ)
    → next_message b ≡ some (h, payload, rest)
    → next_message (b ++ y) ≡ some (h, payload, rest ++ y)
next_message-append b y h payload rest e =
    let w = next_message-Whole b h payload rest e in
    let l : 12 ≤ length b = omega (arith, w.enough) in
    let n : h.message_length ≤ length (drop header_length b) =
      omega (arith, w.enough, length-drop header_length b) in
    Whole-next_message (b ++ y) h payload (rest ++ y) (record {
      header = w.header ∙ sym (unpack_header-append b y l);
      enough = omega (arith, w.enough, length-append b y);
      payload_eq =
          w.payload_eq
          ∙ sym (take-append h.message_length (drop header_length b) y n)
          ∙ ap (take h.message_length) (sym (drop-append header_length b y l));
      rest_eq =
          ap (λ r. r ++ y) w.rest_eq
          ∙ sym (drop-append (header_length + h.message_length) b y w.enough);
    })

pub length-rest :
    (b : List ℕ) (h : Header) (payload rest : List ℕ)
    → next_message b ≡ some (h, payload, rest)
    → length rest < length b
length-rest b h payload rest e =
    let w = next_message-Whole b h payload rest e in
    omega (arith, w.enough, ap length w.rest_eq, length-drop (header_length + h.message_length) b)
