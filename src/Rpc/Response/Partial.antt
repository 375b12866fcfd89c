-- ===== src/Rpc/Response/Partial.antt =====
-- The client goes on reading exactly as long as the response is not whole.
use apteryx.Prelude.{
  ℕ, ◌+◌, ◌^◌, ◌≤◌, ◌<◌, ◌≡◌, ◌≢◌, refl, sym, ap, ◌∙◌, List, [], ◌∷◌, ◌++◌, false, true, ◌&&◌, ◌||◌,
  none, some, ltb, leb, length, take, drop, arith, Option-cases, Bool-cases, inl, inr, append-nil,
  subst,
}
use apteryx.Rpc.Header.{Header, header_length, pack_header, unpack_header}
use apteryx.Rpc.Framing.{next_message}
use apteryx.Rpc.Messages.{
  Whole, Whole-next_message, next_message-Whole, next_message-append, drop-append, length-drop,
}
use apteryx.Rpc.Packing.{drop-add, header-Whole}
use apteryx.Rpc.Response.{response_header, response_bytes, response_of}

-- The test for a whole response is the server's for a whole request, behind the status.
response_of-next_message :
    (b : List ℕ)
    → response_of b ≡ elim (next_message (drop 4 b)) [ none ↦ none | some m ↦ some m.1 ]
unfolding response_of next_message
response_of-next_message b =
    let u = unpack_header (drop 4 b) in
    let l = length-drop 4 b in
    let d : drop (header_length + 4) b ≡ drop header_length (drop 4 b) =
      drop-add 4 header_length b in
    elim (Bool-cases (
      ltb (length (drop 4 b)) header_length
      || ltb (length (drop 4 b)) (header_length + u.message_length))) [
        | inl short ↦
            let s : leb (header_length + 4) (length b)
                  && leb (header_length + 4 + u.message_length) (length b)
                ≡ false =
              ground (arith, short, l) in
            rw (short, s)
        | inr long ↦
            let s : leb (header_length + 4) (length b)
                  && leb (header_length + 4 + u.message_length) (length b)
                ≡ true =
              ground (arith, long, l) in
            rw (long, s) (ap (λ x. some (take u.message_length x)) d)
      ]

module _ (request : Header) (packed : List ℕ) (m : request.method_index < 2 ^ 32)
    (l : length packed < 2 ^ 32) (r : request.request_id < 2 ^ 32) where
  response-Whole :
      Whole (drop 4 (response_bytes request packed)) (response_header request packed) packed []
  unfolding response_bytes response_header
  response-Whole =
      subst (λ b. Whole b (response_header request packed) packed [])
        (append-nil (pack_header (response_header request packed) ++ packed))
        (header-Whole (response_header request packed) packed [] refl m l r)

  response-next_message :
      next_message (drop 4 (response_bytes request packed))
      ≡ some (response_header request packed, packed, [])
  response-next_message =
      Whole-next_message (drop 4 (response_bytes request packed)) (response_header request packed)
        packed [] response-Whole

  -- All of it is the response.
  pub response_of-response_bytes : response_of (response_bytes request packed) ≡ some packed
  response_of-response_bytes =
      response_of-next_message (response_bytes request packed) ∙ rw response-next_message

  -- Less than all of it is not.
  pub response_of-part :
      (b rest : List ℕ)
      → b ++ rest ≡ response_bytes request packed
      → rest ≢ []
      → response_of b ≡ none
  response_of-part b rest e ne = elim (Option-cases (next_message (drop 4 b))) [
    | inl none_yet ↦ response_of-next_message b ∙ rw none_yet
    | inr ((h, payload, left), found) ↦
        let more = next_message-append (drop 4 b) rest h payload left found in
        let four : 4 ≤ length b = long_enough b h payload left found in
        let all : next_message (drop 4 b ++ rest)
            ≡ some (response_header request packed, packed, []) =
          ap next_message (sym (drop-append 4 b rest four) ∙ ap (drop 4) e)
          ∙ response-next_message in
        let nothing : left ++ rest ≡ [] = ground (arith, more, all) in
        absurd (ne (append_nil_right left rest nothing))
  ]
    where
      append_nil_right : (xs ys : List ℕ) → xs ++ ys ≡ [] → ys ≡ []
      append_nil_right [] ys e = e
      append_nil_right (x ∷ xs) ys e = cc e

      long_enough :
          (b : List ℕ) (h : Header) (payload left : List ℕ)
          → next_message (drop 4 b) ≡ some (h, payload, left)
          → 4 ≤ length b
      long_enough b h payload left e =
          let w = next_message-Whole (drop 4 b) h payload left e in
          omega (arith, w.enough, length-drop 4 b)
