-- ===== src/Rpc/Sending.antt =====
-- rpc.c: the loops that send a buffer, in `invoke_client_service` and in
-- `server_connection_response_closure`.
use apteryx.Prelude.{
  ℕ, ◌+◌, ◌-◌, ◌<◌, ◌≡◌, ◌↔◌, refl, sym, ap, ◌∙◌, List, [], ◌∷◌, ◌++◌, if◌then◌else◌, ◌==◌, false,
  zero, suc, append-nil, length, take, drop, arith,
}

-- What reaches the wire, for the counts of bytes that the calls of `send` take, none of them 0 or an
-- error. The pointer `data` to the buffer stays where it was, while the length falls.
unfoldable pub send_loop : List ℕ → List ℕ → ℕ → List ℕ
send_loop [] buffer len = []
send_loop (rv ∷ rvs) buffer len =
    let rest = send_loop rvs buffer (len - rv) in if len == 0 then [] else take rv buffer ++ rest

take-drop : (n : ℕ) (b : List ℕ) → take n b ++ drop n b ≡ b
take-drop zero b = refl
take-drop (suc n) [] = refl
take-drop (suc n) (x ∷ b) = ap (◌∷◌ x) (take-drop n b)

append_left_injective : (p s t : List ℕ) → p ++ s ≡ p ++ t → s ≡ t
append_left_injective [] s t e = e
append_left_injective (x ∷ p) s t e = append_left_injective p s t (ground (arith, e))

-- Where `send` takes the buffer in two parts, the second call sends the beginning of the buffer
-- again: what reaches the wire is the buffer exactly if its beginning and its end are the same.
pub send_loop-short :
    (buffer : List ℕ) (j k : ℕ)
    → 0 < j
    → 0 < k
    → j + k ≡ length buffer
    → (send_loop (j ∷ k ∷ []) buffer (length buffer) ≡ take j buffer ++ take k buffer)
      × ((send_loop (j ∷ k ∷ []) buffer (length buffer) ≡ buffer) ↔ (take k buffer ≡ drop j buffer))
unfolding send_loop
send_loop-short buffer j k hj hk e =
    let first : (length buffer == 0) ≡ false = ground arith in
    let second : (length buffer - j == 0) ≡ false = ground arith in
    let sent : send_loop (j ∷ k ∷ []) buffer (length buffer) ≡ take j buffer ++ take k buffer =
      rw (first, second) (ap (λ s. take j buffer ++ s) (append-nil (take k buffer))) in
    (
      sent,
      (
        λ whole.
            append_left_injective (take j buffer) (take k buffer) (drop j buffer)
              (sym sent ∙ whole ∙ sym (take-drop j buffer)),
        λ same. sent ∙ ap (λ s. take j buffer ++ s) same ∙ take-drop j buffer,
      ),
    )
