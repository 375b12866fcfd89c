-- ===== src/Rpc/Packing.antt =====
-- rpc.c: a header and the bytes behind it, once they are packed, are a message.
use apteryx.Prelude.{
  ℕ, zero, suc, ◌+◌, ◌^◌, ◌<◌, ◌≡◌, refl, sym, ap, ◌∙◌, List, [], ◌∷◌, ◌++◌, length, take, drop,
  length-append, append_assoc, arith,
}
use apteryx.Rpc.Header.{
  Header, header_length, htol32, pack_header, unpack_header, unpack_header-pack_header,
}
use apteryx.Rpc.Messages.{Whole}

module _ {A : Type 0} where
  drop-nil : (n : ℕ) → drop {A = A} n [] ≡ []
  drop-nil zero = refl
  drop-nil (suc n) = refl

  pub drop-add : (m n : ℕ) (b : List A) → drop (m + n) b ≡ drop n (drop m b)
  drop-add m n [] = drop-nil (m + n) ∙ sym (ap (drop n) (drop-nil m) ∙ drop-nil n)
  drop-add zero n (x ∷ b) = let k : zero + n ≡ n = omega arith in ap (λ i. drop i (x ∷ b)) k
  drop-add (suc m) n (x ∷ b) =
      let k : suc m + n ≡ suc (m + n) = omega arith in ap (λ i. drop i (x ∷ b)) k ∙ drop-add m n b

  pub take_all : (p s : List A) → take (length p) (p ++ s) ≡ p
  take_all [] s = refl
  take_all (x ∷ p) s = ap (◌∷◌ x) (take_all p s)

  pub drop_all : (p s : List A) → drop (length p) (p ++ s) ≡ s
  drop_all [] s = refl
  drop_all (x ∷ p) s = drop_all p s

pub length-pack_header : (h : Header) → length (pack_header h) ≡ 12
unfolding pack_header htol32
length-pack_header h = refl

pub drop-pack_header : (h : Header) (s : List ℕ) → drop header_length (pack_header h ++ s) ≡ s
unfolding pack_header htol32
drop-pack_header h s = refl

-- A header that has the length of the bytes behind it makes them a message.
pub header-Whole :
    (h : Header) (p s : List ℕ)
    → h.message_length ≡ length p
    → h.method_index < 2 ^ 32
    → h.message_length < 2 ^ 32
    → h.request_id < 2 ^ 32
    → Whole (pack_header h ++ p ++ s) h p s
header-Whole h p s len m l r =
    let split = append_assoc (pack_header h) p s in
    record {
      header = sym (ap unpack_header split ∙ unpack_header-pack_header h (p ++ s) m l r);
      enough = omega (
        arith,
        len,
        length-append (pack_header h ++ p) s,
        length-append (pack_header h) p,
        length-pack_header h,
      );
      payload_eq = sym (
          ap (λ b. take h.message_length (drop header_length b)) split
          ∙ ap (take h.message_length) (drop-pack_header h (p ++ s))
          ∙ ap (λ n. take n (p ++ s)) len
          ∙ take_all p s);
      rest_eq = sym (
          ap (drop (header_length + h.message_length)) split
          ∙ drop-add header_length h.message_length (pack_header h ++ (p ++ s))
          ∙ ap (drop h.message_length) (drop-pack_header h (p ++ s))
          ∙ ap (λ n. drop n (p ++ s)) len
          ∙ drop_all p s);
    }
