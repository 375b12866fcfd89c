-- ===== src/Rpc/Header.antt =====
-- rpc.c: `rpc_message_t` and its header, three words in little-endian order whatever the host's is.
use apteryx.Prelude.{ℕ, ◌+◌, ◌*◌, ◌/◌, ◌%◌, ◌^◌, ◌<◌, ◌≡◌, refl, List, [], ◌∷◌, ◌++◌, drop, arith}

pub record Header : Type 0 where
  pub method_index : ℕ
  pub message_length : ℕ
  pub request_id : ℕ

-- RPC_HEADER_LENGTH
abbrev pub header_length : ℕ
header_length = 12

-- A uint32_t that htol32 has put in order, byte by byte.
unfoldable pub htol32 : ℕ → List ℕ
htol32 v = v % 256 ∷ v / 256 % 256 ∷ v / 65536 % 256 ∷ v / 16777216 % 256 ∷ []

-- ltoh32 of the word that starts here. Where fewer than four bytes have been read, the source reads
-- bytes that it then does not use.
unfoldable pub ltoh32 : List ℕ → ℕ
ltoh32 (a ∷ b ∷ c ∷ d ∷ s) = a + 256 * b + 65536 * c + 16777216 * d
ltoh32 s = 0

unfoldable pub pack_header : Header → List ℕ
unfolding htol32
pack_header h = htol32 h.method_index ++ htol32 h.message_length ++ htol32 h.request_id

unfoldable pub unpack_header : List ℕ → Header
unfolding ltoh32
unpack_header b = record {
  method_index = ltoh32 b;
  message_length = ltoh32 (drop 4 b);
  request_id = ltoh32 (drop 8 b);
}

ltoh32-htol32 : (v : ℕ) (s : List ℕ) → v < 2 ^ 32 → ltoh32 (htol32 v ++ s) ≡ v
unfolding ltoh32 htol32
ltoh32-htol32 v s h = omega (arith, h)

-- A header whose fields fit in 32 bits is read back from what was packed, whatever follows it.
pub unpack_header-pack_header :
    (h : Header) (s : List ℕ)
    → h.method_index < 2 ^ 32
    → h.message_length < 2 ^ 32
    → h.request_id < 2 ^ 32
    → unpack_header (pack_header h ++ s) ≡ h
unfolding unpack_header pack_header htol32
unpack_header-pack_header h s m l r =
    rw
      (
        ltoh32-htol32 h.method_index (htol32 h.message_length ++ htol32 h.request_id ++ s) m,
        ltoh32-htol32 h.message_length (htol32 h.request_id ++ s) l,
        ltoh32-htol32 h.request_id s r,
      )
      refl
