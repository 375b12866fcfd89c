-- ===== src/Rpc/Buffer.antt =====
-- The ProtobufCBufferSimple of protobuf-c, as rpc.c uses it: an interface, with the behaviour that
-- the library documents for it.
use apteryx.Prelude.{
  ℕ, ◌+◌, ◌≤◌, ◌<◌, ◌≡◌, ◌≢◌, List, [], ◌++◌, Result, ok, fault, null_pointer, use_after_free,
  length,
}

-- `data` is NULL, with the number in `alloced`; the caller's array of a size; a block of the
-- buffer's own; that block after it was freed. The bytes are those that `len` counts.
pub data Buffer : Type 0 where
  unset : ℕ → Buffer
  fixed : ℕ → List ℕ → Buffer
  owned : List ℕ → Buffer
  freed : Buffer

-- The bytes that `len` counts, and other bytes in their place.
unfoldable pub contents : Buffer → List ℕ
contents (unset n) = []
contents (fixed n b) = b
contents (owned b) = b
contents freed = []

unfoldable pub refill : Buffer → List ℕ → Buffer
refill (unset n) l = unset n
refill (fixed n b) l = fixed n l
refill (owned b) l = owned l
refill freed l = freed

-- `append` gets a new block where the bytes would be more than `alloced`, and copies them behind
-- the others; `clear` frees the buffer's own block and leaves the pointer to it.
pub record BufferSimple : Type 0 where
  pub append : Buffer → List ℕ → Result Buffer
  pub clear : Buffer → Buffer
  pub unset_fits :
      (n : ℕ) (x : List ℕ) → x ≢ [] → length x ≤ n → append (unset n) x ≡ fault null_pointer
  pub unset_grows : (n : ℕ) (x : List ℕ) → n < length x → append (unset n) x ≡ ok (owned x)
  pub fixed_fits :
      (n : ℕ) (b x : List ℕ)
      → length b + length x ≤ n
      → append (fixed n b) x ≡ ok (fixed n (b ++ x))
  pub fixed_grows :
      (n : ℕ) (b x : List ℕ) → n < length b + length x → append (fixed n b) x ≡ ok (owned (b ++ x))
  pub owned_grows : (b x : List ℕ) → append (owned b) x ≡ ok (owned (b ++ x))
  pub freed_fails : (x : List ℕ) → x ≢ [] → append freed x ≡ fault use_after_free
  pub clear_fixed : (n : ℕ) (b : List ℕ) → clear (fixed n b) ≡ fixed n b
  pub clear_owned : (b : List ℕ) → clear (owned b) ≡ freed
