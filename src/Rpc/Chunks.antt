-- ===== src/Rpc/Chunks.antt =====
-- The bytes of a connection, read in chunks.
use apteryx.Prelude.{
  ℕ, zero, suc, ◌+◌, ◌<◌, ◌≡◌, refl, List, [], ◌∷◌, ◌++◌, Option, none, some, length, ltb, Result,
  ok, ◌>>=◌,
}
use apteryx.Rpc.Header.{Header, header_length}
use apteryx.Rpc.Buffer.{Buffer, owned, BufferSimple, contents, refill}
use apteryx.Rpc.Framing.{
  Invocation, bytes, next_message, decode, invoke, on_message, conn_loop, conn_callback, new_buffer,
}

module _ {M : Type 0} (n_methods : ℕ) (unpack : ℕ → List ℕ → Option M) where
  pub conn_loop-none :
      (f : ℕ) (b : List ℕ)
      → next_message b ≡ none
      → conn_loop n_methods unpack (suc f) b ≡ ok ([], some b)
  unfolding conn_loop
  conn_loop-none f b e = rw (e, conn_loop, on_message)

  pub conn_loop-some :
      (f : ℕ) (b : List ℕ) (h : Header) (payload rest : List ℕ)
      → next_message b ≡ some (h, payload, rest)
      → conn_loop n_methods unpack (suc f) b
        ≡ invoke n_methods unpack
            (decode n_methods unpack h payload)
            (ltb (header_length + h.message_length) (length rest))
            (conn_loop n_methods unpack f rest)
  unfolding conn_loop
  conn_loop-some f b h payload rest e = rw (e, conn_loop, on_message)

  pub conn_loop-nil : (f : ℕ) → conn_loop n_methods unpack f [] ≡ ok ([], some [])
  unfolding conn_loop next_message
  conn_loop-nil zero = refl
  conn_loop-nil (suc f) = conn_loop-none f [] refl

  module _ (lib : BufferSimple) where
    -- Reads of bytes, one after the other, on a connection whose buffer is given.
    unfoldable pub conn_reads :
        List (List ℕ) → Buffer → Result (List (Invocation M) × Option Buffer)
    unfolding conn_callback
    conn_reads [] b = ok ([], some b)
    conn_reads (x ∷ xs) b = do
      (is, left) ← conn_callback n_methods unpack lib (bytes x) b
      elim left [
        | none ↦ ok (is, none)
        | some b' ↦ do (js, left') ← conn_reads xs b'; ok (is ++ js, left')
      ]

    pub conn_callback-owned :
        (x b l : List ℕ) (is : List (Invocation M))
        → conn_loop n_methods unpack (suc (length (b ++ x))) (b ++ x) ≡ ok (is, some l)
        → conn_callback n_methods unpack lib (bytes x) (owned b) ≡ ok (is, some (owned l))
    unfolding conn_callback contents refill
    conn_callback-owned x b l is e = rw (lib.owned_grows b x, e) refl

    -- A first read of more than a header finds what it would find in a buffer that has a block.
    pub conn_callback-new_buffer :
        (x : List ℕ)
        → header_length < length x
        → conn_callback n_methods unpack lib (bytes x) new_buffer
          ≡ conn_callback n_methods unpack lib (bytes x) (owned [])
    unfolding conn_callback new_buffer
    conn_callback-new_buffer x l = rw (lib.unset_grows header_length x l, lib.owned_grows [] x) refl

    pub conn_reads-step :
        (x : List ℕ) (xs : List (List ℕ)) (b b' b'' : Buffer) (is js : List (Invocation M))
        → conn_callback n_methods unpack lib (bytes x) b ≡ ok (is, some b')
        → conn_reads xs b' ≡ ok (js, some b'')
        → conn_reads (x ∷ xs) b ≡ ok (is ++ js, some b'')
    unfolding conn_reads
    conn_reads-step x xs b b' b'' is js e e' = rw (e, e') refl

    pub conn_reads-new_buffer :
        (x : List ℕ) (xs : List (List ℕ))
        → header_length < length x
        → conn_reads (x ∷ xs) new_buffer ≡ conn_reads (x ∷ xs) (owned [])
    unfolding conn_reads
    conn_reads-new_buffer x xs l = rw (conn_callback-new_buffer x l) refl
