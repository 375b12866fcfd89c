-- ===== src/Rpc/Response/Delivery.antt =====
-- `invoke_client_service` waits for the response of `server_connection_response_closure`.
use apteryx.Prelude.{
  >>=-ok, zero, suc, ◌+◌, ◌≤◌, leb, ok, fault, use_after_free, Bool-cases, length-append, arith, ℕ,
  ◌^◌, ◌<◌, ◌≡◌, ◌≢◌, ◌⊎◌, refl, sym, ap, ◌∙◌, List, [], ◌∷◌, ◌++◌, map, Bool, false, true, Option,
  none, some, length, append_assoc, append-nil, inl, inr,
}
use apteryx.Rpc.Header.{Header, header_length, pack_header}
use apteryx.Rpc.Buffer.{Buffer, fixed, owned, freed, BufferSimple, contents, refill}
use apteryx.Rpc.Packing.{length-pack_header}
use apteryx.Rpc.Framing.{Read}
use apteryx.Client.Transport.{Response}
use apteryx.Rpc.Response.{
  response_bytes, response_of, await, Send, sends_all, answer, invoke_client_service, slab_size,
}
use apteryx.Rpc.Response.Partial.{response_of-response_bytes, response_of-part}

-- Reads in time: some bytes, or none yet.
abbrev pub in_time : Option (List ℕ) → Read × Bool
in_time none = (Read.again, false)
in_time (some x) = (Read.bytes x, false)

abbrev pub arrived : List (Option (List ℕ)) → List ℕ
arrived [] = []
arrived (none ∷ es) = arrived es
arrived (some x ∷ es) = x ++ arrived es

abbrev pub replicate : {A : Type 0} → ℕ → A → List A
replicate zero a = []
replicate (suc n) a = a ∷ replicate n a

-- How a wait ends without a response: the connection is closed, or the time is over, or `read` fails.
pub data Breaks : Read × Bool → Type 0 where
  closed : (late : Bool) → Breaks (Read.closed, late)
  timeout : (r : Read) → Breaks (r, true)
  failed : (late : Bool) → Breaks (Read.failed, late)

-- A buffer that has a place for its bytes.
data Holds : Buffer → List ℕ → Type 0 where
  in_array : (n : ℕ) (b : List ℕ) → Holds (fixed n b) b
  in_block : (b : List ℕ) → Holds (owned b) b

Holds-contents : {buf : Buffer} {b : List ℕ} → Holds buf b → contents buf ≡ b
unfolding contents
Holds-contents (in_array n b) = refl
Holds-contents (in_block b) = refl

module _ (lib : BufferSimple) where
  Holds-append :
      {buf : Buffer} {b : List ℕ} (x : List ℕ)
      → Holds buf b
      → (buf' : Buffer) × (lib.append buf x ≡ ok buf') × Holds buf' (b ++ x)
  Holds-append x (in_array n b) = elim (Bool-cases (leb (length b + length x) n)) [
    | inl fits ↦ (fixed n (b ++ x), lib.fixed_fits n b x (ground arith), in_array n (b ++ x))
    | inr over ↦ (owned (b ++ x), lib.fixed_grows n b x (ground arith), in_block (b ++ x))
  ]
  Holds-append x (in_block b) = (owned (b ++ x), lib.owned_grows b x, in_block (b ++ x))

  await-Breaks : {e : Read × Bool} → Breaks e → (b : Buffer) → await lib (e ∷ []) b ≡ ok (some none)
  unfolding await
  await-Breaks (Breaks.closed late) b = refl
  await-Breaks (Breaks.timeout Read.closed) b = refl
  await-Breaks (Breaks.timeout Read.again) b = refl
  await-Breaks (Breaks.timeout Read.failed) b = refl
  await-Breaks (Breaks.timeout (Read.bytes x)) b = refl
  await-Breaks (Breaks.failed true) b = refl
  await-Breaks (Breaks.failed false) b = refl

  await-more :
      (x : List ℕ) (b b' : Buffer) (es : List (Read × Bool))
      → lib.append b x ≡ ok b'
      → response_of (contents b') ≡ none
      → await lib ((Read.bytes x, false) ∷ es) b ≡ await lib es b'
  unfolding await
  await-more x b b' es a e = >>=-ok _ a (rw e refl)

  await-whole :
      (x : List ℕ) (b b' : Buffer) (es : List (Read × Bool)) (packed : List ℕ)
      → lib.append b x ≡ ok b'
      → response_of (contents b') ≡ some packed
      → await lib ((Read.bytes x, false) ∷ es) b ≡ ok (some (some packed))
  unfolding await
  await-whole x b b' es packed a e = >>=-ok _ a (rw e refl)

  await-freed :
      (n : ℕ) (x : List ℕ) (reads : List (Read × Bool))
      → x ≢ []
      → await lib (replicate n (Read.again, false) ++ (Read.bytes x, false) ∷ reads) freed
        ≡ fault use_after_free
  unfolding await
  await-freed zero x reads ne = rw (lib.freed_fails x ne) refl
  await-freed (suc n) x reads ne = await-freed n x reads ne

nil_cases : (xs : List ℕ) → (xs ≡ []) ⊎ (xs ≢ [])
nil_cases [] = inl refl
nil_cases (x ∷ xs) = inr (λ e. cc)

module _ (lib : BufferSimple) (request : Header) (packed : List ℕ)
    (m : request.method_index < 2 ^ 32) (l : length packed < 2 ^ 32)
    (r : request.request_id < 2 ^ 32) where
  abbrev response : List ℕ
  response = response_bytes request packed

  await-part :
      (es : List (Option (List ℕ))) (rest b : List ℕ) (buf : Buffer) (last : Read × Bool)
      → Holds buf b
      → b ++ arrived es ++ rest ≡ response
      → rest ≢ []
      → Breaks last
      → await lib (map in_time es ++ last ∷ []) buf ≡ ok (some none)
  unfolding await
  await-part [] rest b buf last holds e ne breaks = await-Breaks lib breaks buf
  await-part (none ∷ es) rest b buf last holds e ne breaks =
      await-part es rest b buf last holds e ne breaks
  await-part (some x ∷ es) rest b buf last holds e ne breaks =
      let (buf', appended, holds') = Holds-append lib x holds in
      let e' : b ++ x ++ arrived es ++ rest ≡ response =
        ap (λ s. s ++ rest) (append_assoc b x (arrived es)) ∙ e in
      let short =
        ap response_of (Holds-contents holds')
        ∙ response_of-part request packed m l r (b ++ x) (arrived es ++ rest)
            (sym (append_assoc (b ++ x) (arrived es) rest) ∙ e') (λ n. ne (right (arrived es) n)) in
      await-more lib x buf buf' (map in_time es ++ last ∷ []) appended short
      ∙ await-part es rest (b ++ x) buf' last holds' e' ne breaks
    where
      right : (xs : List ℕ) → xs ++ rest ≡ [] → rest ≡ []
      right [] e = e
      right (y ∷ xs) e = cc e

  await-all :
      (es : List (Option (List ℕ))) (b : List ℕ) (buf : Buffer)
      → Holds buf b
      → b ++ arrived es ≡ response
      → arrived es ≢ []
      → await lib (map in_time es) buf ≡ ok (some (some packed))
  unfolding await
  await-all [] b buf holds e ne = absurd (ne refl)
  await-all (none ∷ es) b buf holds e ne = await-all es b buf holds e ne
  await-all (some x ∷ es) b buf holds e ne =
      let (buf', appended, holds') = Holds-append lib x holds in
      let e' : b ++ x ++ arrived es ≡ response = append_assoc b x (arrived es) ∙ e in
      elim (nil_cases (arrived es)) [
        | inl done ↦
            let whole : b ++ x ≡ response =
              sym (append-nil (b ++ x)) ∙ ap (λ s. b ++ x ++ s) (sym done) ∙ e' in
            await-whole lib x buf buf' (map in_time es) packed appended (
              ap response_of (Holds-contents holds' ∙ whole)
              ∙ response_of-response_bytes request packed m l r)
        | inr more ↦
            let short =
              ap response_of (Holds-contents holds')
              ∙ response_of-part request packed m l r (b ++ x) (arrived es) e' more in
            await-more lib x buf buf' (map in_time es) appended short
            ∙ await-all es (b ++ x) buf' holds' e' more
      ]

  response_not_nil : response ≢ []
  unfolding response_bytes
  response_not_nil e = cc e

module _ {M : Type 0} (unpack : List ℕ → Option M) (lib : BufferSimple) (request : Header)
    (input : List ℕ) (sends : List Send) where
  -- A request that fits into the array, once it is sent, leaves it to the response.
  after_send :
      (reads : List (Read × Bool)) (r : Option (List ℕ))
      → header_length + length input ≤ slab_size
      → sends_all sends (header_length + length input) ≡ some true
      → await lib reads (fixed slab_size []) ≡ ok (some r)
      → invoke_client_service unpack lib request (some input) sends reads
        ≡ ok (some (answer unpack r))
  unfolding invoke_client_service contents refill
  after_send reads r fits sent got =
      let size = length-pack_header request in
      let len : length (pack_header request ++ input) ≡ header_length + length input =
        omega (arith, length-append (pack_header request) input, size) in
      >>=-ok _ (lib.fixed_fits slab_size (pack_header request) input (omega (arith, fits, size)))
        (rw (ap (sends_all sends) len ∙ sent) (rw (lib.clear_fixed slab_size []) (rw got refl)))

  -- What `invoke_client_service` gives its closure where all of the request is sent and the bytes of
  -- the server's response to it arrive in time, however the reads cut them: the response's message.
  -- The request fits into its array of 512 bytes; the numbers of the request and the length of the
  -- response fit in 32 bits, and the message is unpacked from what was packed.
  pub invoke-response_bytes :
      (packed : List ℕ) (es : List (Option (List ℕ))) (message : M)
      → header_length + length input ≤ slab_size
      → request.method_index < 2 ^ 32
      → length packed < 2 ^ 32
      → request.request_id < 2 ^ 32
      → unpack packed ≡ some message
      → sends_all sends (header_length + length input) ≡ some true
      → arrived es ≡ response_bytes request packed
      → invoke_client_service unpack lib request (some input) sends (map in_time es)
        ≡ ok (some (Response.result message))
  unfolding answer
  invoke-response_bytes packed es message fits m l r unpacked sent whole =
      after_send (map in_time es) (some packed) fits sent (
        await-all lib request packed m l r es [] (fixed slab_size []) (in_array slab_size []) whole
          (λ n. response_not_nil lib request packed m l r (sym whole ∙ n)))
      ∙ rw (answer, unpacked) refl

  -- Where all of the request is sent, and then a part of the response's bytes arrives, but not all,
  -- before the connection is closed, `read` fails or the time is over: the closure gets NULL. The
  -- request fits into its array of 512 bytes; the numbers of the request and the length of the
  -- response fit in 32 bits.
  pub invoke-Breaks :
      (packed : List ℕ) (es : List (Option (List ℕ))) (rest : List ℕ) (last : Read × Bool)
      → header_length + length input ≤ slab_size
      → request.method_index < 2 ^ 32
      → length packed < 2 ^ 32
      → request.request_id < 2 ^ 32
      → sends_all sends (header_length + length input) ≡ some true
      → arrived es ++ rest ≡ response_bytes request packed
      → rest ≢ []
      → Breaks last
      → invoke_client_service unpack lib request (some input) sends (map in_time es ++ last ∷ [])
        ≡ ok (some Response.null_result)
  unfolding answer
  invoke-Breaks packed es rest last fits m l r sent part ne breaks =
      after_send (map in_time es ++ last ∷ []) none fits sent (
        await-part lib request packed m l r es rest [] (fixed slab_size []) last
          (in_array slab_size []) part ne breaks)

  -- Where a request of more than 512 bytes with its header is sent whole, the first bytes that
  -- arrive in time are written to the block that was freed, however often there was nothing to read
  -- before.
  pub large_request_faults :
      (n : ℕ) (x : List ℕ) (reads : List (Read × Bool))
      → slab_size < header_length + length input
      → sends_all sends (header_length + length input) ≡ some true
      → x ≢ []
      → invoke_client_service unpack lib request
          (some input)
          sends
          (replicate n (Read.again, false) ++ (Read.bytes x, false) ∷ reads)
        ≡ fault use_after_free
  unfolding invoke_client_service contents refill
  large_request_faults n x reads over sent ne =
      let size = length-pack_header request in
      let len : length (pack_header request ++ input) ≡ header_length + length input =
        omega (arith, length-append (pack_header request) input, size) in
      >>=-ok _ (lib.fixed_grows slab_size (pack_header request) input (omega (arith, over, size))) (
        rw (ap (sends_all sends) len ∙ sent)
          (rw (lib.clear_owned []) (rw (await-freed lib n x reads ne) refl)))
