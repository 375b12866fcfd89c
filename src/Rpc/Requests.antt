-- ===== src/Rpc/Requests.antt =====
-- rpc.c: what `invoke_client_service` puts on the wire, and what the server makes of it.
use apteryx.Prelude.{
  ℕ, suc, ◌+◌, ◌^◌, ◌<◌, ◌≡◌, refl, sym, ap, ◌∙◌, List, [], ◌∷◌, ◌++◌, map, false, Option, ◌≢◌, ◌⊎◌,
  ◌-◌, inl, inr, none, ok, fault, overlapping, if◌then◌else◌, ltb, Bool-cases, Option-cases,
  append-nil, some, leb, length, flatten, All, length-append, append_assoc, arith,
}
use apteryx.Rpc.Header.{Header, header_length, htol32, pack_header}
use apteryx.Rpc.Buffer.{owned, BufferSimple, contents, refill}
use apteryx.Rpc.Framing.{
  Invocation, bytes, next_message, decode, invoke, conn_loop, conn_callback, new_buffer,
}
use apteryx.Rpc.Messages.{Whole, Whole-next_message, next_message-append}
use apteryx.Rpc.Chunks.{
  conn_loop-none, conn_loop-some, conn_loop-nil, conn_reads, conn_callback-owned, conn_reads-step,
  conn_reads-new_buffer,
}
use apteryx.Rpc.Packing.{length-pack_header, header-Whole}

-- Chunks of which none is empty: there is none, or they have a byte.
chunk_cases : (xs : List (List ℕ)) → All (λ x. x ≢ []) xs → (xs ≡ []) ⊎ (flatten xs ≢ [])
chunk_cases [] full = inl refl
chunk_cases ([] ∷ xs) (ne, full) = absurd (ne refl)
chunk_cases ((b ∷ x) ∷ xs) full = inr (λ e. cc e)

module _ {M : Type 0} (n_methods : ℕ) (unpack : ℕ → List ℕ → Option M) (pack : M → List ℕ) where
  unfoldable pub request_header : Invocation M → Header
  request_header i = record {
    method_index = i.method_index;
    message_length = length (pack i.message);
    request_id = i.request_id;
  }

  -- "Serialise the message": the buffer that is sent.
  unfoldable pub request_bytes : Invocation M → List ℕ
  unfolding request_header
  request_bytes i = pack_header (request_header i) ++ pack i.message

  -- A request of a method of the service, whose numbers fit in 32 bits, and whose message is
  -- unpacked as what was packed.
  abbrev pub Fits : Invocation M → Type 0
  Fits i =
      (i.method_index < n_methods)
      × (n_methods < 2 ^ 32)
      × (length (pack i.message) < 2 ^ 32)
      × (i.request_id < 2 ^ 32)
      × (unpack i.method_index (pack i.message) ≡ some i.message)

  request-Whole :
      (i : Invocation M) (s : List ℕ)
      → Fits i
      → Whole (request_bytes i ++ s) (request_header i) (pack i.message) s
  unfolding request_bytes request_header
  request-Whole i s fits =
      header-Whole (request_header i) (pack i.message) s refl (omega (arith, fits.0, fits.1)) fits.2
        fits.3

  request-decode :
      (i : Invocation M)
      → Fits i
      → decode n_methods unpack (request_header i) (pack i.message) ≡ some i
  unfolding decode request_header
  request-decode i fits =
      let known : leb n_methods i.method_index ≡ false = ground arith in rw (known, fits.4)

  -- A part of a request is no message yet.
  request_part :
      (i : Invocation M) (b y : List ℕ)
      → Fits i
      → b ++ y ≡ request_bytes i
      → y ≢ []
      → next_message b ≡ none
  request_part i b y fits e ne = elim (Option-cases (next_message b)) [
    | inl none_yet ↦ none_yet
    | inr ((h, payload, left), found) ↦
        let more = next_message-append b y h payload left found in
        let all : next_message (b ++ y) ≡ some (request_header i, pack i.message, []) =
          ap next_message (e ∙ sym (append-nil (request_bytes i)))
          ∙ Whole-next_message (request_bytes i ++ []) (request_header i) (pack i.message) []
              (request-Whole i [] fits) in
        let nothing : left ++ y ≡ [] = ground (arith, more, all) in absurd (ne (right left nothing))
  ]
    where
      right : (xs : List ℕ) → xs ++ y ≡ [] → y ≡ []
      right [] e = e
      right (x ∷ xs) e = cc e

  length-request_bytes :
      (i : Invocation M)
      → length (request_bytes i) ≡ header_length + (request_header i).message_length
  unfolding request_bytes request_header
  length-request_bytes i = omega (
    arith,
    length-append (pack_header (request_header i)) (pack i.message),
    length-pack_header (request_header i),
  )

  request_bytes-ne : (i : Invocation M) → request_bytes i ≢ []
  unfolding request_bytes pack_header htol32
  request_bytes-ne i e = cc e

  -- The loop on a request, with what follows it.
  loop-request :
      (f : ℕ) (i : Invocation M) (s : List ℕ)
      → Fits i
      → conn_loop n_methods unpack (suc f) (request_bytes i ++ s)
        ≡ invoke n_methods unpack
            (some i)
            (ltb (length (request_bytes i)) (length s))
            (conn_loop n_methods unpack f s)
  loop-request f i s fits =
      let there =
        Whole-next_message (request_bytes i ++ s) (request_header i) (pack i.message) s
          (request-Whole i s fits) in
      conn_loop-some n_methods unpack f (request_bytes i ++ s) (request_header i) (pack i.message) s
        there
      ∙ ap
          (λ o.
            invoke n_methods unpack o
              (ltb (header_length + (request_header i).message_length) (length s))
              (conn_loop n_methods unpack f s))
          (request-decode i fits)
      ∙ ap
          (λ n.
            invoke n_methods unpack (some i) (ltb n (length s)) (conn_loop n_methods unpack f s))
          (sym (length-request_bytes i))

  loop_one :
      (f : ℕ) (i : Invocation M)
      → Fits i
      → conn_loop n_methods unpack (suc f) (request_bytes i) ≡ ok (i ∷ [], some [])
  unfolding invoke
  loop_one f i fits =
      let alone : ltb (length (request_bytes i)) 0 ≡ false = ground arith in
      ap (conn_loop n_methods unpack (suc f)) (sym (append-nil (request_bytes i)))
      ∙ loop-request f i [] fits
      ∙ rw (alone, conn_loop-nil n_methods unpack f) refl

  module _ (lib : BufferSimple) where
    -- A request, from the bytes of it that are there on, and then the reads behind it.
    one_request :
        (i : Invocation M) (xs more : List (List ℕ)) (p : List ℕ) (js : List (Invocation M))
        → Fits i
        → All (λ x. x ≢ []) xs
        → p ++ flatten xs ≡ request_bytes i
        → flatten xs ≢ []
        → conn_reads n_methods unpack lib more (owned []) ≡ ok (js, some (owned []))
        → conn_reads n_methods unpack lib (xs ++ more) (owned p) ≡ ok (i ∷ js, some (owned []))
    one_request i [] more p js fits full e ne rest = absurd (ne refl)
    one_request i (x ∷ xs) more p js fits (_, full) e ne rest =
        let e' : (p ++ x) ++ flatten xs ≡ request_bytes i = append_assoc p x (flatten xs) ∙ e in
        elim (chunk_cases xs full) [
          | inl last ↦
              let whole : p ++ x ≡ request_bytes i =
                sym (append-nil (p ++ x)) ∙ ap (λ l. (p ++ x) ++ flatten l) (sym last) ∙ e' in
              let done =
                ap (λ b. conn_loop n_methods unpack (suc (length b)) b) whole
                ∙ loop_one (length (request_bytes i)) i fits in
              rw last (
                conn_reads-step n_methods unpack lib x more (owned p) (owned []) (owned []) (i ∷ [])
                  js (conn_callback-owned n_methods unpack lib x p [] (i ∷ []) done) rest)
          | inr later ↦
              let wait =
                conn_loop-none n_methods unpack (length (p ++ x)) (p ++ x)
                  (request_part i (p ++ x) (flatten xs) fits e' later) in
              conn_reads-step n_methods unpack lib x (xs ++ more) (owned p) (owned (p ++ x))
                (owned []) [] (i ∷ js)
                (conn_callback-owned n_methods unpack lib x p (p ++ x) [] wait)
                (one_request i xs more (p ++ x) js fits full e' later rest)
        ]

    -- A request that arrives in chunks, none of them empty.
    abbrev pub Arrives : Invocation M × List (List ℕ) → Type 0
    Arrives (i, xs) = Fits i × All (λ x. x ≢ []) xs × (flatten xs ≡ request_bytes i)

    abbrev pub all_chunks : List (Invocation M × List (List ℕ)) → List (List ℕ)
    all_chunks requests = flatten (map (λ r. r.1) requests)

    requests_from :
        (requests : List (Invocation M × List (List ℕ)))
        → All Arrives requests
        → conn_reads n_methods unpack lib (all_chunks requests) (owned [])
          ≡ ok (map (λ r. r.0) requests, some (owned []))
    unfolding conn_reads
    requests_from [] all = refl
    requests_from ((i, xs) ∷ requests) ((fits, full, e), all) =
        one_request i xs (all_chunks requests) [] (map (λ r. r.0) requests) fits full e
          (λ n. request_bytes-ne i (sym e ∙ n)) (requests_from requests all)

    -- The requests of a client, which sends one after the answer to the one before, reach the
    -- service of a new connection as they are, in order, however the reads cut each of them;
    -- nothing is left in the buffer and the connection stays open. The first read has more bytes
    -- than a header; the requests are of methods of the service, their numbers fit in 32 bits, and
    -- their messages are unpacked as what was packed.
    pub conn_reads-request_bytes :
        (requests : List (Invocation M × List (List ℕ))) (x : List ℕ) (xs : List (List ℕ))
        → All Arrives requests
        → all_chunks requests ≡ x ∷ xs
        → header_length < length x
        → conn_reads n_methods unpack lib (all_chunks requests) new_buffer
          ≡ ok (map (λ r. r.0) requests, some (owned []))
    conn_reads-request_bytes requests x xs all e l =
        ap (λ r. conn_reads n_methods unpack lib r new_buffer) e
        ∙ conn_reads-new_buffer n_methods unpack lib x xs l
        ∙ ap (λ r. conn_reads n_methods unpack lib r (owned [])) (sym e)
        ∙ requests_from requests all

    -- Two requests that come in one read of a new connection: where the second has at most as many
    -- bytes as the first, both are invoked, in order, and nothing is left; where it has more, the
    -- memcpy that moves it to the front copies between overlapping bytes. The requests are of
    -- methods of the service, their numbers fit in 32 bits, and their messages are unpacked as what
    -- was packed.
    pub pipelined_requests :
        (i j : Invocation M)
        → Fits i
        → Fits j
        → conn_callback n_methods unpack lib (bytes (request_bytes i ++ request_bytes j)) new_buffer
          ≡ (if ltb (length (request_bytes i)) (length (request_bytes j))
              then fault overlapping
              else ok (i ∷ j ∷ [], some (owned [])))
    unfolding invoke conn_callback contents new_buffer refill
    pipelined_requests i j fits_i fits_j =
        let b = request_bytes i ++ request_bytes j in
        let long : header_length < length b = omega (
          arith,
          length-append (request_bytes i) (request_bytes j),
          length-request_bytes i,
          length-request_bytes j,
        ) in
        elim (Bool-cases (ltb (length (request_bytes i)) (length (request_bytes j)))) [
          | inl more ↦
              rw
                (
                  lib.unset_grows header_length b long,
                  loop-request (length b) i (request_bytes j) fits_i,
                  more,
                )
                refl
          | inr fits ↦
              rw
                (
                  lib.unset_grows header_length b long,
                  loop-request (length b) i (request_bytes j) fits_i,
                  fits,
                )
                (rw (rounds b long, loop_one (length b - 1) j fits_j) refl)
        ]
      where
        rounds : (b : List ℕ) → header_length < length b → length b ≡ suc (length b - 1)
        rounds b h = omega (arith, h)
