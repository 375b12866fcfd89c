-- ===== src/Examples/Wire.antt =====
-- The theorems on rpc.c, at concrete inputs.
use apteryx.Prelude.{
  ℕ, ◌≡◌, ◌↔◌, refl, List, [], ◌∷◌, ◌++◌, Option, some, take, drop, All, arith, ◌<◌, length, ltb,
  if◌then◌else◌, ok, fault, overlapping,
}
use apteryx.Rpc.Header.{Header, htol32, pack_header, unpack_header, unpack_header-pack_header}
use apteryx.Rpc.Buffer.{owned}
use apteryx.Rpc.Framing.{Invocation, bytes, conn_callback, new_buffer}
use apteryx.Rpc.Chunks.{conn_reads}
use apteryx.Rpc.Requests.{
  request_bytes, Fits, Arrives, all_chunks, conn_reads-request_bytes, pipelined_requests,
}
use apteryx.Examples.Buffers.{simple_buffer}
use apteryx.Rpc.Sending.{send_loop, send_loop-short}

abbrev header : Header
header = record { method_index = 1; message_length = 300; request_id = 7 }

unpack_header-pack_header_example : unpack_header (pack_header header ++ 9 ∷ []) ≡ header
unpack_header-pack_header_example =
    unpack_header-pack_header header (9 ∷ []) (omega arith) (omega arith) (omega arith)

-- A service of six methods whose messages are bytes.
abbrev same : ℕ → List ℕ → Option (List ℕ)
same i payload = some payload

abbrev packed : List ℕ → List ℕ
packed m = m

abbrev first : Invocation (List ℕ)
first = record { method_index = 0; request_id = 1; message = 10 ∷ 20 ∷ [] }

abbrev second : Invocation (List ℕ)
second = record { method_index = 5; request_id = 2; message = [] }

-- The bytes of the two requests, each in two reads.
abbrev requests : List (Invocation (List ℕ) × List (List ℕ))
requests =
    (
      first,
      take 13 (request_bytes 6 same packed first)
          ∷ drop 13 (request_bytes 6 same packed first)
          ∷ [],
    )
    ∷ (
      second,
      take 5 (request_bytes 6 same packed second)
          ∷ drop 5 (request_bytes 6 same packed second)
          ∷ [],
    )
    ∷ []

first-Fits : Fits 6 same packed first
first-Fits = (omega arith, omega arith, omega arith, omega arith, refl)

second-Fits : Fits 6 same packed second
second-Fits = (omega arith, omega arith, omega arith, omega arith, refl)

requests_arrive : All (Arrives 6 same packed simple_buffer) requests
unfolding request_bytes pack_header htol32
requests_arrive = (
  (first-Fits, ((λ e. cc e), ((λ e. cc e), tt)), refl),
  ((second-Fits, ((λ e. cc e), ((λ e. cc e), tt)), refl), tt),
)

enough : 12 < length (take 13 (request_bytes 6 same packed first))
unfolding request_bytes pack_header htol32
enough = omega arith

conn_reads-request_bytes_example :
    conn_reads 6 same simple_buffer (all_chunks 6 same packed simple_buffer requests) new_buffer
    ≡ ok (first ∷ second ∷ [], some (owned []))
conn_reads-request_bytes_example =
    conn_reads-request_bytes 6 same packed simple_buffer requests
      (take 13 (request_bytes 6 same packed first))
      (drop 13 (request_bytes 6 same packed first)
        ∷ take 5 (request_bytes 6 same packed second)
        ∷ drop 5 (request_bytes 6 same packed second)
        ∷ [])
      requests_arrive refl enough

pipelined_requests_example :
    conn_callback 6 same simple_buffer
      (bytes (request_bytes 6 same packed first ++ request_bytes 6 same packed second))
      new_buffer
    ≡ (if ltb
          (length (request_bytes 6 same packed first))
          (length (request_bytes 6 same packed second))
        then fault overlapping
        else ok (first ∷ second ∷ [], some (owned [])))
pipelined_requests_example =
    pipelined_requests 6 same packed simple_buffer first second first-Fits second-Fits

abbrev buffer : List ℕ
buffer = 7 ∷ 8 ∷ 9 ∷ []

send_loop-short_example :
    (send_loop (1 ∷ 2 ∷ []) buffer 3 ≡ take 1 buffer ++ take 2 buffer)
    × ((send_loop (1 ∷ 2 ∷ []) buffer 3 ≡ buffer) ↔ (take 2 buffer ≡ drop 1 buffer))
send_loop-short_example = send_loop-short buffer 1 2 (omega arith) (omega arith) refl
