-- ===== src/Rpc/Response.antt =====
-- rpc.c: the response, from `server_connection_response_closure` to the end of
-- `invoke_client_service`, which waits for it.
pub mod Partial
pub mod Delivery
use apteryx.Prelude.{
  ℕ, ◌+◌, ◌-◌, List, [], ◌∷◌, ◌++◌, Bool, true, false, ◌&&◌, ◌==◌, Option, none, some, leb,
  if◌then◌else◌, length, take, drop, Result, ok, ◌>>=◌,
}
use apteryx.Rpc.Header.{Header, header_length, pack_header, unpack_header}
use apteryx.Rpc.Buffer.{Buffer, fixed, BufferSimple, contents, refill}
use apteryx.Rpc.Framing.{Read}
use apteryx.Client.Transport.{Response}

-- What the server's closure appends to `outgoing`: four bytes of status, the header of the request
-- with the length of the response, and the response as it is packed.
unfoldable pub response_header : Header → List ℕ → Header
response_header request packed = record request { message_length = length packed }

unfoldable pub response_bytes : Header → List ℕ → List ℕ
unfolding response_header
response_bytes request packed =
    0 ∷ 0 ∷ 0 ∷ 0 ∷ (pack_header (response_header request packed) ++ packed)

-- The bytes of the response in what the client has read, where all of them are there.
unfoldable pub response_of : List ℕ → Option (List ℕ)
unfolding unpack_header
response_of b =
    let h = unpack_header (drop 4 b) in
    if leb (header_length + 4) (length b) && leb (header_length + 4 + h.message_length) (length b)
    then some (take h.message_length (drop (header_length + 4) b))
    else none

-- "Wait for response": the reads, with the test of the clock behind each. The outer `none`: the loop
-- still waits. The inner one: "goto error".
unfoldable pub await :
    BufferSimple → List (Read × Bool) → Buffer → Result (Option (Option (List ℕ)))
unfolding response_of contents
await lib [] b = ok none
await lib ((Read.closed, late) ∷ es) b = ok (some none)
await lib ((Read.again, true) ∷ es) b = ok (some none)
await lib ((Read.failed, true) ∷ es) b = ok (some none)
await lib ((Read.bytes x, true) ∷ es) b = ok (some none)
await lib ((Read.again, false) ∷ es) b = await lib es b
await lib ((Read.failed, false) ∷ es) b = ok (some none)
await lib ((Read.bytes x, false) ∷ es) b = do
  b' ← lib.append b x
  elim (response_of (contents b')) [
    | none ↦ await lib es b'
    | some packed ↦ ok (some (some packed))
  ]

-- How `send` ends.
pub data Send : Type 0 where
  took : ℕ → Send
  refused interrupted broken : Send

-- "Send the message": whether all of it is sent, and `none` where the loop still waits.
unfoldable pub sends_all : List Send → ℕ → Option Bool
sends_all [] len = if len == 0 then some true else none
sends_all (Send.took rv ∷ ss) len =
    let rest = sends_all ss (len - rv) in if len == 0 then some true else rest
sends_all (Send.interrupted ∷ ss) len =
    let rest = sends_all ss len in if len == 0 then some true else rest
sends_all (Send.refused ∷ ss) len = if len == 0 then some true else some false
sends_all (Send.broken ∷ ss) len = if len == 0 then some true else some false

-- The size of `buffer_slab`.
abbrev pub slab_size : ℕ
slab_size = 512

module _ {M : Type 0} (unpack : List ℕ → Option M) where
  -- The call of the closure at the end: a message that is not unpacked is NULL too.
  unfoldable pub answer : Option (List ℕ) → Response M
  answer none = Response.null_result
  answer (some packed) = elim (unpack packed) [
    | none ↦ Response.null_result
    | some m ↦ Response.result m
  ]

  -- The call, for the request's header, its message as it is packed, `none` where that fails, and
  -- what `send` and `read` do: how its closure is called, and `none` where it has not returned. The
  -- buffer that was sent is cleared, and then the response is read into it.
  unfoldable pub invoke_client_service :
      BufferSimple
      → Header
      → Option (List ℕ)
      → List Send
      → List (Read × Bool)
      → Result (Option (Response M))
  unfolding sends_all await answer contents refill pack_header
  invoke_client_service lib request none sends reads = ok (some Response.null_result)
  invoke_client_service lib request (some packed) sends reads = do
    b ← lib.append (fixed slab_size (pack_header request)) packed
    elim (sends_all sends (length (contents b))) [
      | none ↦ ok none
      | some false ↦ ok (some Response.silent)
      | some true ↦ do
        got ← await lib reads (lib.clear (refill b []))
        ok (elim got [ none ↦ none | some r ↦ some (answer r) ])
    ]
