-- ===== src/Rpc/Framing.antt =====
-- rpc.c: `conn_callback`, which cuts what a connection has read into messages and invokes them.
use apteryx.Prelude.{
  ℕ, zero, suc, ◌+◌, List, [], ◌∷◌, ◌||◌, Option, none, some, ltb, leb, if◌then◌else◌, length, take,
  drop, Bool, true, false, Result, ok, fault, overlapping, ◌>>=◌,
}
use apteryx.Rpc.Header.{Header, header_length, unpack_header}
use apteryx.Rpc.Buffer.{Buffer, unset, BufferSimple, contents, refill}

-- What `service->invoke` is called with.
pub record Invocation (M : Type 0) : Type 0 where
  pub method_index : ℕ
  pub request_id : ℕ
  pub message : M

-- How `read` ends.
pub data Read : Type 0 where
  closed : Read
  again : Read
  failed : Read
  bytes : List ℕ → Read

-- The first message of the buffer: its header, its bytes, and the buffer behind it; `none` where
-- more data is needed.
unfoldable pub next_message : List ℕ → Option (Header × List ℕ × List ℕ)
unfolding unpack_header
next_message b =
    let h = unpack_header b in
    if ltb (length b) header_length || ltb (length b) (header_length + h.message_length)
    then none
    else some
        (h, take h.message_length (drop header_length b), drop (header_length + h.message_length) b)

-- The buffer of a new connection: "Just tricking".
unfoldable pub new_buffer : Buffer
new_buffer = unset header_length

-- The methods of a service, and how their messages are unpacked, are arguments.
module _ {M : Type 0} (n_methods : ℕ) (unpack : ℕ → List ℕ → Option M) where
  -- Up to the call of `invoke`; `none` is "goto error".
  unfoldable pub decode : Header → List ℕ → Option (Invocation M)
  decode h payload =
      if leb n_methods h.method_index then none else elim (unpack h.method_index payload) [
        | none ↦ none
        | some m ↦
            some (record { method_index = h.method_index; request_id = h.request_id; message = m })
      ]

  -- The message is taken out of the buffer by a memcpy of the bytes behind it, which overlap their
  -- new place where they are more than the message had, and then it is invoked; the messages behind
  -- it follow. The second `none` is a connection that is closed for an error.
  unfoldable pub invoke :
      Option (Invocation M)
      → Bool
      → Result (List (Invocation M) × Option (List ℕ))
      → Result (List (Invocation M) × Option (List ℕ))
  invoke none overlaps later = ok ([], none)
  invoke (some i) true later = fault overlapping
  invoke (some i) false later = do (is, left) ← later; ok (i ∷ is, left)

  unfoldable pub on_message :
      (List ℕ → Result (List (Invocation M) × Option (List ℕ)))
      → List ℕ
      → Option (Header × List ℕ × List ℕ)
      → Result (List (Invocation M) × Option (List ℕ))
  unfolding invoke
  on_message rec b none = ok ([], some b)
  on_message rec b (some (h, payload, rest)) =
      invoke (decode h payload) (ltb (header_length + h.message_length) (length rest)) (rec rest)

  -- The loop: the invocations, in order, and the bytes left in the buffer. It takes at least a
  -- header each time, so the bytes bound its rounds.
  unfoldable pub conn_loop : ℕ → List ℕ → Result (List (Invocation M) × Option (List ℕ))
  unfolding on_message
  conn_loop zero b = ok ([], some b)
  conn_loop (suc f) b = on_message (conn_loop f) b (next_message b)

  -- What has been invoked, and the connection's buffer, where it stays open.
  unfoldable pub conn_callback :
      BufferSimple → Read → Buffer → Result (List (Invocation M) × Option Buffer)
  unfolding conn_loop contents refill
  conn_callback lib closed b = ok ([], none)
  conn_callback lib again b = ok ([], some b)
  conn_callback lib failed b = ok ([], none)
  conn_callback lib (bytes x) b = do
    b' ← lib.append b x
    (is, left) ← conn_loop (suc (length (contents b'))) (contents b')
    ok (is, elim left [ none ↦ none | some l ↦ some (refill b' l) ])
