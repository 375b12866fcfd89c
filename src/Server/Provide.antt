-- ===== src/Server/Provide.antt =====
-- apteryxd.c: `handle_get_response` and `provide_get`.
pub mod Order
use apteryx.Prelude.{
  ℕ, zero, suc, List, [], ◌∷◌, Bool, Option, none, some, true, false, erase_idx, if◌then◌else◌,
  inc64, ◌==◌, modify, Result, ok, fault, use_after_free, ◌>>=◌,
}
use apteryx.CString.{CString}
use apteryx.Registry.{CbInfo}
use apteryx.Matching.{provide_matches}
use apteryx.Server.{
  Counters, provide_call, provide_send, connect_failed, Answer, no_answer, error_answer, bytes,
  World, Server, emit,
}

-- What `_get_value` holds after the call: an empty answer does not count.
unfoldable pub handle_get_response : Answer → Option (List ℕ) → Option (List ℕ)
handle_get_response no_answer old = old
handle_get_response error_answer old = old
handle_get_response (bytes []) old = old
handle_get_response (bytes (b ∷ bs)) old = some (b ∷ bs)

module _ {T : Type 0} where
  -- "Counters" and "Start clear", for the provider at an index of the list.
  unfoldable pub count_provider : ℕ → Server T → Server T
  count_provider i s = record s {
    provide_list = modify (λ w. record w { count = inc64 w.count }) s.provide_list i;
    counters = record s.counters { provided = inc64 s.counters.provided };
    get_value = none;
  }

  -- "if (!rpc_client)": g_list_remove frees the provider's link, at an index of the list.
  unfoldable pub drop_provider : ℕ → Server T → Server T
  drop_provider i s = record s {
    provide_list = erase_idx s.provide_list i;
    counters = record s.counters { provided_no_handler = inc64 s.counters.provided_no_handler };
  }

  -- g_list_next of the loop's link, which may have been freed.
  unfoldable pub next_link :
      Bool
      → (Server T → Result (Option (List ℕ) × Server T))
      → Server T
      → Result (Option (List ℕ) × Server T)
  next_link true rest s = fault use_after_free
  next_link false rest s = rest s

  -- "Result": the answer, or on to the next provider.
  unfoldable pub take_value :
      Option (List ℕ)
      → (Server T → Result (Option (List ℕ) × Server T))
      → Server T
      → Result (Option (List ℕ) × Server T)
  unfolding next_link
  take_value none rest s = next_link false rest (record s { get_value = none })
  take_value (some v) rest s = ok (some v, record s { get_value = none })

  -- The provider at an index, which matches.
  unfoldable pub ask_provider :
      World
      → CString
      → ℕ
      → CbInfo
      → (Server T → Result (Option (List ℕ) × Server T))
      → Server T
      → Result (Option (List ℕ) × Server T)
  unfolding take_value handle_get_response drop_provider next_link
  ask_provider world path i w rest s =
      if w.id == world.pid
      then ok (world.local_value s.events path w, emit (provide_call path w) s)
      else (if world.connects s.events w.id
          then take_value (handle_get_response (world.answer s.events path w) s.get_value) rest
              (emit (provide_send path w) s)
          else next_link true rest (emit (connect_failed w.id) (drop_provider i s)))

  -- The loop, at the index of the list's rest.
  unfoldable pub provide_from :
      World → CString → ℕ → List CbInfo → Server T → Result (Option (List ℕ) × Server T)
  unfolding ask_provider count_provider
  provide_from world path i [] s = ok (none, s)
  provide_from world path i (w ∷ ws) s =
      let rest = provide_from world path (suc i) ws in
      do
        match ← provide_matches w.path path
        if match then ask_provider world path i w rest (count_provider i s) else rest s

  -- The value and the length that it leaves; it always returns true.
  unfoldable pub provide_get : World → CString → Server T → Result (Option (List ℕ) × Server T)
  unfolding provide_from
  provide_get world path s = provide_from world path 0 s.provide_list s
