-- ===== src/Client/Requests.antt =====
-- apteryx.c: the requests, from `apteryx_prune` to `apteryx_provide`. With `debug` set, an assertion
-- ends the process where a path is refused.
use apteryx.Prelude.{
  ◌≡◌, refl, ℕ, List, [], ◌∷◌, Bool, true, false, not, ◌||◌, Result, ok, fault, Option, none, some,
  ◌==◌, if◌then◌else◌,
}
use apteryx.CString.{CString, slash, star, strcmp_eq, last_char, has_double_slash}
use apteryx.Client.Lifetime.{Library, start_client_thread}
use apteryx.Logging.{bytes_to_string}
use apteryx.Client.Transport.{Transport, Response, silent, null_result, result}

-- How a call of the library ends; `overrun`: the log has written behind its buffer.
pub data Ending (A : Type 0) : Type 0 where
  returned : A → Ending A
  aborted : Ending A
  overrun : Ending A

unfoldable pub is_fault : {A : Type 0} → Result A → Bool
is_fault (ok a) = false
is_fault (fault e) = true

-- DEBUG of a value: whether writing it to the log leaves the buffer. `isprint` is the locale's.
unfoldable pub log_overruns : (ℕ → Bool) → Bool → List ℕ → Bool
unfolding bytes_to_string is_fault
log_overruns isprint debug value = if debug then is_fault (bytes_to_string isprint value) else false

pub log_off : (isprint : ℕ → Bool) (value : List ℕ) → log_overruns isprint false value ≡ false
unfolding log_overruns
log_off isprint value = refl

-- path[0] == '/': the byte at 0 is the terminator for the empty string.
unfoldable pub starts_with_slash : CString → Bool
starts_with_slash [] = false
starts_with_slash (c ∷ s) = c == slash

unfoldable pub ends_with_slash : CString → Bool
unfolding last_char
ends_with_slash path = elim (last_char path) [ none ↦ false | some c ↦ c == slash ]

-- assert (!debug || test), and then the return.
unfoldable pub refuse : {A : Type 0} → Bool → A → Ending A
refuse true a = aborted
refuse false a = returned a

-- `is_done`, which handle_ok_response sets whatever the result is.
unfoldable pub is_done : {A : Type 0} → Response A → Bool
is_done silent = false
is_done null_result = true
is_done (result a) = true

-- handle_get_response: the bytes, NULL where there are none, and whether it was called.
unfoldable pub handle_get_response : Response (List ℕ) → Option (List ℕ)
handle_get_response silent = none
handle_get_response null_result = none
handle_get_response (result []) = none
handle_get_response (result (b ∷ bs)) = some (b ∷ bs)

-- handle_search_response: the list, NULL where there is nothing.
unfoldable pub handle_search_response : Response (List CString) → List CString
handle_search_response silent = []
handle_search_response null_result = []
handle_search_response (result paths) = paths

-- The roots that stand for the whole tree; `none` is a NULL path.
unfoldable pub is_root : CString → Bool
unfolding strcmp_eq
is_root path =
    strcmp_eq path (slash ∷ [])
    || strcmp_eq path (slash ∷ star ∷ [])
    || strcmp_eq path (star ∷ [])
    || strcmp_eq path []

-- The path that `apteryx_search` sends, or `none` where it refuses.
unfoldable pub search_path : Option CString → Option CString
unfolding is_root starts_with_slash ends_with_slash has_double_slash
search_path none = some []
search_path (some path) =
    if is_root path
    then some []
    else (if not (starts_with_slash path) || not (ends_with_slash path) || has_double_slash path
        then none
        else some path)

-- The path that `apteryx_watch` goes on with.
unfoldable pub watch_path : Option CString → CString
unfolding is_root
watch_path none = slash ∷ star ∷ []
watch_path (some path) = if is_root path then slash ∷ star ∷ [] else path

module _ (net : Transport) (debug : Bool) where
  open net use {
    State, isprint, starts, connects, call_set, call_get, call_search, call_watch, call_provide,
    call_prune,
  }

  -- "IPC": connect, call, and see whether the closure was called.
  unfoldable pub send_ok : (State → Response (Unit {0}) × State) → State → Ending Bool × State
  unfolding is_done
  send_ok call s =
      if connects s
      then (let (r, s') = call s in (returned (is_done r), s'))
      else (returned false, s)

  unfoldable pub apteryx_prune : CString → State → Ending Bool × State
  unfolding starts_with_slash refuse send_ok
  apteryx_prune path s =
      if starts_with_slash path then send_ok (call_prune path) s else (refuse debug false, s)

  unfoldable pub apteryx_set : CString → List ℕ → State → Ending Bool × State
  unfolding starts_with_slash refuse send_ok log_overruns
  apteryx_set path value s =
      if log_overruns isprint debug value
      then (overrun, s)
      else (if starts_with_slash path
          then send_ok (call_set path value) s
          else (refuse debug false, s))

  -- The value is logged where there is one.
  unfoldable pub logged : Option (List ℕ) → Ending (Option (List ℕ))
  unfolding log_overruns
  logged none = returned none
  logged (some value) = if log_overruns isprint debug value then overrun else returned (some value)

  -- `*value` with `*size`; the function returns true exactly if the value is not NULL. Where the
  -- path is refused, the two are not written.
  unfoldable pub apteryx_get : CString → State → Ending (Option (List ℕ)) × State
  unfolding starts_with_slash refuse handle_get_response logged
  apteryx_get path s =
      if starts_with_slash path
      then (if connects s
          then (let (r, s') = call_get path s in (logged (handle_get_response r), s'))
          else (returned none, s))
      else (refuse debug none, s)

  unfoldable pub search_at : Option CString → State → Ending (List CString) × State
  unfolding refuse handle_search_response
  search_at none s = (refuse debug [], s)
  search_at (some path) s =
      if connects s
      then (let (r, s') = call_search path s in (returned (handle_search_response r), s'))
      else (returned [], s)

  unfoldable pub apteryx_search : Option CString → State → Ending (List CString) × State
  unfolding search_path search_at
  apteryx_search path s = search_at (search_path path) s

  -- "Start the listen thread if required".
  unfoldable pub listen : ℕ → Library → Ending Bool × State → Ending Bool × Library × State
  listen cb l (returned true, s) =
      (returned true, if cb == 0 then l else start_client_thread (starts s) l, s)
  listen cb l (r, s) = (r, l, s)

  -- `pid` is getpid (), and `cb` and `priv` are the addresses that are passed.
  unfoldable pub apteryx_watch :
      ℕ → Option CString → ℕ → ℕ → Library → State → Ending Bool × Library × State
  unfolding watch_path starts_with_slash refuse send_ok listen start_client_thread
  apteryx_watch pid path cb priv l s =
      let p = watch_path path in
      if starts_with_slash p
      then listen cb l
          (send_ok (call_watch (record { path = p; id = pid; cb = cb; priv = priv })) s)
      else (refuse debug false, l, s)

  unfoldable pub apteryx_provide :
      ℕ → CString → ℕ → ℕ → Library → State → Ending Bool × Library × State
  unfolding starts_with_slash refuse send_ok listen start_client_thread
  apteryx_provide pid path cb priv l s =
      if starts_with_slash path
      then listen cb l
          (send_ok (call_provide (record { path = path; id = pid; cb = cb; priv = priv })) s)
      else (refuse debug false, l, s)
