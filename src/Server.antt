-- ===== src/Server.antt =====
-- apteryxd.c: the server's state, and what it does with the world outside.
pub mod Notify
pub mod Provide
pub mod Handlers
pub mod Prune
use apteryx.Prelude.{ℕ, List, [], ◌∷◌, ◌++◌, Bool, Option, none, some, inc64}
use apteryx.CString.{CString}
use apteryx.Registry.{CbInfo, Found}
use apteryx.Database.Heap.{Heap}

-- counters_t
pub record Counters : Type 0 where
  pub set : ℕ
  pub set_invalid : ℕ
  pub get : ℕ
  pub get_invalid : ℕ
  pub search : ℕ
  pub search_invalid : ℕ
  pub watch : ℕ
  pub watch_invalid : ℕ
  pub watched : ℕ
  pub watched_no_match : ℕ
  pub watched_no_handler : ℕ
  pub provide : ℕ
  pub provide_invalid : ℕ
  pub provided : ℕ
  pub provided_no_handler : ℕ
  pub prune : ℕ
  pub prune_invalid : ℕ

-- What a handler hands to its closure: NULL, an empty OKResult, a GetResult or a SearchResult.
pub data Reply : Type 0 where
  null_reply : Reply
  ok_reply : Reply
  value_reply : Option (List ℕ) → Reply
  paths_reply : List CString → Reply

-- What leaves the server: a closure's call, a callback called in the server's own process, a
-- message to a client, and a client that could not be connected to.
pub data Event : Type 0 where
  reply : Reply → Event
  watch_call : CString → CbInfo → Option (List ℕ) → Event
  watch_send : CString → CbInfo → Option (List ℕ) → Event
  provide_call : CString → CbInfo → Event
  provide_send : CString → CbInfo → Event
  connect_failed : ℕ → Event

-- A client's answer to a provide message: none in time, an error (NULL), or its bytes.
pub data Answer : Type 0 where
  no_answer : Answer
  error_answer : Answer
  bytes : List ℕ → Answer

-- The world outside may behave differently each time, so what it does depends on the events so
-- far. `junk` is what the stack slot of an unset pointer holds.
pub record World : Type 0 where
  pub pid : ℕ
  pub isprint : ℕ → Bool
  pub junk : List Event → Found
  pub connects : List Event → ℕ → Bool
  pub answer : List Event → CString → CbInfo → Answer
  pub local_value : List Event → CString → CbInfo → Option (List ℕ)

-- The static variables. `get_value` stands for `_get_value` with `_get_length`, and `events` is the
-- record of what has left, oldest first.
pub record Server (T : Type 0) : Type 0 where
  pub db : Heap T
  pub watch_list : List CbInfo
  pub provide_list : List CbInfo
  pub counters : Counters
  pub get_value : Option (List ℕ)
  pub events : List Event

module _ {T : Type 0} where
  abbrev pub emit : Event → Server T → Server T
  emit e s = record s { events = s.events ++ e ∷ [] }
