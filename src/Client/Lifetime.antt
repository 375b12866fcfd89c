-- ===== src/Client/Lifetime.antt =====
-- apteryx.c: the reference count, and the thread that serves watches and provides.
use apteryx.Prelude.{ℕ, zero, suc, ◌+◌, ◌-◌, Bool, true, false, ◌||◌, ◌&&◌, not, ltb, if◌then◌else◌}

-- The static variables. `ref_count` starts at 0 and is lowered only where it is above 0; it is an
-- int, whose overflow after 2 ^ 31 - 1 calls of `apteryx_init` is not modelled. `thread_running` is
-- set by the new thread itself; `alive` says that there is such a thread, `client_thread` != -1.
pub record Library : Type 0 where
  pub ref_count : ℕ
  pub debug : Bool
  pub thread_running : Bool
  pub alive : Bool

unfoldable pub apteryx_init : Bool → Library → Bool × Library
apteryx_init debug_enabled l =
    (true, record l { ref_count = l.ref_count + 1; debug = l.debug || debug_enabled })

-- What the new thread has done when `start_client_thread` returns after its millisecond: it has set
-- `thread_running`; it has not come so far; or its pipe or its socket has failed, and it has ended.
pub data Start : Type 0 where
  in_time late failed : Start

unfoldable pub started : Start → Library → Library
started in_time l = record l { thread_running = true; alive = true }
started late l = record l { alive = true }
started failed l = record l { thread_running = false; alive = false }

unfoldable pub start_client_thread : Start → Library → Library
unfolding started
start_client_thread start l = if l.thread_running then l else started start l

-- The thread is told to stop, and has ended, or is cancelled, when the function returns. `own` says
-- that the caller is that thread.
unfoldable pub stop_client_thread : Bool → Library → Library
stop_client_thread own l =
    if l.thread_running && l.alive && not own
    then record l { thread_running = false; alive = false }
    else l

unfoldable pub apteryx_shutdown : Bool → Library → Bool × Library
unfolding stop_client_thread
apteryx_shutdown own l =
    if ltb 0 l.ref_count
    then (let l' = record l { ref_count = l.ref_count - 1 } in
        if ltb 0 l'.ref_count
        then (true, l')
        else (true, record (stop_client_thread own l') { thread_running = false }))
    else (false, l)

unfoldable pub inits : ℕ → Library → Library
unfolding apteryx_init
inits zero l = l
inits (suc n) l = inits n (apteryx_init false l).1

unfoldable pub shutdowns : ℕ → Library → Library
unfolding apteryx_shutdown
shutdowns zero l = l
shutdowns (suc n) l = shutdowns n (apteryx_shutdown false l).1

-- Whether the thread of a start is there, and whether it is known to run.
unfoldable pub is_there : Start → Bool
is_there Start.in_time = true
is_there Start.late = true
is_there Start.failed = false

unfoldable pub is_late : Start → Bool
is_late Start.in_time = false
is_late Start.late = true
is_late Start.failed = false
