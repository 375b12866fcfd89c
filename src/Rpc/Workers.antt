-- ===== src/Rpc/Workers.antt =====
-- rpc.c: `rpc_provide_service` with worker threads, as steps that the threads take in any order. What
-- stands between a lock and its unlock is one step.
pub mod Count
pub mod Exclusive
pub mod Wakeups
pub mod Events
pub mod Progress
pub mod Semaphore
use apteryx.Prelude.{
  ℕ, zero, suc, ◌+◌, ◌<◌, ◌≡◌, ◌≢◌, List, [], ◌∷◌, ◌++◌, map, Bool, true, false, ◌&&◌, not, ◌==◌,
  if◌then◌else◌, Option, none, some, Result, ok, fault, out_of_bounds, ◌>>=◌, length, ltb,
}
use apteryx.Rpc.Callbacks.{Callback, add_cb}

-- A worker: it is at its test; it waits for the semaphore; it has been woken and will take the lock;
-- it runs a callback; it runs `server_callback`, which has added a connection; it runs
-- `stop_callback`, which will write to the pipe; `conn_callback` has closed the descriptor, and the
-- entry will be freed; the callback has returned 0; its entry is back in
-- the list, and it will write to the pipe; it has left its loop.
pub data Worker : Type 0 where
  ready waiting woken : Worker
  calling accepted stopping closing returned : Callback → Worker
  waking left : Worker

-- The main loop: at its test; in `poll`, with the descriptors it listed; behind `poll`, with the
-- events; behind the tests for a changed list; it has read behind the end of `fds`; it has ended.
pub data Loop : Type 0 where
  testing : Loop
  polling : List ℕ → Loop
  polled passed : List ℕ → List Bool → Loop
  overrun ended : Loop

-- `rpc_server_t`: `wakes` counts the semaphore, and `pipe` the bytes in `wake_server`. `in_use` are
-- the service's descriptors that are open in the process.
pub record Threads : Type 0 where
  pub running : Bool
  pub pending : List Callback
  pub working : List Callback
  pub wakes : ℕ
  pub pipe : ℕ
  pub in_use : ℕ → Bool
  pub loop : Loop
  pub workers : List Worker

abbrev pub fds_of : List Callback → List ℕ
fds_of = map (λ (cb : Callback). cb.fd)

-- "Process any valid callbacks": what stays in `pending`, and what goes to `working`. The events are
-- found by the place in the list, without a look at how many there are.
unfoldable pub dispatch : List Bool → List Callback → Result (List Callback × List Callback)
dispatch revents [] = ok ([], [])
dispatch [] (cb ∷ list) = fault out_of_bounds
dispatch (event ∷ revents) (cb ∷ list) = do
  (stay, go) ← dispatch revents list
  if event && not (cb.func == 0) then ok (stay, cb ∷ go) else ok (cb ∷ stay, go)

-- "fds[0].revents && fds[0].fd == server.wake_server[0]"
unfoldable pub is_wake : ℕ → List ℕ → List Bool → Bool
is_wake wake_fd (fd ∷ fds) (event ∷ revents) = event && fd == wake_fd
is_wake wake_fd fds revents = false

-- A worker holds the descriptor of the entry that it took from `working` until the entry is back in
-- `pending` or the descriptor is closed.
unfoldable pub held : Worker → Option Callback
held (Worker.calling cb) = some cb
held (Worker.accepted cb) = some cb
held (Worker.stopping cb) = some cb
held (Worker.returned cb) = some cb
held (Worker.closing cb) = none
held Worker.ready = none
held Worker.waiting = none
held Worker.woken = none
held Worker.waking = none
held Worker.left = none

-- How often a descriptor is in a list of callbacks, and in the hands of workers.
unfoldable pub count : ℕ → List Callback → ℕ
count fd [] = 0
count fd (cb ∷ list) = (if cb.fd == fd then 1 else 0) + count fd list

unfoldable pub count_held : ℕ → List Worker → ℕ
unfolding held
count_held fd [] = 0
count_held fd (w ∷ ws) =
    elim (held w) [ none ↦ 0 | some cb ↦ if cb.fd == fd then 1 else 0 ] + count_held fd ws

unfoldable pub copies : Threads → ℕ → ℕ
unfolding count count_held
copies s fd = count fd s.pending + count fd s.working + count_held fd s.workers

-- The pipe's descriptor, and the functions of the callbacks.
pub record Addresses : Type 0 where
  pub wake_fd : ℕ
  pub server_callback : ℕ
  pub stop_callback : ℕ

-- A step of the main loop.
pub data LoopStep (a : Addresses) (s : Threads) : Threads → Type 0 where
  list_events :
      s.loop ≡ Loop.testing
      → s.running ≡ true
      → LoopStep a s (record s { loop = Loop.polling (fds_of s.pending) })
  finish : s.loop ≡ Loop.testing → s.running ≡ false → LoopStep a s (record s { loop = Loop.ended })
  poll :
      (fds : List ℕ) (revents : List Bool)
      → s.loop ≡ Loop.polling fds
      → length revents ≡ length fds
      → LoopStep a s (record s { loop = Loop.polled fds revents })
  read_wake :
      (fds : List ℕ) (revents : List Bool) (n : ℕ)
      → s.loop ≡ Loop.polled fds revents
      → is_wake a.wake_fd fds revents ≡ true
      → s.pipe ≡ suc n
      → LoopStep a s (record s { loop = Loop.testing; pipe = n })
  changed :
      (fds : List ℕ) (revents : List Bool)
      → s.loop ≡ Loop.polled fds revents
      → is_wake a.wake_fd fds revents ≡ false
      → length fds ≢ length s.pending
      → LoopStep a s (record s { loop = Loop.testing })
  unchanged :
      (fds : List ℕ) (revents : List Bool)
      → s.loop ≡ Loop.polled fds revents
      → is_wake a.wake_fd fds revents ≡ false
      → length fds ≡ length s.pending
      → LoopStep a s (record s { loop = Loop.passed fds revents })
  process :
      (fds : List ℕ) (revents : List Bool) (stay go : List Callback)
      → s.loop ≡ Loop.passed fds revents
      → dispatch revents s.pending ≡ ok (stay, go)
      → LoopStep a s (record s {
        loop = Loop.testing;
        pending = stay;
        working = s.working ++ go;
        wakes = s.wakes + length go;
      })
  overread :
      (fds : List ℕ) (revents : List Bool)
      → s.loop ≡ Loop.passed fds revents
      → dispatch revents s.pending ≡ fault out_of_bounds
      → LoopStep a s (record s { loop = Loop.overrun })

-- A step of a worker: what it was and is, and the rest of the server's state. `accept` returns a
-- descriptor that is not open, which may be the number of one that another worker has closed.
pub data WorkerStep (a : Addresses) (s : Threads) : Worker → Worker → Threads → Type 0 where
  enter : s.running ≡ true → WorkerStep a s Worker.ready Worker.waiting s
  leave : s.running ≡ false → WorkerStep a s Worker.ready Worker.left s
  sem_wait :
      (n : ℕ)
      → s.wakes ≡ suc n
      → WorkerStep a s Worker.waiting Worker.woken (record s { wakes = n })
  take_event :
      (cb : Callback) (rest : List Callback)
      → s.working ≡ cb ∷ rest
      → WorkerStep a s Worker.woken (Worker.calling cb) (record s { working = rest })
  no_event : s.working ≡ [] → WorkerStep a s Worker.woken Worker.ready s
  return_0 :
      (cb : Callback)
      → cb.func ≢ a.stop_callback
      → WorkerStep a s (Worker.calling cb) (Worker.returned cb) s
  accept :
      (cb new : Callback)
      → cb.func ≡ a.server_callback
      → s.in_use new.fd ≡ false
      → WorkerStep a s (Worker.calling cb) (Worker.accepted cb) (record s {
        pending = add_cb s.pending new;
        in_use = λ fd. if fd == new.fd then true else s.in_use fd;
      })
  accept_returns : (cb : Callback) → WorkerStep a s (Worker.accepted cb) (Worker.returned cb) s
  stop :
      (cb : Callback)
      → cb.func ≡ a.stop_callback
      → WorkerStep a s (Worker.calling cb) (Worker.stopping cb) (record s { running = false })
  stop_returns :
      (cb : Callback)
      → WorkerStep a s (Worker.stopping cb) Worker.ready (record s { pipe = s.pipe + 1 })
  close_connection :
      (cb : Callback)
      → cb.func ≢ a.server_callback
      → cb.func ≢ a.stop_callback
      → WorkerStep a s
          (Worker.calling cb)
          (Worker.closing cb)
          (record s { in_use = λ fd. if fd == cb.fd then false else s.in_use fd })
  free_entry : (cb : Callback) → WorkerStep a s (Worker.closing cb) Worker.ready s
  give_back :
      (cb : Callback)
      → WorkerStep a s
          (Worker.returned cb)
          Worker.waking
          (record s { pending = add_cb s.pending cb })
  wake_server : WorkerStep a s Worker.waking Worker.ready (record s { pipe = s.pipe + 1 })

pub data Step (a : Addresses) (s : Threads) : Threads → Type 0 where
  loop : {t : Threads} → LoopStep a s t → Step a s t
  worker :
      {w w' : Worker} {t : Threads} (before after : List Worker)
      → s.workers ≡ before ++ w ∷ after
      → WorkerStep a s w w' t
      → Step a s (record t { workers = before ++ w' ∷ after })

pub data Reach (a : Addresses) (s : Threads) : Threads → Type 0 where
  here : Reach a s s
  later : {t u : Threads} → Reach a s t → Step a t u → Reach a s u

unfoldable pub num_workers : ℕ → List Worker
num_workers zero = []
num_workers (suc n) = Worker.ready ∷ num_workers n

-- Before the loop: the entries for the pipe, for stopping where there is a descriptor for it, and for
-- new connections, and the workers.
unfoldable pub begin : Addresses → ℕ → ℕ → ℕ → ℕ → Threads
unfolding num_workers count
begin a server stopfd fd n =
    let wake = add_cb [] (record { fd = a.wake_fd; func = 0; data_ptr = server }) in
    let stops = add_cb wake (record { fd = stopfd; func = a.stop_callback; data_ptr = server }) in
    let pending =
      add_cb (if ltb 0 stopfd then stops else wake)
        (record { fd = fd; func = a.server_callback; data_ptr = server }) in
    record {
      running = true;
      pending = pending;
      in_use = λ x. ltb 0 (count x pending);
      working = [];
      wakes = 0;
      pipe = 0;
      loop = Loop.testing;
      workers = num_workers n;
    }
