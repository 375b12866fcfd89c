-- ===== src/Rpc/Workers/Exclusive.antt =====
-- No descriptor is in two places: it waits in `pending`, or it waits in `working`, or one worker has
-- it.
use apteryx.Prelude.{
  ℕ, zero, suc, ◌+◌, ◌≤◌, ◌≡◌, ◌≢◌, refl, sym, ap, ◌∙◌, ◌==◌, arith, ltb, Bool, true, false,
  if◌then◌else◌, Bool-cases, inl, inr,
}
use apteryx.Rpc.Callbacks.{add_cb}
use apteryx.Rpc.Workers.{
  Worker, Threads, Addresses, LoopStep, WorkerStep, Step, Reach, held, count, count_held, copies,
  begin, num_workers,
}
use apteryx.Rpc.Workers.Count.{count-append, count-add_cb, holds, count_held-middle, count-dispatch}

-- How often a descriptor may be in the lists and with the workers.
unfoldable room : (ℕ → Bool) → ℕ → ℕ
room in_use fd = if in_use fd then 1 else 0

abbrev IsExclusive : Threads → Type 0
IsExclusive s = (fd : ℕ) → copies s fd ≤ room s.in_use fd

room_le : (in_use : ℕ → Bool) (fd : ℕ) → room in_use fd ≤ 1
unfolding room
room_le in_use fd = elim (Bool-cases (in_use fd)) [
  | inl e ↦ rw e (omega arith)
  | inr e ↦ rw e (omega arith)
]

module _ (a : Addresses) where
  LoopStep-IsExclusive : {s t : Threads} → LoopStep a s t → IsExclusive s → IsExclusive t
  unfolding copies
  LoopStep-IsExclusive (LoopStep.list_events _ _) i fd = i fd
  LoopStep-IsExclusive (LoopStep.finish _ _) i fd = i fd
  LoopStep-IsExclusive (LoopStep.poll _ _ _ _) i fd = i fd
  LoopStep-IsExclusive (LoopStep.read_wake _ _ _ _ _ _) i fd = i fd
  LoopStep-IsExclusive (LoopStep.changed _ _ _ _ _) i fd = i fd
  LoopStep-IsExclusive (LoopStep.unchanged _ _ _ _ _) i fd = i fd
  LoopStep-IsExclusive {s} (LoopStep.process fds revents stay go _ e) i fd =
      omega
        (arith, i fd, count-dispatch fd revents s.pending stay go e, count-append fd s.working go)
  LoopStep-IsExclusive (LoopStep.overread _ _ _ _) i fd = i fd

  -- What the lists have of a descriptor, with one worker.
  abbrev around : Threads → Worker → ℕ → ℕ
  around s w fd = count fd s.pending + count fd s.working + holds fd w

  -- A worker's step moves an entry, or adds one with a descriptor that was not in use, or closes
  -- its descriptor.
  WorkerStep-around :
      {s t : Threads} {w w' : Worker}
      → WorkerStep a s w w' t
      → (fd : ℕ) → around t w' fd + room s.in_use fd ≤ around s w fd + room t.in_use fd
  unfolding holds held count room
  WorkerStep-around (WorkerStep.enter _) fd = omega arith
  WorkerStep-around (WorkerStep.leave _) fd = omega arith
  WorkerStep-around (WorkerStep.sem_wait _ _) fd = omega arith
  WorkerStep-around (WorkerStep.take_event cb rest e) fd = omega (arith, ap (count fd) e)
  WorkerStep-around (WorkerStep.no_event _) fd = omega arith
  WorkerStep-around (WorkerStep.return_0 _ _) fd = omega arith
  WorkerStep-around {s} (WorkerStep.accept cb new _ free) fd = elim (Bool-cases (fd == new.fd)) [
    | inl b ↦
        let same : new.fd ≡ fd = ground (arith, b) in
        let unused : s.in_use fd ≡ false = ap s.in_use (sym same) ∙ free in
        let here : (new.fd == fd) ≡ true = ground (arith, b) in
        rw (b, unused) (ground (arith, here, count-add_cb fd s.pending new))
    | inr b ↦
        let there : (new.fd == fd) ≡ false = ground (arith, b) in
        rw b (ground (arith, there, count-add_cb fd s.pending new))
  ]
  WorkerStep-around (WorkerStep.accept_returns _) fd = omega arith
  WorkerStep-around (WorkerStep.stop _ _) fd = omega arith
  WorkerStep-around (WorkerStep.stop_returns _) fd = omega arith
  WorkerStep-around {s} (WorkerStep.close_connection cb _ _) fd = elim (Bool-cases (fd == cb.fd)) [
    | inl b ↦
        let here : (cb.fd == fd) ≡ true = ground (arith, b) in
        let one = room_le s.in_use fd in rw (b, here) (omega (arith, one))
    | inr b ↦ let there : (cb.fd == fd) ≡ false = ground (arith, b) in rw (b, there) (omega arith)
  ]
  WorkerStep-around (WorkerStep.free_entry _) fd = omega arith
  WorkerStep-around {s} (WorkerStep.give_back cb) fd = omega (arith, count-add_cb fd s.pending cb)
  WorkerStep-around WorkerStep.wake_server fd = omega arith

  Step-IsExclusive : {s t : Threads} → Step a s t → IsExclusive s → IsExclusive t
  Step-IsExclusive (Step.loop l) i fd = LoopStep-IsExclusive l i fd
  Step-IsExclusive {s} (Step.worker {w} {w'} before after at step) i fd =
      let was = ap (count_held fd) at ∙ count_held-middle fd before w after in
      let is = count_held-middle fd before w' after in
      unfold copies in omega (arith, i fd, WorkerStep-around step fd, was, is)

count_held-num_workers : (fd n : ℕ) → count_held fd (num_workers n) ≡ 0
unfolding count_held num_workers held
count_held-num_workers fd zero = refl
count_held-num_workers fd (suc n) = omega (arith, count_held-num_workers fd n)

begin-IsExclusive :
    (a : Addresses) (server stopfd fd n : ℕ)
    → a.wake_fd ≢ stopfd
    → a.wake_fd ≢ fd
    → stopfd ≢ fd
    → IsExclusive (begin a server stopfd fd n)
unfolding begin copies count add_cb room
begin-IsExclusive a server stopfd fd n h h' h'' x =
    let idle = count_held-num_workers x n in
    elim (Bool-cases (ltb 0 stopfd)) [
      | inl b ↦ rw (b, idle) (ground (arith, h, h', h''))
      | inr b ↦ rw (b, idle) (ground (arith, h, h', h''))
    ]

-- In each state that `rpc_provide_service` with workers reaches, whatever the order of the threads'
-- steps, each descriptor of the service that is open is at most once in `pending`, in `working` and
-- with the workers together, and one that is not open is not there at all: no callback runs on two
-- workers at a time, and none is listed for `poll` while one runs it. A worker that has closed its
-- descriptor, and has only to free the entry, does not count. The pipe, the descriptor for stopping
-- and the socket that listens are three descriptors; `accept` returns one that is not open.
pub Reach-IsExclusive :
    (a : Addresses) (server stopfd fd n : ℕ) (s : Threads)
    → a.wake_fd ≢ stopfd
    → a.wake_fd ≢ fd
    → stopfd ≢ fd
    → Reach a (begin a server stopfd fd n) s
    → (x : ℕ) → copies s x ≤ (if s.in_use x then 1 else 0)
unfolding room
Reach-IsExclusive a server stopfd fd n s h h' h'' r = go r
  where
    go : {s : Threads} → Reach a (begin a server stopfd fd n) s → IsExclusive s
    go Reach.here = begin-IsExclusive a server stopfd fd n h h' h''
    go (Reach.later r step) = Step-IsExclusive a step (go r)
