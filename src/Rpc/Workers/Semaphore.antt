-- ===== src/Rpc/Workers/Semaphore.antt =====
-- The semaphore counts the events that no worker has come for.
use apteryx.Prelude.{
  ℕ, zero, suc, ◌+◌, ◌<◌, ◌≡◌, refl, ap, ◌∙◌, List, [], ◌∷◌, ◌++◌, arith, length, length-append,
}
use apteryx.Rpc.Callbacks.{Callback}
use apteryx.Rpc.Workers.{
  Worker, Threads, Addresses, LoopStep, WorkerStep, Step, Reach, begin, num_workers,
}

unfoldable pub is_woken : Worker → ℕ
is_woken Worker.woken = 1
is_woken (Worker.accepted cb) = 0
is_woken (Worker.closing cb) = 0
is_woken (Worker.returned cb) = 0
is_woken (Worker.stopping cb) = 0
is_woken Worker.waking = 0
is_woken (Worker.calling cb) = 0
is_woken Worker.ready = 0
is_woken Worker.waiting = 0
is_woken Worker.left = 0

-- The workers that have been woken and have not yet taken an event.
unfoldable pub count_woken : List Worker → ℕ
unfolding is_woken
count_woken [] = 0
count_woken (w ∷ ws) = is_woken w + count_woken ws

count_woken-middle :
    (ws : List Worker) (w : Worker) (vs : List Worker)
    → count_woken (ws ++ w ∷ vs) ≡ count_woken ws + is_woken w + count_woken vs
unfolding count_woken
count_woken-middle [] w vs = omega arith
count_woken-middle (x ∷ ws) w vs = omega (arith, count_woken-middle ws w vs)

abbrev IsCounted : Threads → Type 0
IsCounted s = s.wakes + count_woken s.workers ≡ length s.working

module _ (a : Addresses) where
  LoopStep-IsCounted : {s t : Threads} → LoopStep a s t → IsCounted s → IsCounted t
  LoopStep-IsCounted (LoopStep.list_events _ _) i = i
  LoopStep-IsCounted (LoopStep.finish _ _) i = i
  LoopStep-IsCounted (LoopStep.poll _ _ _ _) i = i
  LoopStep-IsCounted (LoopStep.read_wake _ _ _ _ _ _) i = i
  LoopStep-IsCounted (LoopStep.changed _ _ _ _ _) i = i
  LoopStep-IsCounted (LoopStep.unchanged _ _ _ _ _) i = i
  LoopStep-IsCounted {s} (LoopStep.process _ _ stay go _ _) i =
      omega (arith, i, length-append s.working go)
  LoopStep-IsCounted (LoopStep.overread _ _ _ _) i = i

  -- With the other workers counted too.
  WorkerStep-counted :
      {s t : Threads} {w w' : Worker} (rest : ℕ)
      → WorkerStep a s w w' t
      → s.wakes + is_woken w + rest ≡ length s.working
      → t.wakes + is_woken w' + rest ≡ length t.working
  unfolding is_woken
  WorkerStep-counted rest (WorkerStep.enter _) i = omega (arith, i)
  WorkerStep-counted rest (WorkerStep.leave _) i = omega (arith, i)
  WorkerStep-counted rest (WorkerStep.sem_wait n e) i = omega (arith, i, e)
  WorkerStep-counted rest (WorkerStep.take_event cb later e) i = omega (arith, i, ap length e)
  WorkerStep-counted rest (WorkerStep.no_event e) i = absurd (omega (arith, i, ap length e))
  WorkerStep-counted rest (WorkerStep.return_0 _ _) i = omega (arith, i)
  WorkerStep-counted rest (WorkerStep.accept _ _ _ _) i = omega (arith, i)
  WorkerStep-counted rest (WorkerStep.accept_returns _) i = omega (arith, i)
  WorkerStep-counted rest (WorkerStep.stop _ _) i = omega (arith, i)
  WorkerStep-counted rest (WorkerStep.stop_returns _) i = omega (arith, i)
  WorkerStep-counted rest (WorkerStep.close_connection _ _ _) i = omega (arith, i)
  WorkerStep-counted rest (WorkerStep.free_entry _) i = omega (arith, i)
  WorkerStep-counted rest (WorkerStep.give_back _) i = omega (arith, i)
  WorkerStep-counted rest WorkerStep.wake_server i = omega (arith, i)

  Step-IsCounted : {s t : Threads} → Step a s t → IsCounted s → IsCounted t
  Step-IsCounted (Step.loop l) i = LoopStep-IsCounted l i
  Step-IsCounted {s} (Step.worker {w} {w'} before after at step) i =
      let was = ap count_woken at ∙ count_woken-middle before w after in
      let is = count_woken-middle before w' after in
      let then_ =
        WorkerStep-counted (count_woken before + count_woken after) step (omega (arith, i, was)) in
      omega (arith, then_, is)

count_woken-num_workers : (n : ℕ) → count_woken (num_workers n) ≡ 0
unfolding count_woken num_workers
count_woken-num_workers zero = refl
count_woken-num_workers (suc n) = omega (arith, count_woken-num_workers n)

Reach-IsCounted :
    (a : Addresses) (server stopfd fd n : ℕ) {s : Threads}
    → Reach a (begin a server stopfd fd n) s
    → IsCounted s
unfolding begin
Reach-IsCounted a server stopfd fd n Reach.here = omega (arith, count_woken-num_workers n)
Reach-IsCounted a server stopfd fd n (Reach.later r step) =
    Step-IsCounted a step (Reach-IsCounted a server stopfd fd n r)

-- In each state that `rpc_provide_service` with workers reaches, whatever the order of the threads'
-- steps: a worker that has been woken finds an event in `working`, and there are as many events as
-- the semaphore has left and workers have been woken.
pub woken_finds_event :
    (a : Addresses) (server stopfd fd n : ℕ) (s : Threads) (before after : List Worker)
    → Reach a (begin a server stopfd fd n) s
    → s.workers ≡ before ++ Worker.woken ∷ after
    → (cb : Callback) × (rest : List Callback) × (s.working ≡ cb ∷ rest)
      × (s.wakes + count_woken s.workers ≡ length s.working)
unfolding is_woken
woken_finds_event a server stopfd fd n s before after r at =
    let counted = Reach-IsCounted a server stopfd fd n r in
    let (cb, rest, e) =
      first s.working
        (omega (arith, counted, ap count_woken at, count_woken-middle before Worker.woken after)) in
    (cb, rest, e, counted)
  where
    first :
        (list : List Callback)
        → 0 < length list
        → (cb : Callback) × (rest : List Callback) × (list ≡ cb ∷ rest)
    first [] l = absurd (omega (arith, l))
    first (cb ∷ rest) l = (cb, rest, refl)
