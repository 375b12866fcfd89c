-- ===== src/Rpc/Workers/Progress.antt =====
-- The main loop does not sleep on an old list: a worker that has changed the list wakes it.
use apteryx.Prelude.{
  ℕ, ◌+◌, ◌<◌, ◌≡◌, ◌≢◌, refl, ap, ◌∙◌, List, [], ◌∷◌, ◌++◌, arith, inl, inr, append-nil,
  Bool-cases, ltb,
}
use apteryx.Rpc.Callbacks.{Callback}
use apteryx.Rpc.Workers.{Worker, Loop, Threads, Addresses, WorkerStep, Step, Reach, begin, fds_of}
use apteryx.Rpc.Workers.Wakeups.{listed, will_wake, wakers, Reach-Current}

a_waker :
    (ws : List Worker)
    → 0 < wakers ws
    → (before : List Worker) × (w : Worker) × (after : List Worker) × (ws ≡ before ++ w ∷ after)
      × (0 < will_wake w)
unfolding wakers
a_waker [] h = absurd (omega (arith, h))
a_waker (w ∷ ws) h = elim (Bool-cases (ltb 0 (will_wake w))) [
  | inl b ↦ ([], w, ws, refl, ground (arith, b))
  | inr b ↦
      let (before, v, after, e, l) = a_waker ws (ground (arith, b, h)) in
      (w ∷ before, v, after, ap (◌∷◌ w) e, l)
]

module _ (a : Addresses) where
  -- What the worker's next steps lead to.
  abbrev Woken : Threads → Type 0
  Woken s = (t : Threads) × Reach a s t × (t.loop ≡ s.loop) × (0 < t.pipe)

  from_waking :
      (s : Threads) (before after : List Worker)
      → s.workers ≡ before ++ Worker.waking ∷ after
      → Woken s
  from_waking s before after e = (
    record s { pipe = s.pipe + 1; workers = before ++ Worker.ready ∷ after },
    Reach.later Reach.here (Step.worker before after e WorkerStep.wake_server),
    refl,
    omega arith,
  )

  -- One step more, in front.
  sooner : {s t u : Threads} → Step a s t → Reach a t u → Reach a s u
  sooner step Reach.here = Reach.later Reach.here step
  sooner step (Reach.later r last) = Reach.later (sooner step r) last

  led_to : {s t : Threads} → Step a s t → t.loop ≡ s.loop → Woken t → Woken s
  led_to step same (u, r, loop, l) = (u, sooner step r, loop ∙ same, l)

  from_returned :
      (s : Threads) (cb : Callback) (before after : List Worker)
      → s.workers ≡ before ++ Worker.returned cb ∷ after
      → Woken s
  from_returned s cb before after e =
      led_to (Step.worker before after e (WorkerStep.give_back cb)) refl
        (from_waking _ before after refl)

  from_waker :
      (s : Threads) (w : Worker) (before after : List Worker)
      → s.workers ≡ before ++ w ∷ after
      → 0 < will_wake w
      → Woken s
  unfolding will_wake
  from_waker s (Worker.accepted cb) before after e l =
      led_to (Step.worker before after e (WorkerStep.accept_returns cb)) refl
        (from_returned _ cb before after refl)
  from_waker s (Worker.closing cb) before after e l = elim l [ ]
  from_waker s (Worker.returned cb) before after e l = from_returned s cb before after e
  from_waker s (Worker.stopping cb) before after e l = (
    record s { pipe = s.pipe + 1; workers = before ++ Worker.ready ∷ after },
    Reach.later Reach.here (Step.worker before after e (WorkerStep.stop_returns cb)),
    refl,
    omega arith,
  )
  from_waker s Worker.waking before after e l = from_waking s before after e
  from_waker s (Worker.calling cb) before after e l = absurd (omega (arith, l))
  from_waker s Worker.ready before after e l = absurd (omega (arith, l))
  from_waker s Worker.waiting before after e l = absurd (omega (arith, l))
  from_waker s Worker.woken before after e l = absurd (omega (arith, l))
  from_waker s Worker.left before after e l = absurd (omega (arith, l))

-- In each state that `rpc_provide_service` with workers reaches, whatever the order of the threads'
-- steps: where the main loop is in `poll` and the list of callbacks is no longer the one it listed,
-- there is a byte in the pipe, or a worker can go on, by steps of its own that wait for nothing, and
-- write one while the loop is still in that call.
pub poll_is_woken :
    (a : Addresses) (server stopfd fd n : ℕ) (s : Threads) (fds : List ℕ)
    → Reach a (begin a server stopfd fd n) s
    → s.loop ≡ Loop.polling fds
    → fds_of s.pending ≢ fds
    → (t : Threads) × Reach a s t × (t.loop ≡ Loop.polling fds) × (0 < t.pipe)
unfolding listed
poll_is_woken a server stopfd fd n s fds r at old =
    let c = Reach-Current a server stopfd fd n r in
    let f = c.fresh fds (ap listed at) in
    elim f.told [
      | inl none_extra ↦ absurd (old (f.now ∙ ap (λ l. fds ++ l) none_extra ∙ append-nil fds))
      | inr told ↦ elim (Bool-cases (ltb 0 s.pipe)) [
        | inl b ↦ (s, Reach.here, at, ground (arith, b))
        | inr b ↦
            let (before, w, after, e, l) = a_waker s.workers (ground (arith, b, told)) in
            let (t, r', same, l') = from_waker a s w before after e l in (t, r', same ∙ at, l')
      ]
    ]
