-- ===== src/Rpc/Workers/Wakeups.antt =====
-- The main loop's list of descriptors, and the workers that change the list behind its back.
use apteryx.Prelude.{
  ℕ, ◌+◌, ◌≤◌, ◌<◌, ◌≡◌, refl, sym, ap, ◌∙◌, List, [], ◌∷◌, ◌++◌, Bool, Option, none, some, arith,
  inl, inr, ◌⊎◌, length, append-nil, append_assoc,
}
use apteryx.Rpc.Callbacks.{Callback, add_cb}
use apteryx.Rpc.Workers.{
  Worker, Loop, Threads, Addresses, LoopStep, WorkerStep, Step, Reach, begin, fds_of,
}

-- The descriptors that the loop has listed, where it has.
unfoldable pub listed : Loop → Option (List ℕ)
listed Loop.testing = none
listed (Loop.polling fds) = some fds
listed (Loop.polled fds revents) = some fds
listed (Loop.passed fds revents) = some fds
listed Loop.overrun = none
listed Loop.ended = none

-- A worker that will write to the pipe.
unfoldable pub will_wake : Worker → ℕ
will_wake (Worker.accepted cb) = 1
will_wake (Worker.closing cb) = 0
will_wake (Worker.returned cb) = 1
will_wake (Worker.stopping cb) = 1
will_wake Worker.waking = 1
will_wake (Worker.calling cb) = 0
will_wake Worker.ready = 0
will_wake Worker.waiting = 0
will_wake Worker.woken = 0
will_wake Worker.left = 0

unfoldable pub wakers : List Worker → ℕ
unfolding will_wake
wakers [] = 0
wakers (w ∷ ws) = will_wake w + wakers ws

wakers-middle :
    (ws : List Worker) (w : Worker) (vs : List Worker)
    → wakers (ws ++ w ∷ vs) ≡ wakers ws + will_wake w + wakers vs
unfolding wakers
wakers-middle [] w vs = omega arith
wakers-middle (x ∷ ws) w vs = omega (arith, wakers-middle ws w vs)

-- What the loop has listed is still the first part of the list, and where there is more a byte is in
-- the pipe or will be.
pub record Fresh (pending : List Callback) (told_by : ℕ) (fds : List ℕ) : Type 0 where
  pub extra : List ℕ
  pub now : fds_of pending ≡ fds ++ extra
  pub told : (extra ≡ []) ⊎ (0 < told_by)

pub record Current (s : Threads) : Type 0 where
  pub fresh :
      (fds : List ℕ) → listed s.loop ≡ some fds → Fresh s.pending (s.pipe + wakers s.workers) fds
  pub events :
      (fds : List ℕ) (revents : List Bool)
      → (s.loop ≡ Loop.polled fds revents) ⊎ (s.loop ≡ Loop.passed fds revents)
      → length revents ≡ length fds

fds_of-append : (xs ys : List Callback) → fds_of (xs ++ ys) ≡ fds_of xs ++ fds_of ys
fds_of-append [] ys = refl
fds_of-append (x ∷ xs) ys = ap (λ l. x.fd ∷ l) (fds_of-append xs ys)

module _ (a : Addresses) where
  -- The loop's own steps: a new list, or the one it has.
  LoopStep-Current : {s t : Threads} → LoopStep a s t → Current s → Current t
  unfolding listed
  LoopStep-Current {s} (LoopStep.list_events _ _) i = record {
    fresh = λ fds e. record {
      extra = [];
      now = sym (append-nil (fds_of s.pending)) ∙ ap (λ l. l ++ []) (ground (arith, e));
      told = inl refl;
    };
    events = λ fds revents e. elim e [ inl e ↦ cc e | inr e ↦ cc e ];
  }
  LoopStep-Current (LoopStep.finish _ _) i = record {
    fresh = λ fds e. cc e;
    events = λ fds revents e. elim e [ inl e ↦ cc e | inr e ↦ cc e ];
  }
  LoopStep-Current {s} (LoopStep.poll fds revents at l) i = record {
    fresh = λ fds' e. i.fresh fds' (rw at e);
    events = λ fds' revents' e. elim e [ inl e ↦ ground (arith, e, l) | inr e ↦ cc e ];
  }
  LoopStep-Current (LoopStep.read_wake _ _ _ _ _ _) i = record {
    fresh = λ fds e. cc e;
    events = λ fds revents e. elim e [ inl e ↦ cc e | inr e ↦ cc e ];
  }
  LoopStep-Current (LoopStep.changed _ _ _ _ _) i = record {
    fresh = λ fds e. cc e;
    events = λ fds revents e. elim e [ inl e ↦ cc e | inr e ↦ cc e ];
  }
  LoopStep-Current (LoopStep.unchanged fds revents at _ _) i = record {
    fresh = λ fds' e. i.fresh fds' (rw at e);
    events = λ fds' revents' e. elim e [
      | inl e ↦ cc e
      | inr e ↦ ground (arith, e, i.events fds revents (inl at))
    ];
  }
  LoopStep-Current (LoopStep.process _ _ _ _ _ _) i = record {
    fresh = λ fds e. cc e;
    events = λ fds revents e. elim e [ inl e ↦ cc e | inr e ↦ cc e ];
  }
  LoopStep-Current (LoopStep.overread _ _ _ _) i = record {
    fresh = λ fds e. cc e;
    events = λ fds revents e. elim e [ inl e ↦ cc e | inr e ↦ cc e ];
  }

  -- A worker adds at the end of the list at most, and where it does it will write to the pipe.
  record Adds (s t : Threads) (w w' : Worker) : Type 0 where
    loop : t.loop ≡ s.loop
    more : List Callback
    list : t.pending ≡ s.pending ++ more
    wakes : (more ≡ []) ⊎ (0 < will_wake w')
    no_less : s.pipe + will_wake w ≤ t.pipe + will_wake w'

  same_list :
      {s t : Threads} {w w' : Worker}
      → t.loop ≡ s.loop
      → t.pending ≡ s.pending
      → s.pipe + will_wake w ≤ t.pipe + will_wake w'
      → Adds s t w w'
  same_list {s} l p le = record {
    loop = l;
    more = [];
    list = p ∙ sym (append-nil s.pending);
    wakes = inl refl;
    no_less = le;
  }

  WorkerStep-Adds : {s t : Threads} {w w' : Worker} → WorkerStep a s w w' t → Adds s t w w'
  unfolding will_wake add_cb
  WorkerStep-Adds (WorkerStep.enter _) = same_list refl refl (omega arith)
  WorkerStep-Adds (WorkerStep.leave _) = same_list refl refl (omega arith)
  WorkerStep-Adds (WorkerStep.sem_wait _ _) = same_list refl refl (omega arith)
  WorkerStep-Adds (WorkerStep.take_event _ _ _) = same_list refl refl (omega arith)
  WorkerStep-Adds (WorkerStep.no_event _) = same_list refl refl (omega arith)
  WorkerStep-Adds (WorkerStep.return_0 _ _) = same_list refl refl (omega arith)
  WorkerStep-Adds (WorkerStep.accept cb new _ _) = record {
    loop = refl;
    more = new ∷ [];
    list = refl;
    wakes = inr (omega arith);
    no_less = omega arith;
  }
  WorkerStep-Adds (WorkerStep.accept_returns _) = same_list refl refl (omega arith)
  WorkerStep-Adds (WorkerStep.stop _ _) = same_list refl refl (omega arith)
  WorkerStep-Adds (WorkerStep.stop_returns _) = same_list refl refl (omega arith)
  WorkerStep-Adds (WorkerStep.close_connection _ _ _) = same_list refl refl (omega arith)
  WorkerStep-Adds (WorkerStep.free_entry _) = same_list refl refl (omega arith)
  WorkerStep-Adds (WorkerStep.give_back cb) = record {
    loop = refl;
    more = cb ∷ [];
    list = refl;
    wakes = inr (omega arith);
    no_less = omega arith;
  }
  WorkerStep-Adds WorkerStep.wake_server = same_list refl refl (omega arith)

  Step-Current : {s t : Threads} → Step a s t → Current s → Current t
  Step-Current (Step.loop l) i = LoopStep-Current l i
  Step-Current {s} (Step.worker {w} {w'} {t} before after at step) i =
      let d = WorkerStep-Adds step in
      let was = ap wakers at ∙ wakers-middle before w after in
      let is = wakers-middle before w' after in
      record {
        fresh = λ fds e.
            let f = i.fresh fds (ap listed (sym d.loop) ∙ e) in
            record {
              extra = f.extra ++ fds_of d.more;
              now =
                  ap fds_of d.list
                  ∙ fds_of-append s.pending d.more
                  ∙ ap (λ l. l ++ fds_of d.more) f.now
                  ∙ append_assoc fds f.extra (fds_of d.more);
              told = elim d.wakes [
                | inr wakes ↦ inr (omega (arith, wakes, is))
                | inl none_more ↦ elim f.told [
                  | inr told ↦ inr (omega (arith, told, was, is, d.no_less))
                  | inl none_extra ↦ inl (rw (none_more, none_extra))
                ]
              ];
            };
        events = λ fds revents e. i.events fds revents (rw d.loop at e);
      }

begin-Current : (a : Addresses) (server stopfd fd n : ℕ) → Current (begin a server stopfd fd n)
unfolding begin listed
begin-Current a server stopfd fd n = record {
  fresh = λ fds e. cc e;
  events = λ fds revents e. elim e [ inl e ↦ cc e | inr e ↦ cc e ];
}

pub Reach-Current :
    (a : Addresses) (server stopfd fd n : ℕ) {s : Threads}
    → Reach a (begin a server stopfd fd n) s
    → Current s
Reach-Current a server stopfd fd n Reach.here = begin-Current a server stopfd fd n
Reach-Current a server stopfd fd n (Reach.later r step) =
    Step-Current a step (Reach-Current a server stopfd fd n r)
