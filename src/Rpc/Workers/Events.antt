-- ===== src/Rpc/Workers/Events.antt =====
-- "Process any valid callbacks": whose events the main loop reads, and when it reads too many.
use apteryx.Prelude.{
  ℕ, suc, ◌+◌, ◌≤◌, ◌<◌, ◌≡◌, ◌≢◌, ◌↔◌, refl, sym, ap, ◌∙◌, List, [], ◌∷◌, ◌++◌, ok, fault, Bool,
  out_of_bounds, ◌&&◌, not, ◌==◌, arith, inl, inr, length, length-append, Bool-cases,
}
use apteryx.Rpc.Callbacks.{Callback}
use apteryx.Rpc.Workers.{Loop, Threads, Addresses, Reach, begin, fds_of, dispatch}
use apteryx.Rpc.Workers.Wakeups.{listed, Reach-Current}

-- With events enough the lists are made, and else the loop reads behind the end.
dispatch-enough :
    (revents : List Bool) (list : List Callback)
    → length list ≤ length revents
    → (stay : List Callback) × (go : List Callback) × (dispatch revents list ≡ ok (stay, go))
unfolding dispatch
dispatch-enough revents [] h = ([], [], refl)
dispatch-enough [] (cb ∷ list) h = absurd (omega (arith, h))
dispatch-enough (event ∷ revents) (cb ∷ list) h =
    let (stay, go, e) = dispatch-enough revents list (omega (arith, h)) in
    elim (Bool-cases (event && not (cb.func == 0))) [
      | inl b ↦ (stay, cb ∷ go, rw (e, b))
      | inr b ↦ (cb ∷ stay, go, rw (e, b))
    ]

dispatch-short :
    (revents : List Bool) (list : List Callback)
    → length revents < length list
    → dispatch revents list ≡ fault out_of_bounds
unfolding dispatch
dispatch-short revents [] h = absurd (omega (arith, h))
dispatch-short [] (cb ∷ list) h = refl
dispatch-short (event ∷ revents) (cb ∷ list) h = rw (dispatch-short revents list (omega (arith, h)))

length-fds_of : (list : List Callback) → length (fds_of list) ≡ length list
length-fds_of [] = refl
length-fds_of (x ∷ list) = ap suc (length-fds_of list)

-- Where the main loop of `rpc_provide_service` processes the events of `poll`, in each state that it
-- reaches with its workers, whatever the order of their steps: the descriptors that it polled are
-- still the first ones of the list, in the same order, with an event for each. It reads behind the
-- end of the events exactly if the list has become longer, and else it makes its two lists.
pub events_of_listed :
    (a : Addresses) (server stopfd fd n : ℕ) (s : Threads) (fds : List ℕ) (revents : List Bool)
    → Reach a (begin a server stopfd fd n) s
    → s.loop ≡ Loop.passed fds revents
    → (length revents ≡ length fds)
      × ((extra : List ℕ) × (fds_of s.pending ≡ fds ++ extra))
      × ((dispatch revents s.pending ≡ fault out_of_bounds) ↔ (length fds ≢ length s.pending))
unfolding listed
events_of_listed a server stopfd fd n s fds revents r at =
    let c = Reach-Current a server stopfd fd n r in
    let f = c.fresh fds (ap listed at) in
    let events = c.events fds revents (inr at) in
    let longer : length s.pending ≡ length fds + length f.extra =
      sym (length-fds_of s.pending) ∙ ap length f.now ∙ length-append fds f.extra in
    (
      events,
      (f.extra, f.now),
      (
        λ over same.
            let (stay, go, e) = dispatch-enough revents s.pending (omega (arith, events, same)) in
            cc (over, e),
        λ ne. dispatch-short revents s.pending (ground (arith, ne, events, longer)),
      ),
    )
