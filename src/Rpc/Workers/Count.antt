-- ===== src/Rpc/Workers/Count.antt =====
-- Counting the entries of the lists and of the workers.
use apteryx.Prelude.{
  ℕ, ◌+◌, ◌≡◌, List, [], ◌∷◌, ◌++◌, Bool, ◌&&◌, not, ◌==◌, if◌then◌else◌, none, some, ok, >>=-split,
  arith, Bool-cases, inl, inr,
}
use apteryx.Rpc.Callbacks.{Callback, add_cb}
use apteryx.Rpc.Workers.{Worker, dispatch, held, count, count_held}

pub count-append :
    (fd : ℕ) (xs ys : List Callback) → count fd (xs ++ ys) ≡ count fd xs + count fd ys
unfolding count
count-append fd [] ys = omega arith
count-append fd (x ∷ xs) ys = omega (arith, count-append fd xs ys)

pub count-add_cb :
    (fd : ℕ) (xs : List Callback) (cb : Callback)
    → count fd (add_cb xs cb) ≡ count fd xs + (if cb.fd == fd then 1 else 0)
unfolding add_cb count
count-add_cb fd xs cb = omega (arith, count-append fd xs (cb ∷ []))

-- What one worker holds of a descriptor.
unfoldable pub holds : ℕ → Worker → ℕ
unfolding held
holds fd w = elim (held w) [ none ↦ 0 | some cb ↦ if cb.fd == fd then 1 else 0 ]

pub count_held-middle :
    (fd : ℕ) (ws : List Worker) (w : Worker) (vs : List Worker)
    → count_held fd (ws ++ w ∷ vs) ≡ count_held fd ws + holds fd w + count_held fd vs
unfolding count_held holds
count_held-middle fd [] w vs = omega arith
count_held-middle fd (x ∷ ws) w vs = omega (arith, count_held-middle fd ws w vs)

-- What goes and what stays is what was there.
pub count-dispatch :
    (fd : ℕ) (revents : List Bool) (list stay go : List Callback)
    → dispatch revents list ≡ ok (stay, go)
    → count fd stay + count fd go ≡ count fd list
unfolding dispatch count
count-dispatch fd revents [] stay go e = ground (arith, e)
count-dispatch fd [] (cb ∷ list) stay go e = cc e
count-dispatch fd (event ∷ revents) (cb ∷ list) stay go e =
    let ((stay', go'), rest, done) = >>=-split (dispatch revents list) _ e in
    let ih = count-dispatch fd revents list stay' go' rest in
    elim (Bool-cases (event && not (cb.func == 0))) [
      | inl b ↦
          let same : (stay' ≡ stay) × (cb ∷ go' ≡ go) = ground (arith, done, b) in
          rw (← same.0, ← same.1) (omega (arith, ih))
      | inr b ↦
          let same : (cb ∷ stay' ≡ stay) × (go' ≡ go) = ground (arith, done, b) in
          rw (← same.0, ← same.1) (omega (arith, ih))
    ]
