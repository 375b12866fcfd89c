-- ===== src/Rpc/Callbacks.antt =====
-- rpc.c: the lists of callbacks for file descriptors.
use apteryx.Prelude.{
  ℕ, List, [], ◌∷◌, ◌++◌, ◌≡◌, ◌≢◌, refl, ap, true, false, ◌==◌, if◌then◌else◌, All, arith,
}

-- callback_t
pub record Callback : Type 0 where
  pub fd : ℕ
  pub func : ℕ
  pub data_ptr : ℕ

unfoldable pub add_cb : List Callback → Callback → List Callback
add_cb list cb = list ++ cb ∷ []

-- The first entry for the descriptor goes.
unfoldable pub delete_cb : List Callback → ℕ → List Callback
delete_cb [] fd = []
delete_cb (cb ∷ list) fd = if cb.fd == fd then list else cb ∷ delete_cb list fd

-- The descriptors are numbers of open files, so no two entries have the same one: what was added is
-- what is deleted, and every other entry stays in its place. The list has no entry with the
-- descriptor before.
delete_cb-add_cb :
    (list : List Callback) (cb : Callback)
    → All (λ other. other.fd ≢ cb.fd) list
    → delete_cb (add_cb list cb) cb.fd ≡ list
unfolding delete_cb add_cb
delete_cb-add_cb [] cb h = let same : (cb.fd == cb.fd) ≡ true = ground arith in rw same refl
delete_cb-add_cb (other ∷ list) cb h =
    let differs : (other.fd == cb.fd) ≡ false = ground (arith, h.0) in
    rw differs (ap (◌∷◌ other) (delete_cb-add_cb list cb h.1))
