-- ===== src/Client/Service.antt =====
-- apteryx.c: the client's own service, `apteryx__watch` and `apteryx__provide`, by which the server
-- reaches its callbacks.
use apteryx.Prelude.{
  ℕ, List, [], ◌∷◌, ◌≡◌, ◌≢◌, ◌⊎◌, refl, Bool, true, false, Option, none, some, ◌==◌, if◌then◌else◌,
  arith, Bool-cases, inl, inr,
}
use apteryx.CString.{CString}
use apteryx.Registry.{CbInfo}
use apteryx.Server.{Answer, bytes}

-- The message to a watcher: the fields of Apteryx__Watch that are used.
pub record WatchMessage : Type 0 where
  pub path : CString
  pub cb : ℕ
  pub priv : ℕ
  pub value : List ℕ

-- A call of a watch callback; the value is `none` for NULL.
pub record WatchCall : Type 0 where
  pub cb : ℕ
  pub path : CString
  pub priv : ℕ
  pub value : Option (List ℕ)

-- "Check for empty value string".
unfoldable pub value_or_null : List ℕ → Option (List ℕ)
value_or_null [] = none
value_or_null (b ∷ bs) = some (b ∷ bs)

-- The calls that it makes; after them its closure gets an empty result.
unfoldable pub on_watch : WatchMessage → List WatchCall
unfolding value_or_null
on_watch m =
    if m.cb == 0
    then []
    else record { cb = m.cb; path = m.path; priv = m.priv; value = value_or_null m.value } ∷ []

-- What notify_watchers puts into the message: no bytes where there is no value.
unfoldable pub watch_message : CString → CbInfo → Option (List ℕ) → WatchMessage
watch_message path w none = record { path = path; cb = w.cb; priv = w.priv; value = [] }
watch_message path w (some v) = record { path = path; cb = w.cb; priv = w.priv; value = v }

-- What the callbacks of the process return, by callback, path and private pointer, is an argument:
-- the result, which is not looked at, and the value. The answer has no bytes where there is no
-- callback or no value.
unfoldable pub on_provide : (ℕ → CString → ℕ → Bool × Option (List ℕ)) → CString → ℕ → ℕ → Answer
on_provide call path cb priv =
    if cb == 0 then bytes [] else elim (call cb path priv).1 [ none ↦ bytes [] | some v ↦ bytes v ]

-- How a callback is told of what the database has: bytes as they are, and else NULL.
pub data IsTold : Option (List ℕ) → Option (List ℕ) → Type 0 where
  filled : (b : ℕ) (bs : List ℕ) → IsTold (some (b ∷ bs)) (some (b ∷ bs))
  blank : IsTold (some []) none
  missing : IsTold none none

-- The message of notify_watchers to a watcher in another process: if its callback is 0, nothing is
-- called; else the callback is called once, with the path and its own private pointer, and with the
-- value that the database has if that has a byte, and NULL if not.
pub on_watch-watch_message :
    (path : CString) (w : CbInfo) (value : Option (List ℕ))
    → ((w.cb ≡ 0) × (on_watch (watch_message path w value) ≡ []))
      ⊎ ((w.cb ≢ 0)
          × ((call : WatchCall) × (on_watch (watch_message path w value) ≡ call ∷ [])
              × (call.cb ≡ w.cb)
              × (call.path ≡ path)
              × (call.priv ≡ w.priv)
              × IsTold value call.value))
unfolding on_watch watch_message value_or_null
on_watch-watch_message path w value = elim (Bool-cases (w.cb == 0)) [
  | inl e ↦ inl (ground arith, no_call e value)
  | inr e ↦ inr ((λ z. ground arith), one_call e value)
]
  where
    no_call : (w.cb == 0) ≡ true → (o : Option (List ℕ)) → on_watch (watch_message path w o) ≡ []
    no_call e none = rw e refl
    no_call e (some v) = rw e refl

    one_call :
        (w.cb == 0) ≡ false
        → (o : Option (List ℕ))
        → (call : WatchCall) × (on_watch (watch_message path w o) ≡ call ∷ [])
          × (call.cb ≡ w.cb)
          × (call.path ≡ path)
          × (call.priv ≡ w.priv)
          × IsTold o call.value
    one_call e none = (_, rw e refl, refl, refl, refl, missing)
    one_call e (some []) = (_, rw e refl, refl, refl, refl, blank)
    one_call e (some (b ∷ bs)) = (_, rw e refl, refl, refl, refl, filled b bs)
