-- ===== src/Client/System.antt =====
-- apteryx.c over apteryxd.c: a client whose requests reach the server whole and in order, and are
-- answered by the first thing that the server's handler passes to its closure. The wire, rpc.c,
-- stands between them and is not modelled here.
use apteryx.Prelude.{
  ℕ, List, [], ◌∷◌, ◌++◌, ◌≡◌, ◌≢◌, refl, ap, ◌∙◌, Bool, true, false, none, some, length, drop, All,
  Result, ok, fault,
}
use apteryx.CString.{CString}
use apteryx.Database.Table.{HashTable}
use apteryx.Database.View.{IsPath, IsTree, render}
use apteryx.Server.{Reply, null_reply, ok_reply, value_reply, paths_reply, World, Server}
use apteryx.Server.Notify.Copies.{Readable}
use apteryx.Server.Notify.Calls.{Calm}
use apteryx.Server.Handlers.Quiet.{replies, replies-reply}
use apteryx.Server.Handlers.Replies.{
  Call, set, get, search, watch, provide, prunes, handle, handle-Answers,
}
use apteryx.Server.Handlers.Effects.{get-set_self}
use apteryx.Client.Lifetime.{Start}
use apteryx.Client.Transport.{Transport, Response, silent, null_result, result}
use apteryx.Client.Requests.{
  returned, starts_with_slash, is_done, send_ok, handle_get_response, apteryx_set, apteryx_get,
  logged, log_overruns,
}

-- What a closure of each kind is passed.
unfoldable pub ok_response : List Reply → Response (Unit {0})
ok_response (ok_reply ∷ rs) = result record {}
ok_response (null_reply ∷ rs) = null_result
ok_response rs = silent

unfoldable pub value_response : List Reply → Response (List ℕ)
value_response (value_reply (some v) ∷ rs) = result v
value_response (value_reply none ∷ rs) = result []
value_response (null_reply ∷ rs) = null_result
value_response rs = silent

unfoldable pub paths_response : List Reply → Response (List CString)
paths_response (paths_reply ps ∷ rs) = result ps
paths_response (null_reply ∷ rs) = null_result
paths_response rs = silent

module _ (G : HashTable) (world : World) where
  -- The server after a call, and what it passed to the call's closure. A server that has failed
  -- answers nothing.
  unfoldable pub answered :
      {A : Type 0}
      → (List Reply → A)
      → Server G.Table
      → Result (Server G.Table)
      → A × Result (Server G.Table)
  answered read s (ok s') = (read (drop (length (replies s.events)) (replies s'.events)), ok s')
  answered read s (fault e) = (read [], fault e)

  unfoldable pub run :
      {A : Type 0} → (List Reply → A) → Call → Result (Server G.Table) → A × Result (Server G.Table)
  unfolding answered
  run read c (ok s) = answered read s (handle G world c s)
  run read c (fault e) = (read [], fault e)

  unfoldable pub is_up : Result (Server G.Table) → Bool
  is_up (ok s) = true
  is_up (fault e) = false

  abbrev pub server_net : Transport
  server_net = record {
    State = Result (Server G.Table);
    isprint = world.isprint;
    starts = λ s. Start.in_time;
    connects = is_up;
    call_set = λ path value. run ok_response (set (some (record { path = path; value = value })));
    call_get = λ path. run value_response (get (some path));
    call_search = λ path. run paths_response (search (some path));
    call_watch = λ r. run ok_response (watch (some r));
    call_provide = λ r. run ok_response (provide (some r));
    call_prune = λ path. run ok_response (prunes (some path));
  }

drop-length : {A : Type 0} (xs ys : List A) → drop (length xs) (xs ++ ys) ≡ ys
drop-length [] ys = refl
drop-length (x ∷ xs) ys = drop-length xs ys

-- What `run` gives where the handler ends and has answered with one reply.
run-reply :
    {A : Type 0} (G : HashTable) (world : World) (read : List Reply → A) (c : Call)
    (s s' : Server G.Table) (r : Reply)
    → handle G world c s ≡ ok s'
    → replies s'.events ≡ replies s.events ++ r ∷ []
    → run G world read c (ok s) ≡ (read (r ∷ []), ok s')
unfolding run answered
run-reply G world read c s s' r e h = rw (e, h, drop-length (replies s.events) (r ∷ [])) refl

render-starts_with_slash : (ks : List CString) → ks ≢ [] → starts_with_slash (render ks) ≡ true
unfolding starts_with_slash render
render-starts_with_slash [] ne = absurd (ne refl)
render-starts_with_slash (k ∷ ks) ne = refl

-- A client that sets a path to a value that is not empty, and then gets the path, is told that the
-- set succeeded and is given the value. The server's database is a tree, its watchers' paths are
-- readable, its unset pointers hold NULL, the path is canonical and not the root, and if `debug` is set
-- the value fits into the log's buffer.
pub client_get-client_set :
    (G : HashTable) (world : World) (debug : Bool) (ks : List CString)
    → IsPath ks
    → ks ≢ []
    → Calm world
    → (s : Server G.Table) (b : ℕ) (bs : List ℕ) → log_overruns world.isprint debug (b ∷ bs) ≡ false
    → IsTree G s.db
    → All (Readable (render ks)) s.watch_list
    → (s' s'' : Server G.Table) × (apteryx_set
          (server_net G world)
          debug
          (render ks)
          (b ∷ bs)
          (ok s)
        ≡ (returned true, ok s'))
      × (apteryx_get (server_net G world) debug (render ks) (ok s')
          ≡ (returned (some (b ∷ bs)), ok s''))
unfolding apteryx_set apteryx_get logged send_ok is_up is_done handle_get_response handle
    ok_response value_response
client_get-client_set G world debug ks w ne calm s b bs quiet tree readable =
    let (s', s'', e, e', h) = get-set_self G world ks w ne calm s b bs tree readable in
    let message = set (some (record { path = render ks; value = b ∷ bs })) in
    let (r, is_ok, answer) = handle-Answers G world message s s' e in
    let there = render-starts_with_slash ks ne in
    let got : replies s''.events ≡ replies s'.events ++ value_reply (some (b ∷ bs)) ∷ [] =
      ap replies h ∙ replies-reply s'.events (value_reply (some (b ∷ bs))) in
    let asked_set : run G world ok_response message (ok s) ≡ (result record {}, ok s') =
      run-reply G world ok_response message s s' ok_reply e (rw⁻¹ is_ok answer) in
    let asked_get : run G world value_response (get (some (render ks))) (ok s')
        ≡ (result (b ∷ bs), ok s'') =
      run-reply G world value_response (get (some (render ks))) s' s'' _ e' got in
    (
      s',
      s'',
      rw (quiet, there) (ap (λ x. (returned (is_done x.0), x.1)) asked_set),
      rw there (
          ap (λ x. (logged (server_net G world) debug (handle_get_response x.0), x.1)) asked_get
          ∙ rw quiet refl),
    )
