-- ===== src/Command/RoundTrip.antt =====
-- What is set by one call of the program is shown by another.
use apteryx.Prelude.{ℕ, ◌≡◌, ◌≢◌, refl, ap, List, [], ◌∷◌, ◌++◌, false, ◌==◌, ok, All, arith}
use apteryx.CString.{CString, codes}
use apteryx.Database.Table.{HashTable}
use apteryx.Database.View.{IsPath, IsTree, render}
use apteryx.Server.{World, Server}
use apteryx.Server.Notify.Copies.{Readable}
use apteryx.Server.Notify.Calls.{Calm}
use apteryx.Client.Lifetime.{Library, apteryx_init, apteryx_shutdown}
use apteryx.Client.Requests.{returned, log_off}
use apteryx.Client.System.{server_net, client_get-client_set}
use apteryx.Client.Dump.{until_nul}
use apteryx.Command.{
  Shown, get_text, set_text, param_bytes, options, option_of, arguments, shut, run_mode, main,
}

until_nul-All : (s : CString) → All (λ c. c ≢ 0) s → until_nul s ≡ s
unfolding until_nul
until_nul-All [] all = refl
until_nul-All (c ∷ s) (h, all) =
    let no : (c == 0) ≡ false = ground (arith, h) in rw no (ap (◌∷◌ c) (until_nul-All s all))

-- The library in a process that begins.
abbrev pub at_start : Library
at_start = record { ref_count = 0; debug = false; thread_running = false; alive = false }

-- `apteryx -s PATH VALUE`, and then `apteryx -g PATH`: the first prints nothing, and the second
-- prints the path, " = " and the value. The path is canonical and not the root, and the value is a
-- string that is not empty; the server's database is a tree, its watchers' paths are readable, and
-- its unset pointers hold NULL. The log is off.
pub main_get-main_set :
    (G : HashTable) (world : World) (pid watch_cb provide_cb param_ptr fuel : ℕ)
    (pause : (server_net G world).State → (server_net G world).State) (ks : List CString) (c : ℕ)
    (value : CString)
    → IsPath ks
    → ks ≢ []
    → All (λ b. b ≢ 0) (c ∷ value)
    → Calm world
    → (s : Server G.Table) → IsTree G s.db
    → All (Readable (render ks)) s.watch_list
    → (l' m' : Library) × (s' s'' : Server G.Table) × (main
          (server_net G world)
          pid
          watch_cb
          provide_cb
          param_ptr
          fuel
          pause
          (codes "s")
          (render ks ∷ (c ∷ value) ∷ [])
          at_start
          (ok s)
        ≡ (returned (Shown.prints []), l', ok s'))
      × (main
            (server_net G world)
            pid
            watch_cb
            provide_cb
            param_ptr
            fuel
            pause
            (codes "g")
            (render ks ∷ [])
            at_start
            (ok s')
          ≡ (
            returned (Shown.prints (render ks ++ codes " = " ++ (c ∷ value) ++ 10 ∷ [])),
            m',
            ok s'',
          ))
unfolding main options option_of arguments run_mode shut get_text set_text param_bytes apteryx_init
main_get-main_set G world pid watch_cb provide_cb param_ptr fuel pause ks c value w ne all calm s
      tree readable =
    let (s', s'', set_eq, get_eq) =
      client_get-client_set G world false ks w ne calm s c value (log_off world.isprint (c ∷ value))
        tree readable in
    let ended = (apteryx_shutdown false (apteryx_init false at_start).1).1 in
    (ended, ended, s', s'', rw set_eq refl, rw (get_eq, until_nul-All (c ∷ value) all) refl)
