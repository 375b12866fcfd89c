-- ===== src/Examples/Clients.antt =====
-- The theorems on the client library, at concrete inputs.
use apteryx.Prelude.{◌⊎◌, ◌≢◌, zero, ◌++◌, ◌∷◌, [], ◌≡◌, refl, true, false, some, ok}
use apteryx.Database.Table.Assoc.{assoc_table, Entries}
use apteryx.Database.View.{render}
use apteryx.Server.{Server}
use apteryx.Client.Requests.{log_off, returned, apteryx_set, apteryx_get}
use apteryx.Client.Lifetime.{Library, Start, start_client_thread, inits}
use apteryx.CString.{strchr}
use apteryx.Registry.{CbInfo}
use apteryx.Client.Service.{WatchCall, IsTold, on_watch, watch_message, on_watch-watch_message}
use apteryx.Database.View.{IsKey, IsPath}
use apteryx.Client.Strings.{
  apteryx_set_string, apteryx_get_string, client_get_string-client_set_string,
}
use apteryx.Client.System.{server_net, client_get-client_set}
use apteryx.Examples.Runs.{codes}
use apteryx.Examples.Stores.{ab, ab-IsPath, ab-ne, start-IsTree}
use apteryx.Examples.Serving.{world, world-Calm, idle_server, watchers-Readable}

client_get-client_set_example :
    (s' s'' : Server Entries) × (apteryx_set
        (server_net assoc_table world)
        false
        (render ab)
        (codes "v")
        (ok idle_server)
      ≡ (returned true, ok s'))
    × (apteryx_get (server_net assoc_table world) false (render ab) (ok s')
        ≡ (returned (some (codes "v")), ok s''))
client_get-client_set_example =
    client_get-client_set assoc_table world false ab ab-IsPath ab-ne world-Calm idle_server 118 []
      (log_off _ _) start-IsTree watchers-Readable

pub k-IsKey : IsKey (codes "b")
unfolding strchr
k-IsKey = ((λ e. cc), refl)

pub a-IsPath : IsPath (codes "a" ∷ [])
unfolding strchr
a-IsPath = ((λ e. cc, refl), tt)

client_get_string-client_set_string_example :
    (s' s'' : Server Entries) × (apteryx_set_string
        (server_net assoc_table world)
        false
        (render (codes "a" ∷ []))
        (some (codes "b"))
        (some (codes "hi"))
        (ok idle_server)
      ≡ (returned true, ok s'))
    × (apteryx_get_string
          (server_net assoc_table world)
          false
          (render (codes "a" ∷ []))
          (some (codes "b"))
          (ok s')
        ≡ (returned (some (codes "hi" ++ zero ∷ [])), ok s''))
client_get_string-client_set_string_example =
    client_get_string-client_set_string assoc_table world false (codes "a" ∷ []) (codes "b")
      (codes "hi") a-IsPath k-IsKey world-Calm idle_server (log_off _ _) start-IsTree
      watchers-Readable

abbrev fresh : Library
fresh = record { ref_count = 0; debug = false; thread_running = false; alive = false }

abbrev up : Library
up = start_client_thread Start.late (inits 2 fresh)

abbrev watcher : CbInfo
watcher = record { path = codes "/a/*"; id = 2; cb = 32; priv = 5; count = 0 }

on_watch-watch_message_example :
    ((watcher.cb ≡ 0) × (on_watch (watch_message (codes "/a/b") watcher (some (codes "v"))) ≡ []))
    ⊎ ((watcher.cb ≢ 0)
        × ((call : WatchCall) × (on_watch (watch_message (codes "/a/b") watcher (some (codes "v")))
              ≡ call ∷ [])
            × (call.cb ≡ 32)
            × (call.path ≡ codes "/a/b")
            × (call.priv ≡ 5)
            × IsTold (some (codes "v")) call.value))
on_watch-watch_message_example = on_watch-watch_message (codes "/a/b") watcher (some (codes "v"))
