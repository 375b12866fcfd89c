-- ===== src/Examples/Commands.antt =====
-- The theorems on numbers, the log and the command line client, at concrete inputs.
use apteryx.Prelude.{
  ℕ, ◌≡◌, ◌≤◌, ◌*◌, [], ◌∷◌, ◌++◌, Bool, true, false, some, ok, fault, out_of_bounds, ltb, leb,
  ◌&&◌, if◌then◌else◌, length, arith,
}
use apteryx.CString.{codes}
use apteryx.Database.Table.Assoc.{assoc_table, Entries}
use apteryx.Database.View.{render}
use apteryx.Server.{Server}
use apteryx.Client.Lifetime.{Library}
use apteryx.Client.Requests.{log_off, returned, apteryx_set}
use apteryx.Client.System.{server_net}
use apteryx.Client.Numbers.{ℤ, apteryx_set_int, apteryx_get_int}
use apteryx.Client.Numbers.Kept.{client_get_int-client_set_int, get_int-unterminated}
use apteryx.CString.{CString}
use apteryx.Logging.{buffer_size, bytes_to_string}
use apteryx.Logging.Bounds.{Printed, bytes_to_string-Printed}
use apteryx.Command.{Shown, main}
use apteryx.Command.RoundTrip.{at_start, main_get-main_set}
use apteryx.Examples.Stores.{ab, ab-IsPath, ab-ne, start-IsTree}
use apteryx.Examples.Serving.{world, world-Calm, idle_server, watchers-Readable}
use apteryx.Examples.Clients.{a-IsPath, k-IsKey}

-- -40
client_get_int-client_set_int_example :
    (s' s'' : Server Entries) × (apteryx_set_int
        (server_net assoc_table world)
        false
        (render (codes "a" ∷ []))
        (some (codes "b"))
        (ℤ.negsuc 39)
        (ok idle_server)
      ≡ (returned true, ok s'))
    × (apteryx_get_int
          (server_net assoc_table world)
          false
          (render (codes "a" ∷ []))
          (some (codes "b"))
          (ok s')
        ≡ (returned (ok (ℤ.negsuc 39)), ok s''))
client_get_int-client_set_int_example =
    client_get_int-client_set_int assoc_table world false (codes "a" ∷ []) (codes "b") (ℤ.negsuc 39)
      a-IsPath k-IsKey (omega arith) world-Calm idle_server (log_off _ _) start-IsTree
      watchers-Readable

-- "42", without a terminator.
get_int-unterminated_example :
    (s' s'' : Server Entries) × (apteryx_set
        (server_net assoc_table world)
        false
        (render (codes "a" ∷ codes "b" ∷ []))
        (codes "42")
        (ok idle_server)
      ≡ (returned true, ok s'))
    × (apteryx_get_int
          (server_net assoc_table world)
          false
          (render (codes "a" ∷ []))
          (some (codes "b"))
          (ok s')
        ≡ (returned (fault out_of_bounds), ok s''))
get_int-unterminated_example =
    get_int-unterminated assoc_table world false (codes "a" ∷ []) (codes "b") 52 (50 ∷ []) a-IsPath
      k-IsKey ((omega arith, omega arith), ((omega arith, omega arith), tt)) world-Calm idle_server
      (log_off _ _) start-IsTree watchers-Readable

-- isprint of the locale "C"
abbrev isprint : ℕ → Bool
isprint c = leb 32 c && ltb c 127

bytes_to_string-Printed_example :
    (text : CString) × Printed isprint (65 ∷ 0 ∷ []) text
    × (bytes_to_string isprint (65 ∷ 0 ∷ [])
        ≡ (if ltb (length text) buffer_size then ok text else fault out_of_bounds))
    × (2 ≤ length text)
    × (length text ≤ 3 * 2)
bytes_to_string-Printed_example =
    bytes_to_string-Printed isprint (65 ∷ 0 ∷ []) (omega arith, (omega arith, tt))

main_get-main_set_example :
    (l' m' : Library) × (s' s'' : Server Entries) × (main
        (server_net assoc_table world)
        7
        16
        32
        48
        0
        (λ s. s)
        (codes "s")
        (render ab ∷ codes "v" ∷ [])
        at_start
        (ok idle_server)
      ≡ (returned (Shown.prints []), l', ok s'))
    × (main
          (server_net assoc_table world)
          7
          16
          32
          48
          0
          (λ s. s)
          (codes "g")
          (render ab ∷ [])
          at_start
          (ok s')
        ≡ (returned (Shown.prints (render ab ++ codes " = " ++ codes "v" ++ 10 ∷ [])), m', ok s''))
main_get-main_set_example =
    main_get-main_set assoc_table world 7 16 32 48 0 (λ s. s) ab 118 [] ab-IsPath ab-ne
      ((λ e. absurd (omega (arith, e))), tt) world-Calm idle_server start-IsTree watchers-Readable
