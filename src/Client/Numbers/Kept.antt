-- ===== src/Client/Numbers/Kept.antt =====
-- A number that is set is got back, and what is read where no number was set.
use apteryx.Prelude.{
  ℕ, ◌+◌, ◌-◌, ◌*◌, ◌≤◌, ◌≡◌, refl, ap, ◌∙◌, List, [], ◌∷◌, ◌++◌, ◌&&◌, ◌||◌, ◌==◌, leb, Bool, true,
  false, some, ok, fault, out_of_bounds, All, arith,
}
use apteryx.CString.{CString}
use apteryx.Database.Table.{HashTable}
use apteryx.Database.View.{IsKey, IsPath, IsTree, render}
use apteryx.Database.Add.Parented.{IsPath-snoc}
use apteryx.Server.{World, Server}
use apteryx.Server.Notify.Copies.{Readable}
use apteryx.Server.Notify.Calls.{Calm}
use apteryx.Client.Requests.{returned, log_overruns, apteryx_set}
use apteryx.Client.Strings.{
  get_bytes_at, bytes_kept, full_path-render, snoc-ne, get_bytes_at-ne, render-snoc-ne,
}
use apteryx.Client.System.{server_net, client_get-client_set}
use apteryx.Client.Numbers.{
  ℤ, IsInt32, print_int, digits, atoi, int_of, apteryx_set_int, apteryx_get_int,
}
use apteryx.Client.Numbers.Decimal.{atoi-print_int}

-- A client that sets a key below a path to a 32-bit number, and then gets it as a number, is told of
-- success and given the number. The path and the key are canonical; the server's database is a tree,
-- its watchers' paths are readable, and its unset pointers hold
-- NULL; if `debug` is set, the value fits into the log's buffer.
pub client_get_int-client_set_int :
    (G : HashTable) (world : World) (debug : Bool) (ks : List CString) (k : CString) (z : ℤ)
    → IsPath ks
    → IsKey k
    → IsInt32 z
    → Calm world
    → (s : Server G.Table) → log_overruns world.isprint debug (print_int z ++ 0 ∷ []) ≡ false
    → IsTree G s.db
    → All (Readable (render (ks ++ k ∷ []))) s.watch_list
    → (s' s'' : Server G.Table) × (apteryx_set_int
          (server_net G world)
          debug
          (render ks)
          (some k)
          z
          (ok s)
        ≡ (returned true, ok s'))
      × (apteryx_get_int (server_net G world) debug (render ks) (some k) (ok s')
          ≡ (returned (ok z), ok s''))
unfolding apteryx_set_int apteryx_get_int int_of
client_get_int-client_set_int G world debug ks k z w wk int calm s quiet tree readable =
    let (s', s'', set_eq, get_eq) =
      bytes_kept G world debug ks k (print_int z) w wk calm s quiet tree readable in
    (s', s'', set_eq, rw (get_eq, atoi-print_int z [] int))

-- A text of digits only.
abbrev pub IsDigit : ℕ → Type 0
IsDigit c = (48 ≤ c) × (c ≤ 57)

digits-overread : (n : ℕ) (s : List ℕ) → All IsDigit s → digits n s ≡ fault out_of_bounds
unfolding digits
digits-overread n [] all = refl
digits-overread n (c ∷ s) (h, all) =
    let inside : (leb 48 c && leb c 57) ≡ true = ground (arith, h) in
    rw inside (digits-overread (n * 10 + (c - 48)) s all)

atoi-overread : (s : List ℕ) → All IsDigit s → atoi s ≡ fault out_of_bounds
unfolding atoi
atoi-overread [] all = refl
atoi-overread (c ∷ s) (h, all) =
    let space : (c == 32 || leb 9 c && leb c 13) ≡ false = ground (arith, h) in
    let minus : (c == 45) ≡ false = ground (arith, h) in
    let plus : (c == 43) ≡ false = ground (arith, h) in
    rw (space, minus, plus, digits-overread 0 (c ∷ s) (h, all))

-- A client gets a path as a number where a value of digits was set without a terminator: `atoi` reads
-- behind the end of the value. The path and the key are canonical; the server's database is a tree,
-- its watchers' paths are readable, and its unset pointers hold
-- NULL; if `debug` is set, the value fits into the log's buffer.
pub get_int-unterminated :
    (G : HashTable) (world : World) (debug : Bool) (ks : List CString) (k : CString) (c : ℕ)
    (value : List ℕ)
    → IsPath ks
    → IsKey k
    → All IsDigit (c ∷ value)
    → Calm world
    → (s : Server G.Table) → log_overruns world.isprint debug (c ∷ value) ≡ false
    → IsTree G s.db
    → All (Readable (render (ks ++ k ∷ []))) s.watch_list
    → (s' s'' : Server G.Table) × (apteryx_set
          (server_net G world)
          debug
          (render (ks ++ k ∷ []))
          (c ∷ value)
          (ok s)
        ≡ (returned true, ok s'))
      × (apteryx_get_int (server_net G world) debug (render ks) (some k) (ok s')
          ≡ (returned (fault out_of_bounds), ok s''))
unfolding apteryx_get_int int_of
get_int-unterminated G world debug ks k c value w wk all calm s quiet tree readable =
    let (s', s'', set_eq, get_eq) =
      client_get-client_set G world debug (ks ++ k ∷ []) (IsPath-snoc ks k w wk) (snoc-ne ks k) calm
        s c value quiet tree readable in
    let got =
      ap (λ p. get_bytes_at (server_net G world) debug p (ok s')) (full_path-render ks k)
      ∙ get_bytes_at-ne (server_net G world) debug (render (ks ++ k ∷ [])) (render-snoc-ne ks k)
          (ok s')
      ∙ get_eq in
    (s', s'', set_eq, rw (got, atoi-overread (c ∷ value) all))
