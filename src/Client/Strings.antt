-- ===== src/Client/Strings.antt =====
-- apteryx.c: `apteryx_set_string` and `apteryx_get_string`.
use apteryx.Prelude.{
  ℕ, zero, List, [], ◌∷◌, ◌++◌, ◌≡◌, ◌≢◌, refl, sym, ap, ◌∙◌, Bool, true, false, Option, none, some,
  ok, All, append_assoc, append-nil,
}
use apteryx.CString.{CString, slash}
use apteryx.Database.Table.{HashTable}
use apteryx.Database.View.{IsKey, IsPath, IsTree, render}
use apteryx.Database.Add.Parented.{IsPath-snoc}
use apteryx.Server.{World, Server}
use apteryx.Server.Notify.Copies.{Readable}
use apteryx.Server.Notify.Calls.{Calm}
use apteryx.Client.Transport.{Transport}
use apteryx.Client.Requests.{Ending, returned, log_overruns, apteryx_set, apteryx_get}
use apteryx.Client.System.{server_net, client_get-client_set}

-- "Create full path"; a NULL key is `none`.
unfoldable pub full_path : CString → Option CString → CString
full_path path none = path
full_path path (some key) = path ++ slash ∷ key

-- The string with its terminator, and no bytes for NULL.
unfoldable pub string_bytes : Option CString → List ℕ
string_bytes none = []
string_bytes (some value) = value ++ zero ∷ []

module _ (net : Transport) (debug : Bool) where
  open net use {State}

  -- asprintf returns the length of the path: nothing is done for the path "".
  unfoldable pub set_bytes_at : CString → List ℕ → State → Ending Bool × State
  unfolding apteryx_set
  set_bytes_at [] value s = (returned false, s)
  set_bytes_at (c ∷ path) value s = apteryx_set net debug (c ∷ path) value s

  unfoldable pub apteryx_set_string :
      CString → Option CString → Option CString → State → Ending Bool × State
  unfolding full_path string_bytes set_bytes_at
  apteryx_set_string path key value s = set_bytes_at (full_path path key) (string_bytes value) s

  unfoldable pub get_bytes_at : CString → State → Ending (Option (List ℕ)) × State
  unfolding apteryx_get
  get_bytes_at [] s = (returned none, s)
  get_bytes_at (c ∷ path) s = apteryx_get net debug (c ∷ path) s

  -- The bytes that the pointer returned points to, NULL for no value.
  unfoldable pub apteryx_get_string :
      CString → Option CString → State → Ending (Option (List ℕ)) × State
  unfolding full_path get_bytes_at
  apteryx_get_string path key s = get_bytes_at (full_path path key) s

pub full_path-render :
    (ks : List CString) (k : CString) → full_path (render ks) (some k) ≡ render (ks ++ k ∷ [])
unfolding full_path render
full_path-render [] k = ap (◌∷◌ slash) (sym (append-nil k))
full_path-render (j ∷ ks) k =
    ap (◌∷◌ slash)
      (append_assoc j (render ks) (slash ∷ k) ∙ ap (λ s. j ++ s) (full_path-render ks k))

bytes_cases : (v : CString) → (b : ℕ) × (bs : List ℕ) × (v ++ zero ∷ [] ≡ b ∷ bs)
bytes_cases [] = (zero, [], refl)
bytes_cases (c ∷ v) = (c, v ++ zero ∷ [], refl)

pub snoc-ne : (ks : List CString) (k : CString) → ks ++ k ∷ [] ≢ []
snoc-ne [] k e = cc
snoc-ne (j ∷ ks) k e = cc

module _ (net : Transport) (debug : Bool) (path : CString) (ne : path ≢ []) where
  set_bytes_at-ne :
      (value : List ℕ) (s : net.State)
      → set_bytes_at net debug path value s ≡ apteryx_set net debug path value s
  unfolding set_bytes_at
  set_bytes_at-ne value s =
      elim path
          as (λ p. p ≢ [] → set_bytes_at net debug p value s ≡ apteryx_set net debug p value s) [
            | [] ↦ λ empty. absurd (empty refl)
            | c ∷ p ↦ λ _. refl
          ]
        ne

  pub get_bytes_at-ne :
      (s : net.State) → get_bytes_at net debug path s ≡ apteryx_get net debug path s
  unfolding get_bytes_at
  get_bytes_at-ne s =
      elim path as (λ p. p ≢ [] → get_bytes_at net debug p s ≡ apteryx_get net debug p s) [
        | [] ↦ λ empty. absurd (empty refl)
        | c ∷ p ↦ λ _. refl
      ]
        ne

pub render-snoc-ne : (ks : List CString) (k : CString) → render (ks ++ k ∷ []) ≢ []
unfolding render
render-snoc-ne [] k e = cc
render-snoc-ne (j ∷ ks) k e = cc

-- Bytes that end in a terminator, set and got back at the full path.
pub bytes_kept :
    (G : HashTable) (world : World) (debug : Bool) (ks : List CString) (k value : CString)
    → IsPath ks
    → IsKey k
    → Calm world
    → (s : Server G.Table) → log_overruns world.isprint debug (value ++ zero ∷ []) ≡ false
    → IsTree G s.db
    → All (Readable (render (ks ++ k ∷ []))) s.watch_list
    → (s' s'' : Server G.Table) × (set_bytes_at
          (server_net G world)
          debug
          (full_path (render ks) (some k))
          (value ++ zero ∷ [])
          (ok s)
        ≡ (returned true, ok s'))
      × (get_bytes_at (server_net G world) debug (full_path (render ks) (some k)) (ok s')
          ≡ (returned (some (value ++ zero ∷ [])), ok s''))
bytes_kept G world debug ks k value w wk calm s quiet tree readable =
    let net = server_net G world in
    let (b, bs, e) = bytes_cases value in
    let (s', s'', set_eq, get_eq) =
      client_get-client_set G world debug (ks ++ k ∷ []) (IsPath-snoc ks k w wk) (snoc-ne ks k) calm
        s b bs (rw e at quiet) tree readable in
    let path = full_path-render ks k in
    let there = render-snoc-ne ks k in
    (
      s',
      s'',
      ap (λ p. set_bytes_at net debug p (value ++ zero ∷ []) (ok s)) path
          ∙ set_bytes_at-ne net debug (render (ks ++ k ∷ [])) there (value ++ zero ∷ []) (ok s)
          ∙ ap (λ v. apteryx_set net debug (render (ks ++ k ∷ [])) v (ok s)) e
          ∙ set_eq,
      ap (λ p. get_bytes_at net debug p (ok s')) path
          ∙ get_bytes_at-ne net debug (render (ks ++ k ∷ [])) there (ok s')
          ∙ get_eq
          ∙ ap (λ v. (returned (some v), ok s'')) (sym e),
    )

-- A client that sets a key below a path to a string, and then gets it as a string, is told of
-- success and given the string with its terminator. The path and the key are canonical; the
-- server's database is a tree, its watchers' paths are readable, and its unset pointers hold
-- NULL; if `debug` is set, the value fits into the log's buffer.
pub client_get_string-client_set_string :
    (G : HashTable) (world : World) (debug : Bool) (ks : List CString) (k value : CString)
    → IsPath ks
    → IsKey k
    → Calm world
    → (s : Server G.Table) → log_overruns world.isprint debug (value ++ zero ∷ []) ≡ false
    → IsTree G s.db
    → All (Readable (render (ks ++ k ∷ []))) s.watch_list
    → (s' s'' : Server G.Table) × (apteryx_set_string
          (server_net G world)
          debug
          (render ks)
          (some k)
          (some value)
          (ok s)
        ≡ (returned true, ok s'))
      × (apteryx_get_string (server_net G world) debug (render ks) (some k) (ok s')
          ≡ (returned (some (value ++ zero ∷ [])), ok s''))
unfolding apteryx_set_string apteryx_get_string string_bytes
client_get_string-client_set_string G world debug ks k value w wk calm s quiet tree readable =
    bytes_kept G world debug ks k value w wk calm s quiet tree readable
