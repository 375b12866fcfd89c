-- ===== src/Command.antt =====
-- apteryxc.c: the command line client.
pub mod RoundTrip
use apteryx.Prelude.{
  ℕ, zero, suc, ◌+◌, List, [], ◌∷◌, ◌++◌, Bool, true, false, not, ◌==◌, Option, none, some,
  if◌then◌else◌,
}
use apteryx.CString.{CString, codes, slash}
use apteryx.Client.Lifetime.{Library, apteryx_init, apteryx_shutdown}
use apteryx.Client.Transport.{Transport}
use apteryx.Client.Requests.{
  Ending, returned, aborted, overrun, apteryx_set, apteryx_get, apteryx_search, apteryx_watch,
  apteryx_provide,
}
use apteryx.Client.Dump.{until_nul, apteryx_dump}
use apteryx.Logging.{printed}

-- APTERYX_MODE, as far as `main` uses it
pub data Mode : Type 0 where
  set get find traverse watch provide : Mode

-- What getopt has found: `debug` and `mode`, and `none` where an option asks for the usage.
unfoldable pub option_of : ℕ → Bool × Option Mode → Option (Bool × Option Mode)
option_of c (debug, mode) =
    if c == b'd'
    then some (true, mode)
    else if c == b's'
    then some (debug, some Mode.set)
    else if c == b'g'
    then some (debug, some Mode.get)
    else if c == b'f'
    then some (debug, some Mode.find)
    else if c == b't'
    then some (debug, some Mode.traverse)
    else if c == b'w'
    then some (debug, some Mode.watch)
    else if c == b'p'
    then some (debug, some Mode.provide)
    else none

unfoldable pub options : List ℕ → Bool × Option Mode → Option (Bool × Option Mode)
unfolding option_of
options [] o = some o
options (c ∷ cs) o = elim (option_of c o) [ none ↦ none | some o' ↦ options cs o' ]

-- `path` and `param`, NULL where they are not given; `none` for a third argument.
unfoldable pub arguments : List CString → Option (Option CString × Option CString)
arguments [] = some (none, none)
arguments (path ∷ []) = some (some path, none)
arguments (path ∷ param ∷ []) = some (some path, some param)
arguments (path ∷ param ∷ more ∷ args) = none

-- watch_callback: what it prints, with no bytes for a NULL value.
unfoldable pub watch_callback : (ℕ → Bool) → CString → List ℕ → CString
unfolding printed
watch_callback isprint path value = path ++ codes " = " ++ printed isprint value ++ 10 ∷ []

-- provide_callback: its private pointer's string, with the terminator.
unfoldable pub provide_callback : CString → List ℕ
provide_callback priv = priv ++ zero ∷ []

-- What ends up on the terminal: the usage, or the text of a mode.
pub data Shown : Type 0 where
  usage : Shown
  prints : CString → Shown

unfoldable pub get_text : CString → Option (List ℕ) → CString
unfolding until_nul
get_text path none = codes "Not found" ++ 10 ∷ []
get_text path (some value) = path ++ codes " = " ++ until_nul value ++ 10 ∷ []

unfoldable pub set_text : Bool → CString
set_text true = []
set_text false = codes "Failed" ++ 10 ∷ []

unfoldable pub find_text : List CString → CString
find_text [] = []
find_text (path ∷ paths) = codes "  " ++ path ++ 10 ∷ [] ++ find_text paths

unfoldable pub path_or_root : Option CString → CString
path_or_root none = slash ∷ []
path_or_root (some path) = path

-- "param ? strlen (param) : 0", and that many bytes of it.
unfoldable pub param_bytes : Option CString → List ℕ
param_bytes none = []
param_bytes (some param) = param

-- `pause` is what goes on until a signal ends the wait. The addresses of the two callbacks and of
-- the argument are numbers.
module _ (net : Transport) (pid watch_cb provide_cb param_ptr fuel : ℕ)
    (pause : net.State → net.State) where
  open net use {State}

  abbrev pub Finished : Type 0
  Finished = Ending Shown × Library × State

  -- The text, and apteryx_shutdown.
  unfoldable pub shut : {A : Type 0} → (A → CString) → Library → Ending A × State → Finished
  unfolding apteryx_shutdown
  shut text l (aborted, s) = (aborted, l, s)
  shut text l (overrun, s) = (overrun, l, s)
  shut text l (returned a, s) = (returned (Shown.prints (text a)), (apteryx_shutdown false l).1, s)

  unfoldable pub unwatch : CString → Ending Bool × Library × State → Finished
  unfolding shut apteryx_watch
  unwatch path (aborted, l, s) = (aborted, l, s)
  unwatch path (overrun, l, s) = (overrun, l, s)
  unwatch path (returned done, l, s) =
      let (r, l', s') = apteryx_watch net l.debug pid (some path) 0 0 l (pause s) in
      shut (λ _. []) l' (r, s')

  unfoldable pub unprovide : CString → Ending Bool × Library × State → Finished
  unfolding shut apteryx_provide
  unprovide path (aborted, l, s) = (aborted, l, s)
  unprovide path (overrun, l, s) = (overrun, l, s)
  unprovide path (returned done, l, s) =
      let (r, l', s') = apteryx_provide net l.debug pid path 0 0 l (pause s) in
      shut (λ _. []) l' (r, s')

  -- The modes, after apteryx_init; `none` is a call that the usage answers.
  unfoldable pub run_mode :
      Mode → Option CString → Option CString → Library → State → Option Finished
  unfolding shut unwatch unprovide get_text set_text find_text path_or_root param_bytes apteryx_set
      apteryx_get apteryx_search apteryx_watch apteryx_provide apteryx_dump
  run_mode Mode.get (some path) none l s =
      some (shut (get_text path) l (apteryx_get net l.debug path s))
  run_mode Mode.get path param l s = none
  run_mode Mode.set (some path) param l s =
      some (shut set_text l (apteryx_set net l.debug path (param_bytes param) s))
  run_mode Mode.set none param l s = none
  run_mode Mode.find (some path) none l s =
      some (shut find_text l (apteryx_search net l.debug (some path) s))
  run_mode Mode.find path param l s = none
  run_mode Mode.traverse path none l s =
      some (shut (λ out. out) l (apteryx_dump net l.debug fuel l.ref_count (path_or_root path) s))
  run_mode Mode.traverse path (some param) l s = none
  run_mode Mode.watch path none l s = some (
      unwatch (path_or_root path)
        (apteryx_watch net l.debug pid (some (path_or_root path)) watch_cb 0 l s))
  run_mode Mode.watch path (some param) l s = none
  run_mode Mode.provide (some path) (some param) l s =
      some (unprovide path (apteryx_provide net l.debug pid path provide_cb param_ptr l s))
  run_mode Mode.provide path param l s = none

  -- With the letters of the options, and the other arguments.
  unfoldable pub main : List ℕ → List CString → Library → State → Finished
  unfolding options arguments run_mode apteryx_init
  main letters args l s = elim (options letters (false, none)) [
    | none ↦ (returned Shown.usage, l, s)
    | some (debug, mode) ↦ elim (arguments args) [
      | none ↦ (returned Shown.usage, l, s)
      | some (path, param) ↦ elim mode [
        | none ↦ (returned Shown.usage, l, s)
        | some m ↦ elim (run_mode m path param (apteryx_init debug l).1 s) [
          | none ↦ (returned Shown.usage, l, s)
          | some r ↦ r
        ]
      ]
    ]
  ]
