-- ===== src/Examples/Serving.antt =====
-- The theorems on the server, at concrete inputs.
use apteryx.Prelude.{
  if◌then◌else◌, true, leb, ltb, ◌&&◌, ℕ, ◌≡◌, refl, List, [], ◌∷◌, ◌++◌, none, some, ◌==◌, inc64,
  ok, All,
}
use apteryx.CString.{CString, strchr}
use apteryx.Registry.{CbInfo, null}
use apteryx.Database.Table.Assoc.{assoc_table, Entries}
use apteryx.Database.View.{render, view, IsPath}
use apteryx.Server.{Counters, Reply, reply, value_reply, bytes, World, Server, emit}
use apteryx.Server.Notify.{notify_watchers}
use apteryx.Server.Notify.Copies.{Readable}
use apteryx.Server.Notify.Calls.{Calm}
use apteryx.Server.Notify.Contract.{Notified, notify_watchers-Notified}
use apteryx.Server.Handlers.{apteryx__set, apteryx__get}
use apteryx.Server.Handlers.Effects.{SetDone, set-SetDone, get-set_self, set-shadows_parent}
use apteryx.Server.Handlers.Quiet.{replies}
use apteryx.Server.Handlers.Replies.{get, handle, Answers, handle-Answers}
use apteryx.Examples.Runs.{codes, start}
use apteryx.Examples.Stores.{ab, ab-IsPath, ab-ne, start-IsTree, watchers}

-- Client 2 can be connected to, and answers every question with "v".
abbrev pub world : World
world = record {
  pid = 1;
  isprint = λ c. leb 32 c && ltb c 127;
  junk = λ es. null;
  connects = λ es id. id == 2;
  answer = λ es path w. bytes (codes "v");
  local_value = λ es path w. none;
}

pub world-Calm : Calm world
world-Calm es = refl

abbrev zeros : Counters
zeros = record {
  set = 0;
  set_invalid = 0;
  get = 0;
  get_invalid = 0;
  search = 0;
  search_invalid = 0;
  watch = 0;
  watch_invalid = 0;
  watched = 0;
  watched_no_match = 0;
  watched_no_handler = 0;
  provide = 0;
  provide_invalid = 0;
  provided = 0;
  provided_no_handler = 0;
  prune = 0;
  prune_invalid = 0;
}

-- The provider of "/c" is passed over, and that of "/a/*" is asked.
abbrev passed : CbInfo
passed = record { path = codes "/c"; id = 2; cb = 64; priv = 0; count = 0 }

abbrev provider : ℕ → CbInfo
provider id = record { path = codes "/a/*"; id = id; cb = 80; priv = 0; count = 3 }

abbrev with_provider : ℕ → Server Entries
with_provider id = record {
  db = start;
  watch_list = watchers;
  provide_list = passed ∷ provider id ∷ [];
  counters = zeros;
  get_value = none;
  events = [];
}

abbrev pub idle_server : Server Entries
idle_server = with_provider 2

pub watchers-Readable : All (Readable (render ab)) watchers
unfolding render
watchers-Readable = ((λ e. cc, λ e. cc), ((λ e. cc, λ e. cc), tt))

notify_watchers-Notified_example :
    (s' : Server Entries) × (notify_watchers assoc_table world (render ab) idle_server ≡ ok s')
    × Notified assoc_table world ab idle_server s'
notify_watchers-Notified_example =
    notify_watchers-Notified assoc_table world world-Calm ab ab-IsPath idle_server start-IsTree
      watchers-Readable

set-SetDone_example :
    (s' : Server Entries) × (apteryx__set assoc_table world
        (some (record { path = render ab; value = codes "v" }))
        idle_server
      ≡ ok s')
    × SetDone assoc_table world ab (codes "v") idle_server s'
set-SetDone_example =
    set-SetDone assoc_table world ab ab-IsPath ab-ne world-Calm idle_server 118 [] start-IsTree
      watchers-Readable

get-set_self_example :
    (s' s'' : Server Entries) × (apteryx__set assoc_table world
        (some (record { path = render ab; value = codes "v" }))
        idle_server
      ≡ ok s')
    × (apteryx__get assoc_table world (some (render ab)) s' ≡ ok s'')
    × (s''.events ≡ s'.events ++ reply (value_reply (some (codes "v"))) ∷ [])
get-set_self_example =
    get-set_self assoc_table world ab ab-IsPath ab-ne world-Calm idle_server 118 [] start-IsTree
      watchers-Readable

-- After the set of "/a/b" the provider of "/a" is not asked any more.
abbrev a_only : List CString
a_only = codes "a" ∷ []

a_only-IsPath : IsPath a_only
unfolding strchr
a_only-IsPath = ((λ e. cc, refl), tt)

no_a : view assoc_table start a_only ≡ none
unfolding view
no_a = refl

-- The server after that set, and after a get of the path.
after_set : (s' : Server Entries) × SetDone assoc_table world ab (codes "v") idle_server s'
after_set =
    let (s', e, d) =
      set-SetDone assoc_table world ab ab-IsPath ab-ne world-Calm idle_server 118 [] start-IsTree
        watchers-Readable in
    (s', d)

after_get :
    (s' s'' : Server Entries) × (apteryx__get assoc_table world (some (render ab)) s' ≡ ok s'')
after_get =
    let (s', s'', e, e', h) =
      get-set_self assoc_table world ab ab-IsPath ab-ne world-Calm idle_server 118 [] start-IsTree
        watchers-Readable in
    (s', s'', e')

set-shadows_parent_example :
    (s' : Server Entries) × (apteryx__set assoc_table world
        (some (record { path = render (a_only ++ codes "b" ∷ []); value = codes "v" }))
        idle_server
      ≡ ok s')
    × (apteryx__get assoc_table world (some (render a_only)) s'
        ≡ ok (
            emit
              (reply (value_reply (some [])))
              (record s' { counters = record s'.counters { get = inc64 s'.counters.get } })))
set-shadows_parent_example =
    set-shadows_parent assoc_table world a_only (codes "b") ab-IsPath (λ e. cc) world-Calm
      idle_server 118 [] start-IsTree watchers-Readable no_a

-- The first provider does not match, the second has no bytes, and the third has.
abbrev reluctant : World
reluctant = record world {
  connects = λ es id. true;
  answer = λ es path w. if w.id == 3 then bytes [] else bytes (codes "v");
}

abbrev three_providers : Server Entries
three_providers = record idle_server { provide_list = passed ∷ provider 3 ∷ provider 2 ∷ [] }

handle-Answers_example :
    (r : Reply) × Answers assoc_table world (get (some (render ab))) r
    × (replies after_get.1.events ≡ replies after_get.0.events ++ r ∷ [])
unfolding handle
handle-Answers_example =
    handle-Answers assoc_table world (get (some (render ab))) after_get.0 after_get.1 after_get.2
