-- ===== src/Server/Notify.antt =====
-- apteryxd.c: `notify_watchers`.
pub mod Copies
pub mod Calls
pub mod Contract
use apteryx.Prelude.{
  ℕ, List, [], ◌∷◌, ◌++◌, Bool, Option, none, some, if◌then◌else◌, inc64, ◌==◌, erase_idx, Result,
  ok, fault, uninitialised, ◌>>=◌,
}
use apteryx.CString.{CString}
use apteryx.Registry.{CbInfo, Found, null, entry, wild, cb_info_find}
use apteryx.Matching.{watch_matches}
use apteryx.Database.Table.{HashTable}
use apteryx.Database.Heap.{Heap}
use apteryx.Database.Walk.{db_get}
use apteryx.Server.{Counters, Event, watch_call, watch_send, connect_failed, World, Server, emit}

-- The loop "Check each watcher": the copies of those that match, oldest match first, and the list
-- with their counts raised.
unfoldable pub match_watchers : CString → List CbInfo → Result (List CbInfo × List CbInfo)
match_watchers path [] = ok ([], [])
match_watchers path (w ∷ ws) = do
  match ← watch_matches w.path path
  (copies, rest) ← match_watchers path ws
  ok (if match then (w ∷ copies, record w { count = inc64 w.count } ∷ rest) else (copies, w ∷ rest))

-- What is done with the entry that a failed connection's search finds.
unfoldable pub drop_found : Found → List CbInfo → Result (List CbInfo)
drop_found null list = ok list
drop_found (entry i) list = ok (erase_idx list i)
drop_found wild list = fault uninitialised

module _ {T : Type 0} (world : World) (path : CString) (value : Option (List ℕ)) where
  -- "if (!rpc_client)": the watcher is dropped from the list.
  unfoldable pub drop_watcher : CbInfo → Server T → Result (Server T)
  unfolding drop_found cb_info_find
  drop_watcher w s = do
    list ← drop_found (cb_info_find (world.junk s.events) s.watch_list w.path w.id) s.watch_list
    ok (
        emit (connect_failed w.id) (record s {
          watch_list = list;
          counters = record s.counters { watched_no_handler = inc64 s.counters.watched_no_handler };
        }))

  -- The body of the loop "Call each watcher". Whether the client answers changes nothing.
  unfoldable pub call_watcher : CbInfo → Server T → Result (Server T)
  unfolding drop_watcher
  call_watcher w s =
      if w.id == world.pid
      then ok (emit (watch_call path w value) s)
      else (if world.connects s.events w.id
          then ok (
              emit (watch_send path w value)
                (record s { counters = record s.counters { watched = inc64 s.counters.watched } }))
          else drop_watcher w s)

  unfoldable pub call_watchers : List CbInfo → Server T → Result (Server T)
  unfolding call_watcher
  call_watchers [] s = ok s
  call_watchers (w ∷ ws) s = do s' ← call_watcher w s; call_watchers ws s'

module _ (G : HashTable) (world : World) (path : CString) where
  -- From the copies on.
  unfoldable pub notify_matched : List CbInfo → Server G.Table → Result (Server G.Table)
  unfolding call_watchers
  notify_matched [] s = ok (record s {
    counters = record s.counters { watched_no_match = inc64 s.counters.watched_no_match };
  })
  notify_matched (w ∷ ws) s = do
    value ← db_get G s.db path
    call_watchers world path value (w ∷ ws) s

  unfoldable pub notify_list : List CbInfo → Server G.Table → Result (Server G.Table)
  unfolding notify_matched match_watchers
  notify_list [] s = ok s
  notify_list (w ∷ ws) s = do
    (copies, list) ← match_watchers path (w ∷ ws)
    notify_matched copies (record s { watch_list = list })

  unfoldable pub notify_watchers : Server G.Table → Result (Server G.Table)
  unfolding notify_list
  notify_watchers s = notify_list s.watch_list s
