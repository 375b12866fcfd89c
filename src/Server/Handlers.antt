-- ===== src/Server/Handlers.antt =====
-- apteryxd.c: the handlers of the six requests. A message, or its path, may be NULL.
pub mod Quiet
pub mod Replies
pub mod Questions
pub mod Effects
use apteryx.Prelude.{ℕ, List, [], ◌∷◌, Option, none, some, inc64, Result, ok, ◌>>=◌}
use apteryx.CString.{CString}
use apteryx.Registry.{CbInfo, Request, register}
use apteryx.Database.Table.{HashTable}
use apteryx.Database.Heap.{Heap}
use apteryx.Database.Walk.{db_get, db_search}
use apteryx.Database.Update.{db_add}
use apteryx.Database.Delete.{db_delete}
use apteryx.Server.{
  Counters, reply, null_reply, ok_reply, value_reply, paths_reply, World, Server, emit,
}
use apteryx.Server.Notify.{notify_watchers}
use apteryx.Server.Provide.{provide_get}
use apteryx.Server.Prune.{prune}

-- Apteryx__Set, its two fields; the other messages have a path only, or the fields of `Request`.
pub record SetMessage : Type 0 where
  pub path : CString
  pub value : List ℕ

module _ (G : HashTable) (world : World) where
  abbrev State : Type 0
  State = Server G.Table

  -- "if (set->value.len)": an empty value deletes.
  unfoldable pub write : Heap G.Table → CString → List ℕ → Result (Heap G.Table)
  write db path [] = db_delete G db path
  write db path (b ∷ bs) = db_add G db path (b ∷ bs)

  unfoldable pub apteryx__set : Option SetMessage → State → Result State
  unfolding write
  apteryx__set none s = ok (record (emit (reply null_reply) s) {
    counters = record s.counters { set_invalid = inc64 s.counters.set_invalid };
  })
  apteryx__set (some msg) s = do
    db ← write s.db msg.path msg.value
    notify_watchers G world msg.path (
        emit (reply ok_reply)
          (record s { db = db; counters = record s.counters { set = inc64 s.counters.set } }))

  -- The value in the database, or else what a provider says.
  unfoldable pub lookup_value : Option (List ℕ) → CString → State → Result (Option (List ℕ) × State)
  lookup_value none path s = provide_get world path s
  lookup_value (some v) path s = ok (some v, s)

  unfoldable pub apteryx__get : Option CString → State → Result State
  unfolding lookup_value
  apteryx__get none s = ok (record (emit (reply null_reply) s) {
    counters = record s.counters { get_invalid = inc64 s.counters.get_invalid };
  })
  apteryx__get (some path) s = do
    stored ← db_get G s.db path
    (value, s') ←
        lookup_value stored path
          (record s { counters = record s.counters { get = inc64 s.counters.get } })
    ok (emit (reply (value_reply value)) s')

  unfoldable pub apteryx__search : Option CString → State → Result State
  apteryx__search none s = ok (record (emit (reply null_reply) s) {
    counters = record s.counters { search_invalid = inc64 s.counters.search_invalid };
  })
  apteryx__search (some path) s = do
    results ← db_search G s.db path
    ok (
        emit (reply (paths_reply results))
          (record s { counters = record s.counters { search = inc64 s.counters.search } }))

  unfoldable pub apteryx__watch : Option Request → State → Result State
  apteryx__watch none s = ok (record (emit (reply null_reply) s) {
    counters = record s.counters { watch_invalid = inc64 s.counters.watch_invalid };
  })
  apteryx__watch (some msg) s = do
    list ← register (world.junk s.events) s.watch_list msg
    ok (
        emit (reply ok_reply) (record s {
          watch_list = list;
          counters = record s.counters { watch = inc64 s.counters.watch };
        }))

  unfoldable pub apteryx__provide : Option Request → State → Result State
  apteryx__provide none s = ok (record (emit (reply null_reply) s) {
    counters = record s.counters { provide_invalid = inc64 s.counters.provide_invalid };
  })
  apteryx__provide (some msg) s = do
    list ← register (world.junk s.events) s.provide_list msg
    ok (
        emit (reply ok_reply) (record s {
          provide_list = list;
          counters = record s.counters { provide = inc64 s.counters.provide };
        }))

  unfoldable pub apteryx__prune : Option CString → State → Result State
  apteryx__prune none s = ok (record (emit (reply null_reply) s) {
    counters = record s.counters { prune_invalid = inc64 s.counters.prune_invalid };
  })
  apteryx__prune (some path) s = do
    s' ←
        prune G world path
          (record s { counters = record s.counters { prune = inc64 s.counters.prune } })
    ok (emit (reply ok_reply) s')
