-- ===== src/Server/Handlers/Effects.antt =====
-- What a set and a get do to a server whose database is a tree.
use apteryx.Prelude.{
  ℕ, List, [], ◌∷◌, ◌++◌, ◌≡◌, ◌≢◌, refl, ap, ◌∙◌, sym, subst, none, some, inc64, ok, All,
  append_assoc,
}
use apteryx.CString.{CString}
use apteryx.Registry.{CbInfo}
use apteryx.Database.Table.{HashTable}
use apteryx.Database.Heap.{Heap}
use apteryx.Database.Walk.{db_get}
use apteryx.Database.View.{IsPath, IsTree, render, view}
use apteryx.Database.View.Keys.{IsPath-append}
use apteryx.Database.View.Reading.{db_get-view}
use apteryx.Database.Add.{Added}
use apteryx.Database.Add.Contract.{db_add-Added, shows_self, shows_parent}
use apteryx.Server.{Event, reply, ok_reply, value_reply, World, Server, emit}
use apteryx.Server.Notify.Copies.{Selected, Readable}
use apteryx.Server.Notify.Calls.{Told, Calm}
use apteryx.Server.Notify.Contract.{notify_watchers-Notified}
use apteryx.Server.Handlers.{apteryx__set, apteryx__get}

-- What a set of a value does.
pub record SetDone (G : HashTable) (world : World) (ks : List CString) (v : List ℕ)
    (s s' : Server G.Table) : Type 0 where
  pub added : Added G s.db s'.db ks v
  pub copies : List CbInfo
  pub rest : List CbInfo
  pub told : List Event
  pub selected : Selected (render ks) s.watch_list copies rest
  pub events : s'.events ≡ s.events ++ reply ok_reply ∷ told
  pub tells : Told world (render ks) (some v) (s.events ++ reply ok_reply ∷ []) copies told
  pub provide_list : s'.provide_list ≡ s.provide_list

module _ (G : HashTable) (world : World) (ks : List CString) (w : IsPath ks) where
  -- The state in which the watchers are told.
  abbrev answered : Server G.Table → Heap G.Table → Server G.Table
  answered s db =
      emit (reply ok_reply)
        (record s { db = db; counters = record s.counters { set = inc64 s.counters.set } })

  -- A get of a path that has a value in the database answers with it, and asks no provider.
  pub get-answers :
      (s : Server G.Table) (v : List ℕ)
      → IsTree G s.db
      → view G s.db ks ≡ some (some v)
      → apteryx__get G world (some (render ks)) s
        ≡ ok (
            emit
              (reply (value_reply (some v)))
              (record s { counters = record s.counters { get = inc64 s.counters.get } }))
  unfolding apteryx__get
  get-answers s v tree e =
      let stored : db_get G s.db (render ks) ≡ ok (some v) =
        db_get-view G s.db tree ks w ∙ ap (λ o. ok (elim o [ none ↦ none | some x ↦ x ])) e in
      rw stored

  module _ (ne : ks ≢ []) (calm : Calm world) where
    -- A set of a value that is not empty, at a canonical path that is not the root, in a database
    -- that is a tree, with watchers whose paths the test can read and unset pointers that hold
    -- NULL, succeeds: the database changes by the addition, the client gets its answer, and after
    -- that each matching watcher is told the new value or found unreachable, once and in order.
    pub set-SetDone :
        (s : Server G.Table) (b : ℕ) (bs : List ℕ)
        → IsTree G s.db
        → All (Readable (render ks)) s.watch_list
        → (s' : Server G.Table) × (apteryx__set G world
              (some (record { path = render ks; value = b ∷ bs }))
              s
            ≡ ok s')
          × SetDone G world ks (b ∷ bs) s s'
    unfolding apteryx__set
    set-SetDone s b bs tree r =
        let (db, e, a) = db_add-Added G s.db ks (b ∷ bs) tree w ne in
        let s₁ = answered s db in
        let (s', e', n) = notify_watchers-Notified G world calm ks w s₁ a.tree r in
        (
          s',
          rw e e',
          record {
            added = subst (λ x. Added G s.db x ks (b ∷ bs)) (sym n.keeps.db) a;
            copies = n.copies;
            rest = n.rest;
            told = n.told;
            selected = n.selected;
            events = n.events ∙ append_assoc s.events (reply ok_reply ∷ []) n.told;
            tells =
                subst
                  (λ x. Told world (render ks) x (s.events ++ reply ok_reply ∷ []) n.copies n.told)
                  (ap (λ o. elim o [ none ↦ none | some x ↦ x ])
                    (shows_self G s.db db (b ∷ bs) ks a))
                  n.tells;
            provide_list = n.keeps.provide_list;
          },
        )

    -- A get of the path after such a set, with the same conditions, answers with the value, whatever
    -- the providers are.
    pub get-set_self :
        (s : Server G.Table) (b : ℕ) (bs : List ℕ)
        → IsTree G s.db
        → All (Readable (render ks)) s.watch_list
        → (s' s'' : Server G.Table) × (apteryx__set G world
              (some (record { path = render ks; value = b ∷ bs }))
              s
            ≡ ok s')
          × (apteryx__get G world (some (render ks)) s' ≡ ok s'')
          × (s''.events ≡ s'.events ++ reply (value_reply (some (b ∷ bs))) ∷ [])
    get-set_self s b bs tree r =
        let (s', e, d) = set-SetDone s b bs tree r in
        (
          s',
          _,
          e,
          get-answers s' (b ∷ bs) d.added.tree (shows_self G s.db s'.db (b ∷ bs) ks d.added),
          refl,
        )

-- A set of a path below one that is missing, with a value that is not empty: it succeeds, and a get
-- of the path above is then answered with an empty value, whatever provides it. The paths are
-- canonical, the database is a tree, the watchers' paths are readable and the unset pointers NULL.
pub set-shadows_parent :
    (G : HashTable) (world : World) (js : List CString) (k : CString)
    → IsPath (js ++ k ∷ [])
    → js ≢ []
    → Calm world
    → (s : Server G.Table) (b : ℕ) (bs : List ℕ) → IsTree G s.db
    → All (Readable (render (js ++ k ∷ []))) s.watch_list
    → view G s.db js ≡ none
    → (s' : Server G.Table) × (apteryx__set G world
          (some (record { path = render (js ++ k ∷ []); value = b ∷ bs }))
          s
        ≡ ok s')
      × (apteryx__get G world (some (render js)) s'
          ≡ ok (
              emit
                (reply (value_reply (some [])))
                (record s' { counters = record s'.counters { get = inc64 s'.counters.get } })))
set-shadows_parent G world js k w ne calm s b bs tree r e =
    let (s', done, d) = set-SetDone G world (js ++ k ∷ []) w (full js) calm s b bs tree r in
    (
      s',
      done,
      get-answers G world js (IsPath-append js (k ∷ []) w).0 s' [] d.added.tree
          (shows_parent G s.db s'.db (b ∷ bs) js k ne e d.added),
    )
  where
    full : (is : List CString) → is ++ k ∷ [] ≢ []
    full [] x = cc
    full (i ∷ is) x = cc
