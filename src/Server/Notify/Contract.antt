-- ===== src/Server/Notify/Contract.antt =====
-- `notify_watchers` as a whole.
use apteryx.Prelude.{
  ℕ, List, [], ◌∷◌, ◌++◌, ◌≡◌, refl, sym, Option, none, some, inc64, ok, All, append-nil,
}
use apteryx.CString.{CString}
use apteryx.Registry.{CbInfo}
use apteryx.Database.Table.{HashTable}
use apteryx.Database.Heap.{Heap}
use apteryx.Database.View.{IsPath, IsTree, render, view}
use apteryx.Database.View.Reading.{db_get-view}
use apteryx.Server.{Event, World, Server}
use apteryx.Server.Notify.{notify_matched, notify_list, notify_watchers}
use apteryx.Server.Notify.Copies.{
  Selected, nil, Readable, match_watchers-Selected, IsUnique-Selected, All-Selected,
}
use apteryx.Server.Notify.Calls.{Told, done, Keeps, Calm, call_watchers-Told}

-- The bytes at a path, and none where there is no node or no value.
abbrev pub value_at : (G : HashTable) → Heap G.Table → List CString → Option (List ℕ)
value_at G h ks = elim (view G h ks) [ none ↦ none | some o ↦ o ]

-- What a notification does: the watchers that match are told the path's value, once and in order.
pub record Notified (G : HashTable) (world : World) (ks : List CString) (s s' : Server G.Table)
    : Type 0 where
  pub copies : List CbInfo
  pub rest : List CbInfo
  pub told : List Event
  pub selected : Selected (render ks) s.watch_list copies rest
  pub events : s'.events ≡ s.events ++ told
  pub tells : Told world (render ks) (value_at G s.db ks) s.events copies told
  pub keeps : Keeps s s'

module _ (G : HashTable) (world : World) (calm : Calm world) (ks : List CString)
    (w : IsPath ks) where
  matched :
      (copies : List CbInfo) (s : Server G.Table)
      → IsTree G s.db
      → (s' : Server G.Table) × (es : List Event) × (notify_matched G world (render ks) copies s
          ≡ ok s')
        × (s'.events ≡ s.events ++ es)
        × Told world (render ks) (value_at G s.db ks) s.events copies es
        × Keeps s s'
  unfolding notify_matched
  matched [] s tree = (
    record s {
      counters = record s.counters { watched_no_match = inc64 s.counters.watched_no_match };
    },
    [],
    refl,
    sym (append-nil s.events),
    done,
    record { db = refl; provide_list = refl; unique = λ u. u; paths = λ test all. all },
  )
  matched (c ∷ cs) s tree =
      let (s', es, e, ev, t, k) =
        call_watchers-Told world calm (render ks) (value_at G s.db ks) (c ∷ cs) s in
      (s', es, rw (db_get-view G s.db tree ks w) e, ev, t, k)

  from_list :
      (list : List CbInfo) (s : Server G.Table)
      → s.watch_list ≡ list
      → IsTree G s.db
      → All (Readable (render ks)) list
      → (s' : Server G.Table) × (notify_list G world (render ks) list s ≡ ok s')
        × Notified G world ks s s'
  unfolding notify_list
  from_list [] s at tree r = (
    s,
    refl,
    record {
      copies = [];
      rest = [];
      told = [];
      selected = rw at nil;
      events = sym (append-nil s.events);
      tells = done;
      keeps = record { db = refl; provide_list = refl; unique = λ u. u; paths = λ test all. all };
    },
  )
  from_list (c ∷ cs) s at tree r =
      let (copies, rest, e, sel) = match_watchers-Selected (render ks) (c ∷ cs) r in
      let (s', es, e', ev, t, k) = matched copies (record s { watch_list = rest }) tree in
      (
        s',
        rw e e',
        record {
          copies = copies;
          rest = rest;
          told = es;
          selected = rw at sel;
          events = ev;
          tells = t;
          keeps = record {
            db = k.db;
            provide_list = k.provide_list;
            unique = λ u. k.unique (IsUnique-Selected (render ks) sel (rw at at u));
            paths = λ test all. k.paths test (All-Selected (render ks) test sel (rw at at all));
          };
        },
      )

  -- On a tree, with watchers whose paths the test can read and unset pointers that hold NULL, a
  -- notification of a canonical path ends without a fault. The watchers whose paths match are each
  -- told the path and the value that the database has for it or found unreachable, one event for
  -- each and in the list's order; the database and the providers stay as they are, and the watch
  -- list stays without duplicates.
  pub notify_watchers-Notified :
      (s : Server G.Table)
      → IsTree G s.db
      → All (Readable (render ks)) s.watch_list
      → (s' : Server G.Table) × (notify_watchers G world (render ks) s ≡ ok s')
        × Notified G world ks s s'
  unfolding notify_watchers
  notify_watchers-Notified s tree r = from_list s.watch_list s refl tree r
