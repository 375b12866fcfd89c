-- ===== src/Server/Notify/Calls.antt =====
-- What the watchers are told.
use apteryx.Prelude.{
  ℕ, zero, suc, Bool, All, List, [], ◌∷◌, ◌++◌, ◌≡◌, ◌≢◌, refl, ap, true, false, subst, ◌∙◌, sym,
  Option, inc64, ◌==◌, erase_idx, ok, arith, Bool-cases, inl, inr, append_assoc, append-nil,
}
use apteryx.CString.{CString}
use apteryx.Registry.{CbInfo, Found, null, entry, wild, cb_info_find}
use apteryx.Registry.Entries.{IsUnique}
use apteryx.Registry.Contract.{cb_info_find-from}
use apteryx.Registry.Search.{find_from-ne-wild}
use apteryx.Registry.Changes.{IsUnique-erase_idx}
use apteryx.Server.{Event, watch_call, watch_send, connect_failed, World, Server, emit}
use apteryx.Server.Notify.{drop_found, drop_watcher, call_watcher, call_watchers}

-- One watcher's event, after the events before it: a call where it is the server's own, and else a
-- message, or the failure to connect to it.
pub data Tells (world : World) (path : CString) (value : Option (List ℕ)) (before : List Event)
    (w : CbInfo) : Event → Type 0 where
  called : w.id ≡ world.pid → Tells world path value before w (watch_call path w value)
  sent :
      w.id ≢ world.pid
      → world.connects before w.id ≡ true
      → Tells world path value before w (watch_send path w value)
  lost :
      w.id ≢ world.pid
      → world.connects before w.id ≡ false
      → Tells world path value before w (connect_failed w.id)

-- One event for each watcher, in order.
pub data Told (world : World) (path : CString) (value : Option (List ℕ))
    : List Event → List CbInfo → List Event → Type 0 where
  done : {before : List Event} → Told world path value before [] []
  next :
      {before : List Event} {w : CbInfo} {ws : List CbInfo} {e : Event} {es : List Event}
      → Tells world path value before w e
      → Told world path value (before ++ e ∷ []) ws es
      → Told world path value before (w ∷ ws) (e ∷ es)

-- What the calls leave alone, that the watch list stays without duplicates, and that it gets no new
-- paths.
pub record Keeps {T : Type 0} (s s' : Server T) : Type 0 where
  pub db : s'.db ≡ s.db
  pub provide_list : s'.provide_list ≡ s.provide_list
  pub unique : IsUnique s.watch_list → IsUnique s'.watch_list
  pub paths :
      (test : CString → Bool)
      → All (λ (w : CbInfo). test w.path ≡ true) s.watch_list
      → All (λ (w : CbInfo). test w.path ≡ true) s'.watch_list

All-erase_idx :
    (test : CString → Bool) (list : List CbInfo) (i : ℕ)
    → All (λ (w : CbInfo). test w.path ≡ true) list
    → All (λ (w : CbInfo). test w.path ≡ true) (erase_idx list i)
All-erase_idx test [] i all = tt
All-erase_idx test (w ∷ list) zero (h, all) = all
All-erase_idx test (w ∷ list) (suc i) (h, all) = (h, All-erase_idx test list i all)

drop_found-ok :
    (f : Found) (list : List CbInfo)
    → f ≢ wild
    → (list' : List CbInfo) × (drop_found f list ≡ ok list')
      × (IsUnique list → IsUnique list')
      × ((test : CString → Bool)
          → All (λ (w : CbInfo). test w.path ≡ true) list
          → All (λ (w : CbInfo). test w.path ≡ true) list')
unfolding drop_found
drop_found-ok null list ne = (list, refl, λ u. u, λ test all. all)
drop_found-ok (entry i) list ne =
    (erase_idx list i, refl, IsUnique-erase_idx list i, λ test all. All-erase_idx test list i all)
drop_found-ok wild list ne = absurd (ne refl)

-- Where the unset pointer holds NULL, no search returns an indeterminate one.
abbrev pub Calm : World → Type 0
Calm world = (es : List Event) → world.junk es ≡ null

found-ne-wild :
    (world : World)
    → Calm world
    → (es : List Event) (list : List CbInfo) (p : CString) (id : ℕ)
    → cb_info_find (world.junk es) list p id ≢ wild
found-ne-wild world calm es list p id e =
    find_from-ne-wild list p id
      (sym (cb_info_find-from (world.junk es) list p id (λ _. calm es)) ∙ e)

pub Keeps-trans : {T : Type 0} {s t u : Server T} → Keeps s t → Keeps t u → Keeps s u
Keeps-trans a b = record {
  db = b.db ∙ a.db;
  provide_list = b.provide_list ∙ a.provide_list;
  unique = λ u. b.unique (a.unique u);
  paths = λ test all. b.paths test (a.paths test all);
}

module _ {T : Type 0} (world : World) (calm : Calm world) (path : CString)
    (value : Option (List ℕ)) where
  dropped :
      (w : CbInfo) (s : Server T)
      → (s' : Server T) × (drop_watcher world path value w s ≡ ok s')
        × (s'.events ≡ s.events ++ connect_failed w.id ∷ [])
        × Keeps s s'
  unfolding drop_watcher
  dropped w s =
      let (list, e, u, a) =
        drop_found-ok (cb_info_find (world.junk s.events) s.watch_list w.path w.id) s.watch_list
          (found-ne-wild world calm s.events s.watch_list w.path w.id) in
      (
        emit (connect_failed w.id) (record s {
          watch_list = list;
          counters = record s.counters { watched_no_handler = inc64 s.counters.watched_no_handler };
        }),
        rw e,
        refl,
        record { db = refl; provide_list = refl; unique = u; paths = a },
      )

  told_one :
      (w : CbInfo) (s : Server T)
      → (s' : Server T) × (e : Event) × (call_watcher world path value w s ≡ ok s')
        × (s'.events ≡ s.events ++ e ∷ [])
        × Tells world path value s.events w e
        × Keeps s s'
  unfolding call_watcher
  told_one w s = elim (Bool-cases (w.id == world.pid)) [
    | inl own ↦ (
      emit (watch_call path w value) s,
      watch_call path w value,
      rw own,
      refl,
      called (ground arith),
      record { db = refl; provide_list = refl; unique = λ u. u; paths = λ test all. all },
    )
    | inr other ↦
        let ne : w.id ≢ world.pid = ground arith in
        elim (Bool-cases (world.connects s.events w.id)) [
          | inl there ↦ (
            emit (watch_send path w value)
                (record s { counters = record s.counters { watched = inc64 s.counters.watched } }),
            watch_send path w value,
            rw (other, there),
            refl,
            sent ne there,
            record { db = refl; provide_list = refl; unique = λ u. u; paths = λ test all. all },
          )
          | inr gone ↦
              let (s', e, ev, k) = dropped w s in
              (s', connect_failed w.id, rw (other, gone) e, ev, lost ne gone, k)
        ]
  ]

  -- The calls end without a fault. Each watcher of the list is told the path and its value, or
  -- found unreachable, once and in order; the database and the providers stay as they are, and the
  -- watch list stays without duplicates.
  pub call_watchers-Told :
      (ws : List CbInfo) (s : Server T)
      → (s' : Server T) × (es : List Event) × (call_watchers world path value ws s ≡ ok s')
        × (s'.events ≡ s.events ++ es)
        × Told world path value s.events ws es
        × Keeps s s'
  unfolding call_watchers
  call_watchers-Told [] s = (
    s,
    [],
    refl,
    sym (append-nil s.events),
    done,
    record { db = refl; provide_list = refl; unique = λ u. u; paths = λ test all. all },
  )
  call_watchers-Told (w ∷ ws) s =
      let (s₁, e, c, ev, t, k) = told_one w s in
      let (s₂, es, c', ev', t', k') = call_watchers-Told ws s₁ in
      (
        s₂,
        e ∷ es,
        rw c c',
        ev' ∙ ap (λ x. x ++ es) ev ∙ append_assoc s.events (e ∷ []) es,
        next t (subst (λ before. Told world path value before ws es) ev t'),
        Keeps-trans k k',
      )
