-- ===== src/Server/Prune/Contract.antt =====
-- `_prune` ends, with nothing left of the path.
use apteryx.Prelude.{
  ℕ, zero, suc, ◌+◌, ◌<◌, ◌≡◌, ◌≢◌, refl, sym, List, [], ◌∷◌, ◌++◌, Option, none, some, inl, inr,
  ok, Elem, length, length-append, arith, Option-cases, subst, true,
}
use apteryx.CString.{CString}
use apteryx.Database.Table.{HashTable}
use apteryx.Database.Heap.{Heap}
use apteryx.Database.Walk.{db_search}
use apteryx.Database.Delete.{db_delete}
use apteryx.Database.View.{IsPath, IsTree, render, view, is_prefix}
use apteryx.Database.View.Keys.{is_prefix_refl}
use apteryx.Database.Remove.{Settled}
use apteryx.Database.Search.{db_search-children}
use apteryx.Server.{World, Server}
use apteryx.Server.Notify.{notify_watchers}
use apteryx.Server.Notify.Calls.{Calm}
use apteryx.Server.Notify.Contract.{notify_watchers-Notified}
use apteryx.Server.Prune.{prune_each, prune_fuel, prune}
use apteryx.Server.Prune.Below.{plain, plain-All, shown-length}
use apteryx.Server.Prune.Changes.{IsSound, Taken, Taken-trans, stays_none}
use apteryx.Server.Prune.Whole.{S, IsGone, PrunesAt, each, delete_bare, gone_below, canonical_after}

prune_fuel-parts :
    (G : HashTable) (world : World) (f : ℕ) (path : CString) (paths : List CString)
    (s s₁ s₂ : Server G.Table) (db : Heap G.Table)
    → db_search G s.db path ≡ ok paths
    → prune_each G world (prune_fuel G world f) paths s ≡ ok s₁
    → db_delete G s₁.db path ≡ ok db
    → notify_watchers G world path (record s₁ { db = db }) ≡ ok s₂
    → prune_fuel G world (suc f) path s ≡ ok s₂
unfolding prune_fuel
prune_fuel-parts G world f path paths s s₁ s₂ db found pruned deleted notified =
    rw (found, pruned, deleted) notified

module _ (G : HashTable) (world : World) (calm : Calm world) where
  -- The deletion and the notification, after the children.
  last_part :
      (s : S G world calm) (ks : List CString)
      → IsSound G s
      → IsPath ks
      → ((j : CString) → view G s.db (ks ++ j ∷ []) ≡ none)
      → (h' : Heap G.Table) × (s' : S G world calm) × (db_delete G s.db (render ks) ≡ ok h')
        × (notify_watchers G world (render ks) (record s { db = h' }) ≡ ok s')
        × IsSound G s'
        × Taken G s.db s'.db ks
        × IsGone G world calm s' ks
  last_part s ks i w bare =
      let (h', deleted, tree, settled, t, gone) = delete_bare G world calm s ks i w bare in
      let (s', notified, n) =
        notify_watchers-Notified G world calm ks w (record s { db = h' }) tree
          (plain-All (render ks) s.watch_list i.plain_paths) in
      let same : h' ≡ s'.db = sym n.keeps.db in
      (
        h',
        s',
        deleted,
        notified,
        record {
          tree = subst (λ h. IsTree G h) same tree;
          settled = subst (λ h. Settled h) same settled;
          canonical =
              subst
                (λ h. (is : List CString) (o : Option (List ℕ)) → view G h is ≡ some o → IsPath is)
                same (canonical_after G world calm s h' ks i t);
          plain_paths = n.keeps.paths plain i.plain_paths;
        },
        subst (λ h. Taken G s.db h ks) same t,
        subst (λ h. (is : List CString) → is_prefix ks is ≡ true → view G h is ≡ none) same
            (gone_below G world calm s.db h' ks i.tree bare t gone),
      )

  canonical_shown :
      (s : S G world calm) (is : List CString) → IsSound G s → view G s.db is ≢ none → IsPath is
  canonical_shown s is i there = elim (Option-cases (view G s.db is)) [
    | inl e ↦ absurd (there e)
    | inr (o, e) ↦ i.canonical is o e
  ]

  room :
      (s : S G world calm) (ks : List CString) (j : CString) (f : ℕ)
      → IsSound G s
      → view G s.db (ks ++ j ∷ []) ≢ none
      → s.db.next < suc f + length ks
      → 0 < f
  room s ks j f i there l = elim (Option-cases (view G s.db (ks ++ j ∷ []))) [
    | inl e ↦ absurd (there e)
    | inr (o, e) ↦
        omega (arith, l, shown-length G s.db i.tree (ks ++ j ∷ []) o e, length-append ks (j ∷ []))
  ]

  prunes : (f : ℕ) → PrunesAt G world calm f
  prunes zero s ks i w some_fuel l = absurd (omega (arith, some_fuel))
  prunes (suc f) s ks i w some_fuel l =
      let (paths, found, iff) = db_search-children G s.db ks i.tree w in
      let (s₁, pruned, i₁, t₁, children_gone) =
        each G world calm f (prunes f) ks paths s i (rounds paths (λ c. (iff c).0))
          (omega (arith, l))
          (λ c m.
            let (j, same, there) = (iff c).0 m in
            (j, same, canonical_shown s (ks ++ j ∷ []) i there)) in
      let bare : (j : CString) → view G s₁.db (ks ++ j ∷ []) ≡ none = λ j.
        elim (Option-cases (view G s.db (ks ++ j ∷ []))) [
          | inl e ↦ stays_none G s.db s₁.db ks (ks ++ j ∷ []) t₁ e
          | inr (o, e) ↦
              children_gone j (i.canonical (ks ++ j ∷ []) o e)
                ((iff (render (ks ++ j ∷ []))).1 (j, refl, λ n. cc (n, e))) (ks ++ j ∷ [])
                (is_prefix_refl (ks ++ j ∷ []))
        ] in
      let (h', s₂, deleted, notified, i₂, t₂, gone) = last_part s₁ ks i₁ w bare in
      (
        s₂,
        prune_fuel-parts G world f (render ks) paths s s₁ s₂ h' found pruned deleted notified,
        i₂,
        Taken-trans G s.db s₁.db s₂.db ks t₁ t₂,
        gone,
      )
    where
      rounds :
          (paths : List CString)
          → ((c : CString)
              → Elem c paths
              → (j : CString) × (c ≡ render (ks ++ j ∷ [])) × (view G s.db (ks ++ j ∷ []) ≢ none))
          → paths ≢ []
          → 0 < f
      rounds [] known ne = absurd (ne refl)
      rounds (c ∷ paths) known ne =
          let (j, _, there) = known c (inl refl) in room s ks j f i there l

-- The server's database is a tree of nodes at rest with canonical paths, its watched paths are
-- neither empty nor do they end in '/', and its unset pointers hold NULL. Then `_prune` of a
-- canonical path ends within its fuel, without a fault. Of that path and of all below it nothing is
-- left; a path that is neither below it nor above it keeps what it had; no path changes but by going
-- away; and the server is again such a server.
pub prune-Taken :
    (G : HashTable) (world : World) (ks : List CString) (s : Server G.Table)
    → Calm world
    → IsSound G s
    → IsPath ks
    → (s' : Server G.Table) × (prune G world (render ks) s ≡ ok s')
      × IsSound G s'
      × Taken G s.db s'.db ks
      × ((is : List CString) → is_prefix ks is ≡ true → view G s'.db is ≡ none)
unfolding prune
prune-Taken G world ks s calm i w =
    prunes G world calm (suc s.db.next) s ks i w (omega arith) (omega arith)
