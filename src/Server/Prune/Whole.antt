-- ===== src/Server/Prune/Whole.antt =====
-- The steps of `_prune`: the children, and then the path itself.
use apteryx.Prelude.{
  ℕ, suc, ◌+◌, ◌<◌, ◌≡◌, ◌≢◌, refl, ap, sym, ◌∙◌, List, [], ◌∷◌, ◌++◌, true, Option, none, some,
  inl, inr, Result, ok, Elem, length, length-append, append-nil, append_assoc, arith, Option-cases,
}
use apteryx.CString.{CString}
use apteryx.Database.Table.{HashTable}
use apteryx.Database.Heap.{Heap}
use apteryx.Database.Delete.{db_delete}
use apteryx.Database.View.{IsPath, IsTree, render, view, is_prefix}
use apteryx.Database.View.Keys.{is_prefix-append}
use apteryx.Database.Remove.{Settled}
use apteryx.Database.Remove.Leaf.{db_delete-next}
use apteryx.Database.Remove.Seen.{Pruned-gone, Pruned-others}
use apteryx.Server.{World, Server}
use apteryx.Server.Notify.Calls.{Calm}
use apteryx.Server.Prune.{prune_each, prune_fuel}
use apteryx.Server.Prune.Below.{below_none, db_delete-missing, Pruned-shrinks}
use apteryx.Server.Prune.Changes.{
  IsSound, Taken, Taken-refl, Taken-trans, Taken-child, stays_none, render-injective,
}

prune_each-cons :
    (G : HashTable) (world : World) (rec : CString → Server G.Table → Result (Server G.Table))
    (c : CString) (paths : List CString) (s s₁ s₂ : Server G.Table)
    → rec c s ≡ ok s₁
    → prune_each G world rec paths s₁ ≡ ok s₂
    → prune_each G world rec (c ∷ paths) s ≡ ok s₂
unfolding prune_each
prune_each-cons G world rec c paths s s₁ s₂ e e' = rw e e'

module _ (G : HashTable) (world : World) (calm : Calm world) where
  abbrev pub S : Type 0
  S = Server G.Table

  -- All of a path is gone.
  abbrev pub IsGone : S → List CString → Type 0
  IsGone s ks = (is : List CString) → is_prefix ks is ≡ true → view G s.db is ≡ none

  -- The induction hypothesis: the rounds are more than the nodes that a path leaves room for.
  abbrev pub PrunesAt : ℕ → Type 0
  PrunesAt f =
      (s : S) (ks : List CString)
      → IsSound G s
      → IsPath ks
      → 0 < f
      → s.db.next < f + length ks
      → (s' : S) × (prune_fuel G world f (render ks) s ≡ ok s')
        × IsSound G s'
        × Taken G s.db s'.db ks
        × IsGone s' ks

  pub canonical_after :
      (s : S) (h' : Heap G.Table) (ks : List CString)
      → IsSound G s
      → Taken G s.db h' ks
      → (is : List CString) (o : Option (List ℕ)) → view G h' is ≡ some o
      → IsPath is
  canonical_after s h' ks i t is o e = elim (t.shrinks is) [
    | inl gone ↦ cc (e, gone)
    | inr same ↦ i.canonical is o (sym same ∙ e)
  ]

  -- The children, one after the other.
  pub each :
      (f : ℕ)
      → PrunesAt f
      → (ks : List CString) (paths : List CString) (s : S) → IsSound G s
      → (paths ≢ [] → 0 < f)
      → s.db.next < f + suc (length ks)
      → ((c : CString)
          → Elem c paths
          → (j : CString) × (c ≡ render (ks ++ j ∷ [])) × IsPath (ks ++ j ∷ []))
      → (s' : S) × (prune_each G world (prune_fuel G world f) paths s ≡ ok s')
        × IsSound G s'
        × Taken G s.db s'.db ks
        × ((j : CString)
            → IsPath (ks ++ j ∷ [])
            → Elem (render (ks ++ j ∷ [])) paths
            → IsGone s' (ks ++ j ∷ []))
  unfolding prune_each
  each f ih ks [] s i some_fuel l known = (s, refl, i, Taken-refl G s.db ks, λ j w e. elim e [ ])
  each f ih ks (c ∷ paths) s i some_fuel l known =
      let (j, e, w) = known c (inl refl) in
      let longer : length (ks ++ j ∷ []) ≡ suc (length ks) =
        omega (arith, length-append ks (j ∷ [])) in
      let (s₁, done, i₁, t₁, gone) =
        ih s (ks ++ j ∷ []) i w (some_fuel (λ n. cc n)) (omega (arith, l, longer)) in
      let below = Taken-child G s.db s₁.db ks j t₁ in
      let (s₂, done', i₂, t₂, gone') =
        each f ih ks paths s₁ i₁ (λ ne. some_fuel (λ n. cc n)) (omega (arith, l, below.no_more))
          (λ x m. known x (inr m)) in
      (
        s₂,
        prune_each-cons G world (prune_fuel G world f) c paths s s₁ s₂
            (ap (λ x. prune_fuel G world f x s) e ∙ done) done',
        i₂,
        Taken-trans G s.db s₁.db s₂.db ks below t₂,
        λ j' w' m is pre. elim m [
          | inl same ↦
              let path = render-injective (ks ++ j' ∷ []) (ks ++ j ∷ []) w' w (sym same ∙ e) in
              stays_none G s₁.db s₂.db ks is t₂
                (gone is (ap (λ x. is_prefix x is) (sym path) ∙ pre))
          | inr later ↦ gone' j' w' later is pre
        ],
      )

  -- The deletion of a path below which nothing is left.
  pub delete_bare :
      (s : S) (ks : List CString)
      → IsSound G s
      → IsPath ks
      → ((j : CString) → view G s.db (ks ++ j ∷ []) ≡ none)
      → (h' : Heap G.Table) × (db_delete G s.db (render ks) ≡ ok h')
        × IsTree G h'
        × Settled h'
        × Taken G s.db h' ks
        × (view G h' ks ≡ none)
  delete_bare s ks i w bare = elim (Option-cases (view G s.db ks)) [
    | inl gone ↦ (
      s.db,
      db_delete-missing G s.db i.tree ks w gone,
      i.tree,
      i.settled,
      Taken-refl G s.db ks,
      gone,
    )
    | inr (o, there) ↦
        let (h', done, tree, settled, pruned, no_more) =
          db_delete-next G s.db ks o i.tree i.settled w there bare in
        (
          h',
          done,
          tree,
          settled,
          record {
            beside = λ is _ e. Pruned-others pruned is e;
            shrinks = λ is. Pruned-shrinks pruned is;
            no_more = no_more;
          },
          Pruned-gone pruned,
        )
  ]

  -- A path is the one it begins with, or goes on with a key.
  pub gone_below :
      (h h' : Heap G.Table) (ks : List CString)
      → IsTree G h
      → ((j : CString) → view G h (ks ++ j ∷ []) ≡ none)
      → Taken G h h' ks
      → view G h' ks ≡ none
      → (is : List CString) → is_prefix ks is ≡ true
      → view G h' is ≡ none
  gone_below h h' ks tree bare t gone is pre =
      let (ls, e) = is_prefix-append ks is pre in rw e (rest ls)
    where
      rest : (ls : List CString) → view G h' (ks ++ ls) ≡ none
      rest [] = ap (view G h') (append-nil ks) ∙ gone
      rest (j ∷ ls) = stays_none G h h' ks (ks ++ j ∷ ls) t (
          ap (view G h) (sym (append_assoc ks (j ∷ []) ls))
          ∙ below_none G h tree (ks ++ j ∷ []) ls (bare j))
