-- ===== src/Database/Remove/Client.antt =====
-- Deletions as the users of the database see them, by `db_get`.
use apteryx.Prelude.{
  ℕ, List, [], ◌∷◌, ◌++◌, ◌≡◌, ◌≢◌, refl, ap, sym, ◌∙◌, Option, none, some, false, inl, inr, ◌⊎◌,
  ok, arith, Bool-cases, Option-cases,
}
use apteryx.CString.{CString}
use apteryx.Database.Table.{HashTable}
use apteryx.Database.Heap.{Heap}
use apteryx.Database.Walk.{db_get}
use apteryx.Database.Update.{db_add}
use apteryx.Database.Delete.{db_delete}
use apteryx.Database.Add.{View, Added, added_view, with_prefixes}
use apteryx.Database.Add.Contract.{db_add-Added, shows_self}
use apteryx.Database.Add.Shown.{node_of_view, no_node_of_view, with_prefixes_same}
use apteryx.Database.View.{IsPath, IsTree, render, node_at, view, path_eq, is_prefix}
use apteryx.Database.View.Keys.{path_eq_iff, is_prefix-snoc, snoc-injective}
use apteryx.Database.View.Reading.{db_get-view}
use apteryx.Database.View.Growth.{view-none}
use apteryx.Database.Remove.{Settled, Pruned, without, bytes_of}
use apteryx.Database.Remove.Leaf.{db_delete-Pruned, parent_of}
use apteryx.Database.Remove.Resting.{db_add-Settled}
use apteryx.Database.Remove.Seen.{Pruned-gone, Pruned-kept, snoc-longer}

module _ (G : HashTable) (h : Heap G.Table) (tree : IsTree G h) where
  -- What `db_get` answers where the view is known, and the other way round.
  get_of_view :
      (is : List CString) (o : Option (List ℕ))
      → IsPath is
      → view G h is ≡ some o
      → db_get G h (render is) ≡ ok o
  get_of_view is o w e = db_get-view G h tree is w ∙ rw e

  get_of_no_view :
      (is : List CString) → IsPath is → view G h is ≡ none → db_get G h (render is) ≡ ok none
  get_of_no_view is w e = db_get-view G h tree is w ∙ rw e

  view_of_get :
      (is : List CString) (v : List ℕ)
      → IsPath is
      → db_get G h (render is) ≡ ok (some v)
      → view G h is ≡ some (some v)
  view_of_get is v w e = ground (arith, e, db_get-view G h tree is w, Option-cases (view G h is))

-- From a tree whose nodes are at rest, after `db_delete` of a path that is there and has no path below
-- it, `db_get` finds nothing at the path, and at another path where it found a value of one byte or
-- more, it finds that value.
pub db_delete-db_get :
    (G : HashTable) (h : Heap G.Table) (ks : List CString) (o : Option (List ℕ)) (is : List CString)
    (b : ℕ) (v : List ℕ)
    → IsTree G h
    → Settled h
    → IsPath ks
    → view G h ks ≡ some o
    → ((j : CString) → view G h (ks ++ j ∷ []) ≡ none)
    → IsPath is
    → is ≢ ks
    → db_get G h (render is) ≡ ok (some (b ∷ v))
    → (h' : Heap G.Table) × (db_delete G h (render ks) ≡ ok h')
      × (db_get G h' (render ks) ≡ ok none)
      × (db_get G h' (render is) ≡ ok (some (b ∷ v)))
db_delete-db_get G h ks o is b v tree settled w there bare w' ne e =
    let (h', done, tree', _, pruned) = db_delete-Pruned G h ks o tree settled w there bare in
    (
      h',
      done,
      get_of_no_view G h' tree' ks w (Pruned-gone pruned),
      get_of_view G h' tree' is (some (b ∷ v)) w'
          (Pruned-kept pruned is b v ne (view_of_get G h tree is (b ∷ v) w' e)),
    )

-- Where the parent stays, the deletion takes the path only.
Pruned-stopped :
    {new old : View} {ks : List CString}
    → Pruned new old ks
    → (js : List CString) (k : CString) → ks ≡ js ++ k ∷ []
    → ((o : Option (List ℕ))
        → without old ks js ≡ some o
        → bytes_of o ≡ []
        → ((j : CString) → without old ks (js ++ j ∷ []) ≡ none)
        → [] ≡ k ∷ [])
    → (is : List CString) → new is ≡ without old ks is
Pruned-stopped (Pruned.stop js' k' o _ _ same) js k e blocked is = same is
Pruned-stopped {new} {old} (Pruned.up js' k' o at empty alone rest) js k e blocked is =
    let (j_j, _) = snoc-injective js' js k' k e in
    cc (
      blocked o (rw (← j_j) at) empty
        (λ j. ap (λ x. without old (js' ++ k' ∷ []) (x ++ j ∷ [])) (sym j_j) ∙ alone j))
Pruned-stopped (Pruned.root only gone) js k e blocked is = absurd (not_snoc js k e)
  where
    not_snoc : (js : List CString) (k : CString) → [] ≢ js ++ k ∷ []
    not_snoc [] k = λ e. cc
    not_snoc (j ∷ js) k = λ e. cc

module _ (G : HashTable) (h : Heap G.Table) (tree : IsTree G h) (js : List CString) (k : CString)
    (fresh : view G h (js ++ k ∷ []) ≡ none) where
  -- Nothing is below a path that is not there.
  nothing_below : (j : CString) → view G h ((js ++ k ∷ []) ++ j ∷ []) ≡ none
  nothing_below j = elim (Option-cases (node_at G h ((js ++ k ∷ []) ++ j ∷ []))) [
    | inl e ↦ view-none G h ((js ++ k ∷ []) ++ j ∷ []) e
    | inr (p, at) ↦
        let (q, _, _, at_q, _, _, _) = parent_of G h tree (js ++ k ∷ []) j p at in
        cc (at_q, no_node_of_view G h tree (js ++ k ∷ []) fresh)
  ]

  module _ (h₁ : Heap G.Table) (v : List ℕ) (added : Added G h h₁ (js ++ k ∷ []) v) where
    added_bare : (j : CString) → view G h₁ ((js ++ k ∷ []) ++ j ∷ []) ≡ none
    unfolding added_view with_prefixes
    added_bare j =
        let longer = snoc-longer (js ++ k ∷ []) j in
        let other : path_eq ((js ++ k ∷ []) ++ j ∷ []) (js ++ k ∷ []) ≡ false =
          ground (arith, longer, is_prefix-snoc ((js ++ k ∷ []) ++ j ∷ []) js k) in
        added.shows ((js ++ k ∷ []) ++ j ∷ []) ∙ rw (other, longer) (nothing_below j)

    -- The path is all that the addition changes, where its parent was there.
    added_without :
        (o : Option (List ℕ))
        → view G h js ≡ some o
        → (is : List CString) → without (view G h₁) (js ++ k ∷ []) is ≡ view G h is
    unfolding without added_view with_prefixes
    added_without o there is = elim (Bool-cases (path_eq is (js ++ k ∷ []))) [
      | inl same ↦
          let e = (path_eq_iff is (js ++ k ∷ [])).0 same in rw same (sym (ap (view G h) e ∙ fresh))
      | inr other ↦
          let (q, at) = node_of_view G h tree js there in
          let prefix : is_prefix is (js ++ k ∷ []) ≡ is_prefix is js =
            ground (arith, is_prefix-snoc is js k, other) in
          rw other (added.shows is ∙ rw (other, prefix) (with_prefixes_same G h tree js q at is))
    ]

-- From a tree whose nodes are at rest, a value is stored at a path that was not there, below one
-- that was and that has bytes or another child, and then that path is deleted. Neither operation
-- faults, and every path then shows what it showed at the start.
pub db_delete-db_add :
    (G : HashTable) (h : Heap G.Table) (js : List CString) (k : CString) (o : Option (List ℕ))
    (v : List ℕ)
    → IsTree G h
    → Settled h
    → IsPath (js ++ k ∷ [])
    → view G h js ≡ some o
    → (bytes_of o ≢ []) ⊎ ((j : CString) × (view G h (js ++ j ∷ []) ≢ none))
    → view G h (js ++ k ∷ []) ≡ none
    → (h₁ : Heap G.Table) × (h₂ : Heap G.Table) × (db_add G h (render (js ++ k ∷ [])) v ≡ ok h₁)
      × (db_delete G h₁ (render (js ++ k ∷ [])) ≡ ok h₂)
      × ((is : List CString) → view G h₂ is ≡ view G h is)
db_delete-db_add G h js k o v tree settled w there keeps fresh =
    let (h₁, done, added) = db_add-Added G h (js ++ k ∷ []) v tree w (not_nil js) in
    let (h₂, done', _, _, pruned) =
      db_delete-Pruned G h₁ (js ++ k ∷ []) (some v) added.tree
        (db_add-Settled G h (render (js ++ k ∷ [])) v h₁ settled done) w
        (shows_self G h h₁ v (js ++ k ∷ []) added) (added_bare G h tree js k fresh h₁ v added) in
    let back = added_without G h tree js k fresh h₁ v added o there in
    (
      h₁,
      h₂,
      done,
      done',
      λ is.
          Pruned-stopped pruned js k refl
            (λ o' at empty alone. elim keeps [
              | inl full ↦
                  let same : o' ≡ o = ground (arith, at, back js, there) in
                  absurd (full (rw same at empty))
              | inr (j, e) ↦ absurd (e (sym (back (js ++ j ∷ [])) ∙ alone j))
            ])
            is
          ∙ back is,
    )
  where
    not_nil : (js : List CString) → js ++ k ∷ [] ≢ []
    not_nil [] = λ e. cc
    not_nil (j ∷ js) = λ e. cc
