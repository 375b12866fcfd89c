-- ===== src/Examples/Deletions.antt =====
-- The theorems on deletions and searches, at concrete inputs.
use apteryx.Prelude.{◌≡◌, ◌≢◌, ◌↔◌, refl, List, [], ◌∷◌, ◌++◌, ◌∙◌, none, some, inl, ok, Elem}
use apteryx.CString.{CString, strchr, strcmp_eq}
use apteryx.Database.Heap.{Heap}
use apteryx.Database.Table.Assoc.{assoc_table, Entries}
use apteryx.Database.Walk.{db_get, db_search}
use apteryx.Database.Update.{db_add}
use apteryx.Database.Delete.{db_delete}
use apteryx.Database.View.{IsPath, IsTree, render, view, node_at, is_prefix, path_eq}
use apteryx.Database.View.Reading.{db_get-view}
use apteryx.Database.Add.{Added, added_view, with_prefixes, or_blank}
use apteryx.Database.Add.Contract.{db_add-Added, shows_self}
use apteryx.Database.Remove.{Settled, Pruned, bytes_of}
use apteryx.Database.Remove.Leaf.{db_delete-Pruned}
use apteryx.Database.Remove.Resting.{db_add-Settled}
use apteryx.Database.Remove.Client.{db_delete-db_get, db_delete-db_add}
use apteryx.Database.Search.{db_search-children}
use apteryx.Examples.Runs.{codes, start}
use apteryx.Examples.Stores.{ab, ab-IsPath, ab-ne, start-IsTree}

start-Settled : Settled start
start-Settled p n e = cc e

-- A database with a value at "/a/b", and no more.
pub stored :
    (h : Heap Entries) × (db_add assoc_table start (render ab) (codes "v") ≡ ok h)
    × Added assoc_table start h ab (codes "v")
stored = db_add-Added assoc_table start ab (codes "v") start-IsTree ab-IsPath ab-ne

stored-Settled : Settled stored.0
stored-Settled =
    db_add-Settled assoc_table start (render ab) (codes "v") stored.0 start-Settled stored.1

stored_there : view assoc_table stored.0 ab ≡ some (some (codes "v"))
stored_there = shows_self assoc_table start stored.0 (codes "v") ab stored.2

stored_bare : (j : CString) → view assoc_table stored.0 (ab ++ j ∷ []) ≡ none
unfolding added_view with_prefixes path_eq is_prefix view node_at strcmp_eq
stored_bare j = stored.2.shows (ab ++ j ∷ [])

abbrev pub abc : List CString
abc = ab ++ codes "c" ∷ []

pub abc-IsPath : IsPath abc
unfolding strchr
abc-IsPath = ((λ e. cc, refl), ((λ e. cc, refl), ((λ e. cc, refl), tt)))

db_delete-Pruned_example :
    (h' : Heap Entries) × (db_delete assoc_table stored.0 (render ab) ≡ ok h')
    × IsTree assoc_table h'
    × Settled h'
    × Pruned (view assoc_table h') (view assoc_table stored.0) ab
db_delete-Pruned_example =
    db_delete-Pruned assoc_table stored.0 ab (some (codes "v")) stored.2.tree stored-Settled
      ab-IsPath stored_there stored_bare

-- "/a/b/c" beside it, with the value "w".
pub wider :
    (h : Heap Entries) × (db_add assoc_table stored.0 (render abc) (codes "w") ≡ ok h)
    × Added assoc_table stored.0 h abc (codes "w")
wider = db_add-Added assoc_table stored.0 abc (codes "w") stored.2.tree abc-IsPath (λ e. cc e)

pub wider-Settled : Settled wider.0
wider-Settled =
    db_add-Settled assoc_table stored.0 (render abc) (codes "w") wider.0 stored-Settled wider.1

wider_there : view assoc_table wider.0 abc ≡ some (some (codes "w"))
wider_there = shows_self assoc_table stored.0 wider.0 (codes "w") abc wider.2

wider_above : db_get assoc_table wider.0 (render ab) ≡ ok (some (codes "v"))
unfolding added_view with_prefixes or_blank path_eq is_prefix strcmp_eq
wider_above =
    db_get-view assoc_table wider.0 wider.2.tree ab ab-IsPath ∙ rw (wider.2.shows ab, stored_there)

wider_bare : (j : CString) → view assoc_table wider.0 (abc ++ j ∷ []) ≡ none
unfolding added_view with_prefixes path_eq is_prefix view node_at strcmp_eq
wider_bare j = wider.2.shows (abc ++ j ∷ []) ∙ stored.2.shows (abc ++ j ∷ [])

db_delete-db_get_example :
    (h' : Heap Entries) × (db_delete assoc_table wider.0 (render abc) ≡ ok h')
    × (db_get assoc_table h' (render abc) ≡ ok none)
    × (db_get assoc_table h' (render ab) ≡ ok (some (codes "v")))
db_delete-db_get_example =
    db_delete-db_get assoc_table wider.0 abc (some (codes "w")) ab 118 [] wider.2.tree wider-Settled
      abc-IsPath wider_there wider_bare ab-IsPath (λ e. cc e) wider_above

v_full : bytes_of (some (codes "v")) ≢ []
unfolding bytes_of
v_full e = cc e

-- "/a/b/c" is set to "w" below "/a/b", and deleted.
db_delete-db_add_example :
    (h₁ : Heap Entries) × (h₂ : Heap Entries) × (db_add assoc_table stored.0
        (render (ab ++ codes "c" ∷ []))
        (codes "w")
      ≡ ok h₁)
    × (db_delete assoc_table h₁ (render (ab ++ codes "c" ∷ [])) ≡ ok h₂)
    × ((is : List CString) → view assoc_table h₂ is ≡ view assoc_table stored.0 is)
db_delete-db_add_example =
    db_delete-db_add assoc_table stored.0 ab (codes "c") (some (codes "v")) (codes "w")
      stored.2.tree stored-Settled abc-IsPath stored_there (inl v_full) (stored_bare (codes "c"))

db_search-children_example :
    (paths : List CString) × (db_search assoc_table stored.0 (render (codes "a" ∷ [])) ≡ ok paths)
    × ((s : CString)
        → Elem s paths ↔ (
            (j : CString) × (s ≡ render (codes "a" ∷ [] ++ j ∷ []))
            × (view assoc_table stored.0 (codes "a" ∷ [] ++ j ∷ []) ≢ none)))
db_search-children_example =
    db_search-children assoc_table stored.0 (codes "a" ∷ []) stored.2.tree (ab-IsPath.0, tt)
