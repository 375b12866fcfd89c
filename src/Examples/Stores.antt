-- ===== src/Examples/Stores.antt =====
-- The theorems on the database, the matching and the lists, at concrete inputs.
use apteryx.Prelude.{
  ◌≡◌, ◌≢◌, ◌↔◌, refl, List, [], ◌∷◌, ◌++◌, Bool, true, none, some, ok, fault, out_of_bounds,
}
use apteryx.CString.{CString, slash, strchr}
use apteryx.Registry.{CbInfo, Request, null, register, same_key}
use apteryx.Registry.Entries.{IsUnique}
use apteryx.Registry.Contract.{Registered, register-Registered}
use apteryx.Matching.{watch_matches, provide_matches}
use apteryx.Matching.Watchers.{Matches, watch_matches_iff}
use apteryx.Matching.OneLevel.{
  IsChild, one_level_children_and_siblings, one_level_overread, watch_matches_total,
}
use apteryx.Matching.Providers.{Provides, provide_matches_iff}
use apteryx.Database.Heap.{Heap}
use apteryx.Database.Table.Assoc.{assoc_table, Entries}
use apteryx.Database.Walk.{db_path_to_node, db_get}
use apteryx.Database.Update.{db_add}
use apteryx.Database.View.{IsPath, IsTree, render, view, node_at, child}
use apteryx.Database.View.Reading.{db_path_to_node-render, db_get-view}
use apteryx.Database.Add.{Added}
use apteryx.Database.Add.Contract.{db_add-Added, shows_self}
use apteryx.Examples.Runs.{codes, start}

-- "/a/b", as keys.
abbrev pub ab : List CString
ab = codes "a" ∷ codes "b" ∷ []

pub ab-IsPath : IsPath ab
unfolding strchr
ab-IsPath = ((λ e. cc, refl), ((λ e. cc, refl), tt))

pub ab-ne : ab ≢ []
ab-ne e = cc

pub start-IsTree : IsTree assoc_table start
unfolding child
start-IsTree = record {
  children_live = λ p k c e. cc;
  root_live = λ r e. cc;
  below_next = λ p n e. cc;
  sized = λ p n v e f. cc;
}

db_add-Added_example :
    (h' : Heap Entries) × (db_add assoc_table start (render ab) (codes "v") ≡ ok h')
    × Added assoc_table start h' ab (codes "v")
db_add-Added_example = db_add-Added assoc_table start ab (codes "v") start-IsTree ab-IsPath ab-ne

-- A database with a value at "/a/b".
pub filled :
    (h : Heap Entries) × IsTree assoc_table h × (view assoc_table h ab ≡ some (some (codes "v")))
filled =
    let (h, e, a) = db_add-Added assoc_table start ab (codes "v") start-IsTree ab-IsPath ab-ne in
    (h, a.tree, shows_self assoc_table start h (codes "v") ab a)

db_get-view_example :
    db_get assoc_table filled.0 (render ab)
    ≡ ok (elim (view assoc_table filled.0 ab) [ none ↦ none | some o ↦ o ])
db_get-view_example = db_get-view assoc_table filled.0 filled.1 ab ab-IsPath

db_path_to_node-render_example :
    db_path_to_node assoc_table filled.0 (render ab) ≡ ok (node_at assoc_table filled.0 ab)
db_path_to_node-render_example = db_path_to_node-render assoc_table filled.0 filled.1 ab ab-IsPath

watch_matches_iff_example :
    (watch_matches (codes "/a/*") (codes "/a/b/c") ≡ ok true)
    ↔ Matches (codes "/a/*") (codes "/a/b/c")
watch_matches_iff_example = watch_matches_iff (codes "/a/*") (codes "/a/b/c")

provide_matches_iff_example :
    (provide_matches (codes "/a/*") (codes "/a/b") ≡ ok true)
    ↔ Provides (codes "/a/*") (codes "/a/b")
provide_matches_iff_example = provide_matches_iff (codes "/a/*") (codes "/a/b")

-- The watcher of "/a/" is told of "/ab".
one_level_children_and_siblings_example :
    (watch_matches (codes "/a" ++ slash ∷ []) (codes "/a" ++ 98 ∷ []) ≡ ok true)
    × (IsChild (codes "/a") (codes "/a" ++ 98 ∷ []) ↔ (98 ≡ slash))
unfolding strchr
one_level_children_and_siblings_example = one_level_children_and_siblings (codes "/a") 98 [] refl

one_level_overread_example :
    watch_matches (codes "/a" ++ slash ∷ []) (codes "/a") ≡ fault out_of_bounds
one_level_overread_example = one_level_overread (codes "/a")

watch_matches_total_example : (b : Bool) × (watch_matches (codes "/a/") (codes "/ab") ≡ ok b)
watch_matches_total_example = watch_matches_total (codes "/a/") (codes "/ab") (λ e. cc) (λ e. cc)

-- Two watchers, and a request to change the callback of the second.
abbrev pub watchers : List CbInfo
watchers =
    record { path = codes "/a/"; id = 1; cb = 16; priv = 0; count = 0 }
    ∷ record { path = codes "/a/*"; id = 2; cb = 32; priv = 0; count = 7 }
    ∷ []

abbrev change : Request
change = record { path = codes "/a/*"; id = 2; cb = 48; priv = 0 }

pub watchers-IsUnique : IsUnique watchers
unfolding same_key
watchers-IsUnique = ((refl, tt), (tt, tt))

register-Registered_example :
    (list' : List CbInfo) × (register null watchers change ≡ ok list')
    × Registered change watchers list'
register-Registered_example = register-Registered null change watchers watchers-IsUnique (λ e. refl)
