-- ===== src/Examples/Prunes.antt =====
-- The theorem on `_prune`, at a concrete input.
use apteryx.Prelude.{ℕ, ◌≡◌, refl, List, [], ◌∷◌, Option, none, some, true, ok}
use apteryx.CString.{CString, last_char}
use apteryx.Database.Table.Assoc.{assoc_table, Entries}
use apteryx.Database.View.{IsPath, render, view, is_prefix, node_at}
use apteryx.Registry.{CbInfo}
use apteryx.Server.{Server}
use apteryx.Server.Prune.{prune}
use apteryx.Server.Prune.Below.{plain}
use apteryx.Server.Prune.Changes.{IsSound, Taken}
use apteryx.Server.Prune.Contract.{prune-Taken}
use apteryx.Server.Prune.Sound.{canonical-Added}
use apteryx.Examples.Runs.{codes, start}
use apteryx.Examples.Stores.{ab, ab-IsPath}
use apteryx.Examples.Serving.{world, world-Calm, idle_server}
use apteryx.Examples.Deletions.{stored, wider, wider-Settled, abc, abc-IsPath}

start_canonical :
    (is : List CString) (o : Option (List ℕ)) → view assoc_table start is ≡ some o → IsPath is
unfolding view node_at
start_canonical is o e = cc e

wider_canonical :
    (is : List CString) (o : Option (List ℕ)) → view assoc_table wider.0 is ≡ some o → IsPath is
wider_canonical =
    canonical-Added assoc_table stored.0 wider.0 abc (codes "w")
      (canonical-Added assoc_table start stored.0 ab (codes "v") start_canonical stored.2 ab-IsPath)
      wider.2 abc-IsPath

-- A watcher of all that is below "/a".
abbrev below_a : CbInfo
below_a = record { path = codes "/a/*"; id = 3; cb = 96; priv = 0; count = 0 }

-- The server with "/a/b" and "/a/b/c", and the watcher.
abbrev filled : Server Entries
filled = record idle_server { db = wider.0; watch_list = below_a ∷ [] }

filled-IsSound : IsSound assoc_table filled
unfolding plain last_char
filled-IsSound = record {
  tree = wider.2.tree;
  settled = wider-Settled;
  canonical = wider_canonical;
  plain_paths = (refl, tt);
}

-- "/a" is pruned, with "/a/b" and "/a/b/c" below it.
prune-Taken_example :
    (s' : Server Entries) × (prune assoc_table world (render (codes "a" ∷ [])) filled ≡ ok s')
    × IsSound assoc_table s'
    × Taken assoc_table filled.db s'.db (codes "a" ∷ [])
    × ((is : List CString)
        → is_prefix (codes "a" ∷ []) is ≡ true
        → view assoc_table s'.db is ≡ none)
prune-Taken_example =
    prune-Taken assoc_table world (codes "a" ∷ []) filled world-Calm filled-IsSound
      (ab-IsPath.0, tt)
