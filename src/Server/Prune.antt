-- ===== src/Server/Prune.antt =====
-- apteryxd.c: `_prune`, the children first.
pub mod Below
pub mod Changes
pub mod Whole
pub mod Contract
pub mod Sound
use apteryx.Prelude.{ℕ, zero, suc, List, [], ◌∷◌, Result, ok, fault, stack_overflow, ◌>>=◌}
use apteryx.CString.{CString}
use apteryx.Database.Table.{HashTable}
use apteryx.Database.Walk.{db_search}
use apteryx.Database.Delete.{db_delete}
use apteryx.Server.{World, Server}
use apteryx.Server.Notify.{notify_watchers}

module _ (G : HashTable) (world : World) where
  -- The loop over the children; the recursive call is an argument.
  unfoldable pub prune_each :
      (CString → Server G.Table → Result (Server G.Table))
      → List CString
      → Server G.Table
      → Result (Server G.Table)
  prune_each rec [] s = ok s
  prune_each rec (path ∷ paths) s = do s' ← rec path s; prune_each rec paths s'

  -- Fuel: the depth of the tree below the path, which its nodes bound.
  unfoldable pub prune_fuel : ℕ → CString → Server G.Table → Result (Server G.Table)
  unfolding prune_each
  prune_fuel zero path s = fault stack_overflow
  prune_fuel (suc f) path s = do
    children ← db_search G s.db path
    s₁ ← prune_each (prune_fuel f) children s
    db ← db_delete G s₁.db path
    notify_watchers G world path (record s₁ { db = db })

  unfoldable pub prune : CString → Server G.Table → Result (Server G.Table)
  unfolding prune_fuel
  prune path s = prune_fuel (suc s.db.next) path s
