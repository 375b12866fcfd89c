-- ===== src/Server/Notify/Copies.antt =====
-- The watchers that `notify_watchers` copies.
use apteryx.Prelude.{
  ℕ, List, [], ◌∷◌, ◌≡◌, ◌≢◌, ◌++◌, refl, Bool, true, false, if◌then◌else◌, inc64, Result, ok, All,
}
use apteryx.CString.{CString, slash}
use apteryx.Registry.{CbInfo, same_key}
use apteryx.Registry.Entries.{IsUnique, Fresh}
use apteryx.Matching.{watch_matches}
use apteryx.Matching.Watchers.{Matches, watch_matches_iff}
use apteryx.Matching.OneLevel.{watch_matches_total}
use apteryx.Server.Notify.{match_watchers}

abbrev pub counted : CbInfo → CbInfo
counted w = record w { count = inc64 w.count }

-- The copies, in the list's order, of the watchers that match, and the list with the counts of
-- those raised by one.
pub data Selected (path : CString) : List CbInfo → List CbInfo → List CbInfo → Type 0 where
  nil : Selected path [] [] []
  hit :
      {w : CbInfo} {ws copies rest : List CbInfo}
      → Matches w.path path
      → Selected path ws copies rest
      → Selected path (w ∷ ws) (w ∷ copies) (counted w ∷ rest)
  miss :
      {w : CbInfo} {ws copies rest : List CbInfo}
      → ¬ Matches w.path path
      → Selected path ws copies rest
      → Selected path (w ∷ ws) copies (w ∷ rest)

-- A watcher's path that the test can read, at a path.
abbrev pub Readable : CString → CbInfo → Type 0
Readable path w = (w.path ≢ []) × (path ++ slash ∷ [] ≢ w.path)

step :
    (path : CString) (w : CbInfo) (ws copies rest : List CbInfo) (b : Bool)
    → watch_matches w.path path ≡ ok b
    → Selected path ws copies rest
    → (c r : List CbInfo) × (◌≡◌ {A = Result (List CbInfo × List CbInfo)}
        (ok (if b then (w ∷ copies, counted w ∷ rest) else (copies, w ∷ rest)))
        (ok (c, r)))
      × Selected path (w ∷ ws) c r
step path w ws copies rest true e s =
    (w ∷ copies, counted w ∷ rest, refl, hit ((watch_matches_iff w.path path).0 e) s)
step path w ws copies rest false e s =
    (copies, w ∷ rest, refl, miss (λ m. cc (e, (watch_matches_iff w.path path).1 m)) s)

-- Where every watcher's path can be read, the loop over the watchers ends without a fault, and it
-- copies exactly the watchers that match.
pub match_watchers-Selected :
    (path : CString) (list : List CbInfo)
    → All (Readable path) list
    → (copies rest : List CbInfo) × (match_watchers path list ≡ ok (copies, rest))
      × Selected path list copies rest
unfolding match_watchers
match_watchers-Selected path [] h = ([], [], refl, nil)
match_watchers-Selected path (w ∷ ws) h =
    let (b, e) = watch_matches_total w.path path h.0.0 h.0.1 in
    let (copies, rest, e', s) = match_watchers-Selected path ws h.1 in
    let (c, r, e'', s') = step path w ws copies rest b e s in (c, r, rw (e, e') e'', s')

Fresh-Selected :
    (path p : CString) (id : ℕ) {list copies rest : List CbInfo}
    → Selected path list copies rest
    → Fresh p id list
    → Fresh p id rest
Fresh-Selected path p id nil u = u
Fresh-Selected path p id (hit m s) u = (unfold same_key in u.0, Fresh-Selected path p id s u.1)
Fresh-Selected path p id (miss m s) u = (u.0, Fresh-Selected path p id s u.1)

-- Raising the counts keeps the keys distinct.
pub IsUnique-Selected :
    (path : CString) {list copies rest : List CbInfo}
    → Selected path list copies rest
    → IsUnique list
    → IsUnique rest
IsUnique-Selected path nil u = u
IsUnique-Selected path (hit {w} m s) u =
    (Fresh-Selected path w.path w.id s u.0, IsUnique-Selected path s u.1)
IsUnique-Selected path (miss {w} m s) u =
    (Fresh-Selected path w.path w.id s u.0, IsUnique-Selected path s u.1)

-- And the paths.
pub All-Selected :
    (path : CString) (test : CString → Bool) {list copies rest : List CbInfo}
    → Selected path list copies rest
    → All (λ (w : CbInfo). test w.path ≡ true) list
    → All (λ (w : CbInfo). test w.path ≡ true) rest
All-Selected path test nil all = tt
All-Selected path test (hit m s) (h, all) = (h, All-Selected path test s all)
All-Selected path test (miss m s) (h, all) = (h, All-Selected path test s all)
