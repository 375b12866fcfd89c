-- ===== src/Registry.antt =====
-- apteryxd.c: `cb_info_t`, the lists `watch_list` and `provide_list` of them, and what the
-- handlers `apteryx__watch` and `apteryx__provide` do to their list. The pointer to an entry is
-- its index in the list, since both handlers hold `list_lock` while they use it.
pub mod Entries
pub mod Contract
pub mod Changes
pub mod Search
use apteryx.Prelude.{
  ℕ, zero, suc, List, [], ◌∷◌, Bool, true, false, ◌&&◌, not, ◌==◌, if◌then◌else◌, modify, erase_idx,
  Result, ok, fault, uninitialised,
}
use apteryx.CString.{CString, strcmp_eq}

pub record CbInfo : Type 0 where
  pub path : CString
  pub id : ℕ
  pub cb : ℕ
  pub priv : ℕ
  pub count : ℕ

-- What the pointer returned by `cb_info_find` is: NULL, an entry of the list, or a value that was
-- never set.
pub data Found : Type 0 where
  null : Found
  entry : ℕ → Found
  wild : Found

unfoldable pub same_key : CString → ℕ → CbInfo → Bool
unfolding strcmp_eq
same_key path id info = info.id == id && strcmp_eq info.path path

pub next : Found → Found
next (entry i) = entry (suc i)
next null = null
next wild = wild

-- The loop from an entry on. The variable `info` is NULL after an entry that does not fit.
pub find_from : List CbInfo → CString → ℕ → Found
unfolding same_key next
find_from [] path id = null
find_from (info ∷ rest) path id =
    if same_key path id info then entry 0 else next (find_from rest path id)

-- `info` has no initial value: for an empty list the function returns what its stack slot held,
-- which is the argument `junk`.
unfoldable pub cb_info_find : Found → List CbInfo → CString → ℕ → Found
unfolding find_from
cb_info_find junk [] path id = junk
cb_info_find junk (info ∷ rest) path id = find_from (info ∷ rest) path id

-- A request of either kind: the message's fields.
pub record Request : Type 0 where
  pub path : CString
  pub id : ℕ
  pub cb : ℕ
  pub priv : ℕ

unfoldable pub created : Request → CbInfo
created r = record { path = r.path; id = r.id; cb = r.cb; priv = r.priv; count = 0 }

unfoldable pub updated : Request → CbInfo → CbInfo
updated r info = record info { id = r.id; cb = r.cb; priv = r.priv }

-- The three branches "Create", "Update" and "Remove" of the handlers, and the fourth, in which
-- nothing is registered and nothing is removed. An indeterminate pointer is written through, or
-- freed.
unfoldable pub register_found : Found → List CbInfo → Request → Result (List CbInfo)
unfolding created updated
register_found null list r = ok (if not (r.cb == 0) then created r ∷ list else list)
register_found (entry i) list r =
    ok (if not (r.cb == 0) then modify (updated r) list i else erase_idx list i)
register_found wild list r = fault uninitialised

unfoldable pub register : Found → List CbInfo → Request → Result (List CbInfo)
unfolding cb_info_find register_found
register junk list r = register_found (cb_info_find junk list r.path r.id) list r
