-- ===== src/Server/Prune/Sound.antt =====
-- Canonical paths, after a value is set.
use apteryx.Prelude.{ℕ, ◌≡◌, List, Option, some, true, false, inl, inr, Bool-cases, sym, ◌∙◌}
use apteryx.CString.{CString}
use apteryx.Database.Table.{HashTable}
use apteryx.Database.Heap.{Heap}
use apteryx.Database.View.{IsPath, view, is_prefix, path_eq}
use apteryx.Database.View.Keys.{IsPath-append, is_prefix-append, path_eq_iff}
use apteryx.Database.Add.{Added, added_view, with_prefixes}

IsPath-before : (js ks : List CString) → IsPath ks → is_prefix js ks ≡ true → IsPath js
IsPath-before js ks w e =
    let (ls, same) = is_prefix-append js ks e in (IsPath-append js ls (rw same at w)).0

outside :
    (old : List CString → Option (Option (List ℕ))) (ks js : List CString) (v : List ℕ)
    → path_eq js ks ≡ false
    → is_prefix js ks ≡ false
    → added_view old ks v js ≡ old js
unfolding added_view with_prefixes
outside old ks js v e e' = rw (e, e')

-- A set of a canonical path leaves only canonical paths.
pub canonical-Added :
    (G : HashTable) (h h' : Heap G.Table) (ks : List CString) (v : List ℕ)
    → ((is : List CString) (o : Option (List ℕ)) → view G h is ≡ some o → IsPath is)
    → Added G h h' ks v
    → IsPath ks
    → (is : List CString) (o : Option (List ℕ)) → view G h' is ≡ some o
    → IsPath is
canonical-Added G h h' ks v before added w is o e = elim (Bool-cases (path_eq is ks)) [
  | inl same ↦ rw ((path_eq_iff is ks).0 same) w
  | inr ne ↦ elim (Bool-cases (is_prefix is ks)) [
    | inl above ↦ IsPath-before is ks w above
    | inr other ↦ before is o (sym (added.shows is ∙ outside (view G h) ks is v ne other) ∙ e)
  ]
]
