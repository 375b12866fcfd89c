-- ===== src/Database/Remove/Seen.antt =====
-- What a client can tell of a deletion, from its specification.
use apteryx.Prelude.{
  ℕ, List, [], ◌∷◌, ◌++◌, ◌≡◌, ◌≢◌, refl, ap, sym, ◌∙◌, Option, none, some, false, arith,
}
use apteryx.CString.{CString}
use apteryx.Database.Add.{View}
use apteryx.Database.View.{path_eq, is_prefix}
use apteryx.Database.View.Keys.{path_eq_iff, is_prefix-snoc, is_prefix_refl}
use apteryx.Database.Remove.{Pruned, without, bytes_of}

pub without_self : (old : View) (ks : List CString) → without old ks ks ≡ none
unfolding without
without_self old ks = rw ((path_eq_iff ks ks).1 refl)

pub without_ne : (old : View) (ks is : List CString) → is ≢ ks → without old ks is ≡ old is
unfolding without
without_ne old ks is ne =
    let other : path_eq is ks ≡ false = ground (arith, (path_eq_iff is ks).0, ne) in rw other

ne_of_prefix : (is ks : List CString) → is_prefix is ks ≡ false → is ≢ ks
ne_of_prefix is ks e s = cc (e, is_prefix_refl ks, ap (λ x. is_prefix x ks) s)

-- A path that is not above the deleted one, and is not that one.
pub Pruned-others :
    {new old : View} {ks : List CString}
    → Pruned new old ks
    → (is : List CString) → is_prefix is ks ≡ false
    → new is ≡ old is
Pruned-others {new} {old} (Pruned.stop js k o _ _ same) is e =
    same is ∙ without_ne old (js ++ k ∷ []) is (ne_of_prefix is (js ++ k ∷ []) e)
Pruned-others {new} {old} (Pruned.up js k o _ _ _ rest) is e =
    let e' : is_prefix is js ≡ false = ground (arith, e, is_prefix-snoc is js k) in
    Pruned-others rest is e' ∙ without_ne old (js ++ k ∷ []) is (ne_of_prefix is (js ++ k ∷ []) e)
Pruned-others {new} {old} (Pruned.root only gone) is e =
    gone is ∙ sym (only is (ne_of_prefix is [] e))

pub snoc-longer : (js : List CString) (k : CString) → is_prefix (js ++ k ∷ []) js ≡ false
unfolding is_prefix
snoc-longer [] k = refl
snoc-longer (j ∷ js) k = ground (arith, snoc-longer js k)

-- The deleted path.
pub Pruned-gone : {new old : View} {ks : List CString} → Pruned new old ks → new ks ≡ none
Pruned-gone {new} {old} (Pruned.stop js k o _ _ same) =
    same (js ++ k ∷ []) ∙ without_self old (js ++ k ∷ [])
Pruned-gone {new} {old} (Pruned.up js k o _ _ _ rest) =
    Pruned-others rest (js ++ k ∷ []) (snoc-longer js k) ∙ without_self old (js ++ k ∷ [])
Pruned-gone {new} {old} (Pruned.root only gone) = gone []

full : (o : Option (List ℕ)) (b : ℕ) (v : List ℕ) → o ≡ some (b ∷ v) → bytes_of o ≢ []
unfolding bytes_of
full o b v e f = cc (rw (e, bytes_of) at f)

-- Another path that has bytes.
pub Pruned-kept :
    {new old : View} {ks : List CString}
    → Pruned new old ks
    → (is : List CString) (b : ℕ) (v : List ℕ) → is ≢ ks
    → old is ≡ some (some (b ∷ v))
    → new is ≡ some (some (b ∷ v))
Pruned-kept {new} {old} (Pruned.stop js k o _ _ same) is b v ne e =
    same is ∙ without_ne old (js ++ k ∷ []) is ne ∙ e
Pruned-kept {new} {old} (Pruned.up js k o at empty _ rest) is b v ne e =
    let e' = without_ne old (js ++ k ∷ []) is ne ∙ e in
    Pruned-kept rest is b v
      (λ s. full o b v (ground (arith, at, e', ap (without old (js ++ k ∷ [])) s)) empty) e'
Pruned-kept {new} {old} (Pruned.root only gone) is b v ne e = cc (e, only is ne)
