-- ===== src/Server/Prune/Changes.antt =====
-- The servers that `_prune` works on, and what it may change.
use apteryx.Prelude.{
  ℕ, ◌≡◌, ◌⊎◌, refl, ap, sym, ◌∙◌, List, [], ◌∷◌, ◌++◌, true, false, Option, none, some, inl, inr,
  All, arith, Bool-cases,
}
use apteryx.CString.{CString}
use apteryx.CString.Laws.{strcmp_eq_refl}
use apteryx.Registry.{CbInfo}
use apteryx.Database.Table.{HashTable}
use apteryx.Database.Heap.{Heap}
use apteryx.Database.Walk.Tokens.{tokens}
use apteryx.Database.View.{IsPath, IsTree, render, view, path_eq, is_prefix}
use apteryx.Database.View.Keys.{tokens-render, path_eq_iff, is_prefix-snoc}
use apteryx.Database.Remove.{Settled}
use apteryx.Server.{Server}
use apteryx.Server.Prune.Below.{plain}

-- A server whose database is a tree of nodes at rest with canonical paths, and whose watched paths
-- are plain.
pub record IsSound (G : HashTable) (s : Server G.Table) : Type 0 where
  pub tree : IsTree G s.db
  pub settled : Settled s.db
  pub canonical : (is : List CString) (o : Option (List ℕ)) → view G s.db is ≡ some o → IsPath is
  pub plain_paths : All (λ (w : CbInfo). plain w.path ≡ true) s.watch_list

-- Outside a path, and what is above it, nothing changes; and nowhere does anything appear.
pub record Taken (G : HashTable) (h h' : Heap G.Table) (ks : List CString) : Type 0 where
  pub beside :
      (is : List CString)
      → is_prefix ks is ≡ false
      → is_prefix is ks ≡ false
      → view G h' is ≡ view G h is
  pub shrinks : (is : List CString) → (view G h' is ≡ none) ⊎ (view G h' is ≡ view G h is)
  pub no_more : h'.next ≡ h.next

module _ (G : HashTable) where
  pub Taken-refl : (h : Heap G.Table) (ks : List CString) → Taken G h h ks
  Taken-refl h ks = record { beside = λ is _ _. refl; shrinks = λ is. inr refl; no_more = refl }

  pub Taken-trans :
      (h h' h'' : Heap G.Table) (ks : List CString)
      → Taken G h h' ks
      → Taken G h' h'' ks
      → Taken G h h'' ks
  Taken-trans h h' h'' ks a b = record {
    beside = λ is e e'. b.beside is e e' ∙ a.beside is e e';
    shrinks = λ is. elim (b.shrinks is) [
      | inl e ↦ inl e
      | inr e ↦ elim (a.shrinks is) [ inl e' ↦ inl (e ∙ e') | inr e' ↦ inr (e ∙ e') ]
    ];
    no_more = b.no_more ∙ a.no_more;
  }

  pub stays_none :
      (h h' : Heap G.Table) (ks is : List CString)
      → Taken G h h' ks
      → view G h is ≡ none
      → view G h' is ≡ none
  stays_none h h' ks is t e = elim (t.shrinks is) [ inl e' ↦ e' | inr e' ↦ e' ∙ e ]

is_prefix-longer :
    (js : List CString) (j : CString) (is : List CString)
    → is_prefix (js ++ j ∷ []) is ≡ true
    → is_prefix js is ≡ true
unfolding is_prefix
is_prefix-longer [] j is e = refl
is_prefix-longer (x ∷ js) j [] e = cc e
is_prefix-longer (x ∷ js) j (y ∷ is) e = ground (arith, e, is_prefix-longer js j is)

is_prefix-whole : (ks ls : List CString) → is_prefix ks (ks ++ ls) ≡ true
unfolding is_prefix
is_prefix-whole [] ls = refl
is_prefix-whole (k ∷ ks) ls = ground (arith, is_prefix-whole ks ls, strcmp_eq_refl k)

-- What changes around a child's path only changes around the path.
pub Taken-child :
    (G : HashTable) (h h' : Heap G.Table) (ks : List CString) (j : CString)
    → Taken G h h' (ks ++ j ∷ [])
    → Taken G h h' ks
Taken-child G h h' ks j t = record {
  beside = λ is e e'.
      t.beside is (below is e) (is_prefix-snoc is ks j ∙ ground (arith, e', not_it is e));
  shrinks = t.shrinks;
  no_more = t.no_more;
}
  where
    below : (is : List CString) → is_prefix ks is ≡ false → is_prefix (ks ++ j ∷ []) is ≡ false
    below is e = elim (Bool-cases (is_prefix (ks ++ j ∷ []) is)) [
      | inl hit ↦ cc (e, is_prefix-longer ks j is hit)
      | inr miss ↦ miss
    ]

    not_it : (is : List CString) → is_prefix ks is ≡ false → path_eq is (ks ++ j ∷ []) ≡ false
    not_it is e = elim (Bool-cases (path_eq is (ks ++ j ∷ []))) [
      | inl hit ↦
          let same = (path_eq_iff is (ks ++ j ∷ [])).0 hit in
          cc (e, ap (is_prefix ks) same, is_prefix-whole ks (j ∷ []))
      | inr miss ↦ miss
    ]

pub render-injective :
    (js ks : List CString) → IsPath js → IsPath ks → render js ≡ render ks → js ≡ ks
render-injective js ks w w' e =
    ap (λ t. t.1) (sym (tokens-render js w) ∙ ap tokens e ∙ tokens-render ks w')
