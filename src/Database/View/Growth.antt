-- ===== src/Database/View/Growth.antt =====
-- What the view shows after `db_node_add`: one path more, with no value yet.
use apteryx.Prelude.{
  ℕ, List, [], ◌∷◌, ◌++◌, ◌≡◌, ◌≢◌, refl, ap, sym, ◌∙◌, none, some, false, inl, inr, if◌then◌else◌,
  arith, Option-cases, Bool-cases,
}
use apteryx.CString.{CString}
use apteryx.Database.Table.{HashTable}
use apteryx.Database.Heap.{Heap, Node, fresh_node}
use apteryx.Database.View.{IsTree, descend, child, node_at, value_of, view, path_eq}
use apteryx.Database.View.Keys.{path_eq_iff}
use apteryx.Database.View.Descent.{
  descend-old, descend-new, descend-cases, descend-append, descend-cons,
}
use apteryx.Database.View.Reading.{node_at_root, node_at_live}
use apteryx.Database.View.NewNode.{
  with_node, child-with_node, root-with_node, next-childless, leaf-ne, survives, new_cell,
  node_at_unique,
}

pub node_at-descend :
    (G : HashTable) (h : Heap G.Table) (r : ℕ) (ks : List CString)
    → h.root ≡ some r
    → node_at G h ks ≡ descend (child G h) r ks
unfolding node_at
node_at-descend G h r ks e = rw (e, node_at)

pub node_at-none :
    (G : HashTable) (h : Heap G.Table) (ks : List CString) → h.root ≡ none → node_at G h ks ≡ none
unfolding node_at
node_at-none G h ks e = rw (e, node_at)

pub view-value_of :
    (G : HashTable) (h : Heap G.Table) (ks : List CString) (y : ℕ)
    → node_at G h ks ≡ some y
    → view G h ks ≡ value_of G (h.cell y)
unfolding view
view-value_of G h ks y e = rw (e, view)

pub view-some :
    (G : HashTable) (h : Heap G.Table) (ks : List CString) (y : ℕ) (n : Node G.Table)
    → node_at G h ks ≡ some y
    → h.cell y ≡ some n
    → view G h ks ≡ some n.value
unfolding view value_of
view-some G h ks y n e at = rw (e, view, at, value_of)

pub view-none :
    (G : HashTable) (h : Heap G.Table) (ks : List CString)
    → node_at G h ks ≡ none
    → view G h ks ≡ none
unfolding view
view-none G h ks e = rw (e, view)

module _ (G : HashTable) (h : Heap G.Table) (tree : IsTree G h) (q : ℕ) (m : Node G.Table)
    (live : h.cell q ≡ some m) (key : CString) (ks : List CString)
    (parent : node_at G h ks ≡ some q) (free : node_at G h (ks ++ key ∷ []) ≡ none) where
  absent : child G h q key ≡ none
  absent = elim (Option-cases (child G h q key)) [
    | inl e ↦ e
    | inr (c, e) ↦
        let (r, at, d) = node_at_root G h tree ks q parent in
        let found : descend (child G h) r (ks ++ key ∷ []) ≡ some c =
          descend-append _ r ks (key ∷ []) q d
          ∙ descend-cons _ q key [] c e
          ∙ (unfold descend in refl) in
        cc (free, node_at-descend G h r (ks ++ key ∷ []) at, found)
  ]

  module _ (r : ℕ) (at : h.root ≡ some r) where
    at' : (with_node G h q m key).root ≡ some r
    at' = root-with_node G h tree q m live key ∙ at

    node_at-old :
        (js : List CString) (y : ℕ)
        → node_at G h js ≡ some y
        → node_at G (with_node G h q m key) js ≡ some y
    node_at-old js y d =
        node_at-descend G _ r js at'
        ∙ descend-old (child G h) (child G (with_node G h q m key)) q h.next key
            (child-with_node G h tree q m live key) (next-childless G h tree q m live key) absent
            (leaf-ne G h tree q m live key) r js y (sym (node_at-descend G h r js at) ∙ d)

    node_at-new : node_at G (with_node G h q m key) (ks ++ key ∷ []) ≡ some h.next
    node_at-new =
        node_at-descend G _ r (ks ++ key ∷ []) at'
        ∙ descend-new (child G h) (child G (with_node G h q m key)) q h.next key
            (child-with_node G h tree q m live key) (next-childless G h tree q m live key) absent
            (leaf-ne G h tree q m live key) r ks (sym (node_at-descend G h r ks at) ∙ parent)

    node_at-missing :
        (js : List CString)
        → node_at G h js ≡ none
        → js ≢ ks ++ key ∷ []
        → node_at G (with_node G h q m key) js ≡ none
    node_at-missing js gone ne = elim (Option-cases (node_at G (with_node G h q m key) js)) [
      | inl e ↦ e
      | inr (y, e) ↦
          elim (descend-cases (child G h) (child G (with_node G h q m key)) q h.next key
            (child-with_node G h tree q m live key) (next-childless G h tree q m live key) absent
            (leaf-ne G h tree q m live key) r js y (sym (node_at-descend G _ r js at') ∙ e)) [
              | inl d ↦ cc (gone, node_at-descend G h r js at, d)
              | inr (is, e', d, _) ↦
                  let same =
                    node_at_unique G h tree is ks q (node_at-descend G h r is at ∙ d) parent in
                  absurd (ne (e' ∙ ap (λ x. x ++ key ∷ []) same))
            ]
    ]

    view-at :
        (js : List CString)
        → view G (with_node G h q m key) js
          ≡ (if path_eq js (ks ++ key ∷ []) then some none else view G h js)
    view-at js = elim (Option-cases (node_at G h js)) [
      | inl gone ↦ elim (Bool-cases (path_eq js (ks ++ key ∷ []))) [
        | inl same ↦
            let e = (path_eq_iff js (ks ++ key ∷ [])).0 same in
            rw (same, e)
              (view-some G _ (ks ++ key ∷ []) h.next (fresh_node key (some q)) node_at-new
                  (new_cell G h tree q m live key)
                ∙ (unfold fresh_node in refl))
        | inr other ↦
            rw (other, view-none G h js gone)
              (view-none G _ js
                (node_at-missing js gone (λ e. cc (other, (path_eq_iff js (ks ++ key ∷ [])).1 e))))
      ]
      | inr (y, d) ↦
          let (n, l) = node_at_live G h tree js y d in
          let (n', l', _, _, v, _) = survives G h tree q m live key y n l in
          let other : path_eq js (ks ++ key ∷ []) ≡ false = ground (
            arith,
            (path_eq_iff js (ks ++ key ∷ [])).0,
            d,
            free,
            ap (node_at G h) {x = js} {y = ks ++ key ∷ []},
          ) in
          rw other (
            view-some G _ js y n' (node_at-old js y d) l'
            ∙ ap some v
            ∙ sym (view-some G h js y n d l))
    ]

  root_of : (r : ℕ) × (h.root ≡ some r)
  root_of = let (r, at, _) = node_at_root G h tree ks q parent in (r, at)

  pub node_at-with_node : node_at G (with_node G h q m key) (ks ++ key ∷ []) ≡ some h.next
  node_at-with_node = let (r, at) = root_of in node_at-new r at

  pub view-with_node :
      (js : List CString)
      → view G (with_node G h q m key) js
        ≡ (if path_eq js (ks ++ key ∷ []) then some none else view G h js)
  view-with_node js = let (r, at) = root_of in view-at r at js
