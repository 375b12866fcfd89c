-- ===== src/Database/Remove/Shown.antt =====
-- The paths that lead somewhere once a leaf is taken out of its parent's table.
use apteryx.Prelude.{
  ℕ, List, [], ◌∷◌, ◌++◌, ◌≡◌, ◌≢◌, ap, sym, ◌∙◌, none, some, inl, inr, if◌then◌else◌, ◌==◌, ◌&&◌,
  arith, Option-cases, Bool-cases,
}
use apteryx.CString.{CString, strcmp_eq}
use apteryx.Database.Table.{HashTable}
use apteryx.Database.Heap.{Heap, Node}
use apteryx.Database.View.{IsTree, child, node_at, view, path_eq}
use apteryx.Database.View.Keys.{path_eq_iff}
use apteryx.Database.View.Descent.{descend-old, descend-cases, descend-append, descend-none}
use apteryx.Database.View.Reading.{node_at_root, node_at_live}
use apteryx.Database.View.NewNode.{node_at_unique}
use apteryx.Database.View.Growth.{view-none, view-some, node_at-descend}
use apteryx.Database.Remove.{without}
use apteryx.Database.Remove.Detach.{
  detached, child-detached, child-back, linked_gone, root-detached, q-lt-p, survives,
}

pub snoc-ne : (js : List CString) (k : CString) → js ≢ js ++ k ∷ []
snoc-ne [] k e = cc
snoc-ne (j ∷ js) k e = snoc-ne js k (ground arith)

module _ (G : HashTable) (h : Heap G.Table) (tree : IsTree G h) (q : ℕ) (m : Node G.Table)
    (t : G.Table) (live_q : h.cell q ≡ some m) (table : m.children ≡ some t) (k : CString) (p : ℕ)
    (n : Node G.Table) (live : h.cell p ≡ some n) (linked : child G h q k ≡ some p)
    (leaf : (j : CString) → child G h p j ≡ none) (js : List CString)
    (parent : node_at G h js ≡ some q) where
  abbrev out : Heap G.Table
  out = detached G h q m t k p n

  back :
      (x : ℕ) (j : CString)
      → child G h x j ≡ (if x == q && strcmp_eq k j then some p else child G out x j)
  back = child-back G h tree q m t live_q table k p n live linked

  leaf_out : (j : CString) → child G out p j ≡ none
  leaf_out j =
      ground (arith, child-detached G h tree q m t live_q table k p n live linked p j, leaf j)

  absent : child G out q k ≡ none
  absent = linked_gone G h tree q m t live_q table k p n live linked

  other : p ≢ q
  other e = absurd (omega (arith, q-lt-p G h tree q m t live_q table k p n live linked, e))

  module _ (r : ℕ) (at : h.root ≡ some r) where
    at' : out.root ≡ some r
    at' = root-detached G h tree q m t live_q table k p n live linked ∙ at

    shrink : (is : List CString) (y : ℕ) → node_at G out is ≡ some y → node_at G h is ≡ some y
    shrink is y d =
        node_at-descend G h r is at
        ∙ descend-old (child G out) (child G h) q p k back leaf_out absent other r is y
            (sym (node_at-descend G out r is at') ∙ d)

    kept :
        (is : List CString) (y : ℕ)
        → node_at G h is ≡ some y
        → is ≢ js ++ k ∷ []
        → node_at G out is ≡ some y
    kept is y d ne =
        elim (descend-cases (child G out) (child G h) q p k back leaf_out absent other r is y
          (sym (node_at-descend G h r is at) ∙ d)) [
            | inl old ↦ node_at-descend G out r is at' ∙ old
            | inr (is', e, d', _) ↦
                let same =
                  node_at_unique G h tree is' js q
                    (shrink is' q (node_at-descend G out r is' at' ∙ d')) parent in
                absurd (ne (e ∙ ap (λ x. x ++ k ∷ []) same))
          ]

    kept_parent : node_at G out js ≡ some q
    kept_parent = kept js q parent (snoc-ne js k)

    gone : node_at G out (js ++ k ∷ []) ≡ none
    gone =
        node_at-descend G out r (js ++ k ∷ []) at'
        ∙ descend-append (child G out) r js (k ∷ []) q
            (sym (node_at-descend G out r js at') ∙ kept_parent)
        ∙ descend-none (child G out) q k [] absent

    missing : (is : List CString) → node_at G h is ≡ none → node_at G out is ≡ none
    missing is e = elim (Option-cases (node_at G out is)) [
      | inl e' ↦ e'
      | inr (y, d) ↦ cc (e, shrink is y d)
    ]

    view-out : (is : List CString) → view G out is ≡ without (view G h) (js ++ k ∷ []) is
    unfolding without
    view-out is = elim (Bool-cases (path_eq is (js ++ k ∷ []))) [
      | inl same ↦
          let e = (path_eq_iff is (js ++ k ∷ [])).0 same in
          rw same (ap (view G out) e ∙ view-none G out (js ++ k ∷ []) gone)
      | inr differ ↦ rw differ (elim (Option-cases (node_at G h is)) [
        | inl e ↦ view-none G out is (missing is e) ∙ sym (view-none G h is e)
        | inr (y, d) ↦
            let (a, l) = node_at_live G h tree is y d in
            let (a', l', _, _, v, _) =
              survives G h tree q m t live_q table k p n live linked y a l in
            let ne : is ≢ js ++ k ∷ [] = λ e. cc (differ, (path_eq_iff is (js ++ k ∷ [])).1 e) in
            view-some G out is y a' (kept is y d ne) l' ∙ ap some v ∙ sym (view-some G h is y a d l)
      ])
    ]

  pub view-detached : (is : List CString) → view G out is ≡ without (view G h) (js ++ k ∷ []) is
  view-detached is = let (r, at, _) = node_at_root G h tree js q parent in view-out r at is

  pub parent-detached : node_at G out js ≡ some q
  parent-detached = let (r, at, _) = node_at_root G h tree js q parent in kept_parent r at

  pub leaf-detached : (j : CString) → child G out p j ≡ none
  leaf-detached = leaf_out
