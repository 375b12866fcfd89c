-- ===== src/Database/Remove/Above.antt =====
-- The case of a leaf below another node: the leaf goes, and its parent stays or goes after it.
use apteryx.Prelude.{
  ℕ, suc, ◌<◌, List, [], ◌∷◌, ◌++◌, ◌≡◌, ◌≢◌, refl, ap, sym, ◌∙◌, none, some, true, false, inl, inr,
  ◌⊎◌, ok, ◌&&◌, ◌==◌, if◌then◌else◌, length, arith, Option-cases, Bool-cases, Elem, ltb, subst,
}
use apteryx.CString.{CString}
use apteryx.CString.Laws.{strcmp_eq_iff}
use apteryx.Database.Table.{HashTable}
use apteryx.Database.Heap.{Heap, Node, store}
use apteryx.Database.Delete.{unlink, db_node_delete}
use apteryx.Database.View.{IsTree, child, node_at, view}
use apteryx.Database.View.Reading.{child-live, child_of-some, node_at_live}
use apteryx.Database.View.Growth.{view-none, view-some}
use apteryx.Database.Remove.{IsSettled, Pruned, without, bytes_of}
use apteryx.Database.Remove.Detach.{
  marked, cut, detached, cell-detached, cell-detached_ne, cell-detached_self, child-detached,
  unlink-detached, IsTree-detached, q-lt-p, next-detached,
}
use apteryx.Database.Remove.Shown.{view-detached, parent-detached, leaf-detached}
use apteryx.Database.Remove.Freed.{
  freed, cell-freed, next-freed, finish-freed, IsTree-freed, view-freed,
}
use apteryx.Database.Remove.Deleted.{
  Deleted, DeletesAt, Pruned_same, db_node_delete-parts, node_at-snoc, child-dead,
}

-- A leaf `p` whose parent is `q`, once it is out of the parent's table.
module _ (G : HashTable) (f : ℕ) (h : Heap G.Table) (tree : IsTree G h) (q : ℕ) (m : Node G.Table)
    (t : G.Table) (live_q : h.cell q ≡ some m) (table : m.children ≡ some t) (k : CString) (p : ℕ)
    (n : Node G.Table) (live : h.cell p ≡ some n) (linked : child G h q k ≡ some p)
    (leaf : (j : CString) → child G h p j ≡ none) (js : List CString)
    (parent : node_at G h js ≡ some q)
    (settled : (x : ℕ) (a : Node G.Table) → x < suc p → h.cell x ≡ some a → IsSettled a) where
  abbrev out : Heap G.Table
  out = detached G h q m t k p n

  abbrev kid : Node G.Table
  kid = marked n

  lt : q < p
  lt = q-lt-p G h tree q m t live_q table k p n live linked

  once : kid.removing ≡ 1
  unfolding marked
  once = let (zeroed, _) = settled p n (omega arith) live in rw zeroed

  up_q : (n.key ≡ k) × (kid.parent ≡ some q) × (n.parent ≡ some q)
  unfolding marked
  up_q =
      let (n', at, key, up, _) = tree.children_live q k p linked in
      let same : n ≡ n' = ground (arith, live, at) in
      (
        ap (λ (y : Node G.Table). y.key) same ∙ key,
        ap (λ (y : Node G.Table). y.parent) same ∙ up,
        ap (λ (y : Node G.Table). y.parent) same ∙ up,
      )

  out_q : out.cell q ≡ some (cut G h q m t k p n)
  out_q = cell-detached G h tree q m t live_q table k p n live linked q ∙ ground arith

  out_p : out.cell p ≡ some kid
  out_p = cell-detached_self G h tree q m t live_q table k p n live linked

  out_tree : IsTree G out
  out_tree = IsTree-detached G h tree q m t live_q table k p n live linked

  shown_by_out : (is : List CString) → view G out is ≡ without (view G h) (js ++ k ∷ []) is
  shown_by_out = view-detached G h tree q m t live_q table k p n live linked leaf js parent

  at_js : node_at G out js ≡ some q
  at_js = parent-detached G h tree q m t live_q table k p n live linked leaf js parent

  at_child : (j : CString) → node_at G out (js ++ j ∷ []) ≡ child G out q j
  at_child j = node_at-snoc G out out_tree js q j at_js

  child_q : (j : CString) → child G out q j ≡ G.lookup (G.remove t k) j
  child_q j =
      child-live G out q j (cut G h q m t k p n) out_q
      ∙ child_of-some G (cut G h q m t k p n) j (G.remove t k) (unfold cut in refl)

  value_q : without (view G h) (js ++ k ∷ []) js ≡ some m.value
  value_q =
      sym (shown_by_out js)
      ∙ view-some G out js q (cut G h q m t k p n) at_js out_q
      ∙ (unfold cut in refl)

  -- The rest of the deletion, in a memory that still has the leaf as it was left.
  module _ (h' : Heap G.Table) (tree' : IsTree G h') (there : h'.cell p ≡ some kid)
      (alone : (j : CString) → child G h' q j ≢ some p) where
    leaf' : (j : CString) → child G h' p j ≡ none
    leaf' j =
        child-live G h' p j kid there
        ∙ sym (child-live G out p j kid out_p)
        ∙ leaf-detached G h tree q m t live_q table k p n live linked leaf js parent j

    alone' : (x : ℕ) (j : CString) → child G h' x j ≢ some p
    alone' x j e =
        let (a, at, _, up, _) = tree'.children_live x j p e in
        let same : kid ≡ a = ground (arith, there, at) in
        let x_q : q ≡ x = ground (arith, up, up_q.1, ap (λ (y : Node G.Table). y.parent) same) in
        alone j (rw (← x_q) at e)

    not_root : h'.root ≢ some p
    not_root e =
        let (a, at, _, up) = tree'.root_live p e in
        let same : kid ≡ a = ground (arith, there, at) in
        cc (up, up_q.1, ap (λ (y : Node G.Table). y.parent) same)

    -- What is left after the leaf's memory is freed, by what was left before.
    finished :
        Pruned (view G h') (view G h) (js ++ k ∷ [])
        → ((x : ℕ) → p < x → h'.cell x ≡ h.cell x)
        → ((x : ℕ) (a : Node G.Table) → x < p → h'.cell x ≡ some a → IsSettled a)
        → h'.next ≡ h.next
        → unlink G (db_node_delete G f) n.parent n.key (store h p kid) ≡ ok h'
        → (h'' : Heap G.Table) × (db_node_delete G (suc f) p h ≡ ok h'')
          × Deleted G h h'' p (js ++ k ∷ [])
    finished pruned later calm same_next done = (
      freed G h' p,
      db_node_delete-parts G f p h h' (freed G h' p) n live done
          (finish-freed G h' p kid there leaf' (db_node_delete G f) once),
      record {
        tree = IsTree-freed G h' p tree' kid there leaf' alone';
        shows =
            Pruned_same (view G h') (view G (freed G h' p)) (view G h) (view G h) (js ++ k ∷ [])
              (λ is. sym (view-freed G h' p tree' kid there leaf' alone' not_root is)) (λ is. refl)
              pruned;
        dead = cell-freed G h' p p ∙ ground arith;
        next_same = next-freed G h' p ∙ same_next;
        later = λ x l. cell-freed G h' p x ∙ ground (arith, l, later x l);
        settled = λ x a l e.
            let facts : (x < p) × (h'.cell x ≡ some a) = ground (arith, e, cell-freed G h' p x) in
            calm x a facts.0 facts.1;
      },
    )

  unlinked :
      unlink G (db_node_delete G f) n.parent n.key (store h p kid)
      ≡ (if G.size (G.remove t k) == 0 && m.length == 0 then db_node_delete G f q out else ok out)
  unlinked =
      let (key, _, up) = up_q in
      ap (λ o. unlink G (db_node_delete G f) o n.key (store h p kid)) up
      ∙ ap (λ s. unlink G (db_node_delete G f) (some q) s (store h p kid)) key
      ∙ unlink-detached G h tree q m t live_q table k p n live linked (db_node_delete G f)

  rest_at_q : IsSettled m
  rest_at_q = settled q m (omega (arith, lt)) live_q

  -- A node with no bytes, by its length.
  no_bytes : m.length ≡ 0 → bytes_of m.value ≡ []
  unfolding bytes_of
  no_bytes zero_length = elim (Option-cases m.value) [
    | inl e ↦ rw (e, bytes_of)
    | inr (v, e) ↦
        rw (e, bytes_of) (nil_of_length v (sym (tree.sized q m v live_q e) ∙ zero_length))
  ]
    where
      nil_of_length : (v : List ℕ) → length v ≡ 0 → v ≡ []
      nil_of_length [] l = refl
      nil_of_length (x ∷ v) l = absurd (omega (arith, l))

  some_bytes : m.length ≢ 0 → bytes_of m.value ≢ []
  unfolding bytes_of
  some_bytes ne e = elim (Option-cases m.value) [
    | inl e' ↦ ne (rest_at_q.1 e')
    | inr (v, e') ↦
        let empty : v ≡ [] = rw (e', bytes_of) at e in
        ne (tree.sized q m v live_q e' ∙ ap length empty)
  ]

  no_children : G.size (G.remove t k) ≡ 0 → (j : CString) → child G out q j ≡ none
  no_children size_0 j = elim (Option-cases (child G out q j)) [
    | inl e ↦ e
    | inr (c, e) ↦ cc (
        none_in (G.get_values (G.remove t k)) (sym (G.size-length (G.remove t k)) ∙ size_0) c
          (G.get_values_complete (G.remove t k) j c (sym (child_q j) ∙ e)))
  ]
    where
      none_in : (xs : List ℕ) → length xs ≡ 0 → (x : ℕ) → Elem x xs → [] ≡ (x ∷ [])
      none_in [] l x e = elim e [ ]
      none_in (y ∷ xs) l x e = absurd (omega (arith, l))

  a_child : G.size (G.remove t k) ≢ 0 → (j : CString) × (c : ℕ) × (child G out q j ≡ some c)
  a_child ne =
      let (x, e) =
        first (G.get_values (G.remove t k)) (λ l. ne (G.size-length (G.remove t k) ∙ l)) in
      let (j, found) = G.get_values_sound (G.remove t k) x e in (j, x, child_q j ∙ found)
    where
      first : (xs : List ℕ) → length xs ≢ 0 → (x : ℕ) × Elem x xs
      first [] ne = absurd (ne refl)
      first (x ∷ xs) ne = (x, inl refl)

  stays_with :
      (G.size (G.remove t k) == 0 && m.length == 0) ≡ false
      → (bytes_of m.value ≢ [])
        ⊎ ((j : CString) × (without (view G h) (js ++ k ∷ []) (js ++ j ∷ []) ≢ none))
  stays_with no_cascade = elim (Bool-cases (m.length == 0)) [
    | inr l ↦ inl (some_bytes (ground (arith, l)))
    | inl l ↦
        let (j, c, e) = a_child (ground (arith, no_cascade, l)) in
        let at = at_child j ∙ e in
        let (a, there) = node_at_live G out out_tree (js ++ j ∷ []) c at in
        inr (
          j,
          λ gone.
              cc (gone, shown_by_out (js ++ j ∷ []), view-some G out (js ++ j ∷ []) c a at there),
        )
  ]

  out_next : out.next ≡ h.next
  out_next = next-detached G h tree q m t live_q table k p n live linked

  out_later : (x : ℕ) → p < x → out.cell x ≡ h.cell x
  out_later x l =
      cell-detached_ne G h tree q m t live_q table k p n live linked x (omega (arith, l, lt))
        (omega (arith, l))

  out_calm : (x : ℕ) (a : Node G.Table) → x < p → out.cell x ≡ some a → IsSettled a
  unfolding cut
  out_calm x a l e = elim (Bool-cases (q == x)) [
    | inl s ↦
        let q_x : q ≡ x = ground arith in
        let same : cut G h q m t k p n ≡ a = ground (arith, e, out_q, ap (λ y. out.cell y) q_x) in
        subst IsSettled same rest_at_q
    | inr s ↦
        let there =
          cell-detached_ne G h tree q m t live_q table k p n live linked x (ground (arith, s))
            (omega (arith, l)) in
        settled x a (omega (arith, l)) (sym there ∙ e)
  ]

  -- The parent has bytes or another child, and stays.
  stop-Deleted :
      (G.size (G.remove t k) == 0 && m.length == 0) ≡ false
      → (h'' : Heap G.Table) × (db_node_delete G (suc f) p h ≡ ok h'')
        × Deleted G h h'' p (js ++ k ∷ [])
  stop-Deleted no_cascade =
      finished out out_tree out_p unlinked_p
        (Pruned.stop js k m.value value_q (stays_with no_cascade) shown_by_out) out_later out_calm
        out_next (unlinked ∙ rw no_cascade)
    where
      unlinked_p : (j : CString) → child G out q j ≢ some p
      unlinked_p j e =
          let e' = child-detached G h tree q m t live_q table k p n live linked q j in
          let old : child G h q j ≡ some p = ground (arith, e, e') in
          let (a, at, key, _, _) = tree.children_live q j p old in
          let same : n ≡ a = ground (arith, live, at) in
          let k_j : k ≡ j = sym up_q.0 ∙ ap (λ (y : Node G.Table). y.key) same ∙ key in
          ground (arith, e, e', strcmp_eq_iff k j, k_j)

  -- The parent goes too, by the induction hypothesis.
  up-Deleted :
      (G.size (G.remove t k) == 0 && m.length == 0) ≡ true
      → (h' : Heap G.Table) → db_node_delete G f q out ≡ ok h'
      → Deleted G out h' q js
      → (h'' : Heap G.Table) × (db_node_delete G (suc f) p h ≡ ok h'')
        × Deleted G h h'' p (js ++ k ∷ [])
  up-Deleted cascade h' done d =
      let both : (G.size (G.remove t k) ≡ 0) × (m.length ≡ 0) = ground (arith, cascade) in
      finished h' d.tree (d.later p lt ∙ out_p) childless
        (Pruned.up js k m.value value_q (no_bytes both.1)
          (λ j.
            sym (shown_by_out (js ++ j ∷ []))
            ∙ view-none G out (js ++ j ∷ []) (at_child j ∙ no_children both.0 j))
          (Pruned_same (view G h') (view G h') (view G out) (without (view G h) (js ++ k ∷ [])) js
            (λ is. refl) shown_by_out d.shows))
        (λ x l. d.later x (omega (arith, l, lt)) ∙ out_later x l) calm (d.next_same ∙ out_next)
        (unlinked ∙ rw cascade done)
    where
      childless : (j : CString) → child G h' q j ≢ some p
      childless j e = cc (e, child-dead G h' q j d.dead)

      calm : (x : ℕ) (a : Node G.Table) → x < p → h'.cell x ≡ some a → IsSettled a
      calm x a l e = elim (Bool-cases (ltb q x)) [
        | inl b ↦ let l' : q < x = ground (arith, b) in out_calm x a l (sym (d.later x l') ∙ e)
        | inr b ↦ d.settled x a (ground (arith, b)) e
      ]

  -- A leaf that is not the root, with the deletion of its parent as the induction hypothesis.
  pub below-Deleted :
      DeletesAt G f
      → q < f
      → (h'' : Heap G.Table) × (db_node_delete G (suc f) p h ≡ ok h'')
        × Deleted G h h'' p (js ++ k ∷ [])
  below-Deleted ih enough = elim (Bool-cases (G.size (G.remove t k) == 0 && m.length == 0)) [
    | inr no_cascade ↦ stop-Deleted no_cascade
    | inl cascade ↦
        let size_0 : G.size (G.remove t k) ≡ 0 = ground (arith, cascade) in
        let (h', done, d) =
          ih out q (cut G h q m t k p n) js out_tree out_q (no_children size_0) at_js
            (λ x a l e. out_calm x a (omega (arith, l, lt)) e) enough in
        up-Deleted cascade h' done d
  ]
