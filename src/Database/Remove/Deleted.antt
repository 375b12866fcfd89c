-- ===== src/Database/Remove/Deleted.antt =====
-- What the deletion of a leaf promises, and the case where it is the root.
use apteryx.Prelude.{
  ℕ, suc, ◌<◌, List, [], ◌∷◌, ◌++◌, ◌≡◌, ◌≢◌, refl, ap, sym, ◌∙◌, none, some, subst, fun_ext, ok,
  inl, inr, arith, Option-cases,
}
use apteryx.CString.{CString}
use apteryx.Database.Table.{HashTable}
use apteryx.Database.Heap.{Heap, Node, load-live, store, set_cell}
use apteryx.Database.Delete.{unlink, finish, db_node_delete}
use apteryx.Database.Add.{View}
use apteryx.Database.View.{IsTree, child, child_of, descend, node_at, view}
use apteryx.Database.View.Descent.{descend-append, descend-none, descend-cons}
use apteryx.Database.View.Reading.{node_at_root, child-live}
use apteryx.Database.View.Growth.{view-none, node_at-descend}
use apteryx.Database.Remove.{IsSettled, Pruned}
use apteryx.Database.Remove.Detach.{marked, child_of-marked}
use apteryx.Database.Remove.Freed.{
  freed, cell-freed, next-freed, finish-freed, freed-store, IsTree-freed, view-rootless,
}

-- What the deletion of the node `p` at the path `ks` leaves, where the nodes up to `p` are at rest.
pub record Deleted (G : HashTable) (h h' : Heap G.Table) (p : ℕ) (ks : List CString) : Type 0 where
  pub tree : IsTree G h'
  pub shows : Pruned (view G h') (view G h) ks
  pub dead : h'.cell p ≡ none
  pub next_same : h'.next ≡ h.next
  pub later : (x : ℕ) → p < x → h'.cell x ≡ h.cell x
  pub settled : (x : ℕ) (a : Node G.Table) → x < suc p → h'.cell x ≡ some a → IsSettled a

-- The deletion, as the induction hypothesis gives it.
abbrev pub DeletesAt : (G : HashTable) → ℕ → Type 0
DeletesAt G f =
    (h : Heap G.Table) (p : ℕ) (n : Node G.Table) (ks : List CString)
    → IsTree G h
    → h.cell p ≡ some n
    → ((j : CString) → child G h p j ≡ none)
    → node_at G h ks ≡ some p
    → ((x : ℕ) (a : Node G.Table) → x < suc p → h.cell x ≡ some a → IsSettled a)
    → p < f
    → (h' : Heap G.Table) × (db_node_delete G f p h ≡ ok h') × Deleted G h h' p ks

pub Pruned_same :
    (new new' old old' : View) (ks : List CString)
    → ((is : List CString) → new is ≡ new' is)
    → ((is : List CString) → old is ≡ old' is)
    → Pruned new old ks
    → Pruned new' old' ks
Pruned_same new new' old old' ks s s' pr =
    subst (λ v. Pruned v old' ks) (fun_ext s) (subst (λ v. Pruned new v ks) (fun_ext s') pr)

pub db_node_delete-parts :
    (G : HashTable) (f p : ℕ) (h h' h'' : Heap G.Table) (n : Node G.Table)
    → h.cell p ≡ some n
    → unlink G (db_node_delete G f) n.parent n.key (store h p (marked n)) ≡ ok h'
    → finish G (db_node_delete G f) p h' ≡ ok h''
    → db_node_delete G (suc f) p h ≡ ok h''
unfolding db_node_delete marked
db_node_delete-parts G f p h h' h'' n live a b = rw (load-live h p n live, a) b

pub child-dead :
    (G : HashTable) (h : Heap G.Table) (p : ℕ) (j : CString)
    → h.cell p ≡ none
    → child G h p j ≡ none
unfolding child child_of
child-dead G h p j e = rw (e, child_of)

module _ (G : HashTable) (h : Heap G.Table) (tree : IsTree G h) where
  pub node_at-snoc :
      (js : List CString) (q : ℕ) (j : CString)
      → node_at G h js ≡ some q
      → node_at G h (js ++ j ∷ []) ≡ child G h q j
  node_at-snoc js q j at =
      let (r, root, d) = node_at_root G h tree js q at in
      node_at-descend G h r (js ++ j ∷ []) root
      ∙ descend-append (child G h) r js (j ∷ []) q d
      ∙ last
    where
      last : descend (child G h) q (j ∷ []) ≡ child G h q j
      last = elim (Option-cases (child G h q j)) [
        | inl e ↦ descend-none (child G h) q j [] e ∙ sym e
        | inr (c, e) ↦ descend-cons (child G h) q j [] c e ∙ (unfold descend in sym e)
      ]

module _ (G : HashTable) (f : ℕ) (h : Heap G.Table) (tree : IsTree G h) (p : ℕ) (n : Node G.Table)
    (live : h.cell p ≡ some n) (leaf : (j : CString) → child G h p j ≡ none)
    (settled : (x : ℕ) (a : Node G.Table) → x < suc p → h.cell x ≡ some a → IsSettled a)
    (root : h.root ≡ some p) where
  abbrev begun : Heap G.Table
  begun = store h p (marked n)

  top : n.parent ≡ none
  top =
      let (n', at, _, up) = tree.root_live p root in
      let same : n ≡ n' = ground (arith, live, at) in ap (λ (y : Node G.Table). y.parent) same ∙ up

  alone : (x : ℕ) (j : CString) → child G h x j ≢ some p
  alone x j e =
      let (n', at, _, up, _) = tree.children_live x j p e in
      let same : n ≡ n' = ground (arith, live, at) in
      cc (top, up, ap (λ (y : Node G.Table). y.parent) same)

  begun_cell : begun.cell p ≡ some (marked n)
  unfolding store set_cell
  begun_cell = ground arith

  leaf_begun : (j : CString) → child G begun p j ≡ none
  leaf_begun j =
      child-live G begun p j (marked n) begun_cell
      ∙ child_of-marked G n j
      ∙ sym (child-live G h p j n live)
      ∙ leaf j

  once : (marked n).removing ≡ 1
  unfolding marked
  once = let (zeroed, _) = settled p n (omega arith) live in rw zeroed

  -- Nothing is below it.
  only : (is : List CString) → is ≢ [] → view G h is ≡ none
  only [] ne = absurd (ne refl)
  only (j ∷ is) ne =
      view-none G h (j ∷ is)
        (node_at-descend G h p (j ∷ is) root ∙ descend-none (child G h) p j is (leaf j))

  pub root-Deleted :
      (h' : Heap G.Table) × (db_node_delete G (suc f) p h ≡ ok h') × Deleted G h h' p []
  unfolding unlink
  root-Deleted = (
    freed G h p,
    db_node_delete-parts G f p h begun (freed G h p) n live (rw (top, unlink)) (
        finish-freed G begun p (marked n) begun_cell leaf_begun (db_node_delete G f) once
        ∙ ap ok (freed-store G h p (marked n))),
    record {
      tree = IsTree-freed G h p tree n live leaf alone;
      shows = Pruned.root only (view-rootless G h p root);
      dead = cell-freed G h p p ∙ ground arith;
      next_same = next-freed G h p;
      later = λ x l. cell-freed G h p x ∙ ground (arith, l);
      settled = λ x a l e. settled x a l (ground (arith, e, cell-freed G h p x));
    },
  )
