-- ===== src/Database/Search.antt =====
-- `db_node_to_path` and `db_search`, by the paths that lead to the nodes.
use apteryx.Prelude.{
  ℕ, zero, suc, ◌<◌, List, [], ◌∷◌, ◌++◌, ◌≡◌, ◌≢◌, ◌↔◌, refl, ap, sym, ◌∙◌, none, some, Bool, true,
  false, inl, inr, ok, arith, Option-cases, Elem, append_assoc, append-nil, if◌then◌else◌,
}
use apteryx.CString.{CString, slash}
use apteryx.Database.Table.{HashTable}
use apteryx.Database.Heap.{Heap, Node, load-live}
use apteryx.Database.Walk.{db_path_to_node, db_node_to_path, child_paths, db_search}
use apteryx.Database.View.{IsPath, IsTree, render, descend, child, node_at, view}
use apteryx.Database.View.Keys.{snoc_cases, render-append}
use apteryx.Database.View.Reading.{
  child-live, child_of-some, child_of-none, node_at_root, node_at_live, db_path_to_node-render,
}
use apteryx.Database.View.Growth.{view-some, view-none}
use apteryx.Database.Remove.Deleted.{node_at-snoc}
use apteryx.Database.Remove.Leaf.{parent_of}

abbrev ending : Bool → CString
ending last = if last then [] else slash ∷ []

spelled :
    (js : List CString) (k s : CString)
    → render js ++ slash ∷ [] ++ k ++ s ≡ render (js ++ k ∷ []) ++ s
unfolding render
spelled js k s =
    ap (λ x. x ++ s)
      (append_assoc (render js) (slash ∷ []) k
        ∙ ap (λ x. render js ++ (slash ∷ x)) (sym (append-nil k))
        ∙ sym (render-append js (k ∷ [])))

module _ (G : HashTable) (h : Heap G.Table) (tree : IsTree G h) where
  db_node_to_path-root :
      (f p : ℕ) (last : Bool)
      → h.root ≡ some p
      → db_node_to_path G h (suc f) p last ≡ ok (ending last)
  unfolding db_node_to_path
  db_node_to_path-root f p last root =
      let (n, live, key, up) = tree.root_live p root in rw (load-live h p n live, up, key)

  -- The path of a node, with the trailing slash that the flag asks for.
  pub db_node_to_path-render :
      (f : ℕ) (ks : List CString) (p : ℕ) (last : Bool)
      → node_at G h ks ≡ some p
      → p < f
      → db_node_to_path G h f p last ≡ ok (render ks ++ ending last)
  unfolding db_node_to_path
  db_node_to_path-render zero ks p last at l = elim l [ ]
  db_node_to_path-render (suc f) ks p last at l = elim (snoc_cases ks) [
    | inl e ↦
        let (r, root, d) = node_at_root G h tree [] p (rw e at at) in
        let r_p : r ≡ p = unfold descend in ground arith in
        rw e (db_node_to_path-root f p last (root ∙ ap some r_p) ∙ (unfold render in refl))
    | inr (js, k, e) ↦
        let (q, m, t, at_q, _, _, linked) = parent_of G h tree js k p (rw e at at) in
        let (n, live, key, up, lt) = tree.children_live q k p linked in
        let above = db_node_to_path-render f js q false at_q (omega (arith, lt, l)) in
        rw (e, load-live h p n live, up, above, key) (ap ok (spelled js k (ending last)))
  ]

  -- The path of a child.
  child_path :
      (js : List CString) (q : ℕ) (j : CString) (c : ℕ)
      → node_at G h js ≡ some q
      → child G h q j ≡ some c
      → db_node_to_path G h (suc c) c true ≡ ok (render (js ++ j ∷ []))
  child_path js q j c at linked =
      db_node_to_path-render (suc c) (js ++ j ∷ []) c true
        (node_at-snoc G h tree js q j at ∙ linked) (omega arith)
      ∙ ap ok (append-nil (render (js ++ j ∷ [])))

  module _ (js : List CString) (q : ℕ) (at : node_at G h js ≡ some q) where
    -- The children among some numbers, and their paths.
    abbrev Listed : List ℕ → CString → Type 0
    Listed cs s =
        (c : ℕ) × (j : CString) × Elem c cs × (child G h q j ≡ some c) × (s ≡ render (js ++ j ∷ []))

    child_paths-Listed :
        (cs : List ℕ)
        → ((c : ℕ) → Elem c cs → (j : CString) × (child G h q j ≡ some c))
        → (paths : List CString) × (child_paths G h cs ≡ ok paths)
          × ((s : CString) → Elem s paths ↔ Listed cs s)
    unfolding child_paths
    child_paths-Listed [] linked = ([], refl, λ s. (λ e. elim e [ ], λ (c, j, e, _, _). elim e [ ]))
    child_paths-Listed (c ∷ cs) linked =
        let (j, here) = linked c (inl refl) in
        let (paths, done, iff) = child_paths-Listed cs (λ x e. linked x (inr e)) in
        (
          render (js ++ j ∷ []) ∷ paths,
          rw (child_path js q j c at here, done),
          λ s. (
            λ e. elim e [
              | inl same ↦ (c, j, inl refl, here, sym same)
              | inr later ↦ let (c', j', e', l', s') = (iff s).0 later in (c', j', inr e', l', s')
            ],
            λ (c', j', e, l, same). elim e [
              | inl c_c ↦
                  let again = child_path js q j' c' at l in
                  let first = child_path js q j c at here in
                  inl (
                    ground (
                      arith,
                      c_c,
                      again,
                      first,
                      same,
                      ap (λ x. db_node_to_path G h (suc x) x true) c_c,
                    ))
              | inr later ↦ inr ((iff s).1 (c', j', later, l, same))
            ],
          ),
        )

    -- The children are the paths that are one key longer.
    child_shown : (j : CString) (c : ℕ) → child G h q j ≡ some c → view G h (js ++ j ∷ []) ≢ none
    child_shown j c e gone =
        let at' = node_at-snoc G h tree js q j at ∙ e in
        let (n, live) = node_at_live G h tree (js ++ j ∷ []) c at' in
        cc (gone, view-some G h (js ++ j ∷ []) c n at' live)

    shown_child :
        (j : CString) → view G h (js ++ j ∷ []) ≢ none → (c : ℕ) × (child G h q j ≡ some c)
    shown_child j there = elim (Option-cases (child G h q j)) [
      | inr found ↦ found
      | inl e ↦ absurd (there (view-none G h (js ++ j ∷ []) (node_at-snoc G h tree js q j at ∙ e)))
    ]

module _ (G : HashTable) (h : Heap G.Table) (path : CString) (p : ℕ) (n : Node G.Table)
    (found : db_path_to_node G h path ≡ ok (some p)) (live : h.cell p ≡ some n) where
  db_search-leaf : n.children ≡ none → db_search G h path ≡ ok []
  unfolding db_search
  db_search-leaf e = rw (found, load-live h p n live, e)

  db_search-table :
      (t : G.Table) → n.children ≡ some t → db_search G h path ≡ child_paths G h (G.get_values t)
  unfolding db_search
  db_search-table t e = rw (found, load-live h p n live, e)

-- From a tree, `db_search` of a canonical path does not fault, and it lists the paths that are one
-- key longer and are there: each of them, and no others.
pub db_search-children :
    (G : HashTable) (h : Heap G.Table) (ks : List CString)
    → IsTree G h
    → IsPath ks
    → (paths : List CString) × (db_search G h (render ks) ≡ ok paths)
      × ((s : CString)
          → Elem s paths
            ↔ ((j : CString) × (s ≡ render (ks ++ j ∷ [])) × (view G h (ks ++ j ∷ []) ≢ none)))
unfolding db_search child_paths
db_search-children G h ks tree w = elim (Option-cases (node_at G h ks)) [
  | inl gone ↦ (
    [],
    rw (db_path_to_node-render G h tree ks w, gone),
    λ s. (λ e. elim e [ ], λ (j, _, there). absurd (there (nothing j gone))),
  )
  | inr (p, at) ↦
      let (n, live) = node_at_live G h tree ks p at in
      let found = db_path_to_node-render G h tree ks w ∙ ap ok at in
      elim (Option-cases n.children) [
        | inl e ↦ (
          [],
          db_search-leaf G h (render ks) p n found live e,
          λ s. (
            λ e. elim e [ ],
            λ (j, _, there).
                let (c, l) = shown_child G h tree ks p at j there in
                cc (l, child-live G h p j n live, child_of-none G n j e),
          ),
        )
        | inr (t, e) ↦
            let here : (j : CString) → child G h p j ≡ G.lookup t j =
              λ j. child-live G h p j n live ∙ child_of-some G n j t e in
            let (paths, done, iff) =
              child_paths-Listed G h tree ks p at (G.get_values t)
                (λ c l. let (j, at') = G.get_values_sound t c l in (j, here j ∙ at')) in
            (
              paths,
              db_search-table G h (render ks) p n found live t e ∙ done,
              λ s. (
                λ l.
                    let (c, j, _, l', same) = (iff s).0 l in
                    (j, same, child_shown G h tree ks p at j c l'),
                λ (j, same, there).
                    let (c, l) = shown_child G h tree ks p at j there in
                    (iff s).1 (c, j, G.get_values_complete t j c (sym (here j) ∙ l), l, same),
              ),
            )
      ]
]
  where
    nothing : (j : CString) → node_at G h ks ≡ none → view G h (ks ++ j ∷ []) ≡ none
    nothing j gone = elim (Option-cases (node_at G h (ks ++ j ∷ []))) [
      | inl e ↦ view-none G h (ks ++ j ∷ []) e
      | inr (c, e) ↦ let (q, _, _, at_q, _, _, _) = parent_of G h tree ks j c e in cc (at_q, gone)
    ]
