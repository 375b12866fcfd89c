-- ===== src/Database/View/Descent.antt =====
-- Descents in a tree: where they lead after one child more, and why a node has one path only.
use apteryx.Prelude.{
  ℕ, zero, suc, ◌<◌, List, [], ◌∷◌, ◌++◌, ◌≡◌, ◌≢◌, refl, ap, sym, ◌∙◌, Option, none, some, ◌==◌,
  ◌&&◌, ◌⊎◌, inl, inr, if◌then◌else◌, arith, append_assoc, append-nil, Bool-cases, Option-cases,
}
use apteryx.CString.{CString, strcmp_eq}
use apteryx.CString.Laws.{strcmp_eq_iff}
use apteryx.Database.View.{descend}

abbrev pub Children : Type 0
Children = ℕ → CString → Option ℕ

pub descend-none :
    (f : Children) (p : ℕ) (k : CString) (ks : List CString)
    → f p k ≡ none
    → descend f p (k ∷ ks) ≡ none
unfolding descend
descend-none f p k ks e = rw (e, descend)

pub descend-cons :
    (f : Children) (p : ℕ) (k : CString) (ks : List CString) (c : ℕ)
    → f p k ≡ some c
    → descend f p (k ∷ ks) ≡ descend f c ks
unfolding descend
descend-cons f p k ks c e = rw (e, descend)

-- The first step of a descent that succeeds.
pub descend_step :
    (f : Children) (p : ℕ) (k : CString) (ks : List CString) (y : ℕ)
    → descend f p (k ∷ ks) ≡ some y
    → (c : ℕ) × (f p k ≡ some c) × (descend f c ks ≡ some y)
unfolding descend
descend_step f p k ks y h = elim (Option-cases (f p k)) [
  | inl e ↦ cc (rw (e, descend) at h)
  | inr (c, e) ↦ (c, e, rw (e, descend) at h)
]

pub descend-append :
    (f : Children) (p : ℕ) (js ks : List CString) (q : ℕ)
    → descend f p js ≡ some q
    → descend f p (js ++ ks) ≡ descend f q ks
descend-append f p [] ks q h = ap (λ x. descend f x ks) (unfold descend in ground arith)
descend-append f p (j ∷ js) ks q h =
    let (c, e, h') = descend_step f p j js q h in
    descend-cons f p j (js ++ ks) c e ∙ descend-append f c js ks q h'

pub descend_prefix :
    (f : Children) (p : ℕ) (js ks : List CString) (y : ℕ)
    → descend f p (js ++ ks) ≡ some y
    → (q : ℕ) × (descend f p js ≡ some q)
unfolding descend
descend_prefix f p [] ks y h = (p, refl)
descend_prefix f p (j ∷ js) ks y h =
    let (c, e, h') = descend_step f p j (js ++ ks) y h in
    let (q, h'') = descend_prefix f c js ks y h' in (q, descend-cons f p j js c e ∙ h'')

-- A tree with the child `new` more, at the key `key` of `q`. It has no children of its own.
module _ (f f' : Children) (q new : ℕ) (key : CString)
    (same : (p : ℕ) (k : CString)
      → f' p k ≡ (if p == q && strcmp_eq key k then some new else f p k))
    (leaf : (k : CString) → f new k ≡ none) (absent : f q key ≡ none) (other : new ≢ q) where
  stays : (p : ℕ) (k : CString) (c : ℕ) → f p k ≡ some c → f' p k ≡ some c
  stays p k c e = ground (arith, same p k, strcmp_eq_iff key k, absent)

  pub descend-old :
      (p : ℕ) (js : List CString) (y : ℕ) → descend f p js ≡ some y → descend f' p js ≡ some y
  descend-old p [] y h = unfold descend in h
  descend-old p (j ∷ js) y h =
      let (c, e, h') = descend_step f p j js y h in
      descend-cons f' p j js c (stays p j c e) ∙ descend-old c js y h'

  pub descend-new :
      (p : ℕ) (js : List CString)
      → descend f p js ≡ some q
      → descend f' p (js ++ key ∷ []) ≡ some new
  descend-new p js h =
      descend-append f' p js (key ∷ []) q (descend-old p js q h)
      ∙ descend-cons f' q key [] new (ground (arith, same q key, strcmp_eq_iff key key))
      ∙ (unfold descend in refl)

  leaf' : (k : CString) → f' new k ≡ none
  leaf' k = ground (arith, same new k, leaf k)

  at_new : (js : List CString) (y : ℕ) → descend f' new js ≡ some y → (js ≡ []) × (y ≡ new)
  at_new [] y h = (refl, unfold descend in ground arith)
  at_new (j ∷ js) y h = let (c, e, _) = descend_step f' new j js y h in cc (e, leaf' j)

  -- A descent in the larger tree was there before, or it ends in the new node.
  pub descend-cases :
      (p : ℕ) (js : List CString) (y : ℕ)
      → descend f' p js ≡ some y
      → (descend f p js ≡ some y)
        ⊎ ((is : List CString) × (js ≡ is ++ key ∷ []) × (descend f p is ≡ some q) × (y ≡ new))
  descend-cases p [] y h = inl (unfold descend in h)
  descend-cases p (j ∷ js) y h =
      let (c, e, h') = descend_step f' p j js y h in
      elim (Bool-cases (p == q && strcmp_eq key j)) [
        | inl hit ↦
            let both : (p ≡ q) × (key ≡ j) × (f' p j ≡ some new) =
              ground (arith, same p j, strcmp_eq_iff key j) in
            let c_new : c ≡ new = ground (arith, e, both.2) in
            let (e', y') = at_new js y (rw c_new at h') in
            inr ([], ground (arith, both.1, e'), unfold descend in ap some both.0, y')
        | inr miss ↦
            let old : f p j ≡ some c = ground (arith, same p j, e) in
            elim (descend-cases c js y h') [
              | inl l ↦ inl (descend-cons f p j js c old ∙ l)
              | inr (is, e', d, y') ↦
                  inr (j ∷ is, ap (◌∷◌ j) e', descend-cons f p j is c old ∙ d, y')
            ]
      ]

-- The keys on the way to a node, read from the node: `up` gives the key and the parent of a node
-- that has one. A child is older than its parent, so a number above the node is fuel enough.
trail : (ℕ → Option (CString × ℕ)) → ℕ → ℕ → List CString
trail up zero p = []
trail up (suc fuel) p = elim (up p) [ none ↦ [] | some (k, q) ↦ trail up fuel q ++ k ∷ [] ]

module _ (f : Children) (up : ℕ → Option (CString × ℕ))
    (child_up : (p : ℕ) (k : CString) (c : ℕ)
      → f p k ≡ some c
      → (up c ≡ some (k, p)) × (p < c)) where
  trail-descend :
      (pre : List CString) (p : ℕ)
      → ((fuel : ℕ) → p < fuel → trail up fuel p ≡ pre)
      → (ks : List CString) (y : ℕ) → descend f p ks ≡ some y
      → (fuel : ℕ) → y < fuel
      → trail up fuel y ≡ pre ++ ks
  trail-descend pre p h [] y d fuel l =
      let e : p ≡ y = unfold descend in ground arith in
      rw (append-nil, ← e) (h fuel (omega (arith, e)))
  trail-descend pre p h (k ∷ ks) y d fuel l =
      let (c, e, d') = descend_step f p k ks y d in
      trail-descend (pre ++ k ∷ []) c (next c e) ks y d' fuel l ∙ append_assoc pre (k ∷ []) ks
    where
      next : (c : ℕ) → f p k ≡ some c → (fuel : ℕ) → c < fuel → trail up fuel c ≡ pre ++ k ∷ []
      next c e zero l = elim l [ ]
      next c e (suc fuel) l =
          let (u, lt) = child_up p k c e in
          unfold trail in rw (u, trail) (ap (λ s. s ++ k ∷ []) (h fuel (omega arith)))

  -- Two paths from the root to one node are the same path.
  pub descend_unique :
      (r : ℕ)
      → up r ≡ none
      → (js ks : List CString) (y : ℕ) → descend f r js ≡ some y
      → descend f r ks ≡ some y
      → js ≡ ks
  unfolding trail
  descend_unique r root js ks y d e =
      sym (trail-descend [] r top js y d (suc y) (omega arith))
      ∙ trail-descend [] r top ks y e (suc y) (omega arith)
    where
      top : (fuel : ℕ) → r < fuel → trail up fuel r ≡ []
      top zero l = elim l [ ]
      top (suc fuel) l = rw (root, trail)
