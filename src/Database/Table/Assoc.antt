-- ===== src/Database/Table/Assoc.antt =====
-- A hash table that meets the interface: an association list in which the first entry of a key
-- counts. It shows that the interface can be met, and it runs the examples.
use apteryx.Prelude.{
  ℕ, ◌≡◌, refl, ap, List, [], ◌∷◌, Option, none, some, if◌then◌else◌, length, Elem, arith, inl, inr,
  Bool, ◌||◌, Bool-cases, true, false,
}
use apteryx.CString.{CString, strcmp_eq}
use apteryx.CString.Laws.{strcmp_eq_iff, strcmp_eq_sound}
use apteryx.Database.Table.{HashTable}

abbrev pub Entries : Type 0
Entries = List (CString × ℕ)

unfoldable pub find : Entries → CString → Option ℕ
unfolding strcmp_eq
find [] k = none
find ((j, v) ∷ t) k = if strcmp_eq j k then some v else find t k

unfoldable pub without : Entries → CString → Entries
unfolding strcmp_eq
without [] k = []
without ((j, v) ∷ t) k = let rest = without t k in if strcmp_eq j k then rest else (j, v) ∷ rest

unfoldable pub seen_before : List CString → CString → Bool
unfolding strcmp_eq
seen_before [] k = false
seen_before (j ∷ seen) k = strcmp_eq j k || seen_before seen k

unfoldable pub values : List CString → Entries → List ℕ
unfolding seen_before
values seen [] = []
values seen ((j, v) ∷ t) = elim (seen_before seen j) [
  | true ↦ values seen t
  | false ↦ v ∷ values (j ∷ seen) t
]

pub find-without :
    (t : Entries) (k j : CString)
    → find (without t k) j ≡ (if strcmp_eq k j then none else find t j)
unfolding find without
find-without [] k j = ground arith
find-without ((i, v) ∷ t) k j =
    ground (arith, find-without t k j, strcmp_eq_iff i k, strcmp_eq_iff i j, strcmp_eq_iff k j)

module _ (seen : List CString) (j : CString) (w : ℕ) (t : Entries) (v : ℕ) where
  -- A key that was seen stands for an earlier entry, and one that was not for this one.
  behind_old :
      (k : CString)
      → seen_before seen j ≡ true
      → find t k ≡ some v
      → seen_before seen k ≡ false
      → find ((j, w) ∷ t) k ≡ some v
  unfolding find
  behind_old k old e n = ground (arith, strcmp_eq_iff j k, ap (seen_before seen) {x = j} {y = k})

  behind_new :
      (k : CString)
      → find t k ≡ some v
      → seen_before (j ∷ seen) k ≡ false
      → (find ((j, w) ∷ t) k ≡ some v) × (seen_before seen k ≡ false)
  unfolding find seen_before
  behind_new k e n = ground arith

  this_one : w ≡ v → find ((j, w) ∷ t) j ≡ some v
  unfolding find
  this_one e = ground (arith, strcmp_eq_iff j j)

values_sound :
    (seen : List CString) (t : Entries) (v : ℕ)
    → Elem v (values seen t)
    → (k : CString) × (find t k ≡ some v) × (seen_before seen k ≡ false)
unfolding values
values_sound seen [] v h = elim h [ ]
values_sound seen ((j, w) ∷ t) v h = elim (Bool-cases (seen_before seen j)) [
  | inl old ↦
      let (k, e, n) = values_sound seen t v (rw (old, values) at h) in
      (k, behind_old seen j w t v k old e n, n)
  | inr new ↦
      let h' : Elem v (w ∷ values (j ∷ seen) t) = rw (new, values) at h in
      elim h' [
        | inl e ↦ (j, this_one seen j w t v e, new)
        | inr later ↦
            let (k, e, n) = values_sound (j ∷ seen) t v later in
            let (e', n') = behind_new seen j w t v k e n in (k, e', n')
      ]
]

values_complete :
    (seen : List CString) (t : Entries) (k : CString) (v : ℕ)
    → find t k ≡ some v
    → seen_before seen k ≡ false
    → Elem v (values seen t)
unfolding values find seen_before
values_complete seen [] k v e n = cc
values_complete seen ((j, w) ∷ t) k v e n = elim (Bool-cases (strcmp_eq j k)) [
  | inl same ↦ rw (strcmp_eq_sound j k same, n, values) (inl (ground (arith, rw same at e)))
  | inr other ↦
      let e' : find t k ≡ some v = rw other at e in
      elim (Bool-cases (seen_before seen j)) [
        | inl old ↦ rw (old, values) (values_complete seen t k v e' n)
        | inr new ↦ rw (new, values) (inr (values_complete (j ∷ seen) t k v e' (ground arith)))
      ]
]

pub find-nil : (k : CString) → find [] k ≡ none
unfolding find
find-nil k = refl

pub find-cons :
    (t : Entries) (k : CString) (v : ℕ) (j : CString)
    → find ((k, v) ∷ t) j ≡ (if strcmp_eq k j then some v else find t j)
unfolding find
find-cons t k v j = refl

pub get_values_sound :
    (t : Entries) (v : ℕ) → Elem v (values [] t) → (k : CString) × (find t k ≡ some v)
get_values_sound t v h = let (k, e, n) = values_sound [] t v h in (k, e)

pub get_values_complete :
    (t : Entries) (k : CString) (v : ℕ) → find t k ≡ some v → Elem v (values [] t)
unfolding seen_before
get_values_complete t k v e = values_complete [] t k v e refl

-- The interface, met.
abbrev pub assoc_table : HashTable
assoc_table = record {
  Table = Entries;
  new = [];
  insert = λ t k v. (k, v) ∷ t;
  lookup = find;
  remove = without;
  size = λ t. length (values [] t);
  get_values = values [];
  lookup-new = find-nil;
  lookup-insert = find-cons;
  lookup-remove = find-without;
  size-length = λ t. refl;
  get_values_sound = get_values_sound;
  get_values_complete = get_values_complete;
}
