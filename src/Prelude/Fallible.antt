-- ===== src/Prelude/Fallible.antt =====
-- C code that may be undefined: an operation ends in a value, or in the fault that it runs into.
use mathlib.Core.Path.{◌≡◌, refl, ap, ◌∙◌}

-- A read or write outside an object, an access to freed memory, the use of a variable that was
-- never set, the access through NULL, a memcpy between overlapping
-- objects, and a recursion that does not end.
pub data Fault : Type 0 where
  out_of_bounds use_after_free uninitialised null_pointer overlapping stack_overflow : Fault

pub data Result {ℓ} (A : Type ℓ) : Type ℓ where
  ok : A → Result A
  fault : Fault → Result A

infixl 5 ◌>>=◌
abbrev pub ◌>>=◌ {ℓ κ} : {A : Type ℓ} {B : Type κ} → Result A → (A → Result B) → Result B
ok a >>= f = f a
fault e >>= f = fault e

-- The first part of a sequence that succeeds, and the rest.
module _ {A B : Type 0} {b : B} where
  pub >>=-split :
      (first : Result A) (rest : A → Result B)
      → (first >>= rest) ≡ ok b
      → (a : A) × (first ≡ ok a) × (rest a ≡ ok b)
  >>=-split (fault why) rest done = cc
  >>=-split (ok a) rest done = (a, refl, done)

-- A sequence whose first part succeeds is the rest of it.
pub >>=-ok :
    {A B : Type 0} {r : Result A} {a : A} {c : Result B} (f : A → Result B)
    → r ≡ ok a
    → f a ≡ c
    → (r >>= f) ≡ c
>>=-ok f e e' = ap (λ r. r >>= f) e ∙ e'
