-- ===== src/Client/Numbers.antt =====
-- apteryx.c: `apteryx_set_int` and `apteryx_get_int`, which keep a number as its decimal text.
pub mod Decimal
pub mod Kept
use apteryx.Prelude.{
  ℕ, zero, suc, ◌+◌, ◌-◌, ◌*◌, ◌/◌, ◌%◌, ◌^◌, ◌<◌, List, [], ◌∷◌, ◌++◌, Bool, ◌&&◌, ◌||◌, ◌==◌, ltb,
  leb, Option, none, some, if◌then◌else◌, Result, ok, fault, out_of_bounds, ◌>>=◌,
}
use apteryx.CString.{CString}
use apteryx.Client.Transport.{Transport}
use apteryx.Client.Requests.{Ending, returned, aborted, overrun}
use apteryx.Client.Strings.{full_path, set_bytes_at, get_bytes_at}

-- The integers, over the native numbers: negsuc n is - (n + 1).
pub data ℤ : Type 0 where
  pos negsuc : ℕ → ℤ

-- int32_t
abbrev pub IsInt32 : ℤ → Type 0
IsInt32 (ℤ.pos n) = n < 2 ^ 31
IsInt32 (ℤ.negsuc n) = n < 2 ^ 31

-- "%d": the digits of a number below 10 to the power of the fuel, and ten digits are enough for 32
-- bits.
unfoldable pub decimal : ℕ → ℕ → CString
decimal zero n = []
decimal (suc f) n =
    let before = decimal f (n / 10) in
    if ltb n 10 then (48 + n) ∷ [] else before ++ (48 + n % 10) ∷ []

unfoldable pub print_int : ℤ → CString
unfolding decimal
print_int (ℤ.pos n) = decimal 10 n
print_int (ℤ.negsuc n) = 45 ∷ decimal 10 (n + 1)

-- atoi on a block of memory: white space, a sign, and digits up to the first byte that is none. It
-- reads on where the block ends without one. Beyond `int` the standard leaves the result open.
unfoldable pub digits : ℕ → List ℕ → Result ℕ
digits n [] = fault out_of_bounds
digits n (c ∷ s) =
    let rest = digits (n * 10 + (c - 48)) s in if leb 48 c && leb c 57 then rest else ok n

unfoldable pub negate : ℕ → ℤ
negate zero = ℤ.pos zero
negate (suc n) = ℤ.negsuc n

unfoldable pub atoi : List ℕ → Result ℤ
unfolding digits negate
atoi [] = fault out_of_bounds
atoi (c ∷ s) =
    let rest = atoi s in
    if c == 32 || leb 9 c && leb c 13
    then rest
    else (if c == 45
        then digits 0 s >>= (λ n. ok (negate n))
        else (if c == 43
            then digits 0 s >>= (λ n. ok (ℤ.pos n))
            else digits 0 (c ∷ s) >>= (λ n. ok (ℤ.pos n))))

-- "int value = -1", and atoi where there is a value.
unfoldable pub int_of : Ending (Option (List ℕ)) → Ending (Result ℤ)
unfolding atoi
int_of aborted = aborted
int_of overrun = overrun
int_of (returned none) = returned (ok (ℤ.negsuc 0))
int_of (returned (some v)) = returned (atoi v)

module _ (net : Transport) (debug : Bool) where
  open net use {State}

  -- The text with its terminator.
  unfoldable pub apteryx_set_int : CString → Option CString → ℤ → State → Ending Bool × State
  unfolding full_path set_bytes_at print_int
  apteryx_set_int path key value s =
      set_bytes_at net debug (full_path path key) (print_int value ++ zero ∷ []) s

  unfoldable pub apteryx_get_int : CString → Option CString → State → Ending (Result ℤ) × State
  unfolding full_path get_bytes_at int_of
  apteryx_get_int path key s =
      let (got, s') = get_bytes_at net debug (full_path path key) s in (int_of got, s')
