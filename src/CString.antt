-- ===== src/CString.antt =====
-- The C library's string functions that the code uses. A string is the list of its bytes, without
-- the terminating NUL.
pub mod Laws
use Prim.Native.Char.{code}
use Prim.Native.String.{String}
use apteryx.Prelude.{
  ℕ, zero, suc, List, [], ◌∷◌, ◌++◌, Bool, true, false, ◌&&◌, ◌||◌, Option, none, some, ◌==◌,
  if◌then◌else◌, length,
}

abbrev pub CString : Type 0
CString = List ℕ

-- A literal, as bytes.
abbrev pub codes : String → CString
codes String.[] = []
codes (String.◌∷◌ c s) = code c ∷ codes s

abbrev pub slash : ℕ
slash = b'/'

abbrev pub star : ℕ
star = b'*'

-- strcmp (a, b) == 0
unfoldable pub strcmp_eq : CString → CString → Bool
strcmp_eq [] [] = true
strcmp_eq [] (d ∷ b) = false
strcmp_eq (c ∷ a) [] = false
strcmp_eq (c ∷ a) (d ∷ b) = c == d && strcmp_eq a b

-- strncmp (a, b, n) == 0
unfoldable pub strncmp_eq : CString → CString → ℕ → Bool
strncmp_eq a b zero = true
strncmp_eq [] [] (suc n) = true
strncmp_eq [] (d ∷ b) (suc n) = false
strncmp_eq (c ∷ a) [] (suc n) = false
strncmp_eq (c ∷ a) (d ∷ b) (suc n) = c == d && strncmp_eq a b n

-- strchr (s, c) != NULL
unfoldable pub strchr : CString → ℕ → Bool
strchr [] c = false
strchr (d ∷ s) c = d == c || strchr s c

-- s[strlen (s) - 1], and `none` for the empty string, where that reads before the string.
unfoldable pub last_char : CString → Option ℕ
last_char [] = none
last_char (c ∷ []) = some c
last_char (c ∷ d ∷ s) = last_char (d ∷ s)

-- The string with its last byte overwritten by NUL.
unfoldable pub drop_last : CString → CString
drop_last [] = []
drop_last (c ∷ []) = []
drop_last (c ∷ d ∷ s) = c ∷ drop_last (d ∷ s)

-- strstr (s, "//") != NULL
unfoldable pub has_double_slash : CString → Bool
has_double_slash [] = false
has_double_slash (c ∷ []) = false
has_double_slash (c ∷ d ∷ s) = (c == slash && d == slash) || has_double_slash (d ∷ s)

-- A pointer past the terminator is out of bounds; one at it is the empty string. `s + n`.
unfoldable pub advance : CString → ℕ → Option CString
advance s zero = some s
advance [] (suc n) = none
advance (c ∷ s) (suc n) = advance s n
