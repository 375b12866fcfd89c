-- ===== src/Logging.antt =====
-- internal.h: `bytes_to_string`, by which values are written to the log.
pub mod Bounds
use apteryx.Prelude.{
  ℕ, ◌+◌, ◌/◌, ◌%◌, List, [], ◌∷◌, ◌++◌, Bool, ltb, if◌then◌else◌, Result, ok, fault, out_of_bounds,
  length,
}
use apteryx.CString.{CString}

-- A digit of "%02x".
unfoldable pub hex : ℕ → ℕ
hex d = if ltb d 10 then 48 + d else 87 + d

-- The size of `_bytes_to_string`.
abbrev pub buffer_size : ℕ
buffer_size = 1024

-- `isprint` depends on the locale.
module _ (isprint : ℕ → Bool) where
  -- "%c" or "\\%02x"
  unfoldable pub print_byte : ℕ → CString
  unfolding hex
  print_byte b = if isprint b then b ∷ [] else 92 ∷ hex (b / 16) ∷ hex (b % 16) ∷ []

  -- The loop, at the bytes that are left, and behind what is written. Each `sprintf` writes a
  -- terminator too.
  unfoldable pub print_from : List ℕ → CString → Result CString
  unfolding print_byte
  print_from [] out = ok out
  print_from (b ∷ bs) out =
      let rest = print_from bs (out ++ print_byte b) in
      if ltb (length (out ++ print_byte b)) buffer_size then rest else fault out_of_bounds

  unfoldable pub bytes_to_string : List ℕ → Result CString
  unfolding print_from
  bytes_to_string value = print_from value []

  -- What `watch_callback` of apteryxc.c prints of a value: the same, with no buffer.
  unfoldable pub printed : List ℕ → CString
  unfolding print_byte
  printed [] = []
  printed (b ∷ bs) = print_byte b ++ printed bs
