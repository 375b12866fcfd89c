-- ===== src/Database/Walk/Tokens.antt =====
-- The string handling of database.c: the trailing '/', the tokens between the '/', and the cut at
-- the last '/'.
use apteryx.Prelude.{List, [], ◌∷◌, Bool, false, Option, none, some, ◌==◌, if◌then◌else◌}
use apteryx.CString.{CString, slash, last_char, drop_last}

-- key[strlen (key) - 1] == '/', for a key that is not empty
unfoldable pub ends_in_slash : CString → Bool
unfolding last_char
ends_in_slash path = elim (last_char path) [ none ↦ false | some c ↦ c == slash ]

unfoldable pub trim : CString → CString
unfolding ends_in_slash drop_last
trim path = if ends_in_slash path then drop_last path else path

-- The key up to the first '/', and the keys between the others: each strchr overwrites one.
unfoldable pub tokens : CString → CString × List CString
tokens [] = ([], [])
tokens (c ∷ s) =
    let (key, rest) = tokens s in if c == slash then ([], key ∷ rest) else (c ∷ key, rest)

-- strrchr (path, '/'): what stands before it and behind it.
unfoldable pub split_last : CString → Option (CString × CString)
split_last [] = none
split_last (c ∷ s) = elim (split_last s) [
  | some (before, after) ↦ some (c ∷ before, after)
  | none ↦ if c == slash then some ([], s) else none
]

-- The parent's path: what stands before the last '/', and the path itself where there is none.
unfoldable pub parent_path : CString → CString
unfolding split_last
parent_path path = elim (split_last path) [ none ↦ path | some (before, after) ↦ before ]

unfoldable pub last_key : CString → CString
unfolding split_last
last_key path = elim (split_last path) [ none ↦ path | some (before, after) ↦ after ]
