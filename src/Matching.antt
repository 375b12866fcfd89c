-- ===== src/Matching.antt =====
-- apteryxd.c: the tests by which `notify_watchers` and `provide_get` choose the entries for a path.
pub mod Watchers
pub mod OneLevel
pub mod Providers
use apteryx.Prelude.{
  ℕ, ◌-◌, Bool, true, false, not, ◌&&◌, ◌||◌, ◌==◌, if◌then◌else◌, length, Option, none, some,
  Result, ok, fault, out_of_bounds,
}
use apteryx.CString.{CString, slash, star, strcmp_eq, strncmp_eq, strchr, last_char, advance}

-- !strchr (path + len, '/'), where `path + len` may lie past the terminator.
unfoldable pub no_slash_after : Option CString → Result Bool
no_slash_after none = fault out_of_bounds
no_slash_after (some rest) = ok (not (strchr rest slash))

-- The one-level-deep test, for a watcher's path that ends in '/'.
unfoldable pub one_level_test : CString → CString → Result Bool
unfolding no_slash_after
one_level_test watched path =
    if strncmp_eq path watched (length watched - 1)
    then no_slash_after (advance path (length watched))
    else ok false

-- `*ptr` is the last byte of the watcher's path; the path "" has none.
unfoldable pub tail_test : Option ℕ → CString → CString → Result Bool
unfolding one_level_test
tail_test none watched path = fault out_of_bounds
tail_test (some c) watched path =
    if c == star
    then ok (strncmp_eq path watched (length watched - 1))
    else (if c == slash then one_level_test watched path else ok false)

-- The variable `match` at the end of the loop's body.
unfoldable pub watch_matches : CString → CString → Result Bool
unfolding tail_test
watch_matches watched path =
    if strcmp_eq watched path then ok true else tail_test (last_char watched) watched path

-- strcmp (provider->path, path) == 0 || (*ptr == '*' && strncmp (path, provider->path, len - 1) == 0)
unfoldable pub star_test : Option ℕ → CString → CString → Result Bool
star_test none provided path = fault out_of_bounds
star_test (some c) provided path = ok (c == star && strncmp_eq path provided (length provided - 1))

unfoldable pub provide_matches : CString → CString → Result Bool
unfolding star_test
provide_matches provided path =
    if strcmp_eq provided path then ok true else star_test (last_char provided) provided path
