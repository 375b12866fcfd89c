-- ===== src/Client/Dump.antt =====
-- apteryx.c: `apteryx_dump`, which prints the values below a path.
use apteryx.Prelude.{
  ℕ, zero, suc, ◌-◌, List, [], ◌∷◌, ◌++◌, Bool, Option, none, some, ◌==◌, if◌then◌else◌, length,
}
use apteryx.CString.{CString, slash}
use apteryx.Client.Transport.{Transport}
use apteryx.Client.Requests.{Ending, returned, aborted, overrun, apteryx_get, apteryx_search}

-- "%.*s" with the value's size: the bytes up to the first NUL.
unfoldable pub until_nul : List ℕ → CString
until_nul [] = []
until_nul (b ∷ bs) = if b == 0 then [] else b ∷ until_nul bs

unfoldable pub spaces : ℕ → CString
spaces zero = []
spaces (suc n) = 32 ∷ spaces n

-- "%-64s%.*s\n"
unfoldable pub dump_line : CString → List ℕ → CString
unfolding until_nul spaces
dump_line path value = path ++ spaces (64 - length path) ++ until_nul value ++ 10 ∷ []

unfoldable pub line_of : CString → Option (List ℕ) → CString
unfolding dump_line
line_of path none = []
line_of path (some v) = dump_line path v

module _ (net : Transport) (debug : Bool) where
  open net use {State}

  abbrev pub Dumper : Type 0
  Dumper = CString → State → Ending CString × State

  -- What is printed first, and what is printed then.
  unfoldable pub printed_after : CString → Ending CString × State → Ending CString × State
  printed_after out (aborted, s) = (aborted, s)
  printed_after out (overrun, s) = (overrun, s)
  printed_after out (returned more, s) = (returned (out ++ more), s)

  unfoldable pub dump_each : Dumper → List CString → State → Ending CString × State
  unfolding printed_after
  dump_each dump [] s = (returned [], s)
  dump_each dump (child ∷ children) s =
      let (r, s') = dump (child ++ slash ∷ []) s in
      elim r [
        | aborted ↦ (aborted, s')
        | overrun ↦ (overrun, s')
        | returned out ↦ printed_after out (dump_each dump children s')
      ]

  unfoldable pub dump_children : Dumper → Ending (List CString) × State → Ending CString × State
  unfolding dump_each
  dump_children dump (aborted, s) = (aborted, s)
  dump_children dump (overrun, s) = (overrun, s)
  dump_children dump (returned children, s) = dump_each dump children s

  unfoldable pub dump_found :
      Dumper → CString → Ending (Option (List ℕ)) × State → Ending CString × State
  unfolding dump_children line_of printed_after
  dump_found dump path (aborted, s) = (aborted, s)
  dump_found dump path (overrun, s) = (overrun, s)
  dump_found dump path (returned got, s) =
      printed_after (line_of path got) (dump_children dump (apteryx_search net debug (some path) s))

  -- What is printed. The recursion is on fuel, for the depth of the tree, and ends the process where
  -- that is not enough; `ref_count` does not change, and the test of it is an assertion.
  unfoldable pub apteryx_dump : ℕ → ℕ → Dumper
  unfolding dump_found apteryx_get apteryx_search
  apteryx_dump zero ref_count path s = (aborted, s)
  apteryx_dump (suc f) zero path s = (aborted, s)
  apteryx_dump (suc f) (suc ref_count) path s =
      dump_found (apteryx_dump f (suc ref_count)) path (apteryx_get net debug path s)
