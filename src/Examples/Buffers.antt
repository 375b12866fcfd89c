-- ===== src/Examples/Buffers.antt =====
-- A buffer that behaves as protobuf-c documents.
use apteryx.Prelude.{
  ℕ, ◌+◌, List, ◌++◌, leb, if◌then◌else◌, Result, ok, fault, null_pointer, use_after_free, length,
  true, false, ◌≡◌, arith, refl,
}
use apteryx.Rpc.Buffer.{Buffer, unset, fixed, owned, freed, BufferSimple}

unfoldable append_simple : Buffer → List ℕ → Result Buffer
append_simple (unset n) x = if leb (length x) n then fault null_pointer else ok (owned x)
append_simple (fixed n b) x =
    if leb (length b + length x) n then ok (fixed n (b ++ x)) else ok (owned (b ++ x))
append_simple (owned b) x = ok (owned (b ++ x))
append_simple freed x = fault use_after_free

unfoldable clear_simple : Buffer → Buffer
clear_simple (unset n) = unset n
clear_simple (fixed n b) = fixed n b
clear_simple (owned b) = freed
clear_simple freed = freed

pub simple_buffer : BufferSimple
unfolding append_simple clear_simple
simple_buffer = record {
  append = append_simple;
  clear = clear_simple;
  unset_fits = λ n x ne l. let e : leb (length x) n ≡ true = ground (arith, l) in rw e refl;
  unset_grows = λ n x l. let e : leb (length x) n ≡ false = ground (arith, l) in rw e refl;
  fixed_fits =
      λ n b x l. let e : leb (length b + length x) n ≡ true = ground (arith, l) in rw e refl;
  fixed_grows =
      λ n b x l. let e : leb (length b + length x) n ≡ false = ground (arith, l) in rw e refl;
  owned_grows = λ b x. refl;
  freed_fails = λ x ne. refl;
  clear_fixed = λ n b. refl;
  clear_owned = λ b. refl;
}
