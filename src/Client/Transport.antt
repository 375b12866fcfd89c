-- ===== src/Client/Transport.antt =====
-- What the client library calls: `rpc_connect_service`, and the stubs `apteryx__server__set` and so
-- on that are generated from apteryx.proto. A stub calls its closure with a result, with NULL, or
-- not at all.
use apteryx.Prelude.{ℕ, List, Bool}
use apteryx.CString.{CString}
use apteryx.Registry.{Request}
use apteryx.Client.Lifetime.{Start}

pub data Response (A : Type 0) : Type 0 where
  silent : Response A
  null_result : Response A
  result : A → Response A

-- The state is that of everything behind the socket; `isprint` is the C library's,
-- and `starts` says how the client's thread starts.
pub record Transport : Type 1 where
  pub State : Type 0
  pub isprint : ℕ → Bool
  pub starts : State → Start
  pub connects : State → Bool
  pub call_set : CString → List ℕ → State → Response (Unit {0}) × State
  pub call_get : CString → State → Response (List ℕ) × State
  pub call_search : CString → State → Response (List CString) × State
  pub call_watch : Request → State → Response (Unit {0}) × State
  pub call_provide : Request → State → Response (Unit {0}) × State
  pub call_prune : CString → State → Response (Unit {0}) × State
