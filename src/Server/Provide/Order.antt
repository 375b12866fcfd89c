-- ===== src/Server/Provide/Order.antt =====
-- Which providers a get asks, and whose answer it takes.
use apteryx.Prelude.{ℕ, List, [], ◌∷◌, ◌++◌, ◌≡◌, ◌≢◌, true, false, Option, none, some, Result, ok}
use apteryx.CString.{CString}
use apteryx.Registry.{CbInfo}
use apteryx.Matching.{provide_matches}
use apteryx.Matching.Providers.{Provides}
use apteryx.Server.{
  Event, provide_call, provide_send, Answer, no_answer, error_answer, bytes, World, Server,
}

-- A client that does not answer in time, or answers an error, or no bytes.
pub data IsEmpty : Answer → Type 0 where
  late : IsEmpty no_answer
  error : IsEmpty error_answer
  blank : IsEmpty (bytes [])

-- The providers of a list that a get asks, after the events before it, and the value it takes: they
-- are asked in the list's order, each that matches, until one has a value. The last may be the
-- server itself.
pub data Asks (world : World) (path : CString)
    : List Event → List CbInfo → List Event → Option (List ℕ) → Type 0 where
  nobody : {es : List Event} → Asks world path es [] [] none
  passes :
      {es asked : List Event} {w : CbInfo} {ws : List CbInfo} {v : Option (List ℕ)}
      → provide_matches w.path path ≡ ok false
      → Asks world path es ws asked v
      → Asks world path es (w ∷ ws) asked v
  goes_on :
      {es asked : List Event} {w : CbInfo} {ws : List CbInfo} {v : Option (List ℕ)}
      → Provides w.path path
      → w.id ≢ world.pid
      → world.connects es w.id ≡ true
      → IsEmpty (world.answer es path w)
      → Asks world path (es ++ provide_send path w ∷ []) ws asked v
      → Asks world path es (w ∷ ws) (provide_send path w ∷ asked) v
  takes :
      {es : List Event} {w : CbInfo} {ws : List CbInfo} (b : ℕ) (bs : List ℕ)
      → Provides w.path path
      → w.id ≢ world.pid
      → world.connects es w.id ≡ true
      → world.answer es path w ≡ bytes (b ∷ bs)
      → Asks world path es (w ∷ ws) (provide_send path w ∷ []) (some (b ∷ bs))
  itself :
      {es : List Event} {w : CbInfo} {ws : List CbInfo}
      → Provides w.path path
      → w.id ≡ world.pid
      → Asks world path es (w ∷ ws) (provide_call path w ∷ []) (world.local_value es path w)

module _ {T : Type 0} (world : World) (path : CString) where
  -- What a get ends with.
  abbrev pub Ends :
      Result (Option (List ℕ) × Server T) → Server T → List Event → Option (List ℕ) → Type 0
  Ends r s asked v =
      (s' : Server T) × (r ≡ ok (v, s'))
      × (s'.events ≡ s.events ++ asked)
      × (s'.db ≡ s.db)
      × (s'.watch_list ≡ s.watch_list)
