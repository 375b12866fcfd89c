-- ===== src/Server/Handlers/Questions.antt =====
-- The questions to providers, and a prune, are no replies.
use apteryx.Prelude.{
  ℕ, zero, suc, List, [], ◌∷◌, ◌≡◌, refl, ap, ◌∙◌, sym, Option, none, some, ◌==◌, Result, ok,
  >>=-split, Bool-cases, inl, inr,
}
use apteryx.CString.{CString}
use apteryx.Registry.{CbInfo}
use apteryx.Matching.{provide_matches}
use apteryx.Database.Table.{HashTable}
use apteryx.Database.Walk.{db_search}
use apteryx.Database.Delete.{db_delete}
use apteryx.Server.{provide_call, provide_send, World, Server, emit}
use apteryx.Server.Provide.{
  count_provider, next_link, take_value, ask_provider, provide_from, provide_get,
}
use apteryx.Server.Prune.{prune_each, prune_fuel, prune}
use apteryx.Server.Handlers.{lookup_value}
use apteryx.Server.Handlers.Quiet.{replies, Quiet, quiet_event, ok-injective, notify_watchers-Quiet}

-- A step of the loop over the providers that adds no reply.
abbrev QuietStep : {T : Type 0} → (Server T → Result (Option (List ℕ) × Server T)) → Type 0
QuietStep {T} f = (s s' : Server T) (v : Option (List ℕ)) → f s ≡ ok (v, s') → Quiet s s'

pair-injective :
    {A B : Type 0} {a a' : A} {b b' : B}
    → ◌≡◌ {A = Result (A × B)} (ok (a, b)) (ok (a', b'))
    → b ≡ b'
pair-injective h = ap (λ x. x.1) (ok-injective h)

module _ {T : Type 0} (world : World) (path : CString) where
  take_value-Quiet :
      (o : Option (List ℕ)) (rest : Server T → Result (Option (List ℕ) × Server T))
      → QuietStep rest
      → QuietStep (take_value o rest)
  unfolding take_value next_link
  take_value-Quiet none rest q s s' v h = q (record s { get_value = none }) s' v h
  take_value-Quiet (some x) rest q s s' v h =
      ap (λ (x : Server T). replies x.events) (sym (pair-injective h))

  ask_provider-Quiet :
      (i : ℕ) (w : CbInfo) (rest : Server T → Result (Option (List ℕ) × Server T))
      → QuietStep rest
      → QuietStep (ask_provider world path i w rest)
  unfolding ask_provider next_link
  ask_provider-Quiet i w rest q s s' v h = elim (Bool-cases (w.id == world.pid)) [
    | inl own ↦
        ap (λ (x : Server T). replies x.events) (sym (pair-injective (rw own at h)))
        ∙ quiet_event s.events (provide_call path w) (unfold replies in refl)
    | inr other ↦
        let h' = rw other at h in
        elim (Bool-cases (world.connects s.events w.id)) [
          | inl there ↦
              take_value-Quiet _ rest q (emit (provide_send path w) s) s' v (rw there at h')
              ∙ quiet_event s.events (provide_send path w) (unfold replies in refl)
          | inr gone ↦ cc (rw gone at h')
        ]
  ]

  provide_from-Quiet : (i : ℕ) (ws : List CbInfo) → QuietStep {T = T} (provide_from world path i ws)
  unfolding provide_from
  provide_from-Quiet i [] s s' v h =
      ap (λ (x : Server T). replies x.events) (sym (pair-injective h))
  provide_from-Quiet i (w ∷ ws) s s' v h =
      let (b, e, e') = >>=-split (provide_matches w.path path) _ h in
      elim (Bool-cases b) [
        | inl t ↦
            ask_provider-Quiet i w (provide_from world path (suc i) ws)
              (provide_from-Quiet (suc i) ws) (count_provider i s) s' v (rw t at e')
            ∙ (unfold count_provider in refl)
        | inr f ↦ provide_from-Quiet (suc i) ws s s' v (rw f at e')
      ]

module _ (G : HashTable) (world : World) where
  pub lookup_value-Quiet :
      (o : Option (List ℕ)) (path : CString) → QuietStep (lookup_value G world o path)
  unfolding lookup_value provide_get
  lookup_value-Quiet none path s s' v h = provide_from-Quiet world path 0 s.provide_list s s' v h
  lookup_value-Quiet (some x) path s s' v h =
      ap (λ (x : Server G.Table). replies x.events) (sym (pair-injective h))

  prune_each-Quiet :
      (rec : CString → Server G.Table → Result (Server G.Table))
      → ((path : CString) (s s' : Server G.Table) → rec path s ≡ ok s' → Quiet s s')
      → (paths : List CString) (s s' : Server G.Table) → prune_each G world rec paths s ≡ ok s'
      → Quiet s s'
  unfolding prune_each
  prune_each-Quiet rec q [] s s' h =
      ap (λ (x : Server G.Table). replies x.events) (sym (ok-injective h))
  prune_each-Quiet rec q (p ∷ ps) s s' h =
      let (s₁, e, e') = >>=-split (rec p s) _ h in prune_each-Quiet rec q ps s₁ s' e' ∙ q p s s₁ e

  prune_fuel-Quiet :
      (f : ℕ) (path : CString) (s s' : Server G.Table)
      → prune_fuel G world f path s ≡ ok s'
      → Quiet s s'
  unfolding prune_fuel
  prune_fuel-Quiet zero path s s' h = cc
  prune_fuel-Quiet (suc f) path s s' h =
      let (children, _, h₁) = >>=-split (db_search G s.db path) _ h in
      let (s₁, e, h₂) = >>=-split (prune_each G world (prune_fuel G world f) children s) _ h₁ in
      let (db, _, h₃) = >>=-split (db_delete G s₁.db path) _ h₂ in
      notify_watchers-Quiet G world path (record s₁ { db = db }) s' h₃
      ∙ prune_each-Quiet (prune_fuel G world f) (prune_fuel-Quiet f) children s s₁ e

  pub prune-Quiet :
      (path : CString) (s s' : Server G.Table) → prune G world path s ≡ ok s' → Quiet s s'
  unfolding prune
  prune-Quiet path s s' h = prune_fuel-Quiet (suc s.db.next) path s s' h
