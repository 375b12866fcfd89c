-- ===== src/Server/Handlers/Replies.antt =====
-- Each request is answered once.
use apteryx.Prelude.{
  ℕ, List, [], ◌∷◌, ◌++◌, ◌≡◌, refl, ap, ◌∙◌, sym, Option, none, some, Result, ok, >>=-split,
}
use apteryx.CString.{CString}
use apteryx.Registry.{Request, register}
use apteryx.Database.Table.{HashTable}
use apteryx.Database.Walk.{db_search, db_get}
use apteryx.Server.{Reply, World, Server, null_reply, ok_reply, value_reply, paths_reply}
use apteryx.Server.Prune.{prune}
use apteryx.Server.Handlers.{
  SetMessage, write, lookup_value, apteryx__set, apteryx__get, apteryx__search, apteryx__watch,
  apteryx__provide, apteryx__prune,
}
use apteryx.Server.Handlers.Quiet.{
  replies, Quiet, replies-reply, ok-injective, notify_watchers-Quiet,
}
use apteryx.Server.Handlers.Questions.{lookup_value-Quiet, prune-Quiet}

-- The six requests that the server takes.
pub data Call : Type 0 where
  set : Option SetMessage → Call
  get : Option CString → Call
  search : Option CString → Call
  watch : Option Request → Call
  provide : Option Request → Call
  prunes : Option CString → Call

module _ (G : HashTable) (world : World) where
  unfoldable pub handle : Call → Server G.Table → Result (Server G.Table)
  handle (set m) s = apteryx__set G world m s
  handle (get m) s = apteryx__get G world m s
  handle (search m) s = apteryx__search G world m s
  handle (watch m) s = apteryx__watch G world m s
  handle (provide m) s = apteryx__provide G world m s
  handle (prunes m) s = apteryx__prune G world m s

  -- The kind of answer that a request gets: NULL without a message, and else its own result.
  abbrev pub Answers : Call → Reply → Type 0
  Answers (set none) r = r ≡ null_reply
  Answers (get none) r = r ≡ null_reply
  Answers (search none) r = r ≡ null_reply
  Answers (watch none) r = r ≡ null_reply
  Answers (provide none) r = r ≡ null_reply
  Answers (prunes none) r = r ≡ null_reply
  Answers (get (some p)) r = (v : Option (List ℕ)) × (r ≡ value_reply v)
  Answers (search (some p)) r = (ps : List CString) × (r ≡ paths_reply ps)
  Answers _ r = r ≡ ok_reply

  same : (t s' : Server G.Table) → ok t ≡ ok s' → Quiet t s'
  same t s' h = ap (λ (x : Server G.Table). replies x.events) (sym (ok-injective h))

  -- A request that ends without a fault has been answered once, with its kind of answer; the
  -- notifications and the questions to providers in between are no answers.
  pub handle-Answers :
      (c : Call) (s s' : Server G.Table)
      → handle c s ≡ ok s'
      → (r : Reply) × Answers c r × (replies s'.events ≡ replies s.events ++ r ∷ [])
  unfolding handle apteryx__set apteryx__get apteryx__search apteryx__watch apteryx__provide
      apteryx__prune
  handle-Answers (set none) s s' h =
      (null_reply, refl, same _ s' h ∙ replies-reply s.events null_reply)
  handle-Answers (set (some m)) s s' h =
      let (db, _, h') = >>=-split (write G world s.db m.path m.value) _ h in
      (
        ok_reply,
        refl,
        notify_watchers-Quiet G world m.path _ s' h' ∙ replies-reply s.events ok_reply,
      )
  handle-Answers (get none) s s' h =
      (null_reply, refl, same _ s' h ∙ replies-reply s.events null_reply)
  handle-Answers (get (some p)) s s' h =
      let (stored, _, h₁) = >>=-split (db_get G s.db p) _ h in
      let ((v, t), e, h₂) = >>=-split (lookup_value G world stored p _) _ h₁ in
      (
        value_reply v,
        (v, refl),
        same _ s' h₂
            ∙ replies-reply t.events (value_reply v)
            ∙ ap (λ x. x ++ value_reply v ∷ []) (lookup_value-Quiet G world stored p _ t v e),
      )
  handle-Answers (search none) s s' h =
      (null_reply, refl, same _ s' h ∙ replies-reply s.events null_reply)
  handle-Answers (search (some p)) s s' h =
      let (ps, _, h') = >>=-split (db_search G s.db p) _ h in
      (paths_reply ps, (ps, refl), same _ s' h' ∙ replies-reply s.events (paths_reply ps))
  handle-Answers (watch none) s s' h =
      (null_reply, refl, same _ s' h ∙ replies-reply s.events null_reply)
  handle-Answers (watch (some m)) s s' h =
      let (list, _, h') = >>=-split (register (world.junk s.events) s.watch_list m) _ h in
      (ok_reply, refl, same _ s' h' ∙ replies-reply s.events ok_reply)
  handle-Answers (provide none) s s' h =
      (null_reply, refl, same _ s' h ∙ replies-reply s.events null_reply)
  handle-Answers (provide (some m)) s s' h =
      let (list, _, h') = >>=-split (register (world.junk s.events) s.provide_list m) _ h in
      (ok_reply, refl, same _ s' h' ∙ replies-reply s.events ok_reply)
  handle-Answers (prunes none) s s' h =
      (null_reply, refl, same _ s' h ∙ replies-reply s.events null_reply)
  handle-Answers (prunes (some p)) s s' h =
      let (t, e, h') = >>=-split (prune G world p _) _ h in
      (
        ok_reply,
        refl,
        same _ s' h'
            ∙ replies-reply t.events ok_reply
            ∙ ap (λ x. x ++ ok_reply ∷ []) (prune-Quiet G world p _ t e),
      )
