-- ===== src/Server/Handlers/Quiet.antt =====
-- The notifications of watchers are no replies.
use apteryx.Prelude.{
  ℕ, List, [], ◌∷◌, ◌++◌, ◌≡◌, refl, ap, ◌∙◌, sym, Option, ◌==◌, ok, >>=-split, append-nil,
  Bool-cases, inl, inr,
}
use apteryx.CString.{CString}
use apteryx.Registry.{CbInfo, cb_info_find}
use apteryx.Database.Table.{HashTable}
use apteryx.Database.Walk.{db_get}
use apteryx.Server.{
  Event, reply, watch_call, watch_send, provide_call, provide_send, connect_failed, Reply, World,
  Server,
}
use apteryx.Server.Notify.{
  match_watchers, drop_found, drop_watcher, call_watcher, call_watchers, notify_matched,
  notify_list, notify_watchers,
}

-- The closures' calls among the events.
unfoldable pub replies : List Event → List Reply
replies [] = []
replies (reply r ∷ es) = r ∷ replies es
replies (watch_call p w v ∷ es) = replies es
replies (watch_send p w v ∷ es) = replies es
replies (provide_call p w ∷ es) = replies es
replies (provide_send p w ∷ es) = replies es
replies (connect_failed id ∷ es) = replies es

replies-append : (xs ys : List Event) → replies (xs ++ ys) ≡ replies xs ++ replies ys
unfolding replies
replies-append [] ys = refl
replies-append (reply r ∷ xs) ys = ap (◌∷◌ r) (replies-append xs ys)
replies-append (watch_call p w v ∷ xs) ys = replies-append xs ys
replies-append (watch_send p w v ∷ xs) ys = replies-append xs ys
replies-append (provide_call p w ∷ xs) ys = replies-append xs ys
replies-append (provide_send p w ∷ xs) ys = replies-append xs ys
replies-append (connect_failed id ∷ xs) ys = replies-append xs ys

abbrev pub Quiet : {T : Type 0} → Server T → Server T → Type 0
Quiet s s' = replies s'.events ≡ replies s.events

pub replies-reply :
    (es : List Event) (r : Reply) → replies (es ++ reply r ∷ []) ≡ replies es ++ r ∷ []
unfolding replies
replies-reply es r = replies-append es (reply r ∷ [])

-- An event other than a reply.
pub quiet_event :
    (es : List Event) (e : Event) → replies (e ∷ []) ≡ [] → replies (es ++ e ∷ []) ≡ replies es
quiet_event es e h =
    replies-append es (e ∷ []) ∙ ap (λ x. replies es ++ x) h ∙ append-nil (replies es)

pub ok-injective : {A : Type 0} {a b : A} → ok a ≡ ok b → a ≡ b
ok-injective h = cc

module _ {T : Type 0} (world : World) (path : CString) (value : Option (List ℕ)) where
  drop_watcher-Quiet :
      (w : CbInfo) (s s' : Server T) → drop_watcher world path value w s ≡ ok s' → Quiet s s'
  unfolding drop_watcher
  drop_watcher-Quiet w s s' h =
      let (list, e, e') =
        >>=-split
          (drop_found (cb_info_find (world.junk s.events) s.watch_list w.path w.id) s.watch_list) _
          h in
      ap (λ (x : Server T). replies x.events) (sym (ok-injective e'))
      ∙ quiet_event s.events (connect_failed w.id) (unfold replies in refl)

  call_watcher-Quiet :
      (w : CbInfo) (s s' : Server T) → call_watcher world path value w s ≡ ok s' → Quiet s s'
  unfolding call_watcher
  call_watcher-Quiet w s s' h = elim (Bool-cases (w.id == world.pid)) [
    | inl own ↦
        ap (λ (x : Server T). replies x.events) (sym (ok-injective (rw own at h)))
        ∙ quiet_event s.events (watch_call path w value) (unfold replies in refl)
    | inr other ↦
        let h' = rw other at h in
        elim (Bool-cases (world.connects s.events w.id)) [
          | inl there ↦
              ap (λ (x : Server T). replies x.events) (sym (ok-injective (rw there at h')))
              ∙ quiet_event s.events (watch_send path w value) (unfold replies in refl)
          | inr gone ↦ drop_watcher-Quiet w s s' (rw gone at h')
        ]
  ]

  call_watchers-Quiet :
      (ws : List CbInfo) (s s' : Server T)
      → call_watchers world path value ws s ≡ ok s'
      → Quiet s s'
  unfolding call_watchers
  call_watchers-Quiet [] s s' h = ap (λ (x : Server T). replies x.events) (sym (ok-injective h))
  call_watchers-Quiet (w ∷ ws) s s' h =
      let (s₁, e, e') = >>=-split (call_watcher world path value w s) _ h in
      call_watchers-Quiet ws s₁ s' e' ∙ call_watcher-Quiet w s s₁ e

module _ (G : HashTable) (world : World) (path : CString) where
  notify_matched-Quiet :
      (copies : List CbInfo) (s s' : Server G.Table)
      → notify_matched G world path copies s ≡ ok s'
      → Quiet s s'
  unfolding notify_matched
  notify_matched-Quiet [] s s' h =
      ap (λ (x : Server G.Table). replies x.events) (sym (ok-injective h))
  notify_matched-Quiet (c ∷ cs) s s' h =
      let (v, e, e') = >>=-split (db_get G s.db path) _ h in
      call_watchers-Quiet world path v (c ∷ cs) s s' e'

  notify_list-Quiet :
      (list : List CbInfo) (s s' : Server G.Table)
      → notify_list G world path list s ≡ ok s'
      → Quiet s s'
  unfolding notify_list
  notify_list-Quiet [] s s' h = ap (λ (x : Server G.Table). replies x.events) (sym (ok-injective h))
  notify_list-Quiet (c ∷ cs) s s' h =
      let ((copies, list), e, e') = >>=-split (match_watchers path (c ∷ cs)) _ h in
      notify_matched-Quiet copies (record s { watch_list = list }) s' e'

  pub notify_watchers-Quiet :
      (s s' : Server G.Table) → notify_watchers G world path s ≡ ok s' → Quiet s s'
  unfolding notify_watchers
  notify_watchers-Quiet s s' h = notify_list-Quiet s.watch_list s s' h
