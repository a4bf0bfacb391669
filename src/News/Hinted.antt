-- ===== src/News/Hinted.antt =====
-- Whom the realtime hints of `create_post` reach.
use news_board.Prelude.{
  ℕ, String, ◌≡◌, ◌≢◌, refl, ◌∙◌, true, Option, some, none, List, [], ◌∷◌, All-intro, In, In-filter,
  filter, arith, inl, inr, truthy, if◌then◌else◌, Bool, subst,
}
use news_board.Context.{Context}
use news_board.Exec.{ok, Result-cases}
use news_board.Crm.{CommunityUserModel, AppUserModel, CrmDb, CrmSession, roundtrip, int}
use news_board.Crm
use news_board.Crm.Users.{get_emails_by_auth_ids, email_of}
use news_board.Audit
use news_board.Audit.{AuditLogInput, swallow}
use news_board.Local.{PostModel, Db}
use news_board.Realtime.{Broker}
use news_board.Realtime.Channels.{user_channel}
use news_board.Realtime.Sent.{Sends, Sends-refl}
use news_board.World.{World, request}
use news_board.Notifications.{
  inapp, informational, community_target, news_post_published, news_poll_published,
}
use news_board.Notifications.Hints.{StagedFor, publish-Stages, flush_realtime-Sends}
use news_board.Notifications.Recipients.{IsMember, resolve_audience-IsMember}
use news_board.Notifications.Repository.{user_id_of}
use news_board.Notifications.Service.{Config, publish, resolve_audience, flush_realtime}
use news_board.Notifications.Service.Savepoint.{publish_returns}
use news_board.Const.{is_poll}
use news_board.News.Effects.{audit_keeps, notify_keeps}
use news_board.News.{audit}
use news_board.News.Schemas.{CreatePostRequest}
use news_board.News.Posts.{
  notify_post_created, created_entry, create_post, expiry_of, store_post, new_post,
}

-- the tables of users and of members, in the session and as committed
abbrev Directory : CrmDb → CrmSession → Type 0
Directory d s =
    (s.work.users ≡ d.users)
    × (s.saved.users ≡ d.users)
    × (s.work.members ≡ d.members)
    × (s.saved.members ≡ d.members)

emails-Directory :
    (ids : List String) (d : CrmDb) (s : CrmSession)
    → Directory d s
    → Directory d (get_emails_by_auth_ids ids s).1
unfolding get_emails_by_auth_ids roundtrip
emails-Directory ids d s h = ground arith

audit-Directory :
    (ctx : Context) (entry : AuditLogInput) (d : CrmDb) (w : World)
    → Directory d w.crm
    → let x = (audit ctx entry w).1 in
      Directory d x.crm × (x.broker ≡ w.broker) × (x.pending_realtime ≡ w.pending_realtime)
unfolding audit Audit.log roundtrip Crm.commit
audit-Directory ctx entry d w h = ground arith

-- a member of the community other than the author
abbrev pub IsAddressee : CrmDb → ℕ → String → ℕ → Type 0
IsAddressee d community author u = IsMember community d u × (user_id_of author d ≢ some u)

-- the channel of such a member
abbrev pub IsHint : CrmDb → ℕ → String → String → Type 0
IsHint d community author channel =
    (u : ℕ) × (channel ≡ user_channel u) × IsAddressee d community author u

module _ (d : CrmDb) (community : ℕ) (author : String) (named : truthy (some author) ≡ true) where
  audience-IsAddressee :
      (s : CrmSession) (ids : List ℕ) (c : Option ℕ)
      → Directory d s
      → (resolve_audience (community_target community none (some author)) s).0 ≡ ok (ids, c)
      → (u : ℕ) → In u ids
      → IsAddressee d community author u
  audience-IsAddressee s ids c h answer u m =
      let (_, exactly) = resolve_audience-IsMember community author s ids c named answer in
      let ((row, there, e, f), other) = (exactly u).0 m in
      ((row, rw h.2 at there, e, f), λ x. other (rw h.0 x))

  notify-Sends :
      (cfg : Config) (row : PostModel) (poll : Bool) (w : World)
      → Directory d w.crm
      → w.pending_realtime ≡ []
      → Sends
          (IsHint d community author)
          w.broker
          (notify_post_created cfg row poll community author w).1.broker
  unfolding notify_post_created
  notify-Sends cfg row poll w h empty =
      let key = if poll then news_poll_published else news_post_published in
      let target = community_target community none (some author) in
      let payload = ("post_id", int row.id) ∷ [] in
      let x = (publish cfg key target informational (inapp ∷ []) payload none w).1 in
      let (n, returned) =
        publish_returns cfg key target informational (inapp ∷ []) payload none w in
      let y : World = record x { crm = (swallow Crm.commit x.crm).1 } in
      let same : (notify_post_created cfg row poll community author w).1
          ≡ (flush_realtime cfg.realtime y).1 =
        ground (arith, returned) in
      let (kept, staged) =
        publish-Stages cfg key target informational (inapp ∷ []) payload none w in
      let addressed : StagedFor (IsAddressee d community author) x.pending_realtime = elim staged [
        | inl none_ ↦ rw (none_, empty) tt
        | inr (ids, c, answer, scope, test, more) ↦
            rw (more, empty)
              (
                All-intro (IsAddressee d community author) (filter test ids)
                    (λ u m. audience-IsAddressee w.crm ids c h answer u (In-filter test u ids m).0),
                tt,
              )
      ] in
      rw same (
        subst (λ b. Sends (IsHint d community author) b (flush_realtime cfg.realtime y).1.broker)
          kept
          (flush_realtime-Sends (IsAddressee d community author) (IsHint d community author)
            (λ u a. (u, refl, a)) cfg.realtime y addressed))

  module _ (cfg : Config) (ctx : Context) (req : CreatePostRequest) where
    create_post-Sends :
        (w : World)
        → Directory d w.crm
        → w.pending_realtime ≡ []
        → Sends
            (IsHint d community author)
            w.broker
            (create_post cfg ctx req community author w).1.broker
    unfolding create_post
    create_post-Sends w h empty = elim (Result-cases (expiry_of ctx req)) [
      | inr (e, invalid) ↦
          let same : (create_post cfg ctx req community author w).1 ≡ w = ground arith in
          rw same (Sends-refl (IsHint d community author) w.broker)
      | inl (expires, valid) ↦ elim (Result-cases (get_emails_by_auth_ids (author ∷ []) w.crm).0) [
        | inr (e, down) ↦
            let x : World = record w { crm = (get_emails_by_auth_ids (author ∷ []) w.crm).1 } in
            let same : (create_post cfg ctx req community author w).1 ≡ x = ground arith in
            rw same (Sends-refl (IsHint d community author) w.broker)
        | inl (emails, answered) ↦
            let s = (get_emails_by_auth_ids (author ∷ []) w.crm).1 in
            let value = new_post ctx req community author (email_of emails author) expires in
            let t = store_post req value community w.local in
            elim (Result-cases t.0) [
              | inr (e, refused) ↦
                  let x : World = record w { crm = s; local = t.1 } in
                  let same : (create_post cfg ctx req community author w).1 ≡ x = ground arith in
                  rw same (Sends-refl (IsHint d community author) w.broker)
              | inl (row, stored) ↦
                  let x : World = record w { crm = s; local = t.1 } in
                  let entry = created_entry req expires row in
                  let y = (audit ctx entry x).1 in
                  let same : (create_post cfg ctx req community author w).1
                      ≡ (notify_post_created cfg row (is_poll req.type) community author y).1 =
                    ground (
                      arith,
                      audit_keeps ctx entry x,
                      notify_keeps cfg row (is_poll req.type) community author y,
                    ) in
                  let (known, kept, quiet) =
                    audit-Directory ctx entry d x (emails-Directory (author ∷ []) d w.crm h) in
                  rw same (
                    subst
                      (λ b.
                        Sends (IsHint d community author) b
                          (notify_post_created cfg row (is_poll req.type) community author
                            y).1.broker)
                      kept (notify-Sends cfg row (is_poll req.type) y known (quiet ∙ empty)))
            ]
      ]
    ]

-- With an author whose id is not empty and a CRM session that has written nothing, all that
-- create_post publishes to Redis, whatever fails, is on the channels of members of the community
-- posted to, other than the author's own row.
pub create_post_hints_members :
    (cfg : Config) (ctx : Context) (req : CreatePostRequest) (community : ℕ) (author : String)
    (d : Db) (crm : CrmSession) (broker : Broker)
    → truthy (some author) ≡ true
    → crm.work ≡ crm.saved
    → Sends
        (IsHint crm.saved community author)
        broker
        (create_post cfg ctx req community author (request d crm broker)).1.broker
create_post_hints_members cfg ctx req community author d crm broker named fresh =
    create_post-Sends crm.saved community author named cfg ctx req (request d crm broker)
      (ground (arith, fresh)) refl
