-- ===== src/Notifications/Service/Savepoint.antt =====
-- `publish` never raises, never touches the local database, and writes all of its rows or none.
use news_board.Prelude.{ℕ, String, ◌≡◌, refl, inl, inr, Option, some, List, [], ◌∷◌, true, arith}
use news_board.Exec.{ok, raises, Result-cases}
use news_board.Crm.{Payload, CrmSession, roundtrip}
use news_board.Realtime
use news_board.Realtime.Channels.{Audience, users}
use news_board.Realtime.Message.{Hint, Resource}
use news_board.World.{World}
use news_board.Notifications.{
  Channel, NotificationCategory, transactional, informational, NotificationTarget, user_target,
  users_target, community_target,
}
use news_board.Notifications.Repository.{
  resolve_internal_user_id, find_community_recipient_ids, find_preferences,
}
use news_board.Notifications.Service.{
  Config, Effective, publish, publish_body, send_to, deliver, resolve_audience, effective_channels,
  flush_staged,
}

module _ (cfg : Config) (type : String) (target : NotificationTarget)
    (category : NotificationCategory) (channels : List Channel) (payload : Payload)
    (dedupe_key : Option String) where
  deliver_keeps_local :
      (ids : List ℕ) (community : Option ℕ) (effective : Effective) (w : World)
      → (deliver cfg type target category channels payload dedupe_key ids community effective
          w).1.local
        ≡ w.local
  unfolding deliver
  deliver_keeps_local ids community effective w = ground arith

  send_keeps_local :
      (audience : List ℕ × Option ℕ) (w : World)
      → (send_to cfg type target category channels payload dedupe_key audience w).1.local ≡ w.local
  unfolding send_to
  send_keeps_local ([], community) w = refl
  send_keeps_local (u ∷ us, community) w = grind (arith, deliver_keeps_local)

  body_keeps_local :
      (w : World)
      → (publish_body cfg type target category channels payload dedupe_key w).1.local ≡ w.local
  unfolding publish_body
  body_keeps_local w = grind (arith, send_keeps_local)

  pub publish_keeps_local :
      (w : World)
      → (publish cfg type target category channels payload dedupe_key w).1.local ≡ w.local
  unfolding publish
  publish_keeps_local w = ground (arith, body_keeps_local w)

  -- `publish` returns a number, whatever fails
  pub publish_returns :
      (w : World)
      → (n : ℕ) × ((publish cfg type target category channels payload dedupe_key w).0 ≡ ok n)
  unfolding publish
  publish_returns w =
      elim (Result-cases (publish_body cfg type target category channels payload dedupe_key w).0) [
        | inl (n, e) ↦ (n, ground arith)
        | inr (x, e) ↦ (0, ground arith)
      ]

pub emit_returns :
    (cfg : Realtime.Settings) (topic : String) (audience : Audience) (resource : Resource)
    (hint : Hint) (scope : Option ℕ) (b : Realtime.Broker)
    → (Realtime.emit cfg topic audience resource hint scope b).0 ≡ ok tt
unfolding Realtime.emit
emit_returns cfg topic audience resource hint scope b = ground arith

pub flush_staged_keeps :
    (cfg : Realtime.Settings) (staged : List (List ℕ × Option ℕ)) (w : World)
    → ((flush_staged cfg staged w).0 ≡ ok tt)
      × ((flush_staged cfg staged w).1.local ≡ w.local)
      × ((flush_staged cfg staged w).1.crm ≡ w.crm)
unfolding flush_staged
flush_staged_keeps cfg [] w = (refl, refl, refl)
flush_staged_keeps cfg ((ids, community) ∷ rest) w = ground (
  arith,
  emit_returns cfg "notification.created" (users ids) ("notification", some "0") [] community
      w.broker,
  flush_staged_keeps cfg rest (record w {
    broker =
        (Realtime.emit cfg "notification.created" (users ids) ("notification", some "0") []
          community w.broker).1;
  }),
)

audience_keeps_work :
    (target : NotificationTarget) (s : CrmSession) → (resolve_audience target s).1.work ≡ s.work
unfolding resolve_audience resolve_internal_user_id find_community_recipient_ids roundtrip
audience_keeps_work (user_target u c) s = refl
audience_keeps_work (users_target us c) s = refl
audience_keeps_work (community_target c roles exclude) s = ground arith

effective_keeps_work :
    (type : String) (category : NotificationCategory) (channels : List Channel) (ids : List ℕ)
    (s : CrmSession)
    → (effective_channels type category channels ids s).1.work ≡ s.work
unfolding effective_channels find_preferences roundtrip
effective_keeps_work type transactional channels ids s = refl
effective_keeps_work type informational channels [] s = ground arith
effective_keeps_work type informational channels (i ∷ is) s = ground arith

module _ (cfg : Config) (type : String) (target : NotificationTarget)
    (category : NotificationCategory) (channels : List Channel) (payload : Payload)
    (dedupe_key : Option String) where
  deliver_error_clean :
      (ids : List ℕ) (community : Option ℕ) (effective : Effective) (w : World)
      → let (r, w') =
          deliver cfg type target category channels payload dedupe_key ids community effective w in
        raises r ≡ true → (w'.crm.work ≡ w.crm.work) × (w'.pending_realtime ≡ w.pending_realtime)
  unfolding deliver
  deliver_error_clean ids community effective w h = ground arith

  send_error_clean :
      (audience : List ℕ × Option ℕ) (w : World)
      → let (r, w') = send_to cfg type target category channels payload dedupe_key audience w in
        raises r ≡ true → (w'.crm.work ≡ w.crm.work) × (w'.pending_realtime ≡ w.pending_realtime)
  unfolding send_to
  send_error_clean ([], community) w h = cc
  send_error_clean (u ∷ us, community) w h =
      let s = effective_channels type category channels (u ∷ us) w.crm in
      elim (Result-cases s.0) [
        | inl (effective, e) ↦ ground (
          arith,
          effective_keeps_work type category channels (u ∷ us) w.crm,
          deliver_error_clean (u ∷ us) community effective (record w { crm = s.1 }),
        )
        | inr (x, e) ↦ ground (arith, effective_keeps_work type category channels (u ∷ us) w.crm)
      ]

  body_error_clean :
      (w : World)
      → let (r, w') = publish_body cfg type target category channels payload dedupe_key w in
        raises r ≡ true → (w'.crm.work ≡ w.crm.work) × (w'.pending_realtime ≡ w.pending_realtime)
  unfolding publish_body
  body_error_clean w h = elim (Result-cases (resolve_audience target w.crm).0) [
    | inl (audience, e) ↦ ground (
      arith,
      audience_keeps_work target w.crm,
      send_error_clean audience (record w { crm = (resolve_audience target w.crm).1 }),
    )
    | inr (x, e) ↦ ground (arith, audience_keeps_work target w.crm)
  ]

  -- Where the body of publish raises, publish reports 0, leaves the tables that the CRM session
  -- sees as they were, and stages no realtime hint.
  pub publish_failure_clean :
      (w : World)
      → raises (publish_body cfg type target category channels payload dedupe_key w).0 ≡ true
      → let (r, w') = publish cfg type target category channels payload dedupe_key w in
        (r ≡ ok 0) × (w'.crm.work ≡ w.crm.work) × (w'.pending_realtime ≡ w.pending_realtime)
  unfolding publish
  publish_failure_clean w h = ground (arith, body_error_clean w h)
