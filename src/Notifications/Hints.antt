-- ===== src/Notifications/Hints.antt =====
-- The realtime hints of core/notifications/service.py: staged for recipients of the audience, and
-- flushed to their channels only.
use news_board.Prelude.{
  ℕ, String, Bool, ◌≡◌, refl, List, [], ◌∷◌, ◌++◌, All, filter, Option, some, arith, inl, inr, ◌⊎◌,
}
use news_board.Exec.{ok, Result-cases}
use news_board.Crm.{Payload}
use news_board.Realtime
use news_board.Realtime.Channels.{user_channel, users}
use news_board.Realtime.Sent.{Sends, Sends-refl, Sends-trans, emit_users-Sends}
use news_board.World.{World}
use news_board.Notifications.{Channel, inapp, NotificationCategory, NotificationTarget}
use news_board.Notifications.Service.{
  Config, Effective, wants, publish, publish_body, send_to, deliver, resolve_audience,
  effective_channels, flush_staged, flush_realtime,
}
use news_board.Notifications.Service.Savepoint.{emit_returns}

-- what is staged is for users of one kind
abbrev pub StagedFor : (ℕ → Type 0) → List (List ℕ × Option ℕ) → Type 0
StagedFor Q staged = All (λ (s : List ℕ × Option ℕ). All Q s.0) staged

module _ (Q : ℕ → Type 0) (P : String → Type 0) (to_channel : (u : ℕ) → Q u → P (user_channel u))
    (cfg : Realtime.Settings) where
  All-channels : (ids : List ℕ) → All Q ids → All (λ u. P (user_channel u)) ids
  All-channels [] h = tt
  All-channels (u ∷ us) h = (to_channel u h.0, All-channels us h.1)

  flush_staged-Sends :
      (staged : List (List ℕ × Option ℕ)) (w : World)
      → StagedFor Q staged
      → Sends P w.broker (flush_staged cfg staged w).1.broker
  unfolding flush_staged
  flush_staged-Sends [] w h = Sends-refl P w.broker
  flush_staged-Sends ((ids, community) ∷ rest) w (first, others) =
      let emitted =
        Realtime.emit cfg "notification.created" (users ids) ("notification", some "0") [] community
          w.broker in
      let x : World = record w { broker = emitted.1 } in
      let same : (flush_staged cfg ((ids, community) ∷ rest) w).1 ≡ (flush_staged cfg rest x).1 =
        ground (
          arith,
          emit_returns cfg "notification.created" (users ids) ("notification", some "0") []
              community w.broker,
        ) in
      rw same (
        Sends-trans P w.broker emitted.1 (flush_staged cfg rest x).1.broker
          (emit_users-Sends P cfg "notification.created" ids ("notification", some "0") [] community
            w.broker (All-channels ids first))
          (flush_staged-Sends rest x others))

  pub flush_realtime-Sends :
      (w : World)
      → StagedFor Q w.pending_realtime
      → Sends P w.broker (flush_realtime cfg w).1.broker
  unfolding flush_realtime
  flush_realtime-Sends w h =
      flush_staged-Sends w.pending_realtime (record w { pending_realtime = [] }) h

module _ (cfg : Config) (type : String) (target : NotificationTarget)
    (category : NotificationCategory) (channels : List Channel) (payload : Payload)
    (dedupe_key : Option String) where
  -- nothing is sent, and at most one hint is staged, for some of the recipients
  abbrev Stages : List ℕ → World → World → Type 0
  Stages ids w x =
      (x.broker ≡ w.broker)
      × ((x.pending_realtime ≡ w.pending_realtime)
          ⊎ ((c : Option ℕ) × (test : ℕ → Bool) × (x.pending_realtime
                ≡ w.pending_realtime ++ (filter test ids, c) ∷ [])))

  deliver-Stages :
      (ids : List ℕ) (community : Option ℕ) (effective : Effective) (w : World)
      → let x =
          (deliver cfg type target category channels payload dedupe_key ids community effective
            w).1 in
        Stages ids w x
  unfolding deliver
  deliver-Stages ids community effective w =
      let x =
        (deliver cfg type target category channels payload dedupe_key ids community effective
          w).1 in
      let split : (x.broker ≡ w.broker)
          × ((x.pending_realtime ≡ w.pending_realtime)
              ⊎ (x.pending_realtime
                  ≡ w.pending_realtime ++ (filter (wants inapp effective) ids, community) ∷ [])) =
        ground arith in
      elim split.1 [
        | inl same ↦ (split.0, inl same)
        | inr more ↦ (split.0, inr (community, wants inapp effective, more))
      ]

  send_to-Stages :
      (ids : List ℕ) (community : Option ℕ) (w : World)
      → Stages ids w
          (send_to cfg type target category channels payload dedupe_key (ids, community) w).1
  unfolding send_to
  send_to-Stages [] community w = (refl, inl refl)
  send_to-Stages (u ∷ us) community w =
      let s = effective_channels type category channels (u ∷ us) w.crm in
      elim (Result-cases s.0) [
        | inl (effective, e) ↦
            let same : (send_to cfg type target category channels payload dedupe_key
                  (u ∷ us, community) w).1
                ≡ (deliver cfg type target category channels payload dedupe_key (u ∷ us) community
                    effective (record w { crm = s.1 })).1 =
              ground arith in
            rw same (deliver-Stages (u ∷ us) community effective (record w { crm = s.1 }))
        | inr (x, e) ↦
            let same : (send_to cfg type target category channels payload dedupe_key
                  (u ∷ us, community) w).1
                ≡ record w { crm = s.1 } =
              ground arith in
            rw same (refl, inl refl)
      ]

  pub publish-Stages :
      (w : World)
      → let x = (publish cfg type target category channels payload dedupe_key w).1 in
        (x.broker ≡ w.broker)
        × ((x.pending_realtime ≡ w.pending_realtime)
            ⊎ ((ids : List ℕ) × (community : Option ℕ) × ((resolve_audience target w.crm).0
                  ≡ ok (ids, community))
                × (c : Option ℕ) × (test : ℕ → Bool) × (x.pending_realtime
                    ≡ w.pending_realtime ++ (filter test ids, c) ∷ [])))
  unfolding publish publish_body
  publish-Stages w =
      let a = resolve_audience target w.crm in
      elim (Result-cases a.0) [
        | inl ((ids, community), e) ↦
            let same : (publish cfg type target category channels payload dedupe_key w).1
                ≡ (send_to cfg type target category channels payload dedupe_key (ids, community)
                    (record w { crm = a.1 })).1 =
              ground arith in
            let (kept, staged) = send_to-Stages ids community (record w { crm = a.1 }) in
            rw same (elim staged [
              | inl none_ ↦ (kept, inl none_)
              | inr (c, test, more) ↦ (kept, inr (ids, community, e, c, test, more))
            ])
        | inr (x, e) ↦
            let same : (publish cfg type target category channels payload dedupe_key w).1
                ≡ record w { crm = a.1 } =
              ground arith in
            rw same (refl, inl refl)
      ]
