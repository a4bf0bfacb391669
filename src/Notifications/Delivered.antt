-- ===== src/Notifications/Delivered.antt =====
-- Whom `publish` notifies in the application, where the CRM database works.
use mathlib.Core.List.{append-nil, append_assoc}
use news_board.Prelude.{
  ℕ, suc, String, ◌≡◌, refl, ap, ◌∙◌, sym, inl, inr, ◌⊎◌, Option, List, [], ◌∷◌, ◌++◌, filter,
  length, arith,
}
use news_board.Crm.{Payload, NotificationModel, CrmDb, CrmSession, roundtrip}
use news_board.Exec.{Result, ok}
use news_board.World.{World}
use news_board.Notifications.{
  Channel, inapp, email, NotificationCategory, transactional, informational, NotificationTarget,
  user_target, users_target, community_target,
}
use news_board.Notifications.Repository.{
  insert_notifications, insert_many, find_preferences, find_recipient_contacts, insert_outbound,
  find_community_recipient_ids, resolve_internal_user_id,
}
use news_board.Notifications.Service.{
  Config, Effective, wants, publish, publish_body, send_to, deliver, write_rows, enqueue_email,
  resolve_audience, effective_channels, new_rows, EmailRecipient, email_recipients,
}

-- the hint for the users, if there are any
abbrev hint : Option ℕ → List ℕ → List (List ℕ × Option ℕ)
hint community [] = []
hint community (u ∷ us) = (u ∷ us, community) ∷ []

-- the rows, with the ids that follow
abbrev numbered : ℕ → List NotificationModel → List NotificationModel
numbered next [] = []
numbered next (n ∷ ns) = record n { id = next } ∷ numbered (suc next) ns

List-cases : (xs : List ℕ) → (xs ≡ []) ⊎ ((y : ℕ) × (ys : List ℕ) × (xs ≡ y ∷ ys))
List-cases [] = inl refl
List-cases (x ∷ xs) = inr (x, xs, refl)

insert_notifications_lem :
    (ns : List NotificationModel) (d : CrmDb)
    → ((insert_notifications ns d).0 ≡ numbered d.next_notification ns)
      × ((insert_notifications ns d).1.notifications
          ≡ d.notifications ++ numbered d.next_notification ns)
insert_notifications_lem [] d = (refl, sym (append-nil d.notifications))
insert_notifications_lem (n ∷ ns) d =
    let row : NotificationModel = record n { id = d.next_notification } in
    let d' : CrmDb = record d {
      notifications = d.notifications ++ row ∷ [];
      next_notification = suc d.next_notification;
    } in
    let (rows, table) = insert_notifications_lem ns d' in
    (
      ap (λ xs. row ∷ xs) rows,
      table ∙ append_assoc d.notifications (row ∷ []) (numbered (suc d.next_notification) ns),
    )

insert_many_lem :
    (ns : List NotificationModel) (s : CrmSession)
    → s.faults ≡ []
    → ((insert_many ns s).0 ≡ ok (numbered s.work.next_notification ns))
      × ((insert_many ns s).1.work.notifications
          ≡ s.work.notifications ++ numbered s.work.next_notification ns)
      × ((insert_many ns s).1.faults ≡ [])
unfolding insert_many roundtrip
insert_many_lem [] s calm = (refl, sym (append-nil s.work.notifications), calm)
insert_many_lem (n ∷ ns) s calm = ground (arith, insert_notifications_lem (n ∷ ns) s.work)

length-numbered :
    (type : String) (payload : Payload) (community : Option ℕ) (ids : List ℕ) (next : ℕ)
    → length (numbered next (new_rows type payload community ids)) ≡ length ids
length-numbered type payload community [] next = refl
length-numbered type payload community (u ∷ us) next =
    ground (arith, length-numbered type payload community us (suc next))

module _ (cfg : Config) (type : String) (category : NotificationCategory) (payload : Payload)
    (dedupe_key : Option String) where
  enqueue_email_lem :
      (community : Option ℕ) (rs : List EmailRecipient) (s : CrmSession)
      → s.faults ≡ []
      → let (r, t) = enqueue_email cfg.digest type payload category community dedupe_key rs s in
        (r ≡ ok tt) × (t.work.notifications ≡ s.work.notifications)
  unfolding enqueue_email find_recipient_contacts insert_outbound roundtrip
  enqueue_email_lem community rs s calm = ground arith

resolve_audience_calm :
    (target : NotificationTarget) (s : CrmSession)
    → s.faults ≡ []
    → (resolve_audience target s).1 ≡ s
unfolding resolve_audience find_community_recipient_ids resolve_internal_user_id roundtrip
resolve_audience_calm (user_target u community) s calm = refl
resolve_audience_calm (users_target us community) s calm = refl
resolve_audience_calm (community_target c roles exclude) s calm = ground arith

effective_channels_calm :
    (type : String) (category : NotificationCategory) (channels : List Channel) (ids : List ℕ)
    (s : CrmSession)
    → s.faults ≡ []
    → (effective_channels type category channels ids s).1 ≡ s
unfolding effective_channels find_preferences roundtrip
effective_channels_calm type transactional channels ids s calm = refl
effective_channels_calm type informational channels [] s calm = ground arith
effective_channels_calm type informational channels (u ∷ us) s calm = ground arith

module _ (cfg : Config) (type : String) (target : NotificationTarget)
    (category : NotificationCategory) (channels : List Channel) (payload : Payload)
    (dedupe_key : Option String) (w : World) (calm : w.crm.faults ≡ []) where
  -- the rows of the users, behind those of the table
  abbrev Notified : Option ℕ → List ℕ → CrmSession → Type 0
  Notified community us s =
      s.work.notifications
      ≡ w.crm.work.notifications
        ++ numbered w.crm.work.next_notification (new_rows type payload community us)

  write_rows_lem :
      (community : Option ℕ) (us es : List ℕ)
      → let (r, s) =
          write_rows cfg type target category channels payload dedupe_key community us es w.crm in
        (r ≡ ok (length us)) × Notified community us s
  unfolding write_rows
  write_rows_lem community us [] =
      let rows = insert_many_lem (new_rows type payload community us) w.crm calm in
      let count = length-numbered type payload community us w.crm.work.next_notification in
      ground arith
  write_rows_lem community us (e ∷ es) =
      let rows = insert_many_lem (new_rows type payload community us) w.crm calm in
      let count = length-numbered type payload community us w.crm.work.next_notification in
      let mails =
        enqueue_email_lem cfg type category payload dedupe_key community
          (email_recipients
            (numbered w.crm.work.next_notification (new_rows type payload community us)) (e ∷ es))
          (insert_many (new_rows type payload community us) w.crm).1 rows.2 in
      ground arith

  -- the number, the rows and the hint
  abbrev Delivers : Option ℕ → List ℕ → Result ℕ × World → Type 0
  Delivers community us out =
      (out.0 ≡ ok (length us))
      × Notified community us out.1.crm
      × (out.1.pending_realtime ≡ w.pending_realtime ++ hint community us)

  deliver_lem :
      (community : Option ℕ) (ids : List ℕ) (effective : Effective)
      → Delivers community
          (filter (wants inapp effective) ids)
          (deliver cfg type target category channels payload dedupe_key ids community effective w)
  unfolding deliver
  deliver_lem community ids effective =
      let us = filter (wants inapp effective) ids in
      let es = filter (wants email effective) ids in
      let written = write_rows_lem community us es in
      elim (List-cases us) [
        | inl nobody ↦
            ground (arith, append-nil w.pending_realtime, append-nil w.crm.work.notifications)
        | inr (v, vs, somebody) ↦ ground arith
      ]

  send_to_lem :
      (community : Option ℕ) (ids : List ℕ) (effective : Effective)
      → (effective_channels type category channels ids w.crm).0 ≡ ok effective
      → Delivers community
          (filter (wants inapp effective) ids)
          (send_to cfg type target category channels payload dedupe_key (ids, community) w)
  unfolding send_to
  send_to_lem community [] effective h =
      (refl, sym (append-nil w.crm.work.notifications), sym (append-nil w.pending_realtime))
  send_to_lem community (u ∷ us) effective h =
      let same : send_to cfg type target category channels payload dedupe_key (u ∷ us, community) w
          ≡ deliver cfg type target category channels payload dedupe_key (u ∷ us) community
              effective w =
        ground (arith, effective_channels_calm type category channels (u ∷ us) w.crm calm) in
      rw same (deliver_lem community (u ∷ us) effective)

  -- Where no operation on the CRM database fails, the audience can be read, and so can the
  -- channels of each recipient, publish reports the number of the recipients for whom the
  -- in-app channel is used, writes one row for each of them, in order and with the ids that
  -- follow, behind the rows of the table, and stages one hint for them, or none where there are
  -- none.
  pub publish-Delivers :
      (community : Option ℕ) (ids : List ℕ) (effective : Effective)
      → (resolve_audience target w.crm).0 ≡ ok (ids, community)
      → (effective_channels type category channels ids w.crm).0 ≡ ok effective
      → Delivers community
          (filter (wants inapp effective) ids)
          (publish cfg type target category channels payload dedupe_key w)
  unfolding publish publish_body
  publish-Delivers community ids effective audience used =
      let sent = send_to_lem community ids effective used in
      let same : publish cfg type target category channels payload dedupe_key w
          ≡ send_to cfg type target category channels payload dedupe_key (ids, community) w =
        ground (arith, resolve_audience_calm target w.crm calm) in
      rw same sent
