-- ===== src/Notifications/Service.antt =====
-- core/notifications/service.py: fan a notification out, and release the realtime hints afterwards.
pub mod Savepoint
use news_board.Prelude.{
  ℕ, String, Bool, true, false, not, ◌&&◌, ◌||◌, Option, none, some, List, [], ◌∷◌, ◌++◌, map,
  filter, length, ◌==◌, any, find, truthy, if◌then◌else◌,
}
use news_board.Prelude.Keys.{contains, fromkeys, nat_key}
use news_board.Prelude.Text.{strip, has_char}
use news_board.Errors.{unexpected}
use news_board.Exec.{Result, ok, err, Exec, ◌>>=◌, ◌>>◌, pure, lift}
use news_board.Crm.{Payload, NotificationModel, OutboundMessageModel, CrmSession, begin_nested}
use news_board.Realtime
use news_board.Realtime.Channels.{users}
use news_board.World.{World, on_crm, on_broker}
use news_board.Notifications.{
  Channel, inapp, email, channel_code, channel_of_code, same_channel, NotificationCategory,
  transactional, informational, category_code, NotificationTarget, user_target, users_target,
  community_target,
}
use news_board.Notifications.Dedupe.{Digest, build_dedupe_key, type_prefix_of}
use news_board.Notifications.Repository.{
  Modes, RecipientContact, resolve_internal_user_id, find_community_recipient_ids, insert_many,
  find_preferences, find_recipient_contacts, insert_outbound,
}

-- What the deployment and the standard library fix for a producer.
pub record Config : Type 0 where
  pub realtime : Realtime.Settings
  pub digest : Digest

-- `exclude_auth_user_id` looked up, if it is not empty
abbrev excluded_id : Option String → Exec CrmSession (Option ℕ)
excluded_id none s = (ok none, s)
excluded_id (some u) s = elim (truthy (some u)) [
  | true ↦ resolve_internal_user_id u s
  | false ↦ (ok none, s)
]

-- `_resolve_audience`: the recipients and the community
unfoldable pub resolve_audience : NotificationTarget → Exec CrmSession (List ℕ × Option ℕ)
unfolding fromkeys
resolve_audience (user_target user_id community_id) = pure (user_id ∷ [], community_id)
resolve_audience (users_target user_ids community_id) = pure (fromkeys user_ids, community_id)
resolve_audience (community_target community_id roles exclude) = do
  exclude_user_id ← excluded_id exclude
  recipients ← find_community_recipient_ids community_id exclude_user_id roles
  pure (recipients, some community_id)

-- `effective`: the channels of each recipient
abbrev pub Effective : Type 0
Effective = List (ℕ × List Channel)

abbrev pub default_channels : List Channel → List ℕ → Effective
default_channels requested [] = []
default_channels requested (u ∷ us) = (u, requested) ∷ default_channels requested us

-- `effective.get(uid, none)`
abbrev pub channels_of : ℕ → Effective → List Channel
channels_of u [] = []
channels_of u ((j, cs) ∷ e) = if u == j then cs else channels_of u e

-- `effective[user_id] - {channel}`, where the user is a key
abbrev pub mute : ℕ → Channel → Effective → Effective
mute u c [] = []
mute u c ((j, cs) ∷ e) =
    (j, if u == j then filter (λ x. not (same_channel c x)) cs else cs) ∷ mute u c e

abbrev pub has_user : ℕ → Effective → Bool
has_user u = any (λ (e : ℕ × List Channel). u == e.0)

-- The loop over the modes: only OFF (3) changes anything, and `Channel(channel)` may raise.
unfoldable pub apply_modes : Modes → Effective → Result Effective
apply_modes [] effective = ok effective
apply_modes (((u, channel), mode) ∷ modes) effective =
    let muted = λ (c : Channel). apply_modes modes (mute u c effective) in
    let rest = apply_modes modes effective in
    elim (not (mode == 3) || not (has_user u effective)) [
      | true ↦ rest
      | false ↦ elim (channel_of_code channel) [ none ↦ err unexpected | some c ↦ muted c ]
    ]

-- `_effective_channels`
unfoldable pub effective_channels :
    String → NotificationCategory → List Channel → List ℕ → Exec CrmSession Effective
unfolding apply_modes
effective_channels type transactional requested recipient_ids =
    pure (default_channels requested recipient_ids)
effective_channels type informational requested recipient_ids = do
  modes ← find_preferences recipient_ids (type_prefix_of type)
  lift (apply_modes modes (default_channels requested recipient_ids))

abbrev pub wants : Channel → Effective → ℕ → Bool
wants c effective uid = any (same_channel c) (channels_of uid effective)

-- `EmailRecipient`
pub record EmailRecipient : Type 0 where
  pub id_user : ℕ
  pub id_notification : Option ℕ

-- an address with a line break, or none, is rejected
abbrev pub unusable : String → Bool
unusable address = not (truthy (some address)) || has_char 13 address || has_char 10 address

abbrev locale_or_empty : Option String → String
locale_or_empty none = ""
locale_or_empty (some l) = l

abbrev name_or_none : Option String → Option String
name_or_none none = none
name_or_none (some n) = if truthy (some n) then some n else none

module _ (g : Digest) (type : String) (payload : Payload) (category : NotificationCategory)
    (id_community : Option ℕ) (dedupe_key : Option String) where
  -- the columns from `status` on have the defaults of the table
  abbrev outbound_row : EmailRecipient → RecipientContact → OutboundMessageModel
  unfolding build_dedupe_key strip
  outbound_row recipient contact = record {
    id_notification = recipient.id_notification;
    id_community = id_community;
    channel = channel_code email;
    recipient = strip contact.email;
    recipient_name = name_or_none contact.display_name;
    locale = locale_or_empty contact.locale;
    type = type;
    category = category_code category;
    payload = payload;
    dedupe_key =
        build_dedupe_key g (channel_code email) type payload (some recipient.id_user) none
          dedupe_key;
    status = 1;
    attempts = 0;
    last_error = none;
    claimed_at = none;
    sent_at = none;
  }

  -- the loop over the recipients: no contact and an unusable address are skipped
  unfoldable pub outbound_rows :
      List RecipientContact → List EmailRecipient → List OutboundMessageModel
  unfolding outbound_row strip
  outbound_rows contacts [] = []
  outbound_rows contacts (r ∷ rs) =
      let rest = outbound_rows contacts rs in
      elim (find (λ (c : RecipientContact). c.id_user == r.id_user) contacts) [
        | none ↦ rest
        | some contact ↦
            if unusable (strip contact.email) then rest else outbound_row r contact ∷ rest
      ]

  -- `_enqueue_email`
  unfoldable pub enqueue_email : List EmailRecipient → Exec CrmSession Unit
  unfolding outbound_rows
  enqueue_email recipients = do
    contacts ← find_recipient_contacts (map (λ (r : EmailRecipient). r.id_user) recipients)
    insert_outbound (outbound_rows contacts recipients)

abbrev pub new_rows : String → Payload → Option ℕ → List ℕ → List NotificationModel
new_rows type payload community_id [] = []
new_rows type payload community_id (u ∷ us) =
    record {
      id = 0;
      id_community = community_id;
      id_user = u;
      type = type;
      payload = payload;
      read_at = none;
    }
    ∷ new_rows type payload community_id us

-- `notification_ids.get(user_id)`
abbrev notification_id : List NotificationModel → ℕ → Option ℕ
notification_id rows u = elim (find (λ (n : NotificationModel). n.id_user == u) rows) [
  | none ↦ none
  | some n ↦ some n.id
]

abbrev pub email_recipients : List NotificationModel → List ℕ → List EmailRecipient
email_recipients rows [] = []
email_recipients rows (u ∷ us) =
    record { id_user = u; id_notification = notification_id rows u } ∷ email_recipients rows us

module _ (cfg : Config) (type : String) (target : NotificationTarget)
    (category : NotificationCategory) (channels : List Channel) (payload : Payload)
    (dedupe_key : Option String) where
  -- what the savepoint encloses
  unfoldable pub write_rows : Option ℕ → List ℕ → List ℕ → Exec CrmSession ℕ
  unfolding enqueue_email
  write_rows community_id inapp_ids email_ids = do
    rows ← insert_many (new_rows type payload community_id inapp_ids)
    elim email_ids [
      | [] ↦ pure tt
      | e ∷ es ↦
          enqueue_email cfg.digest type payload category community_id dedupe_key
            (email_recipients rows (e ∷ es))
    ]
    pure (length rows)

  -- the hint, staged where there are in-app rows
  abbrev stage : List ℕ → Option ℕ → Exec World Unit
  stage [] community_id w = (ok tt, w)
  stage (u ∷ us) community_id w =
      (ok tt, record w { pending_realtime = w.pending_realtime ++ (u ∷ us, community_id) ∷ [] })

  unfoldable pub deliver : List ℕ → Option ℕ → Effective → Exec World ℕ
  deliver recipient_ids community_id effective =
      let inapp_ids = filter (wants inapp effective) recipient_ids in
      let email_ids = filter (wants email effective) recipient_ids in
      elim (length inapp_ids == 0 && length email_ids == 0) [
        | true ↦ pure 0
        | false ↦ do
          count ← on_crm (begin_nested (write_rows community_id inapp_ids email_ids))
          stage inapp_ids community_id
          pure count
      ]

  -- an empty audience ends the call
  unfoldable pub send_to : List ℕ × Option ℕ → Exec World ℕ
  send_to ([], community_id) = pure 0
  send_to (u ∷ us, community_id) = do
    effective ← on_crm (effective_channels type category channels (u ∷ us))
    deliver (u ∷ us) community_id effective

  unfoldable pub publish_body : Exec World ℕ
  publish_body = do audience ← on_crm (resolve_audience target); send_to audience

  -- `publish`: no exception leaves it
  unfoldable pub publish : Exec World ℕ
  publish w = let (r, w') = publish_body w in elim r [ ok n ↦ (ok n, w') | err e ↦ (ok 0, w') ]

unfoldable pub flush_staged : Realtime.Settings → List (List ℕ × Option ℕ) → Exec World Unit
flush_staged cfg [] w = (ok tt, w)
flush_staged cfg ((user_ids, community_id) ∷ rest) w =
    (on_broker (
          Realtime.emit cfg "notification.created" (users user_ids) ("notification", some "0") []
            community_id)
        >> flush_staged cfg rest)
      w

-- `flush_realtime`: what is staged is taken first
unfoldable pub flush_realtime : Realtime.Settings → Exec World Unit
flush_realtime cfg w = flush_staged cfg w.pending_realtime (record w { pending_realtime = [] })
