-- ===== src/Tests/Notices.antt =====
-- Notifications that are delivered, fail, are switched off, or are sent twice.
use news_board.Prelude.{
  String, ◌≡◌, refl, inl, inr, true, false, some, none, [], ◌∷◌, In, arith, eq_iff,
}
use news_board.Prelude.Keys.{Nodup, string_key}
use news_board.Exec.{ok, raises}
use news_board.Crm.{NotificationPreferenceModel, OutboundMessageModel, roundtrip}
use news_board.World.{World, request}
use news_board.Notifications.{inapp, email, informational, community_target, news_post_published}
use news_board.Notifications.Dedupe.{type_prefix_of}
use news_board.Notifications.Repository.{
  resolve_preferences, add_all_outbound, find_community_recipient_ids, recipients_in,
  find_preferences, take_rows,
}
use news_board.Notifications.Used.{effective_channels_mode}
use news_board.Notifications.Delivered.{publish-Delivers}
use news_board.Notifications.Outbound.{keys, insert_outbound_once}
use news_board.Notifications.Service.{
  wants, publish, publish_body, resolve_audience, effective_channels, apply_modes,
}
use news_board.Notifications.Service.Savepoint.{publish_failure_clean}
use news_board.Tests.Data.{tables, db, session, broker, config}

-- a world whose first query of the CRM database fails
abbrev broken : World
broken = request db (session (true ∷ [])) broker

fails :
    raises
      (publish_body config news_post_published
        (community_target 7 none none)
        informational
        (inapp ∷ [])
        []
        none
        broken).0
    ≡ true
unfolding publish_body resolve_audience find_community_recipient_ids roundtrip
fails = ground arith

publish_failure_clean_example :
    let (r, w) =
      publish config news_post_published
        (community_target 7 none none)
        informational
        (inapp ∷ [])
        []
        none
        broken in
    (r ≡ ok 0) × (w.crm.work ≡ broken.crm.work) × (w.pending_realtime ≡ [])
publish_failure_clean_example =
    publish_failure_clean config news_post_published (community_target 7 none none) informational
      (inapp ∷ []) [] none broken fails

-- the row that switches the in-app channel off for posts
abbrev off : NotificationPreferenceModel
off = record { id_user = 5; type_prefix = "news_post"; channel = 1; mode = 3 }

one_row :
    (r : NotificationPreferenceModel)
    → In r tables.preferences
    → r.id_user ≡ off.id_user
    → r.channel ≡ off.channel
    → r.type_prefix ≡ off.type_prefix
    → r.mode ≡ off.mode
one_row r (inl e) u c p = absurd (ground (arith, eq_iff "" "news_post"))
one_row r (inr (inl e)) u c p = ground arith
one_row r (inr (inr m)) u c p = absurd m

news_prefix : type_prefix_of news_post_published ≡ "news_post"
unfolding type_prefix_of
news_prefix = refl

muted :
    (effective_channels news_post_published informational
      (inapp ∷ email ∷ [])
      (5 ∷ [])
      (session [])).0
    ≡ ok ((5, email ∷ []) ∷ [])
unfolding effective_channels find_preferences resolve_preferences take_rows apply_modes roundtrip
    type_prefix_of
muted = ground arith

effective_channels_mode_example : wants inapp ((5, email ∷ []) ∷ []) 5 ≡ false
unfolding type_prefix_of
effective_channels_mode_example =
    effective_channels_mode news_post_published (inapp ∷ email ∷ []) (5 ∷ []) (session []) inapp off
      ((5, email ∷ []) ∷ []) (inr (inl refl)) refl refl refl one_row refl muted

-- the same tables, with everything at work
abbrev working : World
working = request db (session []) broker

audience : (resolve_audience (community_target 7 none none) working.crm).0 ≡ ok (5 ∷ 6 ∷ [], some 7)
unfolding resolve_audience find_community_recipient_ids recipients_in roundtrip
audience = ground arith

used :
    (effective_channels news_post_published informational
      (inapp ∷ email ∷ [])
      (5 ∷ 6 ∷ [])
      working.crm).0
    ≡ ok ((5, email ∷ []) ∷ (6, inapp ∷ email ∷ []) ∷ [])
unfolding effective_channels find_preferences resolve_preferences take_rows apply_modes roundtrip
    type_prefix_of
used = ground arith

publish-Delivers_example :
    let (r, w) =
      publish config news_post_published
        (community_target 7 none none)
        informational
        (inapp ∷ email ∷ [])
        []
        none
        working in
    (r ≡ ok 1)
    × (w.crm.work.notifications
        ≡ record {
          id = 1;
          id_community = some 7;
          id_user = 6;
          type = "news_post.published";
          payload = [];
          read_at = none;
        }
          ∷ [])
    × (w.pending_realtime ≡ (6 ∷ [], some 7) ∷ [])
publish-Delivers_example =
    publish-Delivers config news_post_published (community_target 7 none none) informational
      (inapp ∷ email ∷ []) [] none working refl (some 7) (5 ∷ 6 ∷ [])
      ((5, email ∷ []) ∷ (6, inapp ∷ email ∷ []) ∷ []) audience used

abbrev mail : String → OutboundMessageModel
mail key = record {
  id_notification = none;
  id_community = some 7;
  channel = 2;
  recipient = "bob@x";
  recipient_name = none;
  locale = "";
  type = "news_post.published";
  category = 2;
  payload = [];
  dedupe_key = key;
  status = 1;
  attempts = 0;
  last_error = none;
  claimed_at = none;
  sent_at = none;
}

insert_outbound_once_example :
    Nodup (keys (add_all_outbound (mail "a" ∷ []) (mail "a" ∷ mail "b" ∷ [])))
    × (add_all_outbound
          (add_all_outbound (mail "a" ∷ []) (mail "a" ∷ mail "b" ∷ []))
          (mail "a" ∷ mail "b" ∷ [])
        ≡ add_all_outbound (mail "a" ∷ []) (mail "a" ∷ mail "b" ∷ []))
insert_outbound_once_example =
    insert_outbound_once (mail "a" ∷ []) (mail "a" ∷ mail "b" ∷ []) (refl, tt)
