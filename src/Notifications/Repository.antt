-- ===== src/Notifications/Repository.antt =====
-- core/notifications/repository.py: membership, preferences and the two outgoing tables.
use Prim.Native.String.{◌++◌ as append}
use news_board.Prelude.{
  ℕ, suc, String, Bool, true, false, not, ◌&&◌, ◌||◌, Option, none, some, List, [], ◌∷◌, ◌++◌, map,
  any, filter, find, ◌==◌, str_eq, truthy, is_some, if◌then◌else◌,
}
use news_board.Prelude.Keys.{contains, nat_key, string_key}
use news_board.Prelude.Text.{strip}
use news_board.Exec.{ok, Exec, ◌>>=◌, ◌>>◌, modify}
use news_board.Crm.{
  AppUserModel, CommunityUserModel, NotificationModel, OutboundMessageModel,
  NotificationPreferenceModel, CrmDb, CrmSession, roundtrip, query,
}

abbrev pub user_id_of : String → CrmDb → Option ℕ
user_id_of auth_user_id d =
    elim (find (λ (u : AppUserModel). str_eq u.auth_user_id auth_user_id) d.users) [
      | none ↦ none
      | some u ↦ some u.id
    ]

unfoldable pub resolve_internal_user_id : String → Exec CrmSession (Option ℕ)
resolve_internal_user_id auth_user_id = query (user_id_of auth_user_id)

abbrev pub not_excluded : Option ℕ → CommunityUserModel → Bool
not_excluded none m = true
not_excluded (some u) m = not (m.id_user == u)

-- `if roles:` an empty list narrows nothing
abbrev pub has_role : Option (List String) → CommunityUserModel → Bool
has_role none m = true
has_role (some []) m = true
has_role (some (r ∷ rs)) m = contains (r ∷ rs) m.role

unfoldable pub recipients_in : ℕ → Option ℕ → Option (List String) → CrmDb → List ℕ
recipients_in community_id exclude roles d =
    map (λ (m : CommunityUserModel). m.id_user)
      (filter
        (λ (m : CommunityUserModel).
          m.id_community == community_id && not_excluded exclude m && has_role roles m)
        d.members)

unfoldable pub find_community_recipient_ids :
    ℕ → Option ℕ → Option (List String) → Exec CrmSession (List ℕ)
find_community_recipient_ids community_id exclude roles =
    query (recipients_in community_id exclude roles)

abbrev pub insert_notifications : List NotificationModel → CrmDb → List NotificationModel × CrmDb
insert_notifications [] d = ([], d)
insert_notifications (n ∷ ns) d =
    let row : NotificationModel = record n { id = d.next_notification } in
    let (rows, e) = insert_notifications ns (record d {
      notifications = d.notifications ++ row ∷ [];
      next_notification = suc d.next_notification;
    }) in
    (row ∷ rows, e)

-- The rows, with the ids that the flush gave them.
unfoldable pub insert_many : List NotificationModel → Exec CrmSession (List NotificationModel)
insert_many [] s = (ok [], s)
insert_many (n ∷ ns) s =
    (roundtrip >>= λ _ t.
    let (rows, d) = insert_notifications (n ∷ ns) t.work in (ok rows, record t { work = d }))
      s

-- `resolved`: the effective mode by (user, channel)
abbrev pub Modes : Type 0
Modes = List ((ℕ × ℕ) × ℕ)

abbrev pub same_key : ℕ × ℕ → ℕ × ℕ → Bool
same_key (u, c) (x, y) = u == x && c == y

abbrev pub mode_of : ℕ × ℕ → Modes → Option ℕ
mode_of key [] = none
mode_of key ((k, m) ∷ ms) = if same_key key k then some m else mode_of key ms

abbrev pub put_mode : ℕ × ℕ → ℕ → Modes → Modes
put_mode key mode [] = (key, mode) ∷ []
put_mode key mode ((k, m) ∷ ms) =
    if same_key key k then (k, mode) ∷ ms else (k, m) ∷ put_mode key mode ms

-- one row of the loop: a specific prefix always wins
abbrev pub take_row : Modes → NotificationPreferenceModel → Modes
take_row resolved row =
    if not (str_eq row.type_prefix "")
      || not (is_some (mode_of (row.id_user, row.channel) resolved))
    then put_mode (row.id_user, row.channel) row.mode resolved
    else resolved

unfoldable pub take_rows : Modes → List NotificationPreferenceModel → Modes
take_rows resolved [] = resolved
take_rows resolved (row ∷ rows) = take_rows (take_row resolved row) rows

abbrev pub applies : List ℕ → String → NotificationPreferenceModel → Bool
applies user_ids type_prefix row =
    contains user_ids row.id_user
    && (str_eq row.type_prefix "" || str_eq row.type_prefix type_prefix)

unfoldable pub resolve_preferences : List ℕ → String → CrmDb → Modes
unfolding take_rows
resolve_preferences user_ids type_prefix d =
    take_rows [] (filter (applies user_ids type_prefix) d.preferences)

unfoldable pub find_preferences : List ℕ → String → Exec CrmSession Modes
find_preferences [] type_prefix s = (ok [], s)
find_preferences (u ∷ us) type_prefix s = query (resolve_preferences (u ∷ us) type_prefix) s

-- `RecipientContact`
pub record RecipientContact : Type 0 where
  pub id_user : ℕ
  pub email : String
  pub locale : Option String
  pub display_name : Option String

abbrev named : Option String → Bool
unfolding strip
named none = false
named (some s) = truthy (some s) && truthy (some (strip s))

abbrev join_names : Option String → Option String → Option String
unfolding named
join_names none none = none
join_names none (some l) = if named (some l) then some l else none
join_names (some f) none = if named (some f) then some f else none
join_names (some f) (some l) =
    if named (some f)
    then if named (some l) then some (append f (append " " l)) else some f
    else if named (some l)
    then some l
    else none

unfoldable pub contact_of : AppUserModel → RecipientContact
unfolding join_names
contact_of u = record {
  id_user = u.id;
  email = u.email;
  locale = u.locale;
  display_name = join_names u.first_name u.last_name;
}

unfoldable pub find_recipient_contacts : List ℕ → Exec CrmSession (List RecipientContact)
unfolding contact_of
find_recipient_contacts [] s = (ok [], s)
find_recipient_contacts (i ∷ is) s =
    query (λ d. map contact_of (filter (λ (u : AppUserModel). contains (i ∷ is) u.id) d.users)) s

-- ON CONFLICT (dedupe_key) DO NOTHING
abbrev pub add_outbound :
    List OutboundMessageModel → OutboundMessageModel → List OutboundMessageModel
add_outbound queue row =
    if any (λ (m : OutboundMessageModel). str_eq m.dedupe_key row.dedupe_key) queue
    then queue
    else queue ++ row ∷ []

unfoldable pub add_all_outbound :
    List OutboundMessageModel → List OutboundMessageModel → List OutboundMessageModel
add_all_outbound queue [] = queue
add_all_outbound queue (row ∷ rows) = add_all_outbound (add_outbound queue row) rows

unfoldable pub insert_outbound : List OutboundMessageModel → Exec CrmSession Unit
unfolding add_all_outbound
insert_outbound [] s = (ok tt, s)
insert_outbound (r ∷ rs) s =
    (roundtrip
        >> modify (λ t. record t {
          work = record t.work { outbound = add_all_outbound t.work.outbound (r ∷ rs) };
        }))
      s
