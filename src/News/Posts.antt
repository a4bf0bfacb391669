-- ===== src/News/Posts.antt =====
-- api/news/service.py: `create_post` and `delete_post`.
pub mod Stored
pub mod Asked
pub mod Polls
pub mod Created
use news_board.Prelude.{
  ℕ, zero, suc, ◌+◌, ◌-◌, ◌/◌, String, Bool, true, false, not, Option, none, some, List, [], ◌∷◌,
  map, length, ◌==◌, str_eq, ltb, leb, is_some, ◌&&◌, ◌||◌, if◌then◌else◌,
}
use news_board.Prelude.Keys.{contains, nat_key}
use news_board.Prelude.Decimal.{str_int}
use news_board.Errors.{error_exception, post_not_found, options_frozen, invalid_poll}
use news_board.Exec.{Result, ok, err, Exec, ◌>>=◌, ◌>>◌, or_raise, raise_if, lift, pure}
use news_board.Const.{
  PostType, post, is_poll, int_of_post_type, post_type_of_int, int_of_admin_visibility,
  int_of_member_visibility, int_of_member_display,
}
use news_board.Context.{Context, DateTime, naive, aware, ensure_aware}
use news_board.Local
use news_board.Local.{PostModel, PostPollModel, LocalSession}
use news_board.Local.Repository
use news_board.Local.Repository.{
  get_post_with_options, get_voter_votes, get_voted_post_ids, add_options, count_votes_for_post,
  save_post, assign_options,
}
use news_board.Crm
use news_board.Crm.{Value, null, int, bool, iso}
use news_board.Crm.Users.{email_of, get_emails_by_auth_ids}
use news_board.Audit.{AuditLogInput, post_created, post_updated, post_deleted, swallow}
use news_board.Notifications.{
  inapp, informational, community_target, news_post_published, news_poll_published,
}
use news_board.Notifications.Service.{Config, publish, flush_realtime}
use news_board.World.{World, on_local, on_crm}
use news_board.News.{poll_ended, current_voter, post_type_of, audit, entry_for}
use news_board.News.Schemas.{
  PollOptionInput, CreatePostRequest, UpdatePostRequest, PostDetail, PostListItem,
}
use news_board.News.Mappers.{to_post_detail, to_post_list_item}
use news_board.News.Posts.Polls.{validate_poll_payload, build_options, option_map, option_count}

-- `_validate_poll_payload` for a poll, no expiry for a post
abbrev pub expiry_of : Context → CreatePostRequest → Result (Option DateTime)
unfolding validate_poll_payload
expiry_of ctx req = elim (is_poll req.type) [
  | true ↦ validate_poll_payload ctx req
  | false ↦ ok none
]

-- `x if is_poll else None`
abbrev only_poll : {A : Type 0} → PostType → Option A → Option A
only_poll t x = elim (is_poll t) [ true ↦ x | false ↦ none ]

abbrev pub new_post :
    Context → CreatePostRequest → ℕ → String → Option String → Option DateTime → PostModel
new_post ctx req community author email expires = record {
  id = 0;
  id_community = community;
  author_id = author;
  author_email = email;
  type = int_of_post_type req.type;
  post = req.post;
  expires_at = expires;
  admin_visibility = only_poll req.type (option_map int_of_admin_visibility req.admin_visibility);
  member_visibility =
      only_poll req.type (option_map int_of_member_visibility req.member_visibility);
  member_display = only_poll req.type (option_map int_of_member_display req.member_display);
  created_at = ctx.now;
  updated_at = ctx.now;
}

-- the options of a poll, where the request has some
abbrev insert_poll_options :
    CreatePostRequest → PostModel → ℕ → Exec LocalSession (List PostPollModel)
insert_poll_options req row community s = elim (is_poll req.type) [
  | false ↦ (ok [], s)
  | true ↦ elim req.options [
    | none ↦ (ok [], s)
    | some [] ↦ (ok [], s)
    | some (o ∷ os) ↦ add_options (build_options (o ∷ os) row.id community) s
  ]
]

-- the part of `create_post` on the local session: the row, its options and the commit
unfoldable pub store_post : CreatePostRequest → PostModel → ℕ → Exec LocalSession PostModel
store_post req value community = do
  row ← Repository.create_post value
  insert_poll_options req row community
  Local.commit
  pure row

abbrev expiry_value : Option DateTime → Value
expiry_value none = null
expiry_value (some t) = iso t

-- `_notify_post_created`
unfoldable pub notify_post_created : Config → PostModel → Bool → ℕ → String → Exec World Unit
notify_post_created cfg row poll community author =
    publish cfg (if poll then news_poll_published else news_post_published)
      (community_target community none (some author)) informational (inapp ∷ [])
      (("post_id", int row.id) ∷ []) none
    >>= λ _. on_crm (swallow Crm.commit) >>= λ _. flush_realtime cfg.realtime

-- the entry of the audit trail
abbrev pub created_entry : CreatePostRequest → Option DateTime → PostModel → AuditLogInput
created_entry req expires row = entry_for post_created "post" (str_int row.id) (
    ("type", int (int_of_post_type req.type))
    ∷ ("is_poll", bool (is_poll req.type))
    ∷ ("option_count", int (option_count req.options))
    ∷ ("expires_at", expiry_value expires)
    ∷ [])

unfoldable pub create_post : Config → Context → CreatePostRequest → ℕ → String → Exec World ℕ
unfolding expiry_of
create_post cfg ctx req community author = do
  expires ← lift (expiry_of ctx req)
  emails ← on_crm (get_emails_by_auth_ids (author ∷ []))
  row ← on_local (
      store_post req (new_post ctx req community author (email_of emails author) expires) community)
  audit ctx (created_entry req expires row)
  notify_post_created cfg row (is_poll req.type) community author
  pure row.id

abbrev pub deleted_entry : ℕ → PostModel → AuditLogInput
deleted_entry post_id row =
    entry_for post_deleted "post" (str_int post_id) (("type", int row.type) ∷ [])

unfoldable pub delete_post : Context → ℕ → Exec World Unit
delete_post ctx post_id = do
  found ← on_local (Repository.get_post ctx post_id)
  row ← or_raise found (error_exception post_not_found 404)
  on_local (Repository.delete_post row)
  on_local Local.commit
  audit ctx (deleted_entry post_id row)
