-- ===== src/News/Updates.antt =====
-- api/news/service.py: `update_post`.
use news_board.Prelude.{
  ℕ, String, Bool, true, false, Option, none, some, List, [], ◌∷◌, length, ◌==◌, str_eq, ltb,
  is_some, ◌&&◌, if◌then◌else◌,
}
use news_board.Prelude.Keys.{nat_key}
use news_board.Prelude.Decimal.{str_int}
use news_board.Errors.{error_exception, post_not_found, options_frozen, invalid_poll}
use news_board.Exec.{ok, Exec, ◌>>=◌, ◌>>◌, or_raise, raise_if, pure}
use news_board.Const.{
  PostType, is_poll, int_of_admin_visibility, int_of_member_visibility, int_of_member_display,
}
use news_board.Context.{Context, DateTime, aware, ensure_aware}
use news_board.Local
use news_board.Local.{PostModel, PostPollModel, LocalSession}
use news_board.Local.Repository.{
  get_post_with_options, count_votes_for_post, save_post, assign_options,
}
use news_board.Crm.{bool}
use news_board.Audit.{AuditLogInput, post_updated}
use news_board.World.{World, on_local}
use news_board.News.{post_type_of, audit, entry_for}
use news_board.News.Schemas.{PollOptionInput, UpdatePostRequest, PostDetail}
use news_board.News.Reads.{get_post}
use news_board.News.Posts.Polls.{build_options, option_map}

abbrev or_kept : {A : Type 0} → Option A → Option A → Option A
or_kept none old = old
or_kept (some a) old = some a

abbrev same_text : Option String → String → Bool
same_text none t = true
same_text (some s) t = str_eq s t

abbrev pub same_int : Option ℕ → Option ℕ → Bool
same_int none none = true
same_int (some a) (some b) = a == b
same_int _ _ = false

abbrev pub same_time : Option DateTime → Option DateTime → Bool
same_time none none = true
same_time (some a) (some b) = ensure_aware a == ensure_aware b
same_time _ _ = false

-- the columns that the request sets
abbrev pub edited : UpdatePostRequest → PostType → PostModel → PostModel
edited req t p =
    let text : PostModel = record p { post = elim req.post [ none ↦ p.post | some s ↦ s ] } in
    elim (is_poll t) [
      | false ↦ text
      | true ↦ record text {
        expires_at = or_kept (option_map (λ x. aware (ensure_aware x)) req.expires_at) p.expires_at;
        admin_visibility =
            or_kept (option_map int_of_admin_visibility req.admin_visibility) p.admin_visibility;
        member_visibility =
            or_kept (option_map int_of_member_visibility req.member_visibility) p.member_visibility;
        member_display =
            or_kept (option_map int_of_member_display req.member_display) p.member_display;
      }
    ]

-- an UPDATE is sent, and `updated_at` set, only where a column changed
abbrev pub touched : Context → PostModel → PostModel → PostModel
touched ctx p q =
    if str_eq p.post q.post
      && same_time p.expires_at q.expires_at
      && same_int p.admin_visibility q.admin_visibility
      && same_int p.member_visibility q.member_visibility
      && same_int p.member_display q.member_display
    then p
    else record q { updated_at = ctx.now }

-- `_replace_options`
unfoldable pub replace_options :
    Context → PostModel → List PostPollModel → List PollOptionInput → Exec World Unit
replace_options ctx row old options = do
  raise_if (ltb (length options) 2) (error_exception invalid_poll 422)
  votes ← on_local (count_votes_for_post ctx row.id)
  raise_if (ltb 0 votes) (error_exception options_frozen 409)
  on_local (assign_options row.id old (build_options options row.id row.id_community))
  pure tt

abbrev replace_if_given :
    Context
    → PostModel
    → PostType
    → List PostPollModel
    → Option (List PollOptionInput)
    → Exec World Unit
unfolding replace_options
replace_if_given ctx row t old none w = (ok tt, w)
replace_if_given ctx row t old (some options) w = elim (is_poll t) [
  | true ↦ replace_options ctx row old options w
  | false ↦ (ok tt, w)
]

-- the entry of the audit trail
abbrev pub updated_entry : ℕ → UpdatePostRequest → AuditLogInput
updated_entry post_id req =
    entry_for post_updated "post" (str_int post_id)
      (("options_replaced", bool (is_some req.options)) ∷ [])

-- `update_post` up to and with its audit entry
unfoldable pub apply_update : Context → ℕ → UpdatePostRequest → Exec World Unit
unfolding replace_if_given
apply_update ctx post_id req = do
  found ← on_local (get_post_with_options ctx post_id)
  (row, options) ← or_raise found (error_exception post_not_found 404)
  post_type ← post_type_of row
  on_local (save_post (touched ctx row (edited req post_type row)))
  replace_if_given ctx row post_type options req.options
  on_local Local.commit
  audit ctx (updated_entry post_id req)

unfoldable pub update_post : Context → ℕ → UpdatePostRequest → Exec World PostDetail
unfolding apply_update get_post
update_post ctx post_id req = do apply_update ctx post_id req; get_post ctx post_id
