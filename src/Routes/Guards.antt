-- ===== src/Routes/Guards.antt =====
-- What stands before the handlers of the routes.
use news_board.Prelude.{ℕ, ◌≡◌, ◌∙◌, inl, inr, true, false, none, some, List, arith}
use news_board.Exec.{ok, Exec, raises, Result-cases}
use news_board.Const.{feature_news}
use news_board.Context.{Context}
use news_board.Crm.{CrmDb, roundtrip}
use news_board.Security.{manager}
use news_board.Security.Dependencies.{
  require_min_role, ensure_active_subscription, find_subscription, is_subscribed,
}
use news_board.Security.Scope.{resolve_internal_community, find_community, set_internal}
use news_board.World.{World}
use news_board.News.Results.{is_privileged}
use news_board.News.Schemas.{CreatePostRequest, UpdatePostRequest}
use news_board.Notifications.Service.{Config}
use news_board.Routes.{news_board_manager, news_board_member}
use news_board.Routes

-- The call raises, and the session of the local database is as it was.
abbrev pub Refuses : {A : Type 0} → Exec World A → World → Type 0
Refuses m w = (raises (m w).0 ≡ true) × ((m w).1.local ≡ w.local)

min_role_privileged :
    (ctx : Context) → is_privileged ctx ≡ false → raises (require_min_role manager ctx) ≡ true
unfolding require_min_role is_privileged
min_role_privileged ctx h = ground arith

-- the context after the community is resolved against the tables `d`
abbrev pub resolved : Context → CrmDb → Context
resolved ctx d = elim ctx.community_id [
  | none ↦ ctx
  | some auth_id ↦ elim ctx.internal_community_id [
    | some cached ↦ ctx
    | none ↦ set_internal ctx (find_community auth_id d)
  ]
]

member_keeps_local : (ctx : Context) (w : World) → (news_board_member ctx w).1.local ≡ w.local
unfolding news_board_member ensure_active_subscription resolve_internal_community roundtrip
member_keeps_local ctx w = ground arith

member_role :
    (ctx ctx' : Context) (w : World)
    → (news_board_member ctx w).0 ≡ ok ctx'
    → is_privileged ctx' ≡ is_privileged ctx
unfolding news_board_member ensure_active_subscription resolve_internal_community roundtrip
    is_privileged
member_role ctx ctx' w h = ground arith

news_board_manager-Refuses :
    (ctx : Context) (w : World) → is_privileged ctx ≡ false → Refuses (news_board_manager ctx) w
unfolding news_board_manager
news_board_manager-Refuses ctx w h = elim (Result-cases (news_board_member ctx w).0) [
  | inl (scoped, e) ↦
      ground (
        arith,
        member_keeps_local ctx w,
        min_role_privileged scoped (member_role ctx scoped w e ∙ h),
      )
  | inr (x, e) ↦ ground (arith, member_keeps_local ctx w)
]

news_board_member-Refuses :
    (ctx : Context) (w : World)
    → is_subscribed (find_subscription (resolved ctx w.crm.work) feature_news w.crm.work) ≡ false
    → Refuses (news_board_member ctx) w
unfolding news_board_member ensure_active_subscription resolve_internal_community roundtrip
news_board_member-Refuses ctx w h = ground arith

-- For a caller who is neither MANAGER nor ADMIN in the active community, the routes that create,
-- edit and delete posts raise and leave the session of the local database as it was.
pub writes_need_manager :
    (cfg : Config) (ctx : Context) (w : World)
    → is_privileged ctx ≡ false
    → ((body : CreatePostRequest) → Refuses (Routes.create_post cfg ctx body) w)
      × ((post_id : ℕ) (body : UpdatePostRequest) → Refuses (Routes.update_post ctx post_id body) w)
      × ((post_id : ℕ) → Refuses (Routes.delete_post ctx post_id) w)
unfolding Routes.create_post Routes.update_post Routes.delete_post
writes_need_manager cfg ctx w h =
    let refused = news_board_manager-Refuses ctx w h in
    (λ body. ground arith, λ post_id body. ground arith, λ post_id. ground arith)

manager_of_member :
    (ctx : Context) (w : World)
    → Refuses (news_board_member ctx) w
    → Refuses (news_board_manager ctx) w
unfolding news_board_manager
manager_of_member ctx w h = ground arith

-- Where the community of the request has no active subscription to the news board, each of the
-- eight routes raises for any role and leaves the session of the local database as it was.
pub routes_need_subscription :
    (cfg : Config) (ctx : Context) (w : World)
    → is_subscribed (find_subscription (resolved ctx w.crm.work) feature_news w.crm.work) ≡ false
    → ((body : CreatePostRequest) → Refuses (Routes.create_post cfg ctx body) w)
      × ((page page_size : ℕ) → Refuses (Routes.list_posts ctx page page_size) w)
      × ((post_id : ℕ) → Refuses (Routes.get_post ctx post_id) w)
      × ((post_id : ℕ) (body : UpdatePostRequest) → Refuses (Routes.update_post ctx post_id body) w)
      × ((post_id : ℕ) → Refuses (Routes.delete_post ctx post_id) w)
      × ((post_id : ℕ) (ids : List ℕ) → Refuses (Routes.cast_vote ctx post_id ids) w)
      × ((post_id : ℕ) → Refuses (Routes.retract_vote ctx post_id) w)
      × ((post_id : ℕ) → Refuses (Routes.get_results ctx post_id) w)
unfolding Routes.create_post Routes.list_posts Routes.get_post Routes.update_post Routes.delete_post
    Routes.cast_vote Routes.retract_vote Routes.get_results
routes_need_subscription cfg ctx w h =
    let closed = news_board_member-Refuses ctx w h in
    let managed = manager_of_member ctx w closed in
    (
      λ body. ground arith,
      λ page page_size. ground arith,
      λ post_id. ground arith,
      λ post_id body. ground arith,
      λ post_id. ground arith,
      λ post_id ids. ground arith,
      λ post_id. ground arith,
      λ post_id. ground arith,
    )
