-- ===== src/Routes.antt =====
-- api/news/routes.py and core/errors/with_default_error.py: the eight routes, with what each requires
-- before its handler runs.
pub mod Guards
pub mod Serve
pub mod Reachable
use news_board.Prelude.{ℕ, String, Bool, true, false, Option, none, some, List, leb, ◌&&◌, truthy}
use news_board.Errors.{Error, Exception, error_exception, unexpected, bad_request, unauthorized}
use news_board.Errors.Default
use news_board.Exec.{Result, ok, err, Exec, ◌>>=◌, ◌>>◌, lift, raise}
use news_board.Const.{feature_news}
use news_board.Context.{Context}
use news_board.Security.{Role, manager}
use news_board.Security.Dependencies.{require_min_role, ensure_active_subscription}
use news_board.Security.Scope.{resolve_internal_community}
use news_board.Notifications.Service.{Config}
use news_board.World.{World, on_crm}
use news_board.News.Schemas.{
  CreatePostRequest, UpdatePostRequest, PostListItem, PostDetail, PollResults,
}
use news_board.News.Posts
use news_board.News.Reads
use news_board.News.Reads.{Pagination}
use news_board.News.Updates
use news_board.News.Votes
use news_board.News.Results

-- `with_default_error`: any other exception becomes the route's own error
abbrev promote : Error → Exception → Exception
promote default (error_exception e status) = error_exception e status
promote default unexpected = bad_request default

unfoldable pub with_default_error : {A : Type 0} → Error → Exec World A → Exec World A
with_default_error default m w =
    let (r, w') = m w in elim r [ ok a ↦ (ok a, w') | err e ↦ (err (promote default e), w') ]

-- the router's dependencies: the community, then the subscription
unfoldable pub news_board_member : Context → Exec World Context
news_board_member ctx = do
  scoped ← on_crm (resolve_internal_community ctx)
  on_crm (ensure_active_subscription scoped feature_news)
  lift (ok scoped)

-- `_manager_only`, after the router's dependencies
unfoldable pub news_board_manager : Context → Exec World Context
news_board_manager ctx = do
  scoped ← news_board_member ctx
  lift (require_min_role manager scoped)
  lift (ok scoped)

-- the author and the community that the handler of POST /posts takes from the context
abbrev pub create_in :
    Config → Context → CreatePostRequest → Option ℕ → Option String → Exec World ℕ
create_in cfg ctx body (some community) (some author) = elim (truthy (some author)) [
  | true ↦ Posts.create_post cfg ctx body community author
  | false ↦ raise (error_exception unauthorized 401)
]
create_in cfg ctx body _ _ = raise (error_exception unauthorized 401)

-- POST /posts
unfoldable pub create_post : Config → Context → CreatePostRequest → Exec World ℕ
create_post cfg ctx body = do
  scoped ← news_board_manager ctx
  with_default_error Default.create_post
      (create_in cfg scoped body scoped.internal_community_id scoped.user_id)

-- GET /posts
unfoldable pub list_posts : Context → ℕ → ℕ → Exec World (List PostListItem × Pagination)
list_posts ctx page page_size = do
  scoped ← news_board_member ctx
  with_default_error Default.get_posts (Reads.list_posts scoped page page_size)

-- the bounds of the query parameters: `ge=1`, and `le=100` for the size
abbrev pub accepts_page : ℕ → ℕ → Bool
accepts_page page page_size = leb 1 page && leb 1 page_size && leb page_size 100

-- GET /posts/{id}
unfoldable pub get_post : Context → ℕ → Exec World PostDetail
get_post ctx post_id = do
  scoped ← news_board_member ctx
  with_default_error Default.get_post (Reads.get_post scoped post_id)

-- PATCH /posts/{id}
unfoldable pub update_post : Context → ℕ → UpdatePostRequest → Exec World PostDetail
update_post ctx post_id body = do
  scoped ← news_board_manager ctx
  with_default_error Default.update_post (Updates.update_post scoped post_id body)

-- DELETE /posts/{id}
unfoldable pub delete_post : Context → ℕ → Exec World Unit
delete_post ctx post_id = do
  scoped ← news_board_manager ctx
  with_default_error Default.delete_post (Posts.delete_post scoped post_id)

-- POST /posts/{id}/votes
unfoldable pub cast_vote : Context → ℕ → List ℕ → Exec World Unit
cast_vote ctx post_id option_ids = do
  scoped ← news_board_member ctx
  with_default_error Default.cast_vote (Votes.cast_vote scoped post_id option_ids)

-- DELETE /posts/{id}/votes
unfoldable pub retract_vote : Context → ℕ → Exec World Unit
retract_vote ctx post_id = do
  scoped ← news_board_member ctx
  with_default_error Default.cast_vote (Votes.retract_vote scoped post_id)

-- GET /posts/{id}/results
unfoldable pub get_results : Context → ℕ → Exec World PollResults
get_results ctx post_id = do
  scoped ← news_board_member ctx
  with_default_error Default.get_results (Results.get_results scoped post_id)
