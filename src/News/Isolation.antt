-- ===== src/News/Isolation.antt =====
-- A community does not see the posts of another.
use news_board.Prelude.{ℕ, ◌≡◌, false, none, List, In, Option-cases, arith, inl, inr}
use news_board.Context.{Context}
use news_board.Errors.{error_exception, post_not_found}
use news_board.Exec.{err}
use news_board.Crm.{CrmSession}
use news_board.Realtime.{Broker}
use news_board.Local.{PostModel, Db}
use news_board.Local.Repository
use news_board.Local.Repository.{in_scope, find_post, with_community_scope, get_post_with_options}
use news_board.Local.Consistency.{IsConsistent}
use news_board.Local.Lookup.{find_post-In}
use news_board.World.{request}
use news_board.News.Schemas.{UpdatePostRequest}
use news_board.News.Reads
use news_board.News.Posts.{delete_post}
use news_board.News.Updates.{update_post, apply_update}
use news_board.News.Votes.{cast_vote, retract_vote}
use news_board.News.Results.{get_results}

find_post-none :
    (ctx : Context) (d : Db) (post : PostModel)
    → IsConsistent d
    → In post d.posts
    → in_scope ctx.internal_community_id post.id_community ≡ false
    → find_post ctx post.id d ≡ none
find_post-none ctx d post c there foreign = elim (Option-cases (find_post ctx post.id d)) [
  | inl none_ ↦ none_
  | inr (p, found) ↦
      let (m, same, here) = find_post-In ctx d post.id p found in
      let one : p ≡ post = c.post_unique p post m there same in ground (arith, here, one)
]

module _ (ctx : Context) (d : Db) (crm : CrmSession) (broker : Broker) (post : PostModel)
    (req : UpdatePostRequest) (ids : List ℕ) (c : IsConsistent d) (there : In post d.posts)
    (foreign : in_scope ctx.internal_community_id post.id_community ≡ false) where
  -- In a consistent database, for a request that is not in the community of a stored post,
  -- get_post, get_results, update_post, delete_post, cast_vote and retract_vote on that post
  -- raise POST_NOT_FOUND with status 404, and the four that write leave the committed database
  -- as it was.
  pub foreign_post_not_found :
      let w = request d crm broker in
      ((Reads.get_post ctx post.id w).0 ≡ err (error_exception post_not_found 404))
      × ((get_results ctx post.id w).0 ≡ err (error_exception post_not_found 404))
      × ((update_post ctx post.id req w).0 ≡ err (error_exception post_not_found 404))
      × ((update_post ctx post.id req w).1.local.saved ≡ d)
      × ((delete_post ctx post.id w).0 ≡ err (error_exception post_not_found 404))
      × ((delete_post ctx post.id w).1.local.saved ≡ d)
      × ((cast_vote ctx post.id ids w).0 ≡ err (error_exception post_not_found 404))
      × ((cast_vote ctx post.id ids w).1.local.saved ≡ d)
      × ((retract_vote ctx post.id w).0 ≡ err (error_exception post_not_found 404))
      × ((retract_vote ctx post.id w).1.local.saved ≡ d)
  unfolding Reads.get_post get_results update_post apply_update delete_post cast_vote retract_vote
      get_post_with_options Repository.get_post
  foreign_post_not_found =
      let hidden = find_post-none ctx d post c there foreign in
      (
        ground (arith, hidden),
        ground (arith, hidden),
        ground (arith, hidden),
        ground (arith, hidden),
        ground (arith, hidden),
        ground (arith, hidden),
        ground (arith, hidden),
        ground (arith, hidden),
        ground (arith, hidden),
        ground (arith, hidden),
      )
