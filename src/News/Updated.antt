-- ===== src/News/Updated.antt =====
-- When `update_post` refuses to replace the options of a poll.
use news_board.Prelude.{ℕ, ◌==◌, ◌<◌, ◌≤◌, ◌≡◌, true, some, List, length, filter, arith}
use news_board.Context.{Context}
use news_board.Const.{PostType, is_poll, post_type_of_int}
use news_board.Errors.{error_exception, invalid_poll, options_frozen}
use news_board.Exec.{err}
use news_board.Local.{PostModel, PostPollVoteModel, Db}
use news_board.Local.Repository
use news_board.Local.Repository.{find_post, with_community_scope}
use news_board.Local.Lookup.{get_post_with_options-found}
use news_board.World.{World}
use news_board.News.Schemas.{UpdatePostRequest, PollOptionInput}
use news_board.News.Updates.{update_post, apply_update, replace_options}

-- the votes on a post that the caller's community holds
abbrev pub votes_on : Context → ℕ → Db → List PostPollVoteModel
votes_on ctx i d =
    filter (λ (v : PostPollVoteModel). v.id_post == i)
      (with_community_scope ctx (λ (v : PostPollVoteModel). v.id_community) d.votes)

module _ (ctx : Context) (w : World) (post_id : ℕ) (req : UpdatePostRequest) (post : PostModel)
    (t : PostType) (options : List PollOptionInput)
    (found : find_post ctx post_id w.local.work ≡ some post)
    (typed : post_type_of_int post.type ≡ some t) (poll : is_poll t ≡ true)
    (given : req.options ≡ some options) where
  -- For a poll that the request finds, an update with fewer than two options fails with
  -- INVALID_POLL (422) and commits nothing.
  pub update_post_invalid :
      length options < 2
      → ((update_post ctx post_id req w).0 ≡ err (error_exception invalid_poll 422))
        × ((update_post ctx post_id req w).1.local.saved ≡ w.local.saved)
  unfolding update_post apply_update replace_options Repository.save_post
  update_post_invalid few =
      let (os, s, looked, work, saved) =
        get_post_with_options-found ctx post_id w.local post found in
      ground arith

  -- For a poll that the request finds, an update with two options or more fails with
  -- OPTIONS_FROZEN (409) once the poll has a vote in the request's community, and none of the
  -- columns that the same request sets is committed.
  pub update_post_frozen :
      2 ≤ length options
      → 0 < length (votes_on ctx post.id w.local.work)
      → ((update_post ctx post_id req w).0 ≡ err (error_exception options_frozen 409))
        × ((update_post ctx post_id req w).1.local.saved ≡ w.local.saved)
  unfolding update_post apply_update replace_options Repository.save_post
      Repository.count_votes_for_post
  update_post_frozen enough votes =
      let (os, s, looked, work, saved) =
        get_post_with_options-found ctx post_id w.local post found in
      ground arith
