-- ===== src/News/Races/Parts.antt =====
-- A request that nothing interrupts: its two steps are the operation of api/news/service.py.
use news_board.Prelude.{ℕ, ◌≡◌, arith}
use news_board.Context.{Context}
use news_board.Exec.{◌>>=◌, Exec}
use news_board.World.{World}
use news_board.News.Votes.{cast_vote, retract_vote, swap_votes}
use news_board.Local.Repository.{get_voter_votes, delete_votes}
use news_board.News.Races.{
  VoteRequest, cast, retract, check_request, store_request, check_cast, store_cast, check_retract,
  store_retract,
}

-- the operation that a request calls
abbrev pub handle_request : Context → ℕ → VoteRequest → Exec World Unit
handle_request ctx post_id (cast option_ids) = cast_vote ctx post_id option_ids
handle_request ctx post_id retract = retract_vote ctx post_id

-- A vote or retraction is its two steps, the checks and then the writes, one after the other,
-- from any world.
pub check_request-store_request :
    (ctx : Context) (post_id : ℕ) (q : VoteRequest) (w : World)
    → (check_request ctx post_id q >>= store_request ctx post_id q) w
      ≡ handle_request ctx post_id q w
unfolding check_request store_request cast_vote retract_vote check_cast store_cast check_retract
    store_retract swap_votes get_voter_votes delete_votes
check_request-store_request ctx post_id (cast option_ids) w = ground arith
check_request-store_request ctx post_id retract w = ground arith
