-- ===== src/News/Votes/Atomic.antt =====
-- A vote or a retraction that raises has committed nothing.
use news_board.Prelude.{ℕ, ◌≡◌, List, arith}
use news_board.Context.{Context}
use news_board.Errors.{Exception}
use news_board.Exec.{err}
use news_board.Audit
use news_board.Local
use news_board.Local.Repository.{get_post, get_post_with_options, get_voter_votes, delete_votes}
use news_board.World.{World}
use news_board.News.{require_voter, audit}
use news_board.News.Votes.{cast_vote, swap_votes, retract_vote}

-- A call of cast_vote that raises, from any world, leaves the committed rows as they were.
pub cast_vote_atomic :
    (ctx : Context) (post_id : ℕ) (ids : List ℕ) (w : World) (e : Exception)
    → (cast_vote ctx post_id ids w).0 ≡ err e
    → (cast_vote ctx post_id ids w).1.local.saved ≡ w.local.saved
unfolding cast_vote swap_votes get_post_with_options require_voter audit Audit.log Local.commit
cast_vote_atomic ctx post_id ids w e h = ground arith

-- A call of retract_vote that raises, from any world, leaves the committed rows as they were.
pub retract_vote_atomic :
    (ctx : Context) (post_id : ℕ) (w : World) (e : Exception)
    → (retract_vote ctx post_id w).0 ≡ err e
    → (retract_vote ctx post_id w).1.local.saved ≡ w.local.saved
unfolding retract_vote get_post get_voter_votes delete_votes require_voter audit Audit.log
    Local.commit
retract_vote_atomic ctx post_id w e h = ground arith
