-- ===== src/News/Races.antt =====
-- api/news/service.py: `cast_vote` and `retract_vote` of several requests at once. Neither locks a
-- row before it writes, and the engines of core/database/database.py keep the isolation level of
-- PostgreSQL, where a statement sees what is committed when it starts. A request is thus two
-- steps: its queries and checks up to `get_voter_votes`, and its writes with their commit. A job,
-- its phase, `advance`, `turn` and `run` are this model of the database's isolation and stand for
-- no function of the source.
pub mod Parts
pub mod Ready
pub mod Steps
pub mod Schedule
pub mod Alone
pub mod Progress
pub mod Isolated
pub mod Beside
pub mod Doubled
use news_board.Prelude.{ℕ, zero, suc, String, Bool, not, List, [], ◌∷◌, map}
use news_board.Prelude.Keys.{nat_key}
use news_board.Prelude.Decimal.{str_int}
use news_board.Errors.{error_exception, post_not_found, not_a_poll, poll_expired}
use news_board.Exec.{
  Result, ok, err, Exec, ◌>>=◌, ◌>>◌, or_raise, raise_if, lift, pure, Result-cases,
}
use news_board.Const.{is_poll}
use news_board.Context.{Context}
use news_board.Local.{PostModel, PostPollVoteModel, Db, open_session}
use news_board.Local
use news_board.Local.Repository.{
  get_post, get_post_with_options, get_voter_votes, delete_votes, add_votes,
}
use news_board.Crm.{ints}
use news_board.Audit.{vote_cast, vote_retracted}
use news_board.World.{World, on_local}
use news_board.News.{post_type_of, poll_ended, require_voter, audit, entry_for}
use news_board.News.Votes.{validate_selection, vote_for}

-- the request of one caller
pub data VoteRequest : Type 0 where
  cast : List ℕ → VoteRequest
  retract : VoteRequest

-- what the checks hand to the writes
pub record Checked : Type 0 where
  pub post : PostModel
  pub voter_id : String
  pub selected : List ℕ
  pub existing : List PostPollVoteModel

-- `cast_vote` up to `get_voter_votes`
unfoldable pub check_cast : Context → ℕ → List ℕ → Exec World Checked
check_cast ctx post_id option_ids = do
  found ← on_local (get_post_with_options ctx post_id)
  (post, options) ← or_raise found (error_exception post_not_found 404)
  post_type ← post_type_of post
  raise_if (not (is_poll post_type)) (error_exception not_a_poll 400)
  raise_if (poll_ended ctx post) (error_exception poll_expired 403)
  voter_id ← require_voter ctx
  selected ← lift (validate_selection option_ids post_type options)
  existing ← on_local (get_voter_votes ctx post_id voter_id)
  pure (record { post = post; voter_id = voter_id; selected = selected; existing = existing })

-- `cast_vote` from `delete_votes` on
unfoldable pub store_cast : Context → ℕ → Checked → Exec World Unit
store_cast ctx post_id c = do
  on_local (delete_votes c.existing)
  on_local (add_votes (map (vote_for c.post post_id c.voter_id) c.selected))
  on_local Local.commit
  audit ctx (
      entry_for vote_cast "post_poll_vote" (str_int post_id) (("option_ids", ints c.selected) ∷ []))

-- `retract_vote` up to `get_voter_votes`
unfoldable pub check_retract : Context → ℕ → Exec World Checked
check_retract ctx post_id = do
  found ← on_local (get_post ctx post_id)
  post ← or_raise found (error_exception post_not_found 404)
  post_type ← post_type_of post
  raise_if (not (is_poll post_type)) (error_exception not_a_poll 400)
  raise_if (poll_ended ctx post) (error_exception poll_expired 403)
  voter_id ← require_voter ctx
  existing ← on_local (get_voter_votes ctx post_id voter_id)
  pure (record { post = post; voter_id = voter_id; selected = []; existing = existing })

-- `retract_vote` from its test of `existing` on
unfoldable pub store_retract : Context → ℕ → Checked → Exec World Unit
store_retract ctx post_id c = elim c.existing [
  | [] ↦ pure tt
  | v ∷ vs ↦ do
    on_local (delete_votes (v ∷ vs))
    on_local Local.commit
    audit ctx (entry_for vote_retracted "post_poll_vote" (str_int post_id) [])
]

unfoldable pub check_request : Context → ℕ → VoteRequest → Exec World Checked
check_request ctx post_id (cast option_ids) = check_cast ctx post_id option_ids
check_request ctx post_id retract = check_retract ctx post_id

unfoldable pub store_request : Context → ℕ → VoteRequest → Checked → Exec World Unit
store_request ctx post_id (cast option_ids) = store_cast ctx post_id
store_request ctx post_id retract = store_retract ctx post_id

pub data Phase : Type 0 where
  waiting : Phase
  checked : Checked → Phase
  finished : Result (Unit {0}) → Phase

-- a request that is being handled, with its sessions
pub record Job : Type 0 where
  pub ctx : Context
  pub post_id : ℕ
  pub request : VoteRequest
  pub world : World
  pub phase : Phase

-- a session that has just been opened
abbrev pub opens : Db → World → World
opens d w = record w { local = open_session d }

-- the session sees what is committed
abbrev pub sees : Db → World → World
sees d w = record w { local = record w.local { work = d; saved = d } }

abbrev pub after_check : Job → Result Checked × World → Job
after_check j (ok c, w) = record j { world = w; phase = checked c }
after_check j (err e, w) = record j { world = w; phase = finished (err e) }

abbrev pub advance_from : Phase → Job → Db → Db × Job
advance_from waiting j d =
    (d, after_check j (check_request j.ctx j.post_id j.request (opens d j.world)))
advance_from (checked c) j d =
    let (r, w) = store_request j.ctx j.post_id j.request c (sees d j.world) in
    (w.local.saved, record j { world = w; phase = finished r })
advance_from (finished r) j d = (d, j)

-- the next step of a request, on the committed database
unfoldable pub advance : Job → Db → Db × Job
advance j d = advance_from j.phase j d

-- the next step of the n-th request
unfoldable pub turn : ℕ → Db → List Job → Db × List Job
turn n d [] = (d, [])
turn zero d (j ∷ js) = let (e, k) = advance j d in (e, k ∷ js)
turn (suc n) d (j ∷ js) = let (e, ks) = turn n d js in (e, j ∷ ks)

-- the requests take their steps in the order of a schedule
unfoldable pub run : List ℕ → Db → List Job → Db × List Job
run [] d js = (d, js)
run (n ∷ ns) d js = let (e, ks) = turn n d js in run ns e ks
