-- ===== src/News/Votes.antt =====
-- api/news/service.py: `cast_vote` and `retract_vote`.
pub mod Consistent
pub mod Swap
pub mod Selected
pub mod Recorded
pub mod Atomic
pub mod Retracted
pub mod Refined
use news_board.Prelude.{
  ℕ, String, Bool, true, false, not, List, [], ◌∷◌, map, any, length, ◌&&◌, ◌==◌, if◌then◌else◌,
}
use news_board.Prelude.Keys.{contains, fromkeys, nat_key}
use news_board.Prelude.Decimal.{str_int}
use news_board.Errors.{error_exception, post_not_found, not_a_poll, poll_expired, invalid_vote}
use news_board.Exec.{Result, ok, err, Exec, ◌>>=◌, ◌>>◌, or_raise, raise_if, lift, pure}
use news_board.Const.{PostType, poll_single_choice, is_poll}
use news_board.Context.{Context}
use news_board.Local.{PostModel, PostPollModel, PostPollVoteModel, LocalSession}
use news_board.Local
use news_board.Local.Repository.{
  get_post, get_post_with_options, get_voter_votes, delete_votes, add_votes,
}
use news_board.Crm.{ints}
use news_board.Audit.{vote_cast, vote_retracted}
use news_board.World.{World, on_local}
use news_board.News.{post_type_of, poll_ended, require_voter, audit, entry_for}

abbrev pub is_single : PostType → Bool
is_single poll_single_choice = true
is_single _ = false

-- `_validate_selection`
unfoldable pub validate_selection : List ℕ → PostType → List PostPollModel → Result (List ℕ)
validate_selection option_ids post_type options =
    let selected = fromkeys option_ids in
    let valid_ids = map (λ (o : PostPollModel). o.id) options in
    if any (λ oid. not (contains valid_ids oid)) selected
    then err (error_exception invalid_vote 422)
    else if is_single post_type && not (length selected == 1)
    then err (error_exception invalid_vote 422)
    else ok selected

-- a new row for one option; its `id` is set by the flush
abbrev pub vote_for : PostModel → ℕ → String → ℕ → PostPollVoteModel
vote_for post post_id voter_id option_id = record {
  id = 0;
  id_community = post.id_community;
  id_post = post_id;
  id_post_poll = option_id;
  voter_id = voter_id;
}

-- the swap: the voter's rows for this poll are dropped, and the new selection is inserted
unfoldable pub swap_votes : Context → PostModel → ℕ → String → List ℕ → Exec LocalSession Unit
unfolding get_voter_votes delete_votes add_votes
swap_votes ctx post post_id voter_id selected = do
  existing ← get_voter_votes ctx post_id voter_id
  delete_votes existing
  add_votes (map (vote_for post post_id voter_id) selected)

unfoldable pub cast_vote : Context → ℕ → List ℕ → Exec World Unit
cast_vote ctx post_id option_ids = do
  found ← on_local (get_post_with_options ctx post_id)
  (post, options) ← or_raise found (error_exception post_not_found 404)
  post_type ← post_type_of post
  raise_if (not (is_poll post_type)) (error_exception not_a_poll 400)
  raise_if (poll_ended ctx post) (error_exception poll_expired 403)
  voter_id ← require_voter ctx
  selected ← lift (validate_selection option_ids post_type options)
  on_local (swap_votes ctx post post_id voter_id selected)
  on_local Local.commit
  audit ctx
      (entry_for vote_cast "post_poll_vote" (str_int post_id) (("option_ids", ints selected) ∷ []))

unfoldable pub retract_vote : Context → ℕ → Exec World Unit
retract_vote ctx post_id = do
  found ← on_local (get_post ctx post_id)
  post ← or_raise found (error_exception post_not_found 404)
  post_type ← post_type_of post
  raise_if (not (is_poll post_type)) (error_exception not_a_poll 400)
  raise_if (poll_ended ctx post) (error_exception poll_expired 403)
  voter_id ← require_voter ctx
  existing ← on_local (get_voter_votes ctx post_id voter_id)
  elim existing [
    | [] ↦ pure tt
    | v ∷ vs ↦ do
      on_local (delete_votes (v ∷ vs))
      on_local Local.commit
      audit ctx (entry_for vote_retracted "post_poll_vote" (str_int post_id) [])
  ]
