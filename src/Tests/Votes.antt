-- ===== src/Tests/Votes.antt =====
-- Votes and retractions of a member.
use news_board.Prelude.{
  ℕ, String, ◌≡◌, refl, ◌≢◌, ◌⊎◌, inl, inr, false, List, [], ◌∷◌, In, arith, some, eq_iff,
}
use news_board.Prelude.Keys.{fromkeys, nat_key}
use news_board.Const.{poll_multiple_choice}
use news_board.Errors.{error_exception, invalid_vote}
use news_board.Exec.{ok, err}
use news_board.Context.{Context}
use news_board.Local.Repository.{get_post_with_options, find_post, load_options, select_options}
use news_board.Local.Ballots.{ballot}
use news_board.Local.Consistency.{IsConsistent}
use news_board.World.{request}
use news_board.News.{poll_ended, current_voter, require_voter}
use news_board.News.Votes.{validate_selection, cast_vote, retract_vote}
use news_board.News.Votes.Swap.{IsOptionOf}
use news_board.News.Votes.Recorded.{cast_vote_records}
use news_board.News.Votes.Retracted.{retract_vote_clears}
use news_board.News.Audited.{Audited, vote_row, retract_row, votes-Audited}
use news_board.Tests.Data.{
  poll, monday, friday, db, db-IsConsistent, bob, context, tables, session, broker,
}

-- the request's list, with one option twice
abbrev pub chosen : List ℕ
chosen = 2 ∷ 1 ∷ 2 ∷ []

pub chosen_valid : (i : ℕ) → In i chosen → IsOptionOf 1 db i
chosen_valid i (inl e) = (friday, inr (inl refl), ground arith, ground arith)
chosen_valid i (inr (inl e)) = (monday, inl refl, ground arith, ground arith)
chosen_valid i (inr (inr (inl e))) = (friday, inr (inl refl), ground arith, ground arith)
chosen_valid i (inr (inr (inr m))) = absurd m

pub running : poll_ended bob poll ≡ false
unfolding poll_ended
running = ground arith

pub voter : current_voter bob ≡ some "bob"
unfolding current_voter
voter = ground arith

not_ann : ◌≢◌ {A = String} "ann" "bob"
not_ann e = ground (arith, eq_iff "ann" "bob")

cast_vote_records_example :
    let (r, w) = cast_vote bob 1 chosen (request db (session []) broker) in
    (r ≡ ok tt) × (ballot 1 "bob" w.local.saved ≡ 2 ∷ 1 ∷ [])
unfolding fromkeys
cast_vote_records_example =
    cast_vote_records bob db (session []) broker poll poll_multiple_choice "bob" chosen
      db-IsConsistent (inl refl) refl refl refl running voter chosen_valid (λ e. ground arith)

abbrev pub ann : Context
ann = context (some "ann") (some "MEMBER") 7

retract_vote_clears_example :
    let (r, w) = retract_vote ann 1 (request db (session []) broker) in
    (r ≡ ok tt) × (ballot 1 "ann" w.local.saved ≡ []) × IsConsistent w.local.saved
unfolding poll_ended current_voter
retract_vote_clears_example =
    retract_vote_clears ann db (session []) broker poll poll_multiple_choice "ann" db-IsConsistent
      (inl refl) refl refl refl (ground arith) (ground arith)

invalid :
    (cast_vote bob 1 (9 ∷ []) (request db (session []) broker)).0
    ≡ err (error_exception invalid_vote 422)
unfolding cast_vote require_voter current_voter get_post_with_options find_post load_options
    select_options poll_ended validate_selection fromkeys
invalid = ground arith

votes-Audited_example :
    let w = request db (session []) broker in
    Audited (cast_vote ann 1 chosen w) w (vote_row ann 1 chosen tables)
    × (Audited (retract_vote ann 1 w) w (retract_row ann 1 tables)
        ⊎ (((retract_vote ann 1 w).0 ≡ ok tt)
            × ((retract_vote ann 1 w).1.crm ≡ session [])
            × ((retract_vote ann 1 w).1.local.saved ≡ db)))
votes-Audited_example = votes-Audited ann 1 chosen (request db (session []) broker) refl
