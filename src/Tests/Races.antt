-- ===== src/Tests/Races.antt =====
-- Requests that overlap.
use news_board.Prelude.{
  true, false, ◌≡◌, refl, ◌≢◌, inl, inr, List, [], ◌∷◌, map, arith, some, eq_iff,
}
use news_board.Prelude.Keys.{fromkeys, nat_key}
use news_board.Context.{Context}
use news_board.Const.{poll_single_choice, poll_multiple_choice}
use news_board.Exec.{ok}
use news_board.Local.{PostModel, Db}
use news_board.Local.Ballots.{ballot}
use news_board.Local.Consistency.{IsKeyed, IsConsistent}
use news_board.World.{request}
use news_board.News.{poll_ended, current_voter}
use news_board.News.Races.{Job, VoteRequest, cast, retract, waiting, finished, run}
use news_board.News.Races.Schedule.{run-IsKeyed}
use news_board.News.Races.Alone.{IsAllowed}
use news_board.News.Races.Isolated.{AllOrNothing, run_alone, run_alone_finishes}
use news_board.News.Races.Doubled.{run_doubles}
use news_board.Tests.Data.{poll, monday, friday, db, db-IsConsistent, bob, context, session, broker}

-- the poll with one choice, on which nobody has voted
abbrev choice : PostModel
choice = record poll { type = 1 }

abbrev fresh : Db
fresh = record {
  posts = choice ∷ [];
  options = monday ∷ friday ∷ [];
  votes = [];
  next_post = 2;
  next_option = 3;
  next_vote = 1;
}

fresh-IsConsistent : IsConsistent fresh
fresh-IsConsistent = record {
  keyed = record {
    post_fresh = λ p m. ground arith;
    post_unique = λ p q m n e. ground arith;
    option_fresh = λ o m. ground arith;
    option_unique = λ o q m n e. ground arith;
    option_post = λ o m. (choice, inl refl, ground arith, ground arith);
    vote_fresh = λ w m. absurd m;
    vote_unique = λ w x m n e. absurd m;
    vote_post = λ w m. absurd m;
    vote_option = λ w m. absurd m;
    posts_distinct = (refl, tt);
    options_distinct = (refl, (refl, tt));
    votes_distinct = tt;
    vote_once = λ p v. tt;
  };
  vote_single = λ p m t v. ground arith;
}

-- a request on the post 1 that is about to begin
abbrev job : Db → Context → VoteRequest → Job
job d ctx q = record {
  ctx = ctx;
  post_id = 1;
  request = q;
  world = request d (session []) broker;
  phase = waiting;
}

abbrev on_monday : Job
on_monday = job fresh bob (cast (1 ∷ []))

abbrev on_friday : Job
on_friday = job fresh bob (cast (2 ∷ []))

monday-IsAllowed : IsAllowed choice poll_single_choice "bob" fresh on_monday
unfolding poll_ended current_voter fromkeys
monday-IsAllowed = record {
  there = inl refl;
  typed = refl;
  poll = refl;
  id = refl;
  scoped = refl;
  running = ground arith;
  voter = ground arith;
  options = (λ i m. (monday, inl refl, ground arith, ground arith), λ s. ground arith);
}

friday-IsAllowed : IsAllowed choice poll_single_choice "bob" fresh on_friday
unfolding poll_ended current_voter fromkeys
friday-IsAllowed = record {
  there = inl refl;
  typed = refl;
  poll = refl;
  id = refl;
  scoped = refl;
  running = ground arith;
  voter = ground arith;
  options = (λ i m. (friday, inr (inl refl), ground arith, ground arith), λ s. ground arith);
}

-- two options of a single-choice poll in one ballot
run_doubles_example :
    let (e, js) = run (0 ∷ 1 ∷ 1 ∷ 0 ∷ []) fresh (on_monday ∷ on_friday ∷ []) in
    (map (λ j. j.phase) js ≡ finished (ok tt) ∷ finished (ok tt) ∷ [])
    × (ballot 1 "bob" e ≡ 2 ∷ 1 ∷ [])
unfolding fromkeys
run_doubles_example =
    run_doubles choice poll_single_choice "bob" fresh on_monday on_friday true false
      fresh-IsConsistent refl monday-IsAllowed friday-IsAllowed refl refl (λ o m n. ground arith)

abbrev ann_retracts : Job
ann_retracts = job db (context (some "ann") (some "MEMBER") 7) retract

abbrev bob_votes : Job
bob_votes = job db bob (cast (2 ∷ 1 ∷ 2 ∷ []))

run-IsKeyed_example :
    IsKeyed (run (0 ∷ 1 ∷ 2 ∷ 2 ∷ 1 ∷ 0 ∷ []) db (bob_votes ∷ ann_retracts ∷ bob_votes ∷ [])).0
run-IsKeyed_example =
    run-IsKeyed (0 ∷ 1 ∷ 2 ∷ 2 ∷ 1 ∷ 0 ∷ []) db (bob_votes ∷ ann_retracts ∷ bob_votes ∷ [])
      db-IsConsistent (refl, (refl, (refl, tt)))

ann-IsAllowed : IsAllowed poll poll_multiple_choice "ann" db ann_retracts
unfolding poll_ended current_voter
ann-IsAllowed = record {
  there = inl refl;
  typed = refl;
  poll = refl;
  id = refl;
  scoped = refl;
  running = ground arith;
  voter = ground arith;
  options = tt;
}

not_bob : current_voter bob ≢ some "ann"
unfolding current_voter
not_bob e = ground (arith, eq_iff "bob" "ann")

-- ann retracts while bob votes twice
run_alone_example :
    let (e, ks) = run (0 ∷ 1 ∷ 2 ∷ 1 ∷ []) db (ann_retracts ∷ bob_votes ∷ bob_votes ∷ []) in
    (k : Job) × (rest : List Job) × (ks ≡ k ∷ rest) × AllOrNothing 1 "ann" db e ann_retracts k
run_alone_example =
    run_alone (0 ∷ 1 ∷ 2 ∷ 1 ∷ []) db poll poll_multiple_choice "ann" ann_retracts
      (bob_votes ∷ bob_votes ∷ []) db-IsConsistent ann-IsAllowed refl (refl, (refl, tt))
      (inr not_bob, (inr not_bob, tt))

run_alone_finishes_example :
    let (e, ks) = run (0 ∷ 1 ∷ 2 ∷ 1 ∷ 0 ∷ []) db (ann_retracts ∷ bob_votes ∷ bob_votes ∷ []) in
    (k : Job) × (rest : List Job) × (ks ≡ k ∷ rest)
    × (k.phase ≡ finished (ok tt))
    × (ballot 1 "ann" e ≡ [])
run_alone_finishes_example =
    run_alone_finishes (0 ∷ 1 ∷ 2 ∷ 1 ∷ 0 ∷ []) db poll poll_multiple_choice "ann" ann_retracts
      (bob_votes ∷ bob_votes ∷ []) db-IsConsistent ann-IsAllowed refl (refl, (refl, tt))
      (inr not_bob, (inr not_bob, tt)) (omega arith)
