-- ===== src/Tests/Journeys.antt =====
-- Requests one after the other: votes and what is shown of them, and posts.
use news_board.Prelude.{◌≡◌, refl, inl, inr, true, some, none, List, [], ◌∷◌, arith, All}
use news_board.Prelude.Keys.{fromkeys, nat_key}
use news_board.Context.{Context, aware}
use news_board.Const.{poll_multiple_choice, AdminVisibility, MemberVisibility, MemberDisplay}
use news_board.Exec.{ok}
use news_board.Local.{Db}
use news_board.Local.Ballots.{ballot}
use news_board.Local.Consistency.{IsConsistent}
use news_board.World.{request}
use news_board.News.{poll_ended, current_voter}
use news_board.News.Reads
use news_board.News.Shown.Voted.{cast_vote-get_post}
use news_board.News.Shown.Created.{shown_option}
use news_board.Markdown.{render_markdown}
use news_board.News.Votes.{cast_vote}
use news_board.News.Votes.Refined.{Ballot, IsAllowed, handle_all, put_all, handle_all-put_all}
use news_board.Routes.Serve.{serve, create, cast}
use news_board.Routes.Reachable.{start, next, call, empty_db, Reachable-IsConsistent}
use news_board.Tests.Data.{
  poll, monday, friday, db, db-IsConsistent, bob, boss, session, broker, config,
}
use news_board.Tests.Votes.{chosen, chosen_valid, running, voter, ann}
use news_board.Tests.Posts.{draft, tea_coffee}

-- bob votes, ann retracts
abbrev requests : List Ballot
requests =
    record {
      ctx = bob;
      voter = "bob";
      post = poll;
      type = poll_multiple_choice;
      option_ids = some (2 ∷ 1 ∷ 2 ∷ []);
      crm = session [];
      broker = broker;
    }
    ∷ record {
      ctx = ann;
      voter = "ann";
      post = poll;
      type = poll_multiple_choice;
      option_ids = none;
      crm = session [];
      broker = broker;
    }
    ∷ []

requests-IsAllowed : All (IsAllowed db) requests
unfolding poll_ended current_voter
requests-IsAllowed = (
  (
    inl refl,
    refl,
    refl,
    refl,
    refl,
    refl,
    (
      (
        (friday, inr (inl refl), refl, refl),
        ((monday, inl refl, refl, refl), ((friday, inr (inl refl), refl, refl), tt)),
      ),
      inl refl,
    ),
  ),
  ((inl refl, refl, refl, refl, refl, refl, tt), tt),
)

handle_all-put_all_example : ballot 1 "bob" (handle_all requests db) ≡ 2 ∷ 1 ∷ []
unfolding put_all fromkeys
handle_all-put_all_example =
    handle_all-put_all requests db (λ p v. ballot p v db) db-IsConsistent requests-IsAllowed
      (λ q u. refl) 1 "bob"

-- bob's request for the post, after the poll has ended
abbrev late : Context
late = record bob { now = 1000 }

late_voter : current_voter late ≡ some "bob"
unfolding current_voter
late_voter = ground arith

cast_vote-get_post_example :
    (Reads.get_post late 1 (
      request
        (cast_vote bob 1 chosen (request db (session []) broker)).1.local.saved
        (session [])
        broker)).0
    ≡ ok (record {
      id = 1;
      type = poll_multiple_choice;
      author_id = poll.author_id;
      author_email = poll.author_email;
      post = poll.post;
      body_html = render_markdown late.packages poll.post;
      created_at = 10;
      updated_at = 10;
      expires_at = some (aware 900);
      is_poll = true;
      poll_ended = true;
      options = shown_option monday ∷ shown_option friday ∷ [];
      has_voted = true;
      my_option_ids = 2 ∷ 1 ∷ [];
      admin_visibility = some AdminVisibility.full;
      member_visibility = some MemberVisibility.full;
      member_display = some MemberDisplay.before_vote;
    })
unfolding fromkeys
cast_vote-get_post_example =
    cast_vote-get_post bob db (session []) broker poll poll_multiple_choice
      (some AdminVisibility.full) (some MemberVisibility.full) (some MemberDisplay.before_vote)
      db-IsConsistent (inl refl) refl refl refl refl refl "bob" chosen (session []) broker late refl
      late_voter refl running voter chosen_valid (λ e. ground arith)

abbrev first : Db
first =
    (serve boss (create config (draft tea_coffee))
      (request empty_db (session []) broker)).local.saved

Reachable-IsConsistent_example :
    IsConsistent (serve bob (cast 1 (2 ∷ [])) (request first (session []) broker)).local.saved
Reachable-IsConsistent_example =
    Reachable-IsConsistent
      (serve bob (cast 1 (2 ∷ [])) (request first (session []) broker)).local.saved
      (next (next start (call boss (create config (draft tea_coffee)) (session []) broker refl))
        (call bob (cast 1 (2 ∷ [])) (session []) broker refl))
