-- ===== src/Tests/Posts.antt =====
-- Posts that are created, changed and deleted, and posts of another community.
use news_board.Prelude.{
  String, ◌≡◌, ◌≢◌, ◌↔◌, refl, inl, inr, true, false, some, none, List, [], ◌∷◌, In, arith,
}
use news_board.Context.{naive, aware}
use news_board.Const.{
  poll_single_choice, poll_multiple_choice, AdminVisibility, MemberVisibility, MemberDisplay,
}
use news_board.Errors.{error_exception, options_frozen, post_not_found}
use news_board.Exec.{ok, err}
use news_board.Local.{PostModel, PostPollModel, PostPollVoteModel}
use news_board.Local.Repository.{find_post}
use news_board.Local.Consistency.{IsConsistent}
use news_board.World.{World, request}
use news_board.News.Schemas.{CreatePostRequest, UpdatePostRequest, PollOptionInput}
use news_board.News.Posts.{create_post, expiry_of, delete_post}
use news_board.News.Posts.Polls.{validate_poll_payload}
use news_board.News.Posts.Created.{create_post_best_effort}
use news_board.Prelude.Int.{pos}
use news_board.News.Posts.Asked.{asked_options, asked_post, create_post_stores}
use news_board.Local.Board.{Newest}
use news_board.Local.Repository.{is_smallint}
use news_board.News.Updates.{apply_update, update_post}
use news_board.News.Edited.{IsEdited, update_post_edits}
use news_board.News.Updated.{update_post_frozen}
use news_board.News.Deleted.{delete_post_removes}
use news_board.News.Isolation.{foreign_post_not_found}
use news_board.News.Votes.{cast_vote, retract_vote}
use news_board.News.Results.{get_results}
use mathlib.Core.List.{Perm}
use news_board.Local.{LocalSession, open_session}
use news_board.News.Pages.{pages_of, pages_from, pages_from-Perm}
use news_board.News.Reads
use news_board.Crm.Users.{get_emails_by_auth_ids}
use news_board.Crm.{roundtrip}
use news_board.Tests.Data.{
  poll, monday, friday, vote, db, db-IsConsistent, bob, boss, stranger, session, broker, config,
}

abbrev choice : String → PollOptionInput
choice s = record { option_value = s; display_order = none }

-- a poll with the options `options`, open until 500
abbrev pub draft : List PollOptionInput → CreatePostRequest
draft options = record {
  type = poll_single_choice;
  post = "Tea or coffee?";
  options = some options;
  expires_at = some (aware 500);
  admin_visibility = some AdminVisibility.full;
  member_visibility = some MemberVisibility.aggregate;
  member_display = some MemberDisplay.after_vote;
}

abbrev pub tea_coffee : List PollOptionInput
tea_coffee = choice "tea" ∷ choice "coffee" ∷ []

-- one world where all works, one where the audit row and every later operation on the CRM fails
abbrev calm : World
calm = request db (session []) broker

abbrev stormy : World
stormy = request db (session (false ∷ true ∷ true ∷ true ∷ true ∷ [])) broker

same_emails :
    (get_emails_by_auth_ids ("boss" ∷ []) calm.crm).0
    ≡ (get_emails_by_auth_ids ("boss" ∷ []) stormy.crm).0
unfolding get_emails_by_auth_ids roundtrip
same_emails = ground arith

create_post_best_effort_example :
    ((create_post config boss (draft tea_coffee) 7 "boss" calm).0
      ≡ (create_post config boss (draft tea_coffee) 7 "boss" stormy).0)
    × ((create_post config boss (draft tea_coffee) 7 "boss" calm).1.local
        ≡ (create_post config boss (draft tea_coffee) 7 "boss" stormy).1.local)
create_post_best_effort_example =
    create_post_best_effort config boss (draft tea_coffee) 7 "boss" calm stormy refl same_emails

abbrev change : List PollOptionInput → UpdatePostRequest
change options = record {
  post = some "Which evening?";
  options = some options;
  expires_at = none;
  admin_visibility = none;
  member_visibility = none;
  member_display = none;
}

found : find_post boss 1 db ≡ some poll
unfolding find_post
found = ground arith

update_post_frozen_example :
    ((update_post boss 1 (change tea_coffee) calm).0 ≡ err (error_exception options_frozen 409))
    × ((update_post boss 1 (change tea_coffee) calm).1.local.saved ≡ db)
update_post_frozen_example =
    update_post_frozen boss calm 1 (change tea_coffee) poll poll_multiple_choice tea_coffee found
      refl refl refl (ground arith) (ground arith)

delete_post_removes_example :
    let (r, w) = delete_post boss 1 calm in
    (r ≡ ok tt)
    × IsConsistent w.local.saved
    × ((p : PostModel) → In p w.local.saved.posts ↔ (In p db.posts × (p.id ≢ 1)))
    × ((o : PostPollModel) → In o w.local.saved.options ↔ (In o db.options × (o.id_post ≢ 1)))
    × ((v : PostPollVoteModel) → In v w.local.saved.votes ↔ (In v db.votes × (v.id_post ≢ 1)))
delete_post_removes_example =
    delete_post_removes boss db (session []) broker poll db-IsConsistent (inl refl) refl

foreign_post_not_found_example :
    ((Reads.get_post stranger 1 calm).0 ≡ err (error_exception post_not_found 404))
    × ((get_results stranger 1 calm).0 ≡ err (error_exception post_not_found 404))
    × ((update_post stranger 1 (change []) calm).0 ≡ err (error_exception post_not_found 404))
    × ((update_post stranger 1 (change []) calm).1.local.saved ≡ db)
    × ((delete_post stranger 1 calm).0 ≡ err (error_exception post_not_found 404))
    × ((delete_post stranger 1 calm).1.local.saved ≡ db)
    × ((cast_vote stranger 1 (1 ∷ []) calm).0 ≡ err (error_exception post_not_found 404))
    × ((cast_vote stranger 1 (1 ∷ []) calm).1.local.saved ≡ db)
    × ((retract_vote stranger 1 calm).0 ≡ err (error_exception post_not_found 404))
    × ((retract_vote stranger 1 calm).1.local.saved ≡ db)
foreign_post_not_found_example =
    foreign_post_not_found stranger db (session []) broker poll (change []) (1 ∷ []) db-IsConsistent
      (inl refl) refl

accepted : expiry_of boss (draft tea_coffee) ≡ ok (some (aware 500))
unfolding validate_poll_payload
accepted = ground arith

no_address : (get_emails_by_auth_ids ("boss" ∷ []) (session [])).0 ≡ ok []
unfolding get_emails_by_auth_ids roundtrip
no_address = ground arith

orders_fit :
    (o : PostPollModel)
    → In o (asked_options (draft tea_coffee) 3 2 7)
    → is_smallint o.display_order ≡ true
orders_fit o (inl e) = ground arith
orders_fit o (inr (inl e)) = ground arith
orders_fit o (inr (inr m)) = absurd m

create_post_stores_example :
    let (r, w) =
      create_post config boss (draft tea_coffee) 7 "boss" (request db (session []) broker) in
    let e = w.local.saved in
    (r ≡ ok 2)
    × (e.posts ≡ poll ∷ asked_post boss (draft tea_coffee) 7 "boss" none 2 ∷ [])
    × (e.options
        ≡ monday
          ∷ friday
          ∷ record {
            id = 3;
            id_community = 7;
            id_post = 2;
            option_value = "tea";
            display_order = pos 0;
          }
          ∷ record {
            id = 4;
            id_community = 7;
            id_post = 2;
            option_value = "coffee";
            display_order = pos 1;
          }
          ∷ [])
    × (e.votes ≡ vote ∷ [])
    × IsConsistent e
create_post_stores_example =
    create_post_stores config boss (draft tea_coffee) 7 "boss" db (session []) broker
      (some (aware 500)) [] db-IsConsistent accepted refl no_address orders_fit

-- a board of two posts, in pages of one
abbrev older : PostModel
older = record poll { id = 0; created_at = 5 }

abbrev two_posts : LocalSession
two_posts = open_session (record db { posts = older ∷ poll ∷ [] })

pages_from-Perm_example :
    Perm (pages_from bob 1 two_posts 1 (pages_of bob 1 1 two_posts)) (older ∷ poll ∷ [])
    × Newest (pages_from bob 1 two_posts 1 (pages_of bob 1 1 two_posts))
pages_from-Perm_example = pages_from-Perm bob 1 1 two_posts (omega arith)

-- a change of the text and of the expiry alone
abbrev pub reword : UpdatePostRequest
reword = record (change []) { options = none; expires_at = some (naive 700) }

update_post_edits_example :
    let (r, w) = apply_update boss 1 reword (request db (session []) broker) in
    (r ≡ ok tt)
    × IsConsistent w.local.saved
    × ((row : PostModel) × (find_post boss 1 w.local.saved ≡ some row)
        × IsEdited boss reword poll_multiple_choice poll row)
    × (w.local.saved.options ≡ db.options)
    × (w.local.saved.votes ≡ db.votes)
update_post_edits_example =
    update_post_edits boss db (session []) broker poll poll_multiple_choice reword db-IsConsistent
      (inl refl) refl refl refl
