-- ===== src/Tests/Access.antt =====
-- Who may see results, and who may use the routes.
use news_board.Prelude.{
  ℕ, String, ◌≡◌, ◌⊎◌, ◌↔◌, refl, inl, true, false, some, none, List, [], ◌∷◌, arith, map,
}
use news_board.Exec.{ok}
use news_board.Local.Repository.{
  find_post, poll_votes, get_votes_for_post, get_post_with_options, load_options, select_options,
}
use news_board.Crm.{roundtrip}
use news_board.Crm.Users.{get_emails_by_auth_ids}
use news_board.World.{World, request}
use news_board.Const.{feature_news}
use news_board.News.{poll_ended}
use news_board.News.Schemas.{
  ResultsMode, PollResults, OptionTally, CreatePostRequest, UpdatePostRequest,
}
use news_board.News.Results.{
  current_role, is_privileged, resolve_results_visibility, get_results, voted, tally,
  distinct_voters, present,
}
use news_board.News.Results.Visibility.{IsTime, resolve_results_visibility_matrix}
use news_board.News.Results.Disclosure.{get_results_identities, get_results_counts}
use news_board.News.Results.Tallied.{total_count, get_results_counts_all}
use news_board.Local.{PostPollModel}
use news_board.Security.Dependencies.{is_subscribed, find_subscription}
use news_board.Routes
use news_board.Routes.Guards.{Refuses, resolved, writes_need_manager, routes_need_subscription}
use news_board.Tests.Data.{poll, db, db-IsConsistent, bob, boss, tables, session, broker, config}

resolve_results_visibility_matrix_example :
    ((resolve_results_visibility poll true true false ≡ ok (true, some ResultsMode.full))
      ↔ (poll.admin_visibility ≡ some 1))
    × ((resolve_results_visibility poll true true false ≡ ok (true, some ResultsMode.aggregate))
        ↔ ((poll.admin_visibility ≡ none) ⊎ (poll.admin_visibility ≡ some 0)))
    × ((resolve_results_visibility poll false true false ≡ ok (true, some ResultsMode.full))
        ↔ ((poll.member_visibility ≡ some 2) × IsTime poll true false))
    × ((resolve_results_visibility poll false true false ≡ ok (true, some ResultsMode.aggregate))
        ↔ ((poll.member_visibility ≡ some 1) × IsTime poll true false))
resolve_results_visibility_matrix_example = resolve_results_visibility_matrix poll true false

abbrev calm : World
calm = request db (session []) broker

abbrev told_options : List OptionTally
told_options =
    record {
      option_id = 1;
      option_value = "Monday";
      count = 1;
      voters = some (record { voter_id = "ann"; email = some "ann@x" } ∷ []);
    }
    ∷ record { option_id = 2; option_value = "Friday"; count = 0; voters = some [] }
    ∷ []

-- what a member is told: one vote for Monday, by ann
abbrev told : PollResults
told = record {
  post_id = 1;
  poll_ended = false;
  visible = true;
  mode = some ResultsMode.full;
  total_voters = some 1;
  options = some told_options;
}

answered : (get_results bob 1 calm).0 ≡ ok told
unfolding get_results get_post_with_options find_post load_options select_options get_votes_for_post
    poll_votes resolve_results_visibility is_privileged current_role poll_ended present tally
    distinct_voters get_emails_by_auth_ids roundtrip
answered = ground arith

found : find_post bob 1 db ≡ some poll
unfolding find_post
found = ground arith

get_results_identities_example :
    ((is_privileged bob ≡ true) × (poll.admin_visibility ≡ some 1))
    ⊎ ((is_privileged bob ≡ false)
        × (poll.member_visibility ≡ some 2)
        × IsTime poll (voted bob.user_id (poll_votes bob 1 db)) (poll_ended bob poll))
get_results_identities_example = get_results_identities bob 1 calm told poll answered found refl

get_results_counts_example :
    (is_privileged bob ≡ true)
    ⊎ (((poll.member_visibility ≡ some 1) ⊎ (poll.member_visibility ≡ some 2))
        × IsTime poll (voted bob.user_id (poll_votes bob 1 db)) (poll_ended bob poll))
get_results_counts_example = get_results_counts bob 1 calm told poll answered found refl

bob_unprivileged : is_privileged bob ≡ false
unfolding is_privileged current_role
bob_unprivileged = ground arith

writes_need_manager_example :
    ((body : CreatePostRequest) → Refuses (Routes.create_post config bob body) calm)
    × ((post_id : ℕ) (body : UpdatePostRequest)
        → Refuses (Routes.update_post bob post_id body) calm)
    × ((post_id : ℕ) → Refuses (Routes.delete_post bob post_id) calm)
writes_need_manager_example = writes_need_manager config bob calm bob_unprivileged

-- the same community without its subscription
abbrev unsubscribed : World
unsubscribed =
    request db (record (session []) { work = record tables { subscriptions = [] } }) broker

no_subscription :
    is_subscribed
      (find_subscription (resolved boss unsubscribed.crm.work) feature_news unsubscribed.crm.work)
    ≡ false
unfolding find_subscription
no_subscription = ground arith

routes_need_subscription_example :
    ((body : CreatePostRequest) → Refuses (Routes.create_post config boss body) unsubscribed)
    × ((page page_size : ℕ) → Refuses (Routes.list_posts boss page page_size) unsubscribed)
    × ((post_id : ℕ) → Refuses (Routes.get_post boss post_id) unsubscribed)
    × ((post_id : ℕ) (body : UpdatePostRequest)
        → Refuses (Routes.update_post boss post_id body) unsubscribed)
    × ((post_id : ℕ) → Refuses (Routes.delete_post boss post_id) unsubscribed)
    × ((post_id : ℕ) (ids : List ℕ) → Refuses (Routes.cast_vote boss post_id ids) unsubscribed)
    × ((post_id : ℕ) → Refuses (Routes.retract_vote boss post_id) unsubscribed)
    × ((post_id : ℕ) → Refuses (Routes.get_results boss post_id) unsubscribed)
routes_need_subscription_example = routes_need_subscription config boss unsubscribed no_subscription

abbrev names : List String
names = "MEMBER" ∷ "OWNER" ∷ "ADMIN" ∷ []

get_results_counts_all_example :
    (1 ∷ 2 ∷ [] ≡ map (λ (o : PostPollModel). o.id) (select_options 1 db))
    × (total_count told_options ≡ 1)
get_results_counts_all_example =
    get_results_counts_all bob db poll db-IsConsistent (inl refl) refl (session []) broker told
      told_options answered refl
