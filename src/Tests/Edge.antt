-- ===== src/Tests/Edge.antt =====
-- Requests through the whole stack, the settings, and the log line of the realtime publisher.
use Prim.Native.String.{◌++◌, ◌∷◌ as ◌∷ₛ◌}
use news_board.Prelude.{
  ◌≡◌, ◌≢◌, ◌⊎◌, refl, false, true, Option, some, none, [], ◌∷◌, arith, String, All, truthy, ap,
  inl, inr, str_eq, if◌then◌else◌,
}
use news_board.Prelude.Int.{pos}
use news_board.Prelude.Text.{strip}
use news_board.Prelude.Text.Split.{split_char, join_with, sep_then}
use news_board.Config.{
  Settings, staging, origins_of, validate_env_config, cors_options, documentation,
}
use news_board.Config.Origins.{IsNamed, validate_env_config-deployed}
use news_board.Context.{Context}
use news_board.Crm.{roundtrip}
use news_board.Errors.{error_exception, post_not_found}
use news_board.Exec.{Result, ok, err}
use news_board.Http.{Request, Response, Outcome, responded, raised, body, failure, App, Edge}
use news_board.Http.Main.{Starlette, IsStarlette, app, initial, handle_any, handle_domain}
use news_board.Http.Middleware.{is_too_large, locale_of}
use news_board.Http.Limits.{IsOver, IsWithin}
use news_board.Http.Answers.{
  internal_error, app_identified, app_limits_body, app_answers_domain_error,
}
use news_board.Http.Board.{FastApi, routed, board, app-board-IsConsistent}
use news_board.Routes.Serve.{cast}
use news_board.Local.Consistency.{IsConsistent}
use news_board.Http.Resolved.{here, inside, own, found, translate_resolves}
use news_board.Http.Translate.{
  Files, Json, text, object, end, field, load_locale, walk, get_field, translate,
}
use news_board.Local.Repository.{get_post_with_options, find_post}
use news_board.News.Votes
use news_board.Realtime.{Settings as RealtimeSettings}
use news_board.Realtime.State.{ready, log_realtime_state, log_realtime_state-hides}
use news_board.Routes
use news_board.Routes.{news_board_member, with_default_error}
use news_board.Security.{gateway_scope, parse_user_orgs, resolve_highest_role, highest_from}
use news_board.Security.Dependencies.{
  require_min_role, require_authenticated, require_community, find_subscription,
  ensure_active_subscription,
}
use news_board.Security.Scope.{find_community, resolve_internal_community}
use news_board.World.{World, request}
use news_board.Tests.Data.{db, db-IsConsistent, session, broker, packages, encoding}

-- the catalogue of every locale, cut down to one key
abbrev catalogue : Json
catalogue = object (
    field "ERRORS"
      (object (
        field "NEWS"
          (object (field "POST_NOT_FOUND" (text "Publication introuvable (code: 2302)") end)) end))
      end)

abbrev edge : Edge
edge = record {
  lower = λ s. s;
  upper = λ s. s;
  int_of = λ s. some (pos 3000000);
  uuid4 = "4e1f";
  files = λ l. some catalogue;
}

abbrev starlette : {B : Type 0} → Starlette B World
starlette = record {
  is_preflight = λ req. false;
  cors = λ next. next;
  exceptions = λ h next req vars w. record (next req vars w) {
    outcome = handle_domain (h vars) (next req vars w).outcome;
  };
  server_errors = λ h next req vars w. record (next req vars w) {
    outcome = handle_any (h vars) (next req vars w).outcome;
  };
}

starlette-IsStarlette : {B : Type 0} → IsStarlette {B = B} starlette
starlette-IsStarlette = record {
  cors_passes = λ next req vars w h. refl;
  preflight_answered = λ next req vars w h. absurd (ground arith);
  exceptions_handled = λ h next req vars w. refl;
  errors_handled = λ h next req vars w. refl;
}

-- a vote of bob on a post that is not there
abbrev voting : Option String → Request
voting content_length = record {
  method = "POST";
  path = "/posts/4/votes";
  gateway = record {
    x_user_id = some "bob";
    x_community_id = some "org";
    x_user_orgs = some "[orgId:org orgPath:/org roles:[MEMBER]]";
    x_source_ip = none;
    matches = record { org_id = "org"; org_path = "/org"; role_list = "MEMBER" ∷ [] } ∷ [];
  };
  x_request_id = none;
  accept_language = some "de-AT,de";
  content_length = content_length;
}

abbrev blank : Context
blank = record {
  user_id = none;
  community_id = none;
  internal_community_id = none;
  user_role = none;
  source_ip = none;
  now = 100;
  packages = packages;
}

abbrev of_result : Result {0} Unit → Outcome Unit
of_result (ok u) = responded (record { status = 200; content = body u; x_request_id = none })
of_result (err e) = raised e

-- POST /posts/4/votes, in 20 milliseconds
abbrev vote_route : App Unit World
vote_route req vars w = record {
  outcome = of_result (Routes.cast_vote vars.ctx 4 (1 ∷ []) w).0;
  world = (Routes.cast_vote vars.ctx 4 (1 ∷ []) w).1;
  millis = 20;
  cut = λ t. w;
}

abbrev calm : World
calm = request db (session []) broker

app_identified_example :
    let o = (app starlette edge vote_route (voting none) (initial blank) calm).outcome in
    ((r : Response Unit) × (o ≡ responded r) × (r.x_request_id ≡ some "4e1f"))
    ⊎ (o ≡ responded internal_error)
app_identified_example =
    app_identified starlette starlette-IsStarlette edge vote_route (voting none) blank calm

-- a route that answers at once and changes the state
abbrev hello : Response Unit
hello = record { status = 200; content = body tt; x_request_id = none }

abbrev emptied : World
emptied = request (record db { votes = [] }) (session []) broker

abbrev hello_route : App Unit World
hello_route req vars w = record {
  outcome = responded hello;
  world = emptied;
  millis = 5;
  cut = λ t. w;
}

app_limits_body_example :
    let req = voting (some "3000000") in
    let run = app starlette edge hello_route req (initial blank) calm in
    (IsOver edge req (pos 3000000)
      × (run.outcome
          ≡ responded (record {
            status = 413;
            content = failure "Payload too large" 0;
            x_request_id = some "4e1f";
          }))
      × (run.world ≡ calm))
    ⊎ (IsWithin edge req (pos 3000000)
        × (run.outcome ≡ responded (record hello { x_request_id = some "4e1f" }))
        × (run.world ≡ emptied))
app_limits_body_example =
    app_limits_body starlette starlette-IsStarlette edge hello_route (voting (some "3000000")) blank
      calm "3000000" (pos 3000000) hello refl refl refl (ground arith) refl

small : is_too_large edge (voting none) ≡ false
unfolding is_too_large
small = refl

german : locale_of edge (some "de-AT,de") ≡ "de"
unfolding locale_of strip
german = refl

translated :
    translate edge.files "ERRORS.NEWS.POST_NOT_FOUND" (locale_of edge (some "de-AT,de"))
    ≡ some "Publication introuvable (code: 2302)"
unfolding translate load_locale walk get_field split_char locale_of strip
translated = refl

missing :
    (Routes.cast_vote (gateway_scope (voting none).gateway blank) 4 (1 ∷ []) calm).0
    ≡ err (error_exception post_not_found 404)
unfolding Routes.cast_vote with_default_error news_board_member ensure_active_subscription
    require_min_role require_authenticated require_community find_subscription find_community
    resolve_internal_community roundtrip gateway_scope parse_user_orgs resolve_highest_role
    highest_from Votes.cast_vote get_post_with_options find_post
missing = refl

app_answers_domain_error_example :
    let run = app starlette edge vote_route (voting none) (initial blank) calm in
    (run.outcome
      ≡ responded (record {
        status = 404;
        content = failure "Publication introuvable (code: 2302)" 2302;
        x_request_id = some "4e1f";
      }))
    × (run.world ≡ (Routes.cast_vote (gateway_scope (voting none).gateway blank) 4 (1 ∷ []) calm).1)
app_answers_domain_error_example =
    app_answers_domain_error starlette starlette-IsStarlette edge vote_route (voting none) blank
      calm post_not_found 404 "Publication introuvable (code: 2302)" small refl (ground arith)
      (ap of_result missing) translated

titled : get_field "TITLE" (field "TITLE" (text "Aushang") end) ≡ some (text "Aushang")
unfolding get_field
titled = refl

-- a German catalogue beside the French one
abbrev two_catalogues : Files
two_catalogues l =
    if str_eq l "de" then some (object (field "TITLE" (text "Aushang") end)) else some catalogue

translate_resolves_example : translate two_catalogues "TITLE" "de" ≡ some "Aushang"
unfolding join_with
translate_resolves_example =
    translate_resolves two_catalogues "de" (object (field "TITLE" (text "Aushang") end)) "TITLE" []
      "Aushang" (own (inr (inr (inl refl))) refl) (refl, tt) (found (inside titled here))

abbrev deployed : Settings
deployed = record {
  env = staging;
  crm_database_url = "postgresql+asyncpg://crm";
  crm_db_pool_size = pos 20;
  crm_db_max_overflow = pos 10;
  crm_db_pool_recycle = pos 3600;
  crm_db_pool_timeout = pos 30;
  crm_db_ssl = false;
  local_database_url = "postgresql+asyncpg://local";
  local_db_pool_size = pos 20;
  local_db_max_overflow = pos 10;
  local_db_pool_recycle = pos 3600;
  local_db_pool_timeout = pos 30;
  local_db_ssl = false;
  realtime_enabled = false;
  realtime_redis_url = "";
  allow_origin = "https://app, ,https://admin";
  logging_token = "";
  logging_traces_url = "";
  logging_logs_url = "";
  logging_metrics_url = "";
}

accepted : validate_env_config deployed ≡ none
unfolding validate_env_config origins_of strip split_char
accepted = refl

validate_env_config-deployed_example :
    ((cors_options deployed).allow_origins ≢ [])
    × All IsNamed (cors_options deployed).allow_origins
    × (truthy (some (strip deployed.crm_database_url)) ≡ true)
    × (truthy (some (strip deployed.local_database_url)) ≡ true)
    × (documentation deployed ≡ record { docs_url = none; redoc_url = none; openapi_url = none })
validate_env_config-deployed_example = validate_env_config-deployed deployed refl accepted

abbrev publisher : RealtimeSettings
publisher = record {
  realtime_enabled = true;
  realtime_redis_url = "redis" ++ sep_then (":s3cret" ++ ("@" ∷ₛ "redis:6379/0"));
  encoding = encoding;
}

log_realtime_state-hides_example :
    log_realtime_state publisher "news-board api"
    ≡ ready "news-board api" ("redis" ++ ("://***@" ++ "redis:6379/0"))
log_realtime_state-hides_example =
    log_realtime_state-hides publisher "news-board api" "redis" ":s3cret" "redis:6379/0" refl refl
      refl refl

-- a vote that takes too long, and is cancelled after its commit
abbrev slow : FastApi
slow = record { route = λ req. routed (cast 1 (2 ∷ [])); millis = 40000; committed = λ t. true }

app-board-IsConsistent_example :
    IsConsistent
      (app starlette edge (board slow) (voting none) (initial blank) calm).world.local.saved
app-board-IsConsistent_example =
    app-board-IsConsistent db (session []) broker db-IsConsistent starlette edge slow (voting none)
      blank starlette-IsStarlette
