-- ===== src/Http/Board.antt =====
-- api/news/routes.py under the stack of main.py: the routes as an application, and what any
-- request leaves of the local database.
use news_board.Prelude.{ℕ, Bool, Bool-cases, none, List, ◌≡◌, refl, inl, inr, leb, if◌then◌else◌}
use news_board.Context.{Context}
use news_board.Exec.{Result, ok, err}
use news_board.Crm.{CrmSession}
use news_board.Realtime.{Broker}
use news_board.Local.{Db}
use news_board.Local.Consistency.{IsConsistent}
use news_board.World.{World, request}
use news_board.News.Schemas.{PostListItem, PostDetail, PollResults}
use news_board.News.Reads.{Pagination}
use news_board.Routes
use news_board.Routes.Serve.{
  Call, create, list_page, read, update, delete, cast, retract, results, serve, serve-IsConsistent,
}
use news_board.Http.{Request, Vars, Response, body, Outcome, responded, raised, Run, App, Edge}
use news_board.Http.Handlers.{error_exception_handler}
use news_board.Http.Middleware.{locale_scope, locale_of, request_limits, is_too_large}
use news_board.Http.Main.{Starlette, IsStarlette, app, initial}
use news_board.Http.Answers.{app-limited, scoped_vars}

-- the `data` of an `ApiResponse`
pub data Answer : Type 0 where
  created : ℕ → Answer
  page : List PostListItem → Pagination → Answer
  post : PostDetail → Answer
  success : Answer
  tallies : PollResults → Answer

abbrev answer : {A : Type 0} → (A → Answer) → Result A × World → Result Answer × World
answer f (ok a, w) = (ok (f a), w)
answer f (err e, w) = (err e, w)

-- one call of a route, with its answer
unfoldable pub perform : Context → Call → World → Result Answer × World
perform ctx (create cfg req) w = answer created (Routes.create_post cfg ctx req w)
perform ctx (list_page i size) w = answer (λ p. page p.0 p.1) (Routes.list_posts ctx i size w)
perform ctx (read i) w = answer post (Routes.get_post ctx i w)
perform ctx (update i req) w = answer post (Routes.update_post ctx i req w)
perform ctx (delete i) w = answer (λ u. success) (Routes.delete_post ctx i w)
perform ctx (cast i ids) w = answer (λ u. success) (Routes.cast_vote ctx i ids w)
perform ctx (retract i) w = answer (λ u. success) (Routes.retract_vote ctx i w)
perform ctx (results i) w = answer tallies (Routes.get_results ctx i w)

answer-world : {A : Type 0} (f : A → Answer) (x : Result A × World) → (answer f x).1 ≡ x.1
answer-world f (ok a, w) = refl
answer-world f (err e, w) = refl

perform-serve :
    (ctx : Context) (call : Call) (w : World) → (perform ctx call w).1 ≡ serve ctx call w
unfolding perform serve
perform-serve ctx (create cfg req) w = answer-world created (Routes.create_post cfg ctx req w)
perform-serve ctx (list_page i size) w =
    answer-world (λ p. page p.0 p.1) (Routes.list_posts ctx i size w)
perform-serve ctx (read i) w = answer-world post (Routes.get_post ctx i w)
perform-serve ctx (update i req) w = answer-world post (Routes.update_post ctx i req w)
perform-serve ctx (delete i) w = answer-world (λ u. success) (Routes.delete_post ctx i w)
perform-serve ctx (cast i ids) w = answer-world (λ u. success) (Routes.cast_vote ctx i ids w)
perform-serve ctx (retract i) w = answer-world (λ u. success) (Routes.retract_vote ctx i w)
perform-serve ctx (results i) w = answer-world tallies (Routes.get_results ctx i w)

-- What FastAPI makes of a request: a call with its parsed arguments, or a response of its own.
pub data Routed : Type 0 where
  routed : Call → Routed
  refused : Response Answer → Routed

-- FastAPI, how long the request takes, and from which moment its commit has been made.
pub record FastApi : Type 0 where
  pub route : Request → Routed
  pub millis : ℕ
  pub committed : ℕ → Bool

abbrev outcome_of : Result Answer → Outcome Answer
outcome_of (ok a) = responded (record { status = 200; content = body a; x_request_id = none })
outcome_of (err e) = raised e

abbrev respond : FastApi → Routed → Vars → World → Run Answer World
respond fa (refused r) vars w = record {
  outcome = responded r;
  world = w;
  millis = fa.millis;
  cut = λ t. w;
}
respond fa (routed call) vars w = record {
  outcome = outcome_of (perform vars.ctx call w).0;
  world = (perform vars.ctx call w).1;
  millis = fa.millis;
  cut = λ t. if fa.committed t then (perform vars.ctx call w).1 else w;
}

-- the router, over one request's world
unfoldable pub board : FastApi → App Answer World
board fa req vars w = respond fa (fa.route req) vars w

-- Every moment of a run has a consistent database.
abbrev Safe : Run Answer World → Type 0
Safe run = IsConsistent run.world.local.saved × ((t : ℕ) → IsConsistent (run.cut t).local.saved)

module _ (d : Db) (crm : CrmSession) (broker : Broker) (c : IsConsistent d) where
  respond-Safe :
      (fa : FastApi) (r : Routed) (vars : Vars) → Safe (respond fa r vars (request d crm broker))
  respond-Safe fa (refused r) vars = (c, λ t. c)
  respond-Safe fa (routed call) vars =
      let w = request d crm broker in
      let kept : IsConsistent (perform vars.ctx call w).1.local.saved =
        rw (perform-serve vars.ctx call w) (serve-IsConsistent vars.ctx call d crm broker c) in
      (
        kept,
        λ t. elim (Bool-cases (fa.committed t)) [
          | inl done ↦ rw done kept
          | inr early ↦ rw early c
        ],
      )

  cors-Safe :
      (fw : Starlette Answer World) (edge : Edge) (fa : FastApi) (req : Request) (vars : Vars)
      → IsStarlette fw
      → Safe (
          fw.cors
            (locale_scope edge (fw.exceptions (error_exception_handler edge) (board fa)))
            req
            vars
            (request d crm broker))
  unfolding locale_scope board
  cors-Safe fw edge fa req vars laws =
      let w = request d crm broker in
      let inner : App Answer World =
        locale_scope edge (fw.exceptions (error_exception_handler edge) (board fa)) in
      let scoped : Vars = record vars { locale = locale_of edge req.accept_language } in
      let safe = respond-Safe fa (fa.route req) scoped in
      elim (Bool-cases (fw.is_preflight req)) [
        | inl preflight ↦
            let (world, cut) = laws.preflight_answered inner req vars w preflight in
            (rw world c, λ t. rw (cut t) c)
        | inr simple ↦
            rw
              (
                laws.cors_passes inner req vars w simple,
                laws.exceptions_handled (error_exception_handler edge) (board fa) req scoped w,
              )
              safe
      ]

  limits-Safe :
      (edge : Edge) (next : App Answer World) (req : Request) (vars : Vars)
      → Safe (next req vars (request d crm broker))
      → IsConsistent (request_limits edge next req vars (request d crm broker)).world.local.saved
  unfolding request_limits
  limits-Safe edge next req vars (kept, stopped) = elim (Bool-cases (is_too_large edge req)) [
    | inl large ↦ rw large c
    | inr small ↦ elim (Bool-cases (leb (next req vars (request d crm broker)).millis 30000)) [
      | inl fast ↦ rw (small, fast) kept
      | inr slow ↦ rw (small, slow) (stopped 30000)
    ]
  ]

  -- Under Starlette's documented behaviour, any request through the whole stack to the routes
  -- of the board, of whatever size and language, answered or raising, on a consistent database,
  -- leaves a consistent one committed, also where it takes more than 30 seconds and is
  -- cancelled before or after its commit.
  pub app-board-IsConsistent :
      (fw : Starlette Answer World) (edge : Edge) (fa : FastApi) (req : Request) (ctx : Context)
      → IsStarlette fw
      → IsConsistent
          (app fw edge (board fa) req (initial ctx) (request d crm broker)).world.local.saved
  app-board-IsConsistent fw edge fa req ctx laws =
      let vars = scoped_vars fw laws edge (board fa) req ctx (request d crm broker) in
      rw (app-limited fw laws edge (board fa) req ctx (request d crm broker)) (
        limits-Safe edge
          (fw.cors (locale_scope edge (fw.exceptions (error_exception_handler edge) (board fa))))
          req vars (cors-Safe fw edge fa req vars laws))
