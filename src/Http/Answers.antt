-- ===== src/Http/Answers.antt =====
-- The responses that leave the stack of main.py.
use news_board.Prelude.{
  ℕ, String, true, false, none, some, ◌≡◌, refl, inl, inr, ◌⊎◌, leb, ◌≤◌, ◌<◌, arith,
}
use news_board.Prelude.Int.{ℤ}
use news_board.Errors.{Error, Exception, error_exception}
use news_board.Context.{Context}
use news_board.Security.{gateway_scope}
use news_board.Http.{
  Request, Vars, Response, failure, Outcome, responded, raised, timed_out, App, Edge,
}
use news_board.Http.Translate.{translate}
use news_board.Http.Handlers.{error_exception_handler, unhandled_exception_handler}
use news_board.Http.Middleware.{
  correlation_id, locale_scope, locale_of, gateway, request_limits, request_id_of, is_too_large,
  too_slow, map_response, catch_timeout,
}
use news_board.Http.Main.{Starlette, IsStarlette, app, initial, handle_any, handle_domain}
use news_board.Http.Limits.{
  IsOver, IsWithin, IsOver-is_too_large, IsWithin-is_too_large, size-cases,
}

abbrev pub internal_error : {B : Type 0} → Response B
internal_error = record {
  status = 500;
  content = failure "Erreur interne du serveur" 0;
  x_request_id = none;
}

Outcome-cases :
    {B : Type 0} (o : Outcome B)
    → ((r : Response B) × (o ≡ responded r))
      ⊎ (((e : Exception) × (o ≡ raised e)) ⊎ (o ≡ timed_out))
Outcome-cases (responded r) = inl (r, refl)
Outcome-cases (raised e) = inr (inl (e, refl))
Outcome-cases timed_out = inr (inr refl)

module _ {B W : Type 0} (fw : Starlette B W) (laws : IsStarlette fw) (edge : Edge)
    (routes : App B W) (req : Request) (ctx : Context) (w : W) where
  -- what is inside the correlation middleware
  abbrev limited : App B W
  limited =
      request_limits edge
        (fw.cors (locale_scope edge (fw.exceptions (error_exception_handler edge) routes)))

  abbrev pub scoped_vars : Vars
  scoped_vars = record {
    ctx = gateway_scope req.gateway ctx;
    locale = "fr_FR";
    request_id = some (request_id_of edge req);
  }

  abbrev mark : Response B → Response B
  mark r = record r { x_request_id = some (request_id_of edge req) }

  -- the outer layers, over what is inside them
  pub app-limited : app fw edge routes req (initial ctx) w ≡ record (limited req scoped_vars w) {
    outcome = handle_any internal_error (map_response mark (limited req scoped_vars w).outcome);
  }
  unfolding app gateway correlation_id unhandled_exception_handler
  app-limited =
      laws.errors_handled unhandled_exception_handler (gateway (correlation_id edge limited)) req
        (initial ctx) w

  -- Under Starlette's documented behaviour, every request is answered: with a response that has
  -- the id of the request, the one sent or a new one, in X-Request-ID, or with the status 500,
  -- the message Erreur interne du serveur, the code 0 and no X-Request-ID.
  pub app_identified :
      let o = (app fw edge routes req (initial ctx) w).outcome in
      ((r : Response B) × (o ≡ responded r) × (r.x_request_id ≡ some (request_id_of edge req)))
      ⊎ (o ≡ responded internal_error)
  app_identified = elim (Outcome-cases (limited req scoped_vars w).outcome) [
    | inl (r, e) ↦ inl (mark r, rw (app-limited, e) refl, refl)
    | inr (inl (x, e)) ↦ inr (rw (app-limited, e) refl)
    | inr (inr e) ↦ inr (rw (app-limited, e) refl)
  ]

  -- a request that is over the limit of its route
  app_rejects_large :
      (header : String) (n : ℤ)
      → req.content_length ≡ some header
      → edge.int_of header ≡ some n
      → IsOver edge req n
      → let run = app fw edge routes req (initial ctx) w in
        (run.outcome
          ≡ responded (record {
            status = 413;
            content = failure "Payload too large" 0;
            x_request_id = some (request_id_of edge req);
          }))
        × (run.world ≡ w)
  unfolding request_limits
  app_rejects_large header n sent read over =
      let large = IsOver-is_too_large edge req header n sent read over in
      (rw (app-limited, large) refl, rw (app-limited, large) refl)

  -- what a route sees of the request
  abbrev route_vars : Vars
  route_vars = record scoped_vars { locale = locale_of edge req.accept_language }

  -- a request that the limits and CORS let through
  app-routes :
      is_too_large edge req ≡ false
      → fw.is_preflight req ≡ false
      → (routes req route_vars w).millis ≤ 30000
      → let run = routes req route_vars w in
        app fw edge routes req (initial ctx) w ≡ record run {
          outcome = handle_any internal_error (
              map_response mark (
                catch_timeout
                  (handle_domain (error_exception_handler edge route_vars) run.outcome)));
        }
  unfolding request_limits locale_scope
  app-routes small simple fast =
      let in_time : leb (routes req route_vars w).millis 30000 ≡ true = ground arith in
      rw
        (
          app-limited,
          small,
          laws.cors_passes (locale_scope edge (fw.exceptions (error_exception_handler edge) routes))
              req scoped_vars w simple,
          laws.exceptions_handled (error_exception_handler edge) routes req route_vars w,
          in_time,
        )
        refl

  -- Under Starlette's documented behaviour, take a request that is no CORS preflight, that
  -- declares an integer as its length, and that its route would answer within 30 seconds. If
  -- the length exceeds 50 MB on POST /, or 2 MB on every other method and path, the response
  -- has the status 413, the text Payload too large and the id of the request, and the state is
  -- left as it was; else the response is that of the route with the id of the request, and the
  -- state is the one that the route left.
  pub app_limits_body :
      (header : String) (n : ℤ) (r : Response B)
      → req.content_length ≡ some header
      → edge.int_of header ≡ some n
      → fw.is_preflight req ≡ false
      → (routes req route_vars w).millis ≤ 30000
      → (routes req route_vars w).outcome ≡ responded r
      → let run = app fw edge routes req (initial ctx) w in
        (IsOver edge req n
          × (run.outcome
              ≡ responded (record {
                status = 413;
                content = failure "Payload too large" 0;
                x_request_id = some (request_id_of edge req);
              }))
          × (run.world ≡ w))
        ⊎ (IsWithin edge req n
            × (run.outcome ≡ responded (record r { x_request_id = some (request_id_of edge req) }))
            × (run.world ≡ (routes req route_vars w).world))
  app_limits_body header n r sent read simple fast answered = elim (size-cases edge req n) [
    | inl over ↦
        let (answer, state) = app_rejects_large header n sent read over in inl (over, answer, state)
    | inr within ↦
        let passed =
          app-routes (IsWithin-is_too_large edge req header n sent read within) simple fast in
        inr (within, rw (passed, answered) refl, rw passed refl)
  ]

  -- the handler of a domain error, below the correlation middleware
  answer-marked :
      (e : Error) (status : ℕ) (message : String)
      → translate edge.files e.key (locale_of edge req.accept_language) ≡ some message
      → handle_any internal_error
          (map_response mark (catch_timeout (error_exception_handler edge route_vars e status)))
        ≡ responded (record {
          status = status;
          content = failure message e.code;
          x_request_id = some (request_id_of edge req);
        })
  unfolding error_exception_handler
  answer-marked e status message translated = ground (arith, translated)

  -- Under Starlette's documented behaviour, where a route raises a domain error within 30
  -- seconds, on a request that is no CORS preflight and not too large, and the error's key has
  -- a translation in the language of the request, the response of the whole stack has the
  -- status and the code of the error, that translation as its message and the id of the request
  -- in X-Request-ID, and the state is the one that the route left.
  pub app_answers_domain_error :
      (e : Error) (status : ℕ) (message : String)
      → is_too_large edge req ≡ false
      → fw.is_preflight req ≡ false
      → (routes req route_vars w).millis ≤ 30000
      → (routes req route_vars w).outcome ≡ raised (error_exception e status)
      → translate edge.files e.key (locale_of edge req.accept_language) ≡ some message
      → let run = app fw edge routes req (initial ctx) w in
        (run.outcome
          ≡ responded (record {
            status = status;
            content = failure message e.code;
            x_request_id = some (request_id_of edge req);
          }))
        × (run.world ≡ (routes req route_vars w).world)
  app_answers_domain_error e status message small simple fast failed translated = (
    rw (app-routes small simple fast, failed) (answer-marked e status message translated),
    rw (app-routes small simple fast) refl,
  )

  -- a request whose route is not done in time
  pub app_times_out :
      is_too_large edge req ≡ false
      → fw.is_preflight req ≡ false
      → 30000 < (routes req route_vars w).millis
      → let run = app fw edge routes req (initial ctx) w in
        (run.outcome ≡ responded (mark too_slow))
        × (run.world ≡ (routes req route_vars w).cut 30000)
  unfolding request_limits locale_scope
  app_times_out small simple slow =
      let in_time : leb (routes req route_vars w).millis 30000 ≡ false = ground arith in
      rw
        (
          app-limited,
          small,
          laws.cors_passes (locale_scope edge (fw.exceptions (error_exception_handler edge) routes))
              req scoped_vars w simple,
          laws.exceptions_handled (error_exception_handler edge) routes req route_vars w,
          in_time,
        )
        (refl, refl)
