-- ===== src/Http/Main.antt =====
-- main.py: the middleware in its order, and the exception handlers.
use news_board.Prelude.{true, ℕ, Bool, false, none, ◌≡◌}
use news_board.Errors.{Error, error_exception, unexpected}
use news_board.Context.{Context}
use news_board.Http.{Request, Vars, Response, Outcome, responded, raised, timed_out, App, Edge}
use news_board.Http.Handlers.{error_exception_handler, unhandled_exception_handler}
use news_board.Http.Middleware.{correlation_id, locale_scope, gateway, request_limits}

-- What Starlette puts into the stack: `CORSMiddleware`, the layer that calls the handler of
-- `ErrorException` around the router, and the outermost layer that calls the handler of `Exception`.
pub record Starlette (B W : Type 0) : Type 0 where
  pub is_preflight : Request → Bool
  pub cors : App B W → App B W
  pub exceptions : (Vars → Error → ℕ → Outcome B) → App B W → App B W
  pub server_errors : (Vars → Response B) → App B W → App B W

-- the handler of `ErrorException`, over what the router raised
abbrev pub handle_domain : {B : Type 0} → (Error → ℕ → Outcome B) → Outcome B → Outcome B
handle_domain h (responded r) = responded r
handle_domain h (raised (error_exception e status)) = h e status
handle_domain h (raised unexpected) = raised unexpected
handle_domain h timed_out = timed_out

-- the handler of `Exception`, over what nothing else has handled
abbrev pub handle_any : {B : Type 0} → Response B → Outcome B → Outcome B
handle_any r (responded s) = responded s
handle_any r (raised e) = responded r
handle_any r timed_out = responded r

-- What Starlette documents of them: a request that is no preflight passes CORS (its headers are
-- left out here), a preflight is answered without the rest, and the two handlers answer for the
-- exceptions that reach them.
pub record IsStarlette {B W : Type 0} (fw : Starlette B W) : Type 0 where
  pub cors_passes :
      (next : App B W) (req : Request) (vars : Vars) (w : W)
      → fw.is_preflight req ≡ false
      → fw.cors next req vars w ≡ next req vars w
  pub preflight_answered :
      (next : App B W) (req : Request) (vars : Vars) (w : W)
      → fw.is_preflight req ≡ true
      → ((fw.cors next req vars w).world ≡ w) × ((t : ℕ) → (fw.cors next req vars w).cut t ≡ w)
  pub exceptions_handled :
      (h : Vars → Error → ℕ → Outcome B) (next : App B W) (req : Request) (vars : Vars) (w : W)
      → fw.exceptions h next req vars w
        ≡ record (next req vars w) { outcome = handle_domain (h vars) (next req vars w).outcome }
  pub errors_handled :
      (h : Vars → Response B) (next : App B W) (req : Request) (vars : Vars) (w : W)
      → fw.server_errors h next req vars w
        ≡ record (next req vars w) { outcome = handle_any (h vars) (next req vars w).outcome }

-- the context variables before the first middleware
abbrev pub initial : Context → Vars
initial ctx = record { ctx = ctx; locale = "fr_FR"; request_id = none }

-- The stack: `add_middleware` puts each one around those before it.
unfoldable pub app : {B W : Type 0} → Starlette B W → Edge → App B W → App B W
app fw edge routes = fw.server_errors unhandled_exception_handler (
    gateway (
      correlation_id edge (
        request_limits edge
          (fw.cors (locale_scope edge (fw.exceptions (error_exception_handler edge) routes))))))
