-- ===== src/Http/Handlers.antt =====
-- core/errors/handlers.py: the responses to exceptions.
use news_board.Prelude.{ℕ, String, Option, none, some, truthy, if◌then◌else◌}
use news_board.Errors.{Error, unexpected}
use news_board.Http.{Edge, Vars, Response, failure, Outcome, responded, raised}
use news_board.Http.Translate.{translate}

-- `if request_id: response.headers["X-Request-ID"] = request_id`
abbrev pub identify : {B : Type 0} → Option String → Response B → Response B
identify request_id r = if truthy request_id then record r { x_request_id = request_id } else r

-- `error_exception_handler`; a missing default catalogue raises in it
unfoldable pub error_exception_handler : {B : Type 0} → Edge → Vars → Error → ℕ → Outcome B
error_exception_handler edge vars e status = elim (translate edge.files e.key vars.locale) [
  | none ↦ raised unexpected
  | some message ↦ responded (
      identify vars.request_id
        (record { status = status; content = failure message e.code; x_request_id = none }))
]

-- `unhandled_exception_handler`
unfoldable pub unhandled_exception_handler : {B : Type 0} → Vars → Response B
unhandled_exception_handler vars =
    identify vars.request_id (record {
      status = 500;
      content = failure "Erreur interne du serveur" 0;
      x_request_id = none;
    })
