-- ===== src/Http.antt =====
-- The HTTP edge: what core/middleware/, core/errors/handlers.py and main.py put around the routes.
pub mod Translate
pub mod Resolved
pub mod Handlers
pub mod Middleware
pub mod Main
pub mod Limits
pub mod Answers
pub mod Board
use news_board.Prelude.{ℕ, String, Option}
use news_board.Prelude.Int.{ℤ}
use news_board.Errors.{Exception}
use news_board.Context.{Context}
use news_board.Security.{Headers}
use Translate.{Files}

-- What the middleware reads of a request; a header that is absent is `none`.
pub record Request : Type 0 where
  pub method : String
  pub path : String
  pub gateway : Headers
  pub x_request_id : Option String
  pub accept_language : Option String
  pub content_length : Option String

-- The context variables: those of the services, `current_locale` and `current_request_id`.
pub record Vars : Type 0 where
  pub ctx : Context
  pub locale : String
  pub request_id : Option String

-- The body of a response: what a route returned, or `data` and `error_code` of an error.
pub data Content (B : Type 0) : Type 0 where
  body : B → Content B
  failure : String → ℕ → Content B

-- A response, with its header `X-Request-ID`.
pub record Response (B : Type 0) : Type 0 where
  pub status : ℕ
  pub content : Content B
  pub x_request_id : Option String

pub data Outcome (B : Type 0) : Type 0 where
  responded : Response B → Outcome B
  raised : Exception → Outcome B
  timed_out : Outcome B

-- One run of an application: what comes of it, the state it leaves, the milliseconds it takes, and
-- the state it has reached where it is cancelled after some milliseconds.
pub record Run (B W : Type 0) : Type 0 where
  pub outcome : Outcome B
  pub world : W
  pub millis : ℕ
  pub cut : ℕ → W

abbrev pub App : Type 0 → Type 0 → Type 0
App B W = Request → Vars → W → Run B W

-- What the standard library gives in one request: `str.lower`, `str.upper`, `int` of a text (`none`
-- is its `ValueError`), and `str(uuid.uuid4())`; and the catalogues under locales/.
pub record Edge : Type 0 where
  pub lower : String → String
  pub upper : String → String
  pub int_of : String → Option ℤ
  pub uuid4 : String
  pub files : Files
