-- ===== src/Telemetry.antt =====
-- core/logging.py: the handlers of the root logger, and the filter that stamps their records.
pub mod Tracing
pub mod Spans
pub mod Handlers
pub mod Health
use news_board.Prelude.{
  String, Bool, true, false, Option, none, some, List, [], ◌∷◌, truthy, if◌then◌else◌, ℕ,
}
use news_board.Config.{Environment, local, staging}
use news_board.Http.{Vars}

-- where the records of a handler go: the console, or the log provider with a number
pub data Sink : Type 0 where
  console : Sink
  otlp : ℕ → Sink

-- a handler of the root logger; `fields` are those of its format, `stamped` says that it has a
-- `RequestIdFilter`
pub record Handler : Type 0 where
  pub sink : Sink
  pub json : Bool
  pub fields : List String
  pub stamped : Bool

pub data Level : Type 0 where
  debug info warning : Level

-- the root logger, and the levels of the two loggers that are silenced
pub record Loggers : Type 0 where
  pub handlers : List Handler
  pub level : Level
  pub sqlalchemy_level : Level
  pub uvicorn_level : Level

-- what `RequestIdFilter.filter` writes on a record
pub record Stamp : Type 0 where
  pub request_id : String
  pub user_id : String
  pub community_id : String
  pub user_role : String

abbrev pub or_text : String → Option String → String
or_text s none = s
or_text s (some t) = if truthy (some t) then t else s

unfoldable pub stamp : Vars → Stamp
stamp vars = record {
  request_id = or_text "-" vars.request_id;
  user_id = or_text "-" vars.ctx.user_id;
  community_id = or_text "-" vars.ctx.community_id;
  user_role = or_text "-" vars.ctx.user_role;
}

abbrev local_handler : Handler
local_handler = record {
  sink = console;
  json = false;
  fields =
      "asctime" ∷ "levelname" ∷ "name" ∷ "request_id" ∷ "user_id" ∷ "community_id" ∷ "message" ∷ [];
  stamped = true;
}

abbrev staging_handler : Handler
staging_handler = record {
  sink = console;
  json = true;
  fields =
      "asctime" ∷ "levelname" ∷ "name" ∷ "request_id" ∷ "user_id" ∷ "community_id" ∷ "user_role"
      ∷ "message" ∷ [];
  stamped = true;
}

-- the root logger, and the third-party loggers at WARNING
abbrev silenced : List Handler → Level → Loggers
silenced handlers level = record {
  handlers = handlers;
  level = level;
  sqlalchemy_level = warning;
  uvicorn_level = warning;
}

-- `configure_logging`: what was there is cleared
unfoldable pub configure_logging : Environment → Loggers
configure_logging env = elim env [
  | local ↦ silenced (local_handler ∷ []) debug
  | staging ↦ silenced (staging_handler ∷ []) info
  | _ ↦ silenced [] info
]
