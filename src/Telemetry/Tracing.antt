-- ===== src/Telemetry/Tracing.antt =====
-- core/tracing.py: `setup_tracer_provider` and `shutdown_telemetry`.
use Prim.Native.String.{◌++◌}
use news_board.Prelude.{
  ℕ, suc, ◌*◌, String, Bool, true, false, not, Option, none, some, List, [], ◌∷◌, ◌++◌ as ◌++ₗ◌,
  filter, truthy, ◌||◌, ◌==◌, if◌then◌else◌,
}
use news_board.Config.{Settings, is_local}
use news_board.Telemetry.{Sink, console, otlp, Handler, Loggers}

abbrev pub exporter_timeout_seconds : ℕ
exporter_timeout_seconds = 5

abbrev pub exporter_timeout_ms : ℕ
exporter_timeout_ms = exporter_timeout_seconds * 1000

-- an OTLP exporter and the provider around it, with its number
pub record Provider : Type 0 where
  pub number : ℕ
  pub endpoint : String
  pub authorization : String
  pub timeout : ℕ

-- the state of the process: the loggers, the three globals, and the handlers for its exit
pub record Process : Type 0 where
  pub loggers : Loggers
  pub log_provider : Option Provider
  pub meter_provider : Option Provider
  pub log_handler : Option Handler
  pub at_exit : ℕ
  pub next_provider : ℕ

abbrev provider : Settings → ℕ → String → Provider
provider s n url = record {
  number = n;
  endpoint = url;
  authorization = "Bearer " ++ s.logging_token;
  timeout = exporter_timeout_seconds;
}

abbrev pub otlp_handler : ℕ → Handler
otlp_handler n = record { sink = otlp n; json = false; fields = []; stamped = true }

abbrev add_handler : Handler → Loggers → Loggers
add_handler h l = record l { handlers = l.handlers ++ₗ h ∷ [] }

-- the environments and settings that export nothing
abbrev pub is_silent : Settings → Bool
is_silent s =
    is_local s.env
    || not (truthy (some s.logging_metrics_url))
    || not (truthy (some s.logging_logs_url))

unfoldable pub setup_tracer_provider : Settings → Process → Process
setup_tracer_provider s p =
    let n = p.next_provider in
    if is_silent s then p else record {
      loggers = add_handler (otlp_handler n) p.loggers;
      log_provider = some (provider s n s.logging_logs_url);
      meter_provider = some (provider s n s.logging_metrics_url);
      log_handler = some (otlp_handler n);
      at_exit = suc p.at_exit;
      next_provider = suc n;
    }

abbrev pub is_sink : Sink → Sink → Bool
is_sink console console = true
is_sink console (otlp n) = false
is_sink (otlp n) console = false
is_sink (otlp n) (otlp m) = n == m

-- `logging.getLogger().removeHandler(h)`
abbrev remove_handler : Handler → Loggers → Loggers
remove_handler h l = record l { handlers = filter (λ g. not (is_sink g.sink h.sink)) l.handlers }

-- the calls on the providers, with their budgets
pub data Call : Type 0 where
  force_flush : Provider → ℕ → Call
  shut_down : Provider → ℕ → Call

abbrev detach : Option Handler → Process → Process
detach none p = p
detach (some h) p = record p { loggers = remove_handler h p.loggers; log_handler = none }

-- the logs; a failure of the flush is logged and leaves the handler
abbrev flush_logs : ℕ → Bool → Option Provider → Process → List Call × Process
flush_logs budget fails none p = ([], p)
flush_logs budget true (some l) p = (force_flush l budget ∷ [], p)
flush_logs budget false (some l) p = (force_flush l budget ∷ [], detach p.log_handler p)

-- the metrics; a failure is logged
abbrev flush_metrics : ℕ → Option Provider → List Call
flush_metrics budget none = []
flush_metrics budget (some m) = shut_down m budget ∷ []

-- `shutdown_telemetry`, where the flush of the logs may fail
unfoldable pub shutdown_telemetry : ℕ → Bool → Process → List Call × Process
shutdown_telemetry budget fails p =
    let (calls, q) = flush_logs budget fails p.log_provider p in
    (calls ++ₗ flush_metrics budget p.meter_provider, q)
