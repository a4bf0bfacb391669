-- ===== src/Telemetry/Spans.antt =====
-- core/tracing.py: what a request's span is told.
use news_board.Prelude.{String, Bool, true, false, Option, none, some, List, [], ◌∷◌}
use news_board.Http.{Vars}
use news_board.Telemetry.{or_text}

pub data StatusCode : Type 0 where
  unset okay error : StatusCode

-- the calls on a span
pub data SpanCall : Type 0 where
  set_attribute : String → String → SpanCall
  add_span_event : String → List (String × String) → SpanCall
  record_exception : String → SpanCall
  set_status : StatusCode → String → SpanCall

-- the current span, as the code asks it: whether it records, and its status
pub record Span : Type 0 where
  pub recording : Bool
  pub status : StatusCode

-- `if span and span.is_recording()`
abbrev when_recording : Option Span → List SpanCall → List SpanCall
when_recording none calls = []
when_recording (some s) calls = elim s.recording [ true ↦ calls | false ↦ [] ]

-- `enrich_span`, before its `yield`
unfoldable pub enrich_span : Option Span → Vars → List SpanCall
enrich_span span vars = when_recording span (
    set_attribute "user.id" (or_text "" vars.ctx.user_id)
    ∷ set_attribute "user.role" (or_text "" vars.ctx.user_role)
    ∷ set_attribute "request.id" (or_text "" vars.request_id)
    ∷ [])

abbrev finish_with : StatusCode → List SpanCall
finish_with unset = set_status okay "" ∷ []
finish_with okay = []
finish_with error = []

-- its `finally`, with the status of the span at that moment; an exception of the route goes on
unfoldable pub finish_span : Option Span → List SpanCall
finish_span none = []
finish_span (some s) = when_recording (some s) (finish_with s.status)

unfoldable pub add_attribute : Option Span → String → String → List SpanCall
add_attribute span key value = when_recording span (set_attribute key value ∷ [])

unfoldable pub add_event : Option Span → String → Option (List (String × String)) → List SpanCall
add_event span name none = when_recording span (add_span_event name [] ∷ [])
add_event span name (some attributes) = when_recording span (add_span_event name attributes ∷ [])

-- with `str(exception)`
unfoldable pub add_exception : Option Span → String → List SpanCall
add_exception span message =
    when_recording span (record_exception message ∷ set_status error message ∷ [])

unfoldable pub set_span_status : Option Span → StatusCode → String → List SpanCall
set_span_status span status message = when_recording span (set_status status message ∷ [])
