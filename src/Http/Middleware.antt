-- ===== src/Http/Middleware.antt =====
-- core/middleware/: each `dispatch`, as an application around the next one.
use news_board.Prelude.{
  ℕ, String, Bool, false, not, Option, none, some, List, [], ◌∷◌, ◌*◌, leb, truthy, str_eq, ◌&&◌,
  if◌then◌else◌,
}
use news_board.Prelude.Int.{ℤ, pos, leb_ℤ}
use news_board.Prelude.Text.{before_char, strip}
use news_board.Security.{gateway_scope}
use news_board.Http.{
  Request, Response, failure, Outcome, responded, raised, timed_out, Run, App, Edge,
}
use news_board.Http.Translate.{default_locale, is_supported}

-- the response that leaves a middleware
abbrev pub map_response : {B : Type 0} → (Response B → Response B) → Outcome B → Outcome B
map_response f (responded r) = responded (f r)
map_response f (raised e) = raised e
map_response f timed_out = timed_out

-- correlation_id.py: `request.headers.get(HEADER_NAME) or str(uuid.uuid4())`
abbrev pub request_id_of : Edge → Request → String
request_id_of edge req = elim req.x_request_id [
  | none ↦ edge.uuid4
  | some i ↦ if truthy (some i) then i else edge.uuid4
]

-- `CorrelationIdMiddleware.dispatch`
unfoldable pub correlation_id : {B W : Type 0} → Edge → App B W → App B W
correlation_id edge next req vars w =
    let id = request_id_of edge req in
    let run = next req (record vars { request_id = some id }) w in
    record run { outcome = map_response (λ r. record r { x_request_id = some id }) run.outcome }

abbrev or_default : Option String → String
or_default none = default_locale
or_default (some s) = s

-- locale_middleware.py: the first language tag without its region
unfoldable pub locale_of : Edge → Option String → String
locale_of edge accept_language =
    let locale =
      edge.lower (strip (before_char 45 (before_char 44 (or_default accept_language)))) in
    if is_supported locale then locale else default_locale

-- `LocaleMiddleware.dispatch`
unfoldable pub locale_scope : {B W : Type 0} → Edge → App B W → App B W
locale_scope edge next req vars w =
    next req (record vars { locale = locale_of edge req.accept_language }) w

-- `GatewayScopeMiddleware.dispatch`
unfoldable pub gateway : {B W : Type 0} → App B W → App B W
gateway next req vars w = next req (record vars { ctx = gateway_scope req.gateway vars.ctx }) w

-- request_limits.py
abbrev pub max_body_bytes : ℕ
max_body_bytes = 2 * 1024 * 1024

abbrev pub upload_max_body_bytes : ℕ
upload_max_body_bytes = 50 * 1024 * 1024

abbrev upload_routes : List (String × String)
upload_routes = ("POST", "/") ∷ []

abbrev pub timeout_seconds : ℕ
timeout_seconds = 30

unfoldable pub max_body_in : List (String × String) → String → String → ℕ
max_body_in [] method path = max_body_bytes
max_body_in ((m, p) ∷ routes) method path =
    let rest = max_body_in routes method path in
    if str_eq method m && str_eq path p then upload_max_body_bytes else rest

-- `_max_body_for`
unfoldable pub max_body_for : Edge → Request → ℕ
unfolding max_body_in
max_body_for edge req = max_body_in upload_routes (edge.upper req.method) req.path

-- `int(content_length) > max_bytes`, where the header is an integer
abbrev exceeds : ℕ → Option ℤ → Bool
exceeds cap none = false
exceeds cap (some n) = not (leb_ℤ n (pos cap))

abbrev declared : Edge → Option String → Option ℤ
declared edge none = none
declared edge (some s) = edge.int_of s

unfoldable pub is_too_large : Edge → Request → Bool
is_too_large edge req = exceeds (max_body_for edge req) (declared edge req.content_length)

abbrev pub too_large : {B : Type 0} → Response B
too_large = record { status = 413; content = failure "Payload too large" 0; x_request_id = none }

abbrev pub too_slow : {B : Type 0} → Response B
too_slow = record { status = 504; content = failure "Request timeout" 0; x_request_id = none }

-- `except TimeoutError`
abbrev pub catch_timeout : {B : Type 0} → Outcome B → Outcome B
catch_timeout (responded r) = responded r
catch_timeout (raised e) = raised e
catch_timeout timed_out = responded too_slow

-- `asyncio.wait_for(call_next(request), timeout=TIMEOUT_SECONDS)`, and its `except`
abbrev wait_for : {B W : Type 0} → ℕ → Run B W → Run B W
wait_for limit run =
    if leb run.millis limit
    then record run { outcome = catch_timeout run.outcome }
    else record run { outcome = responded too_slow; world = run.cut limit; millis = limit }

-- `RequestLimitsMiddleware.dispatch`
unfoldable pub request_limits : {B W : Type 0} → Edge → App B W → App B W
request_limits edge next req vars w =
    if is_too_large edge req
    then record { outcome = responded too_large; world = w; millis = 0; cut = λ t. w }
    else wait_for (timeout_seconds * 1000) (next req vars w)
