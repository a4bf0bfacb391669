-- ===== src/Config.antt =====
-- core/config.py: the settings, and what the validator refuses. main.py: the options of CORS and
-- the addresses of the documentation.
pub mod Origins
use news_board.Prelude.{
  ℕ, String, Bool, true, false, not, Option, none, some, List, [], ◌∷◌, map, filter, truthy, ◌&&◌,
  if◌then◌else◌,
}
use news_board.Prelude.Int.{ℤ}
use news_board.Prelude.Text.{strip, has_char}
use news_board.Prelude.Text.Split.{split_char}

pub data Environment : Type 0 where
  local test staging production : Environment

abbrev pub is_local : Environment → Bool
is_local local = true
is_local _ = false

abbrev pub is_production : Environment → Bool
is_production production = true
is_production _ = false

pub record Settings : Type 0 where
  pub env : Environment
  pub crm_database_url : String
  pub crm_db_pool_size : ℤ
  pub crm_db_max_overflow : ℤ
  pub crm_db_pool_recycle : ℤ
  pub crm_db_pool_timeout : ℤ
  pub crm_db_ssl : Bool
  pub local_database_url : String
  pub local_db_pool_size : ℤ
  pub local_db_max_overflow : ℤ
  pub local_db_pool_recycle : ℤ
  pub local_db_pool_timeout : ℤ
  pub local_db_ssl : Bool
  pub realtime_enabled : Bool
  pub realtime_redis_url : String
  pub allow_origin : String
  pub logging_token : String
  pub logging_traces_url : String
  pub logging_logs_url : String
  pub logging_metrics_url : String

-- the messages of the validator's `ValueError`
pub data ConfigError : Type 0 where
  origin_required wildcard_origin crm_url_required local_url_required : ConfigError
  token_required logs_url_required metrics_url_required : ConfigError

abbrev is_set : String → Bool
is_set s = truthy (some s)

-- `[o.strip() for o in ….split(",") if o.strip()]`
unfoldable pub origins_of : String → List String
unfolding strip split_char
origins_of s = filter is_set (map strip (split_char 44 s))

abbrev no_origin : List String → Bool
no_origin [] = true
no_origin (o ∷ os) = false

abbrev check_deployed : Settings → Option ConfigError
unfolding origins_of strip
check_deployed s =
    if no_origin (origins_of s.allow_origin)
    then some origin_required
    else if has_char 42 s.allow_origin
    then some wildcard_origin
    else if not (is_set (strip s.crm_database_url))
    then some crm_url_required
    else if not (is_set (strip s.local_database_url))
    then some local_url_required
    else none

abbrev check_production : Settings → Option ConfigError
check_production s =
    if not (is_set s.logging_token)
    then some token_required
    else if not (is_set s.logging_logs_url)
    then some logs_url_required
    else if not (is_set s.logging_metrics_url)
    then some metrics_url_required
    else none

-- `validate_env_config`: the first test that fails
unfoldable pub validate_env_config : Settings → Option ConfigError
unfolding check_deployed
validate_env_config s =
    let late = if is_production s.env then check_production s else none in
    if is_local s.env then late else elim (check_deployed s) [ some e ↦ some e | none ↦ late ]

-- main.py: the options of the CORS middleware
pub record CorsOptions : Type 0 where
  pub allow_origins : List String
  pub allow_credentials : Bool
  pub allow_methods : List String
  pub allow_headers : List String
  pub expose_headers : List String

abbrev pub cors_options : Settings → CorsOptions
cors_options s = record {
  allow_origins = origins_of s.allow_origin;
  allow_credentials = true;
  allow_methods = "GET" ∷ "POST" ∷ "PUT" ∷ "PATCH" ∷ "DELETE" ∷ "OPTIONS" ∷ [];
  allow_headers = "Authorization" ∷ "Content-Type" ∷ "Accept-Language" ∷ "X-Request-ID" ∷ [];
  expose_headers =
      "Content-Disposition" ∷ "X-RateLimit-Limit" ∷ "X-RateLimit-Remaining" ∷ "X-RateLimit-Reset"
      ∷ "X-Request-ID" ∷ [];
}

-- main.py: where the application serves its documentation
pub record Documentation : Type 0 where
  pub docs_url : Option String
  pub redoc_url : Option String
  pub openapi_url : Option String

abbrev pub documentation : Settings → Documentation
documentation s = record {
  docs_url = if is_local s.env then some "/docs" else none;
  redoc_url = if is_local s.env then some "/redoc" else none;
  openapi_url = if is_local s.env then some "/openapi.json" else none;
}
