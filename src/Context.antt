-- ===== src/Context.antt =====
-- core/context_vars.py, with the clock and the third-party functions that a request reads.
use news_board.Prelude.{ℕ, String, Option}
use news_board.Markdown.{Packages}

-- A `datetime`: microseconds on the wall clock of UTC, with or without a `tzinfo`. (An aware value
-- in another zone stands for the instant that it names.)
pub data DateTime : Type 0 where
  naive : ℕ → DateTime
  aware : ℕ → DateTime

-- `_ensure_aware`, as the instant of the aware result
abbrev pub ensure_aware : DateTime → ℕ
ensure_aware (naive t) = t
ensure_aware (aware t) = t

-- The context variables of one request. `now` is what the clock reads during the request.
pub record Context : Type 0 where
  pub user_id : Option String
  pub community_id : Option String
  pub internal_community_id : Option ℕ
  pub user_role : Option String
  pub source_ip : Option String
  pub now : ℕ
  pub packages : Packages
