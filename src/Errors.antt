-- ===== src/Errors.antt =====
-- core/errors/errors.py and shared/custom_errors.py: the domain errors, and what a call may raise.
pub mod Default
use news_board.Prelude.{ℕ, String}

-- `Error`: a code and the key of its translation
pub record Error : Type 0 where
  pub code : ℕ
  pub key : String

-- What a call may raise: an `ErrorException` with its status, or any other exception
-- (`ValueError`, a database error, a time-out), which only the blanket handlers catch.
pub data Exception : Type 0 where
  error_exception : Error → ℕ → Exception
  unexpected : Exception

-- `ErrorException(error)` with the default status
abbrev pub bad_request : Error → Exception
bad_request e = error_exception e 400

abbrev pub unauthorized : Error
unauthorized = record { code = 1; key = "ERRORS.AUTH.UNAUTHORIZED" }

abbrev pub forbidden : Error
forbidden = record { code = 2; key = "ERRORS.AUTH.FORBIDDEN" }

abbrev pub rate_limited : Error
rate_limited = record { code = 3; key = "ERRORS.AUTH.RATE_LIMITED" }

abbrev pub authorization_missing : Error
authorization_missing = record { code = 4; key = "ERRORS.AUTH.AUTHORIZATION_MISSING" }

abbrev pub not_subscribed : Error
not_subscribed = record { code = 1003; key = "ERRORS.SUBSCRIPTION.NOT_SUBSCRIBED" }

abbrev pub post_not_found : Error
post_not_found = record { code = 2302; key = "ERRORS.NEWS.POST_NOT_FOUND" }

abbrev pub invalid_poll : Error
invalid_poll = record { code = 2306; key = "ERRORS.NEWS.INVALID_POLL" }

abbrev pub not_a_poll : Error
not_a_poll = record { code = 2307; key = "ERRORS.NEWS.NOT_A_POLL" }

abbrev pub poll_expired : Error
poll_expired = record { code = 2308; key = "ERRORS.NEWS.POLL_EXPIRED" }

abbrev pub options_frozen : Error
options_frozen = record { code = 2309; key = "ERRORS.NEWS.OPTIONS_FROZEN" }

abbrev pub invalid_vote : Error
invalid_vote = record { code = 2310; key = "ERRORS.NEWS.INVALID_VOTE" }
