-- ===== src/Realtime/State.antt =====
-- core/realtime/bus.py: what a process announces at start-up, and its one client.
use Prim.Native.Char.{Char}
use Prim.Native.String.{[] as nil, ◌∷◌ as ◌∷ₛ◌, ◌++◌}
use text.Mathlib.TextLemmas.{nil-append, cons-append, cons≢nil}
use news_board.Prelude.{
  String, Bool, true, false, not, Option, none, some, ◌≡◌, refl, truthy, arith, if◌then◌else◌,
  eq_iff, str_eq, Bool-cases, inl, inr,
}
use news_board.Prelude.Text.{has_char}
use news_board.Prelude.Text.Split.{
  partition_scheme, after_last, sep_then, partition_scheme-append, after_last-append,
  has_char-append,
}
use news_board.Realtime.{Settings}

-- `_redacted_url`
unfoldable pub redacted_url : String → String
unfolding partition_scheme after_last
redacted_url url = elim (partition_scheme url) [
  | none ↦ url
  | some (scheme, rest) ↦
      if not (has_char 64 rest) then url else scheme ++ ("://***@" ++ after_last 64 rest)
]

-- the line of the log, with the arguments of its message
pub data Announcement : Type 0 where
  disabled : String → Announcement
  unconfigured : String → Announcement
  ready : String → String → Announcement

unfoldable pub log_realtime_state : Settings → String → Announcement
unfolding redacted_url
log_realtime_state cfg name =
    if not cfg.realtime_enabled
    then disabled name
    else if not (truthy (some cfg.realtime_redis_url))
    then unconfigured name
    else ready name (redacted_url cfg.realtime_redis_url)

-- `_client`: the URL that the client of the process was made for
abbrev pub Client : Type 0
Client = Option String

-- `_get_client`: the client, which the first call makes
unfoldable pub get_client : Settings → Client → String × Client
get_client cfg none = (cfg.realtime_redis_url, some cfg.realtime_redis_url)
get_client cfg (some c) = (c, some c)

-- `close`, where `aclose` may fail
unfoldable pub close : Bool → Client → Client
close fails none = none
close fails (some c) = none

-- a URL with a user part
abbrev pub with_secret : String → String → String → String
with_secret scheme secret host = scheme ++ sep_then (secret ++ ("@" ∷ₛ host))

cons-truthy : (c : Char) (s : String) → truthy (some (c ∷ₛ s)) ≡ true
cons-truthy c s = elim (Bool-cases (str_eq (c ∷ₛ s) "")) [
  | inl same ↦ absurd (cons≢nil ((eq_iff (c ∷ₛ s) "").0 same))
  | inr other ↦ rw other refl
]

with_secret-truthy :
    (scheme secret host : String) → truthy (some (with_secret scheme secret host)) ≡ true
with_secret-truthy nil secret host =
    let after = sep_then (secret ++ ("@" ∷ₛ host)) in
    rw (nil-append after) (cons-truthy ":" ("/" ∷ₛ ("/" ∷ₛ (secret ++ ("@" ∷ₛ host)))))
with_secret-truthy (c ∷ₛ scheme) secret host =
    let after = sep_then (secret ++ ("@" ∷ₛ host)) in
    rw (cons-append c scheme after) (cons-truthy c (scheme ++ after))

-- Where realtime is enabled and its URL is a scheme without a colon, ://, any user part, @ and a
-- rest without @, the start-up line of the log is the one with *** in place of the user part,
-- which it does not depend on.
pub log_realtime_state-hides :
    (cfg : Settings) (name scheme secret host : String)
    → cfg.realtime_enabled ≡ true
    → cfg.realtime_redis_url ≡ with_secret scheme secret host
    → has_char 58 scheme ≡ false
    → has_char 64 host ≡ false
    → log_realtime_state cfg name ≡ ready name (scheme ++ ("://***@" ++ host))
unfolding log_realtime_state redacted_url
log_realtime_state-hides cfg name scheme secret host enabled url plain last = ground (
  arith,
  with_secret-truthy scheme secret host,
  partition_scheme-append scheme (secret ++ ("@" ∷ₛ host)) plain,
  after_last-append 64 "@" secret host refl last,
  has_char-append 64 secret ("@" ∷ₛ host),
)
