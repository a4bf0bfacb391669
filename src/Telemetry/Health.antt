-- ===== src/Telemetry/Health.antt =====
-- api/health/routes.py and core/metrics.py: the probes.
use news_board.Prelude.{ℕ, String, Bool, true, false, Option, none, some, List, [], ◌∷◌, ◌++◌}

-- what `SELECT 1` on a connection of the CRM engine comes to
pub data Probe : Type 0 where
  connected : Probe
  sqlalchemy_error : String → Probe
  other_error : Probe

-- one entry of `checks`
pub record Check : Type 0 where
  pub ok : Bool
  pub error : Option String

-- `check_db`; `none` is an exception that it does not catch
unfoldable pub check_db : Probe → Option Check
check_db connected = some (record { ok = true; error = none })
check_db (sqlalchemy_error e) = some (record { ok = false; error = some e })
check_db other_error = none

-- the points of `health.checks.total`: the component, and whether it is well
abbrev pub Points : Type 0
Points = List (String × Bool)

pub record Readiness : Type 0 where
  pub status_code : ℕ
  pub healthy : Bool
  pub database : Check

abbrev status_of : Bool → ℕ
status_of true = 200
status_of false = 503

-- `readiness`, with the points that it adds
unfoldable pub readiness : Probe → Points → Option Readiness × Points
unfolding check_db
readiness probe points = elim (check_db probe) [
  | none ↦ (none, points)
  | some c ↦ (
    some (record { status_code = status_of c.ok; healthy = c.ok; database = c }),
    points ++ ("database", c.ok) ∷ [],
  )
]

-- `health`
unfoldable pub health : Probe → Points → Option Readiness × Points
unfolding readiness
health probe points = readiness probe points

abbrev pub liveness : String
liveness = "alive"
