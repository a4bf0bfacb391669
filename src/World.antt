-- ===== src/World.antt =====
-- What one request works on: its two database sessions, the realtime hints that it has staged, and
-- the connection to Redis.
use news_board.Prelude.{ℕ, Option, List, []}
use news_board.Exec.{Exec}
use news_board.Local.{Db, LocalSession, open_session}
use news_board.Crm.{CrmSession}
use news_board.Realtime.{Broker}

pub record World : Type 0 where
  pub local : LocalSession
  pub crm : CrmSession
  pub pending_realtime : List (List ℕ × Option ℕ)
  pub broker : Broker

abbrev pub on_local : {A : Type 0} → Exec LocalSession A → Exec World A
on_local m w = let (r, s) = m w.local in (r, record w { local = s })

abbrev pub on_crm : {A : Type 0} → Exec CrmSession A → Exec World A
on_crm m w = let (r, s) = m w.crm in (r, record w { crm = s })

abbrev pub on_broker : {A : Type 0} → Exec Broker A → Exec World A
on_broker m w = let (r, b) = m w.broker in (r, record w { broker = b })

-- The world of a request that has just begun.
abbrev pub request : Db → CrmSession → Broker → World
request d crm broker = record {
  local = open_session d;
  crm = crm;
  pending_realtime = [];
  broker = broker;
}
