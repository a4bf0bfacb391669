-- ===== src/Crm/Roundtrip.antt =====
-- An exchange with the CRM database changes no row.
use news_board.Prelude.{◌≡◌, arith}
use news_board.Crm.{CrmSession, roundtrip}

pub roundtrip-work : (s : CrmSession) → (roundtrip s).1.work ≡ s.work
unfolding roundtrip
roundtrip-work s = ground arith
