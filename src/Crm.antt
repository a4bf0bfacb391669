-- ===== src/Crm.antt =====
-- shared/models/crm_models.py, shared/models/crm_notification_models.py and core/database/models.py:
-- the rows of the CRM database, and a session on it whose operations may fail.
pub mod Users
pub mod Roundtrip
use news_board.Prelude.{ℕ, String, Bool, true, false, Option, none, some, List, [], ◌∷◌}
use news_board.Context.{DateTime}
use news_board.Errors.{Exception, unexpected}
use news_board.Exec.{Result, ok, err, Exec, ◌>>=◌, ◌>>◌}

-- A JSON value of a payload. `iso` is the `isoformat` of a datetime, kept as the datetime.
pub data Value : Type 0 where
  null : Value
  int : ℕ → Value
  bool : Bool → Value
  ints : List ℕ → Value
  iso : DateTime → Value

abbrev pub Payload : Type 0
Payload = List (String × Value)

pub record AppUserModel : Type 0 where
  pub id : ℕ
  pub auth_user_id : String
  pub email : String
  pub locale : Option String
  pub first_name : Option String
  pub last_name : Option String

pub record CommunityUserModel : Type 0 where
  pub id_community : ℕ
  pub id_user : ℕ
  pub role : String

pub record NotificationModel : Type 0 where
  pub id : ℕ
  pub id_community : Option ℕ
  pub id_user : ℕ
  pub type : String
  pub payload : Payload
  pub read_at : Option DateTime

pub record OutboundMessageModel : Type 0 where
  pub id_notification : Option ℕ
  pub id_community : Option ℕ
  pub channel : ℕ
  pub recipient : String
  pub recipient_name : Option String
  pub locale : String
  pub type : String
  pub category : ℕ
  pub payload : Payload
  pub dedupe_key : String
  pub status : ℕ
  pub attempts : ℕ
  pub last_error : Option String
  pub claimed_at : Option DateTime
  pub sent_at : Option DateTime

-- written by the dispatcher of mails only
pub record EmailSuppressionModel : Type 0 where
  pub email : String
  pub reason : ℕ
  pub detail : Option String

pub record NotificationPreferenceModel : Type 0 where
  pub id_user : ℕ
  pub type_prefix : String
  pub channel : ℕ
  pub mode : ℕ

pub record Community : Type 0 where
  pub id : ℕ
  pub auth_community_id : String

pub record CommunitySubscription : Type 0 where
  pub id_community : ℕ
  pub feature : String
  pub is_active : Bool

pub record AuditLogModel : Type 0 where
  pub id_community : Option ℕ
  pub action : String
  pub source : String
  pub entity_type : String
  pub entity_id : Option String
  pub user_id : Option ℕ
  pub user_email : Option String
  pub payload : Payload

pub record CrmDb : Type 0 where
  pub communities : List Community
  pub subscriptions : List CommunitySubscription
  pub users : List AppUserModel
  pub members : List CommunityUserModel
  pub preferences : List NotificationPreferenceModel
  pub notifications : List NotificationModel
  pub next_notification : ℕ
  pub outbound : List OutboundMessageModel
  pub suppressions : List EmailSuppressionModel
  pub audit_log : List AuditLogModel

-- `faults` is what the network and the server will do: whether each coming operation fails.
pub record CrmSession : Type 0 where
  pub work : CrmDb
  pub saved : CrmDb
  pub faults : List Bool

abbrev roundtrip_with : List Bool → Exec CrmSession Unit
roundtrip_with [] s = (ok tt, s)
roundtrip_with (true ∷ rest) s = (err unexpected, record s { faults = rest })
roundtrip_with (false ∷ rest) s = (ok tt, record s { faults = rest })

-- One exchange with the database, which raises where the schedule says so.
unfoldable pub roundtrip : Exec CrmSession Unit
roundtrip s = roundtrip_with s.faults s

-- A query: an exchange, and what it reads.
abbrev pub query : {A : Type 0} → (CrmDb → A) → Exec CrmSession A
query f = roundtrip >>= λ _ s. (ok (f s.work), s)

-- A failed COMMIT leaves nothing of the transaction.
unfoldable pub commit : Exec CrmSession Unit
unfolding roundtrip
commit s =
    let (r, t) = roundtrip s in
    elim r [
      | ok _ ↦ (ok tt, record t { saved = t.work })
      | err e ↦ (err e, record t { work = t.saved })
    ]

-- `async with session.begin_nested()`: an exception undoes what the block wrote, and goes on.
abbrev pub begin_nested : {A : Type 0} → Exec CrmSession A → Exec CrmSession A
begin_nested m s =
    let (r, t) = m s in elim r [ ok a ↦ (ok a, t) | err e ↦ (err e, record t { work = s.work }) ]
