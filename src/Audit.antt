-- ===== src/Audit.antt =====
-- core/audit_log: the audit trail, which never breaks the write that it records.
use news_board.Prelude.{
  ℕ, String, true, false, Option, none, some, [], ◌∷◌, ◌++◌, find, str_eq, truthy,
}
use news_board.Context.{Context}
use news_board.Exec.{ok, Exec, ◌>>=◌, ◌>>◌, modify}
use news_board.Crm.{
  Payload, AppUserModel, AuditLogModel, CrmSession, CrmDb, roundtrip, query, begin_nested,
}

-- `AuditActions`
abbrev pub post_created : String
post_created = "news.post.created"

abbrev pub post_updated : String
post_updated = "news.post.updated"

abbrev pub post_deleted : String
post_deleted = "news.post.deleted"

abbrev pub vote_cast : String
vote_cast = "news.vote.cast"

abbrev pub vote_retracted : String
vote_retracted = "news.vote.retracted"

abbrev pub audit_log_default_source : String
audit_log_default_source = "optimce-news-board"

pub record AuditLogInput : Type 0 where
  pub action : String
  pub entity_type : String
  pub entity_id : Option String
  pub payload : Payload
  pub source : Option String

abbrev pub find_user : String → CrmDb → Option AppUserModel
find_user auth_user_id d = find (λ u. str_eq u.auth_user_id auth_user_id) d.users

-- the writer's `app_user` row, queried only for a user that the context names
abbrev pub writer : Option String → Exec CrmSession (Option AppUserModel)
writer none s = (ok none, s)
writer (some u) s = elim (truthy (some u)) [ true ↦ query (find_user u) s | false ↦ (ok none, s) ]

-- `entry.source or AUDIT_LOG_DEFAULT_SOURCE`
abbrev source_or_default : Option String → String
source_or_default none = audit_log_default_source
source_or_default (some t) = elim (truthy (some t)) [ true ↦ t | false ↦ audit_log_default_source ]

-- `id_community if id_community is not None else current_internal_community_id.get()`
abbrev community_or : Option ℕ → Option ℕ → Option ℕ
community_or none c = c
community_or (some i) c = some i

abbrev pub audit_row : Context → AuditLogInput → Option ℕ → Option AppUserModel → AuditLogModel
audit_row ctx entry id_community user = record {
  id_community = community_or id_community ctx.internal_community_id;
  action = entry.action;
  source = source_or_default entry.source;
  entity_type = entry.entity_type;
  entity_id = entry.entity_id;
  user_id = elim user [ none ↦ none | some u ↦ some u.id ];
  user_email = elim user [ none ↦ none | some u ↦ some u.email ];
  payload = entry.payload;
}

-- `session.add(row)` and `flush`
abbrev insert_audit : AuditLogModel → Exec CrmSession Unit
insert_audit row =
    roundtrip
    >> modify (λ s. record s { work = record s.work { audit_log = s.work.audit_log ++ row ∷ [] } })

-- `except Exception`: logged and dropped
abbrev pub swallow : Exec CrmSession Unit → Exec CrmSession Unit
swallow m s = (ok tt, (m s).1)

-- `AuditLogService.log`
unfoldable pub log : Context → AuditLogInput → Option ℕ → Exec CrmSession Unit
log ctx entry id_community = swallow (do
  user ← writer ctx.user_id
  begin_nested (insert_audit (audit_row ctx entry id_community user)))
