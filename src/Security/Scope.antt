-- ===== src/Security/Scope.antt =====
-- core/security/community_scope.py: the community of the request, resolved to its row.
use news_board.Prelude.{String, Option, none, some, find, str_eq}
use news_board.Exec.{ok, Exec, ◌>>=◌}
use news_board.Context.{Context}
use news_board.Crm.{Community, CrmDb, CrmSession, query}

unfoldable pub find_community : String → CrmDb → Option Community
find_community auth_id d =
    find (λ (c : Community). str_eq c.auth_community_id auth_id) d.communities

-- the context variable is set only where a row is found
abbrev pub set_internal : Context → Option Community → Context
set_internal ctx none = ctx
set_internal ctx (some c) = record ctx { internal_community_id = some c.id }

-- `resolve_internal_community`, with the context that the request goes on with
unfoldable pub resolve_internal_community : Context → Exec CrmSession Context
resolve_internal_community ctx s = elim ctx.community_id [
  | none ↦ (ok ctx, s)
  | some auth_id ↦ elim ctx.internal_community_id [
    | some cached ↦ (ok ctx, s)
    | none ↦ (query (find_community auth_id) >>= λ row t. (ok (set_internal ctx row), t)) s
  ]
]
