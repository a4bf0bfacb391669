-- ===== src/News.antt =====
-- api/news: the news board. The helpers that its operations share stand here.
pub mod Schemas
pub mod Mappers
pub mod Votes
pub mod Results
pub mod Posts
pub mod Reads
pub mod Updates
pub mod Effects
pub mod Updated
pub mod Preserved
pub mod Edited
pub mod Isolation
pub mod Deleted
pub mod Shown
pub mod Pages
pub mod Audited
pub mod Hinted
pub mod Passive
pub mod Races
use news_board.Prelude.{
  ℕ, String, Bool, true, false, not, Option, none, some, List, [], ◌∷◌, leb, truthy, ◌&&◌, str_eq,
  if◌then◌else◌,
}
use news_board.Errors.{unauthorized, error_exception, unexpected}
use news_board.Exec.{Exec, ◌>>=◌, ◌>>◌, ok, or_raise, pure, raise}
use news_board.Const.{PostType, post_type_of_int}
use news_board.Context.{Context, DateTime, ensure_aware}
use news_board.Local.{PostModel}
use news_board.Crm
use news_board.Crm.{Payload, CrmSession}
use news_board.Audit
use news_board.Audit.{AuditLogInput, swallow}
use news_board.World.{World, on_crm}

-- `PostType(post.type)`
abbrev pub post_type_of : PostModel → Exec World PostType
post_type_of post = or_raise (post_type_of_int post.type) unexpected

abbrev ended_at : Option DateTime → ℕ → Bool
ended_at none now = false
ended_at (some t) now = leb (ensure_aware t) now

-- `_poll_ended`
unfoldable pub poll_ended : Context → PostModel → Bool
poll_ended ctx post = ended_at post.expires_at ctx.now

-- the user of the context, if its id is not empty
unfoldable pub current_voter : Context → Option String
current_voter ctx = elim ctx.user_id [
  | none ↦ none
  | some u ↦ elim (truthy (some u)) [ true ↦ some u | false ↦ none ]
]

-- `_require_voter`
unfoldable pub require_voter : Context → Exec World String
unfolding current_voter
require_voter ctx = or_raise (current_voter ctx) (error_exception unauthorized 401)

-- `_audit`: the entry, then a commit whose failure is logged and dropped
unfoldable pub audit : Context → AuditLogInput → Exec World Unit
audit ctx entry = on_crm (Audit.log ctx entry none) >> on_crm (swallow Crm.commit)

-- an entry with no `source`
abbrev pub entry_for : String → String → String → Payload → AuditLogInput
entry_for action entity_type entity_id payload = record {
  action = action;
  entity_type = entity_type;
  entity_id = some entity_id;
  payload = payload;
  source = none;
}
