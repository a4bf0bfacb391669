-- ===== src/Local.antt =====
-- shared/models/local_models.py and the session of core/database/database.py: the rows of the local
-- database, and what a session has written, committed and loaded.
pub mod Repository
pub mod Ballots
pub mod Consistency
pub mod Inserts
pub mod Lookup
pub mod Scoped
pub mod Sorted
pub mod Distinct
pub mod Grown
pub mod Changed
pub mod Board
pub mod Added
pub mod Removed
pub mod Accepted
use news_board.Prelude.{ℕ, String, Option, List, []}
use news_board.Prelude.Int.{ℤ}
use news_board.Context.{DateTime}
use news_board.Exec.{ok, Exec}

-- `PostModel`, table `post`
pub record PostModel : Type 0 where
  pub id : ℕ
  pub id_community : ℕ
  pub author_id : String
  pub author_email : Option String
  pub type : ℕ
  pub post : String
  pub expires_at : Option DateTime
  pub admin_visibility : Option ℕ
  pub member_visibility : Option ℕ
  pub member_display : Option ℕ
  pub created_at : ℕ
  pub updated_at : ℕ

-- `PostPollModel`, table `post_poll`
pub record PostPollModel : Type 0 where
  pub id : ℕ
  pub id_community : ℕ
  pub id_post : ℕ
  pub option_value : String
  pub display_order : ℤ

-- `PostPollVoteModel`, table `post_poll_vote`
pub record PostPollVoteModel : Type 0 where
  pub id : ℕ
  pub id_community : ℕ
  pub id_post : ℕ
  pub id_post_poll : ℕ
  pub voter_id : String

-- The three tables in the order of insertion, and the next value of each identity column.
pub record Db : Type 0 where
  pub posts : List PostModel
  pub options : List PostPollModel
  pub votes : List PostPollVoteModel
  pub next_post : ℕ
  pub next_option : ℕ
  pub next_vote : ℕ

-- A session sees `work`; the database keeps `saved` when the session closes. `loaded` are the
-- collections `PostModel.options` that the identity map holds, by post.
pub record LocalSession : Type 0 where
  pub work : Db
  pub saved : Db
  pub loaded : List (ℕ × List PostPollModel)

unfoldable pub commit : Exec LocalSession Unit
commit s = (ok tt, record s { saved = s.work })

-- A session that a request has just opened.
abbrev pub open_session : Db → LocalSession
open_session d = record { work = d; saved = d; loaded = [] }
