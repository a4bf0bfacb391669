-- ===== src/News/Schemas.antt =====
-- api/news/schemas.py: the requests and the responses of the news board.
use Prim.Native.String.{count}
use news_board.Prelude.{ℕ, String, Bool, true, Option, none, some, List, [], ◌∷◌, leb, ◌&&◌}
use news_board.Prelude.Int.{ℤ}
use news_board.Context.{DateTime}
use news_board.Const.{PostType, AdminVisibility, MemberVisibility, MemberDisplay}

pub record PollOptionInput : Type 0 where
  pub option_value : String
  pub display_order : Option ℤ

pub record CreatePostRequest : Type 0 where
  pub type : PostType
  pub post : String
  pub options : Option (List PollOptionInput)
  pub expires_at : Option DateTime
  pub admin_visibility : Option AdminVisibility
  pub member_visibility : Option MemberVisibility
  pub member_display : Option MemberDisplay

pub record UpdatePostRequest : Type 0 where
  pub post : Option String
  pub options : Option (List PollOptionInput)
  pub expires_at : Option DateTime
  pub admin_visibility : Option AdminVisibility
  pub member_visibility : Option MemberVisibility
  pub member_display : Option MemberDisplay

pub record PollOptionOut : Type 0 where
  pub id : ℕ
  pub option_value : String
  pub display_order : ℤ

pub record PostListItem : Type 0 where
  pub id : ℕ
  pub type : PostType
  pub author_id : String
  pub author_email : Option String
  pub body_html : String
  pub created_at : ℕ
  pub updated_at : ℕ
  pub expires_at : Option DateTime
  pub is_poll : Bool
  pub poll_ended : Bool
  pub option_count : ℕ
  pub has_voted : Bool

pub record PostDetail : Type 0 where
  pub id : ℕ
  pub type : PostType
  pub author_id : String
  pub author_email : Option String
  pub post : String
  pub body_html : String
  pub created_at : ℕ
  pub updated_at : ℕ
  pub expires_at : Option DateTime
  pub is_poll : Bool
  pub poll_ended : Bool
  pub options : List PollOptionOut
  pub has_voted : Bool
  pub my_option_ids : List ℕ
  pub admin_visibility : Option AdminVisibility
  pub member_visibility : Option MemberVisibility
  pub member_display : Option MemberDisplay

pub data ResultsMode : Type 0 where
  aggregate full : ResultsMode

pub record VoterIdentity : Type 0 where
  pub voter_id : String
  pub email : Option String

pub record OptionTally : Type 0 where
  pub option_id : ℕ
  pub option_value : String
  pub count : ℕ
  pub voters : Option (List VoterIdentity)

pub record PollResults : Type 0 where
  pub post_id : ℕ
  pub poll_ended : Bool
  pub visible : Bool
  pub mode : Option ResultsMode
  pub total_voters : Option ℕ
  pub options : Option (List OptionTally)

-- The bounds that the request models declare: `min_length` and `max_length` count characters.
abbrev pub accepts_option : PollOptionInput → Bool
accepts_option o = leb 1 (count o.option_value) && leb (count o.option_value) 2000

abbrev accepts_options : List PollOptionInput → Bool
accepts_options [] = true
accepts_options (o ∷ os) = accepts_option o && accepts_options os

abbrev accepts_list : Option (List PollOptionInput) → Bool
accepts_list none = true
accepts_list (some os) = accepts_options os

abbrev accepts_text : Option String → Bool
accepts_text none = true
accepts_text (some t) = leb 1 (count t)

unfoldable pub accepts_create : CreatePostRequest → Bool
accepts_create req = accepts_text (some req.post) && accepts_list req.options

unfoldable pub accepts_update : UpdatePostRequest → Bool
accepts_update req = accepts_text req.post && accepts_list req.options
