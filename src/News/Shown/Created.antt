-- ===== src/News/Shown/Created.antt =====
-- What `get_post` shows of a post that `create_post` stored.
use news_board.Prelude.{ℕ, String, ◌≡◌, true, false, Bool, Option, none, map, [], arith}
use news_board.Prelude.Keys.{nat_key}
use news_board.Context.{Context}
use news_board.Const.{
  is_poll, AdminVisibility, MemberVisibility, MemberDisplay, admin_visibility_of_int,
  member_visibility_of_int, member_display_of_int, int_of_admin_visibility,
  int_of_member_visibility, int_of_member_display,
}
use news_board.Exec.{ok}
use news_board.Local.{PostPollModel, Db}
use news_board.Local.Repository.{sort_options}
use news_board.News.Mappers.{decode}
use news_board.Markdown.{render_markdown}
use news_board.News.Posts.Asked.{asked_expiry, asked_options, setting}
use news_board.News.Schemas.{CreatePostRequest, PollOptionOut, PostDetail}

-- an option as an answer shows it
abbrev pub shown_option : PostPollModel → PollOptionOut
shown_option o = record {
  id = o.id;
  option_value = o.option_value;
  display_order = o.display_order;
}

-- a setting that only polls show
abbrev only_on : {A : Type 0} → Bool → Option A → Option A
only_on false value = none
only_on true value = value

-- the post that a request asks for, as an answer shows it before anyone has voted
abbrev pub asked_detail : Context → CreatePostRequest → ℕ → String → Option String → Db → PostDetail
asked_detail ctx req community author email d = record {
  id = d.next_post;
  type = req.type;
  author_id = author;
  author_email = email;
  post = req.post;
  body_html = render_markdown ctx.packages req.post;
  created_at = ctx.now;
  updated_at = ctx.now;
  expires_at = asked_expiry req;
  is_poll = is_poll req.type;
  poll_ended = false;
  options = map shown_option (sort_options (asked_options req d.next_option d.next_post community));
  has_voted = false;
  my_option_ids = [];
  admin_visibility = only_on (is_poll req.type) req.admin_visibility;
  member_visibility = only_on (is_poll req.type) req.member_visibility;
  member_display = only_on (is_poll req.type) req.member_display;
}

pub admin_known :
    (b : Bool) (a : Option AdminVisibility)
    → decode admin_visibility_of_int (setting b int_of_admin_visibility a) ≡ ok (only_on b a)
admin_known b a = ground arith

pub members_known :
    (b : Bool) (a : Option MemberVisibility)
    → decode member_visibility_of_int (setting b int_of_member_visibility a) ≡ ok (only_on b a)
members_known b a = ground arith

pub display_known :
    (b : Bool) (a : Option MemberDisplay)
    → decode member_display_of_int (setting b int_of_member_display a) ≡ ok (only_on b a)
display_known b a = ground arith
