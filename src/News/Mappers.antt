-- ===== src/News/Mappers.antt =====
-- api/news/mappers.py: rows to responses. A stored integer that is no value
-- of its enumeration raises `ValueError`.
use news_board.Prelude.{ℕ, Bool, Option, none, some, List, map}
use news_board.Context.{Context}
use news_board.Markdown.{render_markdown}
use news_board.Errors.{unexpected}
use news_board.Exec.{Result, ok, err}
use news_board.Const.{
  PostType, is_poll, post_type_of_int, admin_visibility_of_int, member_visibility_of_int,
  member_display_of_int,
}
use news_board.Local.{PostModel, PostPollModel}
use news_board.News.Schemas.{PollOptionOut, PostListItem, PostDetail}

abbrev pub to_poll_option_out : PostPollModel → PollOptionOut
to_poll_option_out o = record {
  id = o.id;
  option_value = o.option_value;
  display_order = o.display_order;
}

abbrev list_item : Context → PostModel → PostType → Bool → Bool → ℕ → PostListItem
unfolding render_markdown
list_item ctx post post_type has_voted poll_ended option_count = record {
  id = post.id;
  type = post_type;
  author_id = post.author_id;
  author_email = post.author_email;
  body_html = render_markdown ctx.packages post.post;
  created_at = post.created_at;
  updated_at = post.updated_at;
  expires_at = post.expires_at;
  is_poll = is_poll post_type;
  poll_ended = poll_ended;
  option_count = option_count;
  has_voted = has_voted;
}

unfoldable pub to_post_list_item : Context → PostModel → Bool → Bool → ℕ → Result PostListItem
unfolding list_item
to_post_list_item ctx post has_voted poll_ended option_count = elim (post_type_of_int post.type) [
  | none ↦ err unexpected
  | some t ↦ ok (list_item ctx post t has_voted poll_ended option_count)
]

-- `E(n) if n is not None else None`
abbrev pub decode : {A : Type 0} → (ℕ → Option A) → Option ℕ → Result (Option A)
decode of_int none = ok none
decode of_int (some n) = elim (of_int n) [ none ↦ err unexpected | some a ↦ ok (some a) ]

abbrev ◌>>=◌ : {A B : Type 0} → Result A → (A → Result B) → Result B
◌>>=◌ (ok a) f = f a
◌>>=◌ (err e) f = err e

unfoldable pub to_post_detail :
    Context → PostModel → List PostPollModel → Bool → Bool → List ℕ → Result PostDetail
unfolding render_markdown
to_post_detail ctx post options has_voted poll_ended my_option_ids = do
  post_type ← (elim (post_type_of_int post.type) [ none ↦ err unexpected | some t ↦ ok t ])
  av ← decode admin_visibility_of_int post.admin_visibility
  mv ← decode member_visibility_of_int post.member_visibility
  md ← decode member_display_of_int post.member_display
  ok (record {
    id = post.id;
    type = post_type;
    author_id = post.author_id;
    author_email = post.author_email;
    post = post.post;
    body_html = render_markdown ctx.packages post.post;
    created_at = post.created_at;
    updated_at = post.updated_at;
    expires_at = post.expires_at;
    is_poll = is_poll post_type;
    poll_ended = poll_ended;
    options = map to_poll_option_out options;
    has_voted = has_voted;
    my_option_ids = my_option_ids;
    admin_visibility = av;
    member_visibility = mv;
    member_display = md;
  })
