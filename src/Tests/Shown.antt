-- ===== src/Tests/Shown.antt =====
-- What leaves the board: the HTML of posts, the realtime hints and the audit entries.
use news_board.Prelude.{
  String, true, false, ◌≡◌, ◌⊎◌, refl, inl, inr, some, none, List, [], ◌∷◌, In, str_eq, arith,
  Bool-cases, if◌then◌else◌,
}
use news_board.Prelude.Keys.{contains, string_key}
use news_board.Context.{Context, aware}
use news_board.Errors.{Exception}
use news_board.Exec.{ok, err}
use news_board.Local.{PostModel, Db}
use news_board.Local.Repository.{
  find_post, get_post_with_options, load_options, select_options, get_voter_votes, votes_of,
}
use news_board.Markdown.{Cleaning, render_markdown}
use news_board.Markdown.Safe.{Element, Documented, IsPassive}
use news_board.Realtime.Channels.{member, user_channel, community_channel, user, community}
use news_board.Realtime.Channels.Grammar.{audience_of, audience_of-channels}
use news_board.Realtime.Sent.{Sends}
use news_board.World.{request}
use news_board.News.Audited.{Audited}
use news_board.News.Audited.Posts.{updated_row, deleted_row, posts-Audited}
use news_board.News.Hinted.{IsHint, create_post_hints_members}
use news_board.News.Passive.{read, IsShown-IsPassive}
use news_board.News.Posts.{create_post, delete_post}
use news_board.News.Reads.{get_post, voter_selection}
use news_board.News.Mappers.{to_post_detail, to_poll_option_out}
use news_board.News.{current_voter, poll_ended}
use news_board.Const.{poll_multiple_choice, AdminVisibility, MemberVisibility, MemberDisplay}
use news_board.News.Schemas.{PostDetail}
use news_board.News.Updates.{apply_update}
use news_board.Tests.Data.{poll, monday, friday, db, bob, boss, tables, session, broker, config}
use news_board.Tests.Posts.{draft, tea_coffee, reword}

-- a sanitiser that keeps the name of an element if it is allowed, and texts that name an element
abbrev keep : Cleaning → String → String
keep c html = if contains c.tags html then html else ""

abbrev elements : String → List Element
elements html =
    if str_eq html "" then [] else record { tag = html; attributes = []; schemes = [] } ∷ []

kept :
    (c : Cleaning) (html : String) (e : Element)
    → In e (elements (keep c html))
    → (contains c.tags html ≡ true) × (e ≡ record { tag = html; attributes = []; schemes = [] })
kept c html e m = elim (Bool-cases (contains c.tags html)) [
  | inl known ↦ elim (Bool-cases (str_eq html "")) [
    | inl empty ↦ absurd (rw (known, empty) at m)
    | inr full ↦ elim (rw (known, full) at m) [
      | inl same ↦ (known, same)
      | inr none_ ↦ absurd none_
    ]
  ]
  | inr dropped ↦ absurd (rw dropped at m)
]

documented : Documented elements keep
documented = record {
  tags = λ c html e m. let (known, same) = kept c html e m in rw same known;
  attributes = λ c html e m a n. let (_, same) = kept c html e m in absurd (rw same at n);
  schemes = λ c html e m s n. let (_, same) = kept c html e m in absurd (rw same at n);
}

abbrev careful : Context
careful = record bob { packages = record { md_render = λ c s. s; nh3_clean = keep } }

abbrev emphasis : Db
emphasis = record db { posts = record poll { post = "em" } ∷ [] }

abbrev shown : PostDetail
shown = record {
  id = 1;
  type = poll_multiple_choice;
  author_id = "eve";
  author_email = none;
  post = "em";
  body_html = "em";
  created_at = 10;
  updated_at = 10;
  expires_at = some (aware 900);
  is_poll = true;
  poll_ended = false;
  options = to_poll_option_out monday ∷ to_poll_option_out friday ∷ [];
  has_voted = false;
  my_option_ids = [];
  admin_visibility = some AdminVisibility.full;
  member_visibility = some MemberVisibility.full;
  member_display = some MemberDisplay.before_vote;
}

answer : (get_post careful 1 (request emphasis (session []) broker)).0 ≡ ok shown
unfolding get_post get_post_with_options find_post load_options select_options voter_selection
    get_voter_votes votes_of current_voter poll_ended to_post_detail render_markdown
answer = refl

IsShown-IsPassive_example : IsPassive (record { tag = "em"; attributes = []; schemes = [] })
IsShown-IsPassive_example =
    IsShown-IsPassive careful (request emphasis (session []) broker) elements documented "em"
      (read 1 shown answer) (record { tag = "em"; attributes = []; schemes = [] }) (inl refl)

audience_of-channels_example :
    (audience_of (user_channel 12) ≡ some (user 12))
    × (audience_of (community_channel 12 member) ≡ some (community 12 member))
audience_of-channels_example = audience_of-channels 12 member

create_post_hints_members_example :
    Sends
      (IsHint tables 7 "bob")
      broker
      (create_post config bob (draft tea_coffee) 7 "bob" (request db (session []) broker)).1.broker
create_post_hints_members_example =
    create_post_hints_members config bob (draft tea_coffee) 7 "bob" db (session []) broker
      (ground arith) refl

posts-Audited_example :
    let w = request db (session []) broker in
    Audited (apply_update boss 1 reword w) w (updated_row boss 1 reword tables)
    × (((row : PostModel) × (find_post boss 1 db ≡ some row)
          × Audited (delete_post boss 1 w) w (deleted_row boss 1 row tables))
        ⊎ ((find_post boss 1 db ≡ none)
            × (e : Exception) × ((delete_post boss 1 w).0 ≡ err e)
            × ((delete_post boss 1 w).1.crm ≡ session [])))
posts-Audited_example = posts-Audited boss 1 (request db (session []) broker) refl reword
