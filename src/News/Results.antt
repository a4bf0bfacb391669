-- ===== src/News/Results.antt =====
-- api/news/service.py: `get_results` and the visibility matrix.
pub mod Tallied
pub mod Visibility
pub mod Disclosure
use news_board.Prelude.{
  ℕ, String, Bool, true, false, not, ◌&&◌, ◌||◌, Option, none, some, List, [], ◌∷◌, map, any,
  filter, length, ◌==◌, leb, str_eq, truthy, if◌then◌else◌,
}
use news_board.Prelude.Keys.{fromkeys, string_key}
use news_board.Errors.{error_exception, post_not_found, not_a_poll, unexpected}
use news_board.Exec.{Result, ok, err, Exec, ◌>>=◌, ◌>>◌, or_raise, raise_if, lift, pure}
use news_board.Const.{
  PostType, is_poll, AdminVisibility, admin_visibility_of_int, MemberVisibility,
  member_visibility_of_int, MemberDisplay, member_display_of_int,
}
use news_board.Context.{Context}
use news_board.Local.{PostModel, PostPollModel}
use news_board.Local.Repository.{get_post_with_options, get_votes_for_post}
use news_board.Crm.Users.{email_of, get_emails_by_auth_ids}
use news_board.Security.{Role, manager, role_of_value, role_rank}
use news_board.World.{World, on_local, on_crm}
use news_board.News.{post_type_of, poll_ended}
use news_board.News.Schemas.{ResultsMode, VoterIdentity, OptionTally, PollResults}

-- `_current_role`
unfoldable pub current_role : Context → Option Role
current_role ctx = elim ctx.user_role [
  | none ↦ none
  | some s ↦ elim (truthy (some s)) [ true ↦ role_of_value s | false ↦ none ]
]

-- `_is_privileged`
unfoldable pub is_privileged : Context → Bool
unfolding current_role
is_privileged ctx = elim (current_role ctx) [
  | none ↦ false
  | some role ↦ leb (role_rank manager) (role_rank role)
]

-- `E(n) if n is not None else default`
abbrev decode_or : {A : Type 0} → (ℕ → Option A) → A → Option ℕ → Result A
decode_or of_int default none = ok default
decode_or of_int default (some n) = elim (of_int n) [ none ↦ err unexpected | some a ↦ ok a ]

abbrev admin_mode : AdminVisibility → ResultsMode
admin_mode AdminVisibility.full = ResultsMode.full
admin_mode AdminVisibility.aggregate = ResultsMode.aggregate

abbrev member_mode : MemberVisibility → ResultsMode
member_mode MemberVisibility.full = ResultsMode.full
member_mode MemberVisibility.aggregate = ResultsMode.aggregate
member_mode MemberVisibility.nothing = ResultsMode.aggregate

abbrev timing_ok : MemberDisplay → Bool → Bool → Bool
timing_ok MemberDisplay.before_vote has_voted ended = true
timing_ok MemberDisplay.after_vote has_voted ended = has_voted
timing_ok MemberDisplay.when_poll_ends has_voted ended = ended
timing_ok MemberDisplay.never has_voted ended = false

abbrev bind : {A B : Type 0} → Result A → (A → Result B) → Result B
bind (ok a) f = f a
bind (err e) f = err e

abbrev member_results :
    PostModel → Bool → Bool → MemberVisibility → Result (Bool × Option ResultsMode)
member_results post has_voted ended MemberVisibility.nothing = ok (false, none)
member_results post has_voted ended mv =
    bind (decode_or member_display_of_int MemberDisplay.never post.member_display) (λ md.
      if timing_ok md has_voted ended then ok (true, some (member_mode mv)) else ok (false, none))

-- `_resolve_results_visibility`
unfoldable pub resolve_results_visibility :
    PostModel → Bool → Bool → Bool → Result (Bool × Option ResultsMode)
resolve_results_visibility post true has_voted ended =
    bind (decode_or admin_visibility_of_int AdminVisibility.aggregate post.admin_visibility)
      (λ av. ok (true, some (admin_mode av)))
resolve_results_visibility post false has_voted ended =
    bind (decode_or member_visibility_of_int MemberVisibility.nothing post.member_visibility)
      (member_results post has_voted ended)

-- `voters_by_option.get(option_id, [])`
abbrev pub voters_for : ℕ → List (ℕ × String) → List String
voters_for option_id votes =
    map (λ (v : ℕ × String). v.1) (filter (λ (v : ℕ × String). v.0 == option_id) votes)

-- `{v for _, v in votes}`
unfoldable pub distinct_voters : List (ℕ × String) → List String
unfolding fromkeys
distinct_voters votes = fromkeys (map (λ (v : ℕ × String). v.1) votes)

abbrev identities : ResultsMode → List (String × String) → List String → Option (List VoterIdentity)
identities ResultsMode.full emails voters =
    some (map (λ v. record { voter_id = v; email = email_of emails v }) voters)
identities ResultsMode.aggregate emails voters = none

unfoldable pub tally :
    ResultsMode → List (String × String) → List (ℕ × String) → PostPollModel → OptionTally
tally mode emails votes opt = record {
  option_id = opt.id;
  option_value = opt.option_value;
  count = length (voters_for opt.id votes);
  voters = identities mode emails (voters_for opt.id votes);
}

abbrev pub withheld : ℕ → Bool → PollResults
withheld post_id ended = record {
  post_id = post_id;
  poll_ended = ended;
  visible = false;
  mode = none;
  total_voters = none;
  options = none;
}

abbrev pub shown :
    ℕ
    → Bool
    → ResultsMode
    → List (String × String)
    → List (ℕ × String)
    → List PostPollModel
    → PollResults
unfolding tally distinct_voters
shown post_id ended mode emails votes options = record {
  post_id = post_id;
  poll_ended = ended;
  visible = true;
  mode = some mode;
  total_voters = some (length (distinct_voters votes));
  options = some (map (tally mode emails votes) options);
}

-- emails are read only for identities
abbrev pub emails_for : ResultsMode → List String → Exec World (List (String × String))
emails_for ResultsMode.full voters = on_crm (get_emails_by_auth_ids voters)
emails_for ResultsMode.aggregate voters = pure []

abbrev pub voted : Option String → List (ℕ × String) → Bool
voted none votes = false
voted (some u) votes = any (λ (v : ℕ × String). str_eq v.1 u) votes

unfoldable pub present :
    ℕ
    → Bool
    → List (ℕ × String)
    → List PostPollModel
    → Bool × Option ResultsMode
    → Exec World PollResults
unfolding shown
present post_id ended votes options (true, some mode) = do
  emails ← emails_for mode (distinct_voters votes)
  pure (shown post_id ended mode emails votes options)
present post_id ended votes options _ = pure (withheld post_id ended)

unfoldable pub get_results : Context → ℕ → Exec World PollResults
get_results ctx post_id = do
  found ← on_local (get_post_with_options ctx post_id)
  (post, options) ← or_raise found (error_exception post_not_found 404)
  post_type ← post_type_of post
  raise_if (not (is_poll post_type)) (error_exception not_a_poll 400)
  votes ← on_local (get_votes_for_post ctx post_id)
  answer ← lift (
      resolve_results_visibility post (is_privileged ctx) (voted ctx.user_id votes)
        (poll_ended ctx post))
  present post_id (poll_ended ctx post) votes options answer
