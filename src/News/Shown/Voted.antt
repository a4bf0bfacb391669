-- ===== src/News/Shown/Voted.antt =====
-- What `get_post` shows of a vote that `cast_vote` stored.
use news_board.Prelude.{
  ℕ, String, ◌≡◌, refl, ◌∙◌, true, false, Bool, Option, some, none, map, filter, List, length, leb,
  ltb, ◌==◌, In, arith,
}
use news_board.Prelude.Keys.{fromkeys, nat_key}
use news_board.Context.{Context, DateTime, ensure_aware}
use news_board.Exec.{ok}
use news_board.Markdown.{render_markdown}
use news_board.News.Schemas.{PostDetail}
use news_board.News.Posts.Asked.{setting}
use news_board.News.Shown.Created.{shown_option, admin_known, members_known, display_known}
use news_board.Const.{
  PostType, is_poll, post_type_of_int, AdminVisibility, MemberVisibility, MemberDisplay,
  int_of_admin_visibility, int_of_member_visibility, int_of_member_display,
}
use news_board.Crm.{CrmSession}
use news_board.Realtime.{Broker}
use news_board.Local.{PostModel, PostPollModel, Db}
use news_board.Local.Repository.{
  in_scope, get_voter_votes, get_post_with_options, load_options, select_options, sort_options,
}
use news_board.Local.Ballots.{ballot, erase_votes-eq-filter}
use news_board.Local.Consistency.{IsConsistent}
use news_board.Local.Lookup.{find_post-some}
use news_board.Local.Scoped.{map-votes_of}
use news_board.World.{request}
use news_board.News.{poll_ended, current_voter}
use news_board.News.Mappers.{to_post_detail}
use news_board.News.Reads.{get_post, voter_selection, nonempty}
use news_board.News.Votes.{cast_vote, is_single}
use news_board.News.Votes.Swap.{IsOptionOf}
use news_board.News.Votes.Recorded.{cast_vote-swapped, cast_vote_records}
use news_board.News.Votes.Consistent.{cast_vote-IsConsistent}

module _ (ctx : Context) (d : Db) (crm : CrmSession) (broker : Broker) (post : PostModel)
    (t : PostType) (c : IsConsistent d) (there : In post d.posts)
    (scoped : in_scope ctx.internal_community_id post.id_community ≡ true)
    (typed : post_type_of_int post.type ≡ some t) where
  -- a poll, to a member
  get_post_shows_poll :
      (v : String)
      → is_poll t ≡ true
      → current_voter ctx ≡ some v
      → (get_post ctx post.id (request d crm broker)).0
        ≡ to_post_detail ctx post
            (select_options post.id d)
            (nonempty (ballot post.id v d))
            (poll_ended ctx post)
            (ballot post.id v d)
  unfolding get_post voter_selection get_post_with_options load_options get_voter_votes
  get_post_shows_poll v poll voter = ground (
    arith,
    find_post-some ctx d post c.keyed there scoped,
    map-votes_of ctx d post c there scoped v,
  )

module _ (ctx : Context) (d : Db) (crm : CrmSession) (broker : Broker) (post : PostModel)
    (t : PostType) (c : IsConsistent d) (there : In post d.posts)
    (scoped : in_scope ctx.internal_community_id post.id_community ≡ true)
    (typed : post_type_of_int post.type ≡ some t) where
  cast_vote-shown :
      (v : String) (ids : List ℕ) (crm' : CrmSession) (broker' : Broker) (later : Context)
      → in_scope later.internal_community_id post.id_community ≡ true
      → current_voter later ≡ some v
      → is_poll t ≡ true
      → poll_ended ctx post ≡ false
      → current_voter ctx ≡ some v
      → ((i : ℕ) → In i ids → IsOptionOf post.id d i)
      → (is_single t ≡ true → length (fromkeys ids) ≡ 1)
      → (get_post later post.id
          (request (cast_vote ctx post.id ids (request d crm broker)).1.local.saved crm' broker')).0
        ≡ to_post_detail later post
            (select_options post.id d)
            (nonempty (fromkeys ids))
            (poll_ended later post)
            (fromkeys ids)
  unfolding select_options
  cast_vote-shown v ids crm' broker' later here signed poll running voter valid one =
      let e = (cast_vote ctx post.id ids (request d crm broker)).1.local.saved in
      let (_, state) =
        cast_vote-swapped ctx d crm broker post t v ids c there scoped typed poll running voter
          valid one in
      let (_, own) =
        cast_vote_records ctx d crm broker post t v ids c there scoped typed poll running voter
          valid one in
      let still =
        cast_vote-IsConsistent ctx d crm broker post t v ids c there scoped typed poll running voter
          valid one in
      let posts : e.posts ≡ d.posts = rw (state, erase_votes-eq-filter) refl in
      let options : e.options ≡ d.options = rw (state, erase_votes-eq-filter) refl in
      let shown =
        get_post_shows_poll later e crm' broker' post t still (rw posts there) here typed v poll
          signed in
      shown ∙ rw (own, options) refl

-- whether a post has ended at a time
abbrev pub ended_by : Option DateTime → ℕ → Bool
ended_by none now = false
ended_by (some t) now = leb (ensure_aware t) now

-- a stored poll, as an answer shows it with the caller's selection
abbrev pub voted_detail :
    Context
    → PostModel
    → PostType
    → List PostPollModel
    → List ℕ
    → Option AdminVisibility
    → Option MemberVisibility
    → Option MemberDisplay
    → PostDetail
voted_detail later post t options selection av mv md = record {
  id = post.id;
  type = t;
  author_id = post.author_id;
  author_email = post.author_email;
  post = post.post;
  body_html = render_markdown later.packages post.post;
  created_at = post.created_at;
  updated_at = post.updated_at;
  expires_at = post.expires_at;
  is_poll = true;
  poll_ended = ended_by post.expires_at later.now;
  options = map shown_option options;
  has_voted = ltb 0 (length selection);
  my_option_ids = selection;
  admin_visibility = av;
  member_visibility = mv;
  member_display = md;
}

to_post_detail-voted :
    (later : Context) (post : PostModel) (t : PostType) (options : List PostPollModel)
    (selection : List ℕ) (av : Option AdminVisibility) (mv : Option MemberVisibility)
    (md : Option MemberDisplay)
    → post_type_of_int post.type ≡ some t
    → is_poll t ≡ true
    → post.admin_visibility ≡ setting true int_of_admin_visibility av
    → post.member_visibility ≡ setting true int_of_member_visibility mv
    → post.member_display ≡ setting true int_of_member_display md
    → to_post_detail later post options (nonempty selection) (poll_ended later post) selection
      ≡ ok (voted_detail later post t options selection av mv md)
unfolding to_post_detail poll_ended
to_post_detail-voted later post t options selection av mv md typed poll a m d =
    ground (arith, admin_known true av, members_known true mv, display_known true md)

module _ (ctx : Context) (d : Db) (crm : CrmSession) (broker : Broker) (post : PostModel)
    (t : PostType) (av : Option AdminVisibility) (mv : Option MemberVisibility)
    (md : Option MemberDisplay) (c : IsConsistent d) (there : In post d.posts)
    (scoped : in_scope ctx.internal_community_id post.id_community ≡ true)
    (typed : post_type_of_int post.type ≡ some t)
    (admin : post.admin_visibility ≡ setting true int_of_admin_visibility av)
    (members : post.member_visibility ≡ setting true int_of_member_visibility mv)
    (display : post.member_display ≡ setting true int_of_member_display md) where
  -- In a consistent database, after a vote of a signed-in caller on a running poll of the
  -- request's community whose visibility columns hold settings, for options of that poll
  -- (exactly one distinct option if the poll is single-choice), a get_post of the same caller
  -- in that community, at any time, answers with the stored poll and its HTML, its settings,
  -- its options in display order with their texts, whether it has ended at that time, and the
  -- distinct options of the vote as the caller's selection, in their order.
  pub cast_vote-get_post :
      (v : String) (ids : List ℕ) (crm' : CrmSession) (broker' : Broker) (later : Context)
      → in_scope later.internal_community_id post.id_community ≡ true
      → current_voter later ≡ some v
      → is_poll t ≡ true
      → poll_ended ctx post ≡ false
      → current_voter ctx ≡ some v
      → ((i : ℕ) → In i ids → IsOptionOf post.id d i)
      → (is_single t ≡ true → length (fromkeys ids) ≡ 1)
      → (get_post later post.id
          (request (cast_vote ctx post.id ids (request d crm broker)).1.local.saved crm' broker')).0
        ≡ ok (
            voted_detail later post t
              (sort_options (filter (λ (o : PostPollModel). o.id_post == post.id) d.options))
              (fromkeys ids)
              av
              mv
              md)
  unfolding select_options
  cast_vote-get_post v ids crm' broker' later here signed poll running voter valid one =
      cast_vote-shown ctx d crm broker post t c there scoped typed v ids crm' broker' later here
        signed poll running voter valid one
      ∙ to_post_detail-voted later post t (select_options post.id d) (fromkeys ids) av mv md typed
          poll admin members display
