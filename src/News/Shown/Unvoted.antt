-- ===== src/News/Shown/Unvoted.antt =====
-- What `get_post` shows of a post that nobody has voted on.
use news_board.Prelude.{
  ℕ, String, ◌≡◌, refl, ◌∙◌, true, false, Option, some, List, [], ◌∷◌, ◌++◌, filter, In,
  In-append_right, inl, inr, arith, filter-append, filter_all, filter_none, Option-cases, suc, ◌==◌,
}
use news_board.Prelude.Keys.{nat_key}
use news_board.Context.{Context, DateTime}
use news_board.Const.{PostType, is_poll, post_type_of_int, int_of_post_type}
use news_board.Exec.{ok}
use news_board.Crm.{CrmSession}
use news_board.Crm.Users.{get_emails_by_auth_ids}
use news_board.Realtime.{Broker}
use news_board.Local.{PostModel, PostPollModel, Db}
use news_board.Local.Repository.{
  in_scope, get_voter_votes, get_post_with_options, load_options, select_options, sort_options,
  is_smallint,
}
use news_board.Local.Ballots.{ballot, holds}
use news_board.Local.Consistency.{IsConsistent}
use news_board.Local.Grown.{number_options}
use news_board.Local.Lookup.{find_post-some}
use news_board.Local.Scoped.{map-votes_of}
use news_board.Notifications.Service.{Config}
use news_board.World.{request}
use news_board.News.{poll_ended, current_voter}
use news_board.News.Mappers.{to_post_detail}
use news_board.News.Reads.{get_post, voter_selection}
use news_board.News.Schemas.{CreatePostRequest}
use news_board.News.Posts.{create_post, expiry_of}
use news_board.News.Posts.Polls.{validate_poll_payload}
use news_board.News.Posts.Created.{drafted}
use news_board.News.Posts.Stored.{options_of, poll_options-belongs, create_post-stored}

module _ (ctx : Context) (d : Db) (crm : CrmSession) (broker : Broker) (post : PostModel)
    (t : PostType) (c : IsConsistent d) (there : In post d.posts)
    (scoped : in_scope ctx.internal_community_id post.id_community ≡ true)
    (typed : post_type_of_int post.type ≡ some t) where
  -- a post that nobody has voted on, to anyone
  get_post_shows_unvoted :
      ((v : String) → ballot post.id v d ≡ [])
      → (get_post ctx post.id (request d crm broker)).0
        ≡ to_post_detail ctx post (select_options post.id d) false (poll_ended ctx post) []
  unfolding get_post voter_selection get_post_with_options load_options get_voter_votes
  get_post_shows_unvoted unvoted = elim (Option-cases (current_voter ctx)) [
    | inl stranger ↦ ground (arith, find_post-some ctx d post c.keyed there scoped)
    | inr (v, voter) ↦ ground (
      arith,
      find_post-some ctx d post c.keyed there scoped,
      map-votes_of ctx d post c there scoped v,
      unvoted v,
    )
  ]

number_options-belongs :
    (n i : ℕ) (os : List PostPollModel)
    → ((o : PostPollModel) → In o os → o.id_post ≡ i)
    → (o : PostPollModel) → In o (number_options n os)
    → (o.id_post == i) ≡ true
number_options-belongs n i [] h o m = absurd m
number_options-belongs n i (x ∷ os) h o (inl e) = ground (arith, h x (inl refl))
number_options-belongs n i (x ∷ os) h o (inr m) =
    number_options-belongs (suc n) i os (λ y my. h y (inr my)) o m

-- the options of the next post are those appended
select_options-appended :
    (d : Db) (os : List PostPollModel)
    → IsConsistent d
    → ((o : PostPollModel) → In o os → o.id_post ≡ d.next_post)
    → filter
        (λ (o : PostPollModel). o.id_post == d.next_post)
        (d.options ++ number_options d.next_option os)
      ≡ number_options d.next_option os
select_options-appended d os c belongs =
    let own = λ (o : PostPollModel). o.id_post == d.next_post in
    rw
      (
        filter-append,
        filter_none own d.options
            (λ o m. let (p, mp, e, _) = c.option_post o m in ground (arith, c.post_fresh p mp)),
        filter_all own (number_options d.next_option os)
            (number_options-belongs d.next_option d.next_post os belongs),
      )
      refl

-- nobody has voted on the next post
ballot-next_post : (d : Db) (v : String) → IsConsistent d → ballot d.next_post v d ≡ []
ballot-next_post d v c =
    rw
      (filter_none (holds d.next_post v) d.votes
        (λ w m. let (p, mp, e, _) = c.vote_post w m in ground (arith, c.post_fresh p mp)))
      refl

pub int_of_post_type-decoded : (t : PostType) → post_type_of_int (int_of_post_type t) ≡ some t
int_of_post_type-decoded t = ground arith

-- a draft that is accepted has not ended
accepted-running :
    (ctx : Context) (req : CreatePostRequest) (community : ℕ) (author : String)
    (emails : List (String × String)) (expires : Option DateTime) (i : ℕ)
    → expiry_of ctx req ≡ ok expires
    → poll_ended ctx (record (drafted ctx req community author emails expires) { id = i }) ≡ false
unfolding poll_ended validate_poll_payload
accepted-running ctx req community author emails expires i accepted = ground arith

-- the row that `create_post` stores under an identity
abbrev pub created :
    Context
    → CreatePostRequest
    → ℕ
    → String
    → List (String × String)
    → Option DateTime
    → ℕ
    → PostModel
created ctx req community author emails expires i =
    record (drafted ctx req community author emails expires) { id = i }

module _ (cfg : Config) (ctx : Context) (req : CreatePostRequest) (community : ℕ) (author : String)
    (d : Db) (crm : CrmSession) (broker : Broker) (expires : Option DateTime)
    (emails : List (String × String)) (c : IsConsistent d) where
  pub create_post-shown :
      (crm' : CrmSession) (broker' : Broker)
      → expiry_of ctx req ≡ ok expires
      → (get_emails_by_auth_ids (author ∷ []) crm).0 ≡ ok emails
      → ((o : PostPollModel)
          → In o (options_of req d.next_post community)
          → is_smallint o.display_order ≡ true)
      → in_scope ctx.internal_community_id community ≡ true
      → let (r, w) = create_post cfg ctx req community author (request d crm broker) in
        (r ≡ ok d.next_post)
        × ((get_post ctx d.next_post (request w.local.saved crm' broker')).0
            ≡ to_post_detail ctx
                (created ctx req community author emails expires d.next_post)
                (sort_options (number_options d.next_option (options_of req d.next_post community)))
                false
                false
                [])
  unfolding select_options
  create_post-shown crm' broker' accepted answered fit scoped =
      let new = options_of req d.next_post community in
      let row = created ctx req community author emails expires d.next_post in
      let e = (create_post cfg ctx req community author (request d crm broker)).1.local.saved in
      let (done, posts, options, votes, still) =
        create_post-stored cfg ctx req community author d crm broker expires emails c accepted
          answered fit in
      let there : In row e.posts = rw posts (In-append_right row d.posts (row ∷ []) (inl refl)) in
      let shown =
        get_post_shows_unvoted ctx e crm' broker' row req.type still there scoped
          (int_of_post_type-decoded req.type) (λ v. rw votes (ballot-next_post d v c)) in
      (
        done,
        shown
            ∙ rw
                (
                  accepted-running ctx req community author emails expires d.next_post accepted,
                  options,
                  select_options-appended d new c (λ o m.
                      (poll_options-belongs (is_poll req.type) req.options d.next_post community o
                        m).0),
                )
                refl,
      )
