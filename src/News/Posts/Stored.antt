-- ===== src/News/Posts/Stored.antt =====
-- The rows that `create_post` commits.
use mathlib.Core.List.{append-nil}
use news_board.Prelude.{
  ℕ, suc, String, ◌≡◌, refl, true, false, Bool, Option, some, none, List, [], ◌∷◌, ◌++◌, In,
  In-append_right, In-any, ◌==◌, arith, inl, inr,
}
use news_board.Context.{Context, DateTime}
use news_board.Const.{is_poll}
use news_board.Exec.{ok}
use news_board.Crm.{CrmSession}
use news_board.Crm.Users.{get_emails_by_auth_ids}
use news_board.Realtime.{Broker}
use news_board.Local
use news_board.Local.{PostModel, PostPollModel, Db, open_session}
use news_board.Local.Repository
use news_board.Local.Repository.{is_smallint, insert_options, add_options}
use news_board.Local.Consistency.{IsConsistent}
use news_board.Local.Grown.{
  with_post, with_options, number_options, insert_options_total, with_post-IsConsistent,
  with_options-IsConsistent,
}
use news_board.Notifications.Service.{Config}
use news_board.World.{request}
use news_board.News.Schemas.{CreatePostRequest, PollOptionInput}
use news_board.News.Posts.{create_post, store_post, expiry_of}
use news_board.News.Posts.Polls.{build_options, build_from}
use news_board.News.Posts.Created.{drafted, create_post-ok}

abbrev pub poll_options : Bool → Option (List PollOptionInput) → ℕ → ℕ → List PostPollModel
poll_options false options post_id community = []
poll_options true none post_id community = []
poll_options true (some os) post_id community = build_options os post_id community

-- the option rows of a request: those of a poll, in the order of the request
abbrev pub options_of : CreatePostRequest → ℕ → ℕ → List PostPollModel
options_of req post_id community = poll_options (is_poll req.type) req.options post_id community

pub build_from-belongs :
    (idx : ℕ) (os : List PollOptionInput) (post_id community : ℕ) (o : PostPollModel)
    → In o (build_from idx os post_id community)
    → (o.id_post ≡ post_id) × (o.id_community ≡ community)
build_from-belongs idx [] i c o m = absurd m
build_from-belongs idx (x ∷ os) i c o (inl e) = ground arith
build_from-belongs idx (x ∷ os) i c o (inr m) = build_from-belongs (suc idx) os i c o m

pub poll_options-belongs :
    (poll : Bool) (options : Option (List PollOptionInput)) (post_id community : ℕ)
    (o : PostPollModel)
    → In o (poll_options poll options post_id community)
    → (o.id_post ≡ post_id) × (o.id_community ≡ community)
poll_options-belongs false options i c o m = absurd m
poll_options-belongs true none i c o m = absurd m
poll_options-belongs true (some os) i c o m = build_from-belongs 0 os i c o m

module _ (d : Db) (c : IsConsistent d) (req : CreatePostRequest) (value : PostModel) (community : ℕ)
    (fit : (o : PostPollModel)
      → In o (options_of req d.next_post community)
      → is_smallint o.display_order ≡ true) where
  abbrev row : PostModel
  row = record value { id = d.next_post }

  abbrev after : Db
  after = with_options (options_of req d.next_post community) (with_post row d)

  inserted :
      insert_options (options_of req d.next_post community) (with_post row d)
      ≡ some (number_options d.next_option (options_of req d.next_post community), after)
  inserted = insert_options_total (options_of req d.next_post community) (with_post row d) (λ o m.
      let (post, _) =
        poll_options-belongs (is_poll req.type) req.options d.next_post community o m in
      (
        fit o m,
        In-any (λ (p : PostModel). p.id == o.id_post) (d.posts ++ row ∷ []) row
            (In-append_right row d.posts (row ∷ []) (inl refl)) (ground (arith, post)),
      ))

  store_post-ok :
      ((store_post req value community (open_session d)).0 ≡ ok row)
      × ((store_post req value community (open_session d)).1.saved ≡ after)
  unfolding store_post Repository.create_post add_options Local.commit
  store_post-ok = ground (arith, inserted, append-nil d.options)

  after-IsConsistent : value.id_community ≡ community → IsConsistent after
  after-IsConsistent same =
      with_options-IsConsistent (with_post row d) (with_post-IsConsistent d c row refl)
        (options_of req d.next_post community)
        (λ o m.
          let (post, own) =
            poll_options-belongs (is_poll req.type) req.options d.next_post community o m in
          (
            row,
            In-append_right row d.posts (row ∷ []) (inl refl),
            ground (arith, post),
            ground (arith, own, same),
          ))

-- the rows, as the operations build them
pub create_post-stored :
    (cfg : Config) (ctx : Context) (req : CreatePostRequest) (community : ℕ) (author : String)
    (d : Db) (crm : CrmSession) (broker : Broker) (expires : Option DateTime)
    (emails : List (String × String))
    → IsConsistent d
    → expiry_of ctx req ≡ ok expires
    → (get_emails_by_auth_ids (author ∷ []) crm).0 ≡ ok emails
    → ((o : PostPollModel)
        → In o (options_of req d.next_post community)
        → is_smallint o.display_order ≡ true)
    → let (r, w) = create_post cfg ctx req community author (request d crm broker) in
      let e = w.local.saved in
      (r ≡ ok d.next_post)
      × (e.posts
          ≡ d.posts
            ++ record (drafted ctx req community author emails expires) { id = d.next_post } ∷ [])
      × (e.options
          ≡ d.options ++ number_options d.next_option (options_of req d.next_post community))
      × (e.votes ≡ d.votes)
      × IsConsistent e
create_post-stored cfg ctx req community author d crm broker expires emails c accepted answered
      fit =
    let value = drafted ctx req community author emails expires in
    let (stored, state) = store_post-ok d c req value community fit in
    let (done, local) =
      create_post-ok cfg ctx req community author (request d crm broker) expires emails
        (record value { id = d.next_post }) accepted answered stored in
    (
      done,
      ground arith,
      ground arith,
      ground arith,
      rw (local, state) (after-IsConsistent d c req value community fit refl),
    )
