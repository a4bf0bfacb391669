-- ===== src/News/Posts/Asked.antt =====
-- The rows that a request to create a post asks for, and that `create_post` commits them.
use news_board.Prelude.{
  ℕ, suc, String, ◌≡◌, refl, ap, true, false, Bool, Option, some, none, List, [], ◌∷◌, ◌++◌, In,
  map, filter, find, str_eq, eq_iff, truthy, arith, inl, inr,
}
use news_board.Prelude.Int.{pos}
use news_board.Prelude.Keys.{contains, fromkeys, string_key}
use news_board.Context.{Context, DateTime, aware, ensure_aware}
use news_board.Const.{
  is_poll, int_of_post_type, int_of_admin_visibility, int_of_member_visibility,
  int_of_member_display,
}
use news_board.Exec.{ok}
use news_board.Crm.{AppUserModel, CrmDb, CrmSession, roundtrip}
use news_board.Crm.Users.{email_of, get_emails_by_auth_ids}
use news_board.Realtime.{Broker}
use news_board.Local.{PostModel, PostPollModel, Db}
use news_board.Local.Repository.{is_smallint}
use news_board.Local.Consistency.{IsConsistent}
use news_board.Local.Grown.{number_options}
use news_board.Notifications.Service.{Config}
use news_board.World.{request}
use news_board.News.Schemas.{CreatePostRequest, PollOptionInput}
use news_board.News.Posts.{create_post, expiry_of}
use news_board.News.Posts.Polls.{build_from, validate_poll_payload}
use news_board.News.Posts.Created.{drafted}
use news_board.News.Posts.Stored.{poll_options, options_of, create_post-stored}

-- the address of an author in the table of users
abbrev pub address : String → CrmDb → Option String
address author d = elim (find (λ (u : AppUserModel). str_eq author u.auth_user_id) d.users) [
  | none ↦ none
  | some u ↦ some u.email
]

-- the expiry of a poll, as an aware time
abbrev pub asked_expiry : CreatePostRequest → Option DateTime
asked_expiry req = elim (is_poll req.type) [
  | false ↦ none
  | true ↦ elim req.expires_at [ none ↦ none | some t ↦ some (aware (ensure_aware t)) ]
]

-- a setting that only polls have, as it is stored
abbrev pub setting : {A : Type 0} → Bool → (A → ℕ) → Option A → Option ℕ
setting false stored value = none
setting true stored none = none
setting true stored (some a) = some (stored a)

abbrev pub asked_post : Context → CreatePostRequest → ℕ → String → Option String → ℕ → PostModel
asked_post ctx req community author email i = record {
  id = i;
  id_community = community;
  author_id = author;
  author_email = email;
  type = int_of_post_type req.type;
  post = req.post;
  expires_at = asked_expiry req;
  admin_visibility = setting (is_poll req.type) int_of_admin_visibility req.admin_visibility;
  member_visibility = setting (is_poll req.type) int_of_member_visibility req.member_visibility;
  member_display = setting (is_poll req.type) int_of_member_display req.member_display;
  created_at = ctx.now;
  updated_at = ctx.now;
}

-- the rows of options from the identity `n` and the position `position` on
abbrev pub asked_from : ℕ → ℕ → List PollOptionInput → ℕ → ℕ → List PostPollModel
asked_from n position [] i community = []
asked_from n position (o ∷ os) i community =
    record {
      id = n;
      id_community = community;
      id_post = i;
      option_value = o.option_value;
      display_order = elim o.display_order [ none ↦ pos position | some place ↦ place ];
    }
    ∷ asked_from (suc n) (suc position) os i community

-- the options that a request asks for: none for a post that is no poll
abbrev asked_rows : Bool → Option (List PollOptionInput) → ℕ → ℕ → ℕ → List PostPollModel
asked_rows false options n i community = []
asked_rows true none n i community = []
asked_rows true (some os) n i community = asked_from n 0 os i community

abbrev pub asked_options : CreatePostRequest → ℕ → ℕ → ℕ → List PostPollModel
asked_options req n i community = asked_rows (is_poll req.type) req.options n i community

asked_from-build_from :
    (n position : ℕ) (os : List PollOptionInput) (i community : ℕ)
    → number_options n (build_from position os i community) ≡ asked_from n position os i community
asked_from-build_from n position [] i community = refl
asked_from-build_from n position (o ∷ os) i community =
    ground (arith, asked_from-build_from (suc n) (suc position) os i community)

asked_rows-poll_options :
    (poll : Bool) (options : Option (List PollOptionInput)) (n i community : ℕ)
    → number_options n (poll_options poll options i community)
      ≡ asked_rows poll options n i community
asked_rows-poll_options false options n i community = refl
asked_rows-poll_options true none n i community = refl
asked_rows-poll_options true (some os) n i community = asked_from-build_from n 0 os i community

pub asked_options-options_of :
    (req : CreatePostRequest) (n i community : ℕ)
    → number_options n (options_of req i community) ≡ asked_options req n i community
asked_options-options_of req n i community =
    asked_rows-poll_options (is_poll req.type) req.options n i community

In-number_options :
    (n : ℕ) (os : List PostPollModel) (o : PostPollModel)
    → In o os
    → (m : ℕ) × In (record o { id = m }) (number_options n os)
In-number_options n [] o m = absurd m
In-number_options n (x ∷ os) o (inl e) =
    (n, inl (ap (λ (y : PostPollModel). record y { id = n }) e))
In-number_options n (x ∷ os) o (inr m) =
    let (k, there) = In-number_options (suc n) os o m in (k, inr there)

email_of-address :
    (author : String) (us : List AppUserModel)
    → email_of
        (map
          (λ (u : AppUserModel). (u.auth_user_id, u.email))
          (filter (λ (u : AppUserModel). contains (author ∷ []) u.auth_user_id) us))
        author
      ≡ elim (find (λ (u : AppUserModel). str_eq author u.auth_user_id) us) [
        | none ↦ none
        | some u ↦ some u.email
      ]
email_of-address author [] = refl
email_of-address author (u ∷ us) =
    ground (
      arith,
      email_of-address author us,
      eq_iff author u.auth_user_id,
      eq_iff u.auth_user_id author,
    )

pub answered-address :
    (author : String) (crm : CrmSession) (emails : List (String × String))
    → truthy (some author) ≡ true
    → (get_emails_by_auth_ids (author ∷ []) crm).0 ≡ ok emails
    → email_of emails author ≡ address author crm.work
unfolding get_emails_by_auth_ids fromkeys roundtrip
answered-address author crm emails named h = ground (arith, email_of-address author crm.work.users)

pub accepted-expiry :
    (ctx : Context) (req : CreatePostRequest) (expires : Option DateTime)
    → expiry_of ctx req ≡ ok expires
    → expires ≡ asked_expiry req
unfolding validate_poll_payload
accepted-expiry ctx req expires h = ground arith

pub drafted-asked :
    (ctx : Context) (req : CreatePostRequest) (community : ℕ) (author : String)
    (emails : List (String × String)) (expires : Option DateTime) (email : Option String) (i : ℕ)
    → expires ≡ asked_expiry req
    → email_of emails author ≡ email
    → record (drafted ctx req community author emails expires) { id = i }
      ≡ asked_post ctx req community author email i
drafted-asked ctx req community author emails expires email i expiry known = ground arith

-- orders that fit as they are asked for fit as they are built
pub fits-asked :
    (req : CreatePostRequest) (n i community : ℕ)
    → ((o : PostPollModel)
        → In o (asked_options req n i community)
        → is_smallint o.display_order ≡ true)
    → (o : PostPollModel) → In o (options_of req i community)
    → is_smallint o.display_order ≡ true
fits-asked req n i community fit o m =
    let (k, there) = In-number_options n (options_of req i community) o m in
    fit (record o { id = k }) (rw (← asked_options-options_of req n i community) there)

-- Where a request is accepted, its named author's email can be read and every display order fits
-- its column, create_post in a consistent database returns the next identity and commits a
-- consistent database: the old rows, then the post under that identity, with the text, the type
-- and the author of the request, the author's email in the table of users, and for a poll the
-- expiry and the visibility settings of the request, and, for a poll, one option for each of the
-- request, in its order and with its text, and with its display order or else its position.
pub create_post_stores :
    (cfg : Config) (ctx : Context) (req : CreatePostRequest) (community : ℕ) (author : String)
    (d : Db) (crm : CrmSession) (broker : Broker) (expires : Option DateTime)
    (emails : List (String × String))
    → IsConsistent d
    → expiry_of ctx req ≡ ok expires
    → truthy (some author) ≡ true
    → (get_emails_by_auth_ids (author ∷ []) crm).0 ≡ ok emails
    → ((o : PostPollModel)
        → In o (asked_options req d.next_option d.next_post community)
        → is_smallint o.display_order ≡ true)
    → let (r, w) = create_post cfg ctx req community author (request d crm broker) in
      let e = w.local.saved in
      (r ≡ ok d.next_post)
      × (e.posts
          ≡ d.posts
            ++ asked_post ctx req community author (address author crm.work) d.next_post ∷ [])
      × (e.options ≡ d.options ++ asked_options req d.next_option d.next_post community)
      × (e.votes ≡ d.votes)
      × IsConsistent e
create_post_stores cfg ctx req community author d crm broker expires emails c accepted named
      answered fit =
    let rows = asked_options-options_of req d.next_option d.next_post community in
    let row =
      drafted-asked ctx req community author emails expires (address author crm.work) d.next_post
        (accepted-expiry ctx req expires accepted)
        (answered-address author crm emails named answered) in
    rw (← rows, ← row)
      (create_post-stored cfg ctx req community author d crm broker expires emails c accepted
        answered (fits-asked req d.next_option d.next_post community fit))
