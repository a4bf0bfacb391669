-- ===== src/News/Preserved/Posts.antt =====
-- Creations and deletions keep the database consistent, on every branch.
use news_board.Prelude.{
  ℕ, suc, ◌++◌, String, ◌≡◌, ◌⊎◌, inl, inr, true, Option, some, none, Option-cases, List, [], ◌∷◌,
  In, arith,
}
use news_board.Context.{Context, DateTime}
use news_board.Errors.{Exception}
use news_board.Exec.{ok, err, raises, Result-cases}
use news_board.Crm.{CrmSession}
use news_board.Crm.Users.{get_emails_by_auth_ids}
use news_board.Realtime.{Broker}
use news_board.Local
use news_board.Local.{PostModel, PostPollModel, Db, open_session}
use news_board.Local.Repository
use news_board.Local.Repository.{is_smallint, insert_options, add_options, find_post, cascade_post}
use news_board.Local.Consistency.{IsConsistent}
use news_board.Local.Grown.{with_post}
use news_board.Local.Removed.{cascade_post-IsConsistent}
use news_board.Notifications.Service.{Config}
use news_board.World.{request}
use news_board.News.Effects.{audit_keeps}
use news_board.News.Schemas.{CreatePostRequest}
use news_board.News.Posts.{create_post, store_post, delete_post, expiry_of}
use news_board.News.Posts.Created.{drafted}
use news_board.News.Posts.Stored.{options_of, create_post-stored}

-- options that are inserted have display orders that fit
pub insert_options_fit :
    (os : List PostPollModel) (d : Db) (x : List PostPollModel × Db)
    → insert_options os d ≡ some x
    → (o : PostPollModel) → In o os
    → is_smallint o.display_order ≡ true
insert_options_fit [] d x h o m = absurd m
insert_options_fit (q ∷ os) d x h o m =
    let row : PostPollModel = record q { id = d.next_option } in
    let d' : Db = record d { options = d.options ++ row ∷ []; next_option = suc d.next_option } in
    elim (Option-cases (insert_options os d')) [
      | inl none_ ↦ absurd (ground arith)
      | inr (y, more) ↦
          let rest = insert_options_fit os d' y more in
          let first : is_smallint q.display_order ≡ true = ground arith in
          elim m [ inl e ↦ rw e first | inr n ↦ rest o n ]
    ]

module _ (ctx : Context) (d : Db) (crm : CrmSession) (broker : Broker) (c : IsConsistent d) where
  pub delete_post-IsConsistent :
      (i : ℕ) → IsConsistent (delete_post ctx i (request d crm broker)).1.local.saved
  unfolding delete_post Repository.delete_post Repository.get_post Local.commit
  delete_post-IsConsistent i = elim (Option-cases (find_post ctx i d)) [
    | inl none_ ↦
        let same : (delete_post ctx i (request d crm broker)).1.local.saved ≡ d = ground arith in
        rw same c
    | inr (p, found) ↦
        let gone : (delete_post ctx i (request d crm broker)).1.local.saved ≡ cascade_post p.id d =
          grind (arith, found, audit_keeps) in
        rw gone (cascade_post-IsConsistent p.id d c)
  ]

  module _ (cfg : Config) (req : CreatePostRequest) (community : ℕ) (author : String) where
    -- A row that the database refuses leaves what was committed.
    store_post_refused :
        (value : PostModel)
        → insert_options
            (options_of req d.next_post community)
            (with_post (record value { id = d.next_post }) d)
          ≡ none
        → (raises (store_post req value community (open_session d)).0 ≡ true)
          × ((store_post req value community (open_session d)).1.saved ≡ d)
    unfolding store_post Repository.create_post add_options Local.commit
    store_post_refused value h = ground arith

    -- An email query or a store that raises leaves what was committed.
    create_post_refused :
        (expires : Option DateTime)
        → expiry_of ctx req ≡ ok expires
        → ((e : Exception) × ((get_emails_by_auth_ids (author ∷ []) crm).0 ≡ err e))
          ⊎ ((emails : List (String × String)) × ((get_emails_by_auth_ids (author ∷ []) crm).0
                ≡ ok emails)
              × (raises
                    (store_post req
                      (drafted ctx req community author emails expires)
                      community
                      (open_session d)).0
                  ≡ true)
              × ((store_post req
                    (drafted ctx req community author emails expires)
                    community
                    (open_session d)).1.saved
                  ≡ d))
        → (create_post cfg ctx req community author (request d crm broker)).1.local.saved ≡ d
    unfolding create_post
    create_post_refused expires h (inl (e, m)) = ground arith
    create_post_refused expires h (inr (emails, m, r, s)) = ground arith

    create_post_invalid :
        (e : Exception)
        → expiry_of ctx req ≡ err e
        → (create_post cfg ctx req community author (request d crm broker)).1.local.saved ≡ d
    unfolding create_post
    create_post_invalid e h = ground arith

    pub create_post-IsConsistent :
        IsConsistent (create_post cfg ctx req community author (request d crm broker)).1.local.saved
    create_post-IsConsistent = elim (Result-cases (expiry_of ctx req)) [
      | inr (e, invalid) ↦ rw (create_post_invalid e invalid) c
      | inl (expires, accepted) ↦ elim (Result-cases (get_emails_by_auth_ids (author ∷ []) crm).0) [
        | inr (e, silent) ↦ rw (create_post_refused expires accepted (inl (e, silent))) c
        | inl (emails, answered) ↦
            let value = drafted ctx req community author emails expires in
            let draft = with_post (record value { id = d.next_post }) d in
            elim (Option-cases (insert_options (options_of req d.next_post community) draft)) [
              | inl refused ↦
                  let (raised, same) = store_post_refused value refused in
                  rw (create_post_refused expires accepted (inr (emails, answered, raised, same))) c
              | inr (x, stored) ↦
                  (create_post-stored cfg ctx req community author d crm broker expires emails c
                    accepted answered
                    (insert_options_fit (options_of req d.next_post community) draft x stored)).4
            ]
      ]
    ]
