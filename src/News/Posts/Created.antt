-- ===== src/News/Posts/Created.antt =====
-- What `create_post` stores, when it refuses, and that nothing after the commit can undo it.
use news_board.Prelude.{
  ℕ, ◌≤◌, ◌<◌, String, ◌≡◌, ◌↔◌, true, Option, some, List, [], ◌∷◌, is_some, arith, inl, inr,
  Option-cases,
}
use news_board.Context.{Context, DateTime, aware, ensure_aware}
use news_board.Const.{is_poll}
use news_board.Errors.{error_exception, invalid_poll}
use news_board.Exec.{ok, err, raises, Result-cases}
use news_board.Crm.Users.{email_of, get_emails_by_auth_ids}
use news_board.Local
use news_board.Local.{PostModel}
use news_board.Notifications.Service.{Config}
use news_board.World.{World}
use news_board.News.Effects.{audit_keeps, notify_keeps}
use news_board.News.Schemas.{CreatePostRequest}
use news_board.News.Posts.{create_post, store_post, new_post, expiry_of}
use news_board.News.Posts.Polls.{validate_poll_payload, option_count}

-- A poll payload is accepted exactly where it has two options or more, all three visibility
-- settings and an expiry after the present moment, which is returned as an aware datetime of the
-- same instant.
pub validate_poll_payload_iff :
    (ctx : Context) (req : CreatePostRequest) (expires : Option DateTime)
    → (validate_poll_payload ctx req ≡ ok expires) ↔ (
        (2 ≤ option_count req.options)
        × (is_some req.admin_visibility ≡ true)
        × (is_some req.member_visibility ≡ true)
        × (is_some req.member_display ≡ true)
        × ((t : DateTime) × (req.expires_at ≡ some t)
            × (ctx.now < ensure_aware t)
            × (expires ≡ some (aware (ensure_aware t)))))
unfolding validate_poll_payload
validate_poll_payload_iff ctx req expires = (
  (λ h. elim (Option-cases req.expires_at) [
    | inl n ↦ ground arith
    | inr (t, e) ↦
        (ground arith, ground arith, ground arith, ground arith, (t, e, ground arith, ground arith))
  ]),
  λ (o, a, m, d, (t, e, l, x)). ground arith,
)

-- A poll whose payload is refused raises INVALID_POLL with status 422 and leaves the whole world
-- of the request as it was.
pub create_post_refuses :
    (cfg : Config) (ctx : Context) (req : CreatePostRequest) (community : ℕ) (author : String)
    (w : World)
    → is_poll req.type ≡ true
    → raises (validate_poll_payload ctx req) ≡ true
    → create_post cfg ctx req community author w ≡ (err (error_exception invalid_poll 422), w)
unfolding create_post validate_poll_payload
create_post_refuses cfg ctx req community author w p h = ground arith

-- the value handed to `store_post` when the author's email is `emails`
abbrev pub drafted :
    Context → CreatePostRequest → ℕ → String → List (String × String) → Option DateTime → PostModel
drafted ctx req community author emails expires =
    new_post ctx req community author (email_of emails author) expires

-- Where the request is accepted, the email query answers and the rows can be stored, the call
-- returns the new identity and leaves the local session of `store_post`.
pub create_post-ok :
    (cfg : Config) (ctx : Context) (req : CreatePostRequest) (community : ℕ) (author : String)
    (w : World) (expires : Option DateTime) (emails : List (String × String)) (row : PostModel)
    → expiry_of ctx req ≡ ok expires
    → (get_emails_by_auth_ids (author ∷ []) w.crm).0 ≡ ok emails
    → (store_post req (drafted ctx req community author emails expires) community w.local).0
      ≡ ok row
    → ((create_post cfg ctx req community author w).0 ≡ ok row.id)
      × ((create_post cfg ctx req community author w).1.local
          ≡ (store_post req (drafted ctx req community author emails expires) community w.local).1)
unfolding create_post
create_post-ok cfg ctx req community author w expires emails row h e s =
    grind (arith, audit_keeps, notify_keeps)

-- Two calls of create_post with the same arguments, from the same local session and with the same
-- answer to the query for the author's email, return the same and leave the same local session,
-- whatever else the CRM database and Redis do.
pub create_post_best_effort :
    (cfg : Config) (ctx : Context) (req : CreatePostRequest) (community : ℕ) (author : String)
    (w x : World)
    → w.local ≡ x.local
    → (get_emails_by_auth_ids (author ∷ []) w.crm).0
      ≡ (get_emails_by_auth_ids (author ∷ []) x.crm).0
    → ((create_post cfg ctx req community author w).0
        ≡ (create_post cfg ctx req community author x).0)
      × ((create_post cfg ctx req community author w).1.local
          ≡ (create_post cfg ctx req community author x).1.local)
unfolding create_post Local.commit
create_post_best_effort cfg ctx req community author w x l e =
    elim (Result-cases (expiry_of ctx req)) [
      | inl (expires, v) ↦ elim (Result-cases (get_emails_by_auth_ids (author ∷ []) w.crm).0) [
        | inl (emails, m) ↦
            let value = drafted ctx req community author emails expires in
            elim (Result-cases (store_post req value community w.local).0) [
              | inl (row, s) ↦
                  let left =
                    create_post-ok cfg ctx req community author w expires emails row v m s in
                  let right =
                    create_post-ok cfg ctx req community author x expires emails row v
                      (ground arith) (ground arith) in
                  ground arith
              | inr (f, s) ↦ ground arith
            ]
        | inr (f, m) ↦ ground arith
      ]
      | inr (f, v) ↦ ground arith
    ]
