-- ===== src/Security/Dependencies.antt =====
-- core/security/dependencies.py: what a route requires of the request.
use news_board.Prelude.{String, Bool, true, false, Option, none, some, truthy, ltb, str_eq, find}
use news_board.Errors.{
  error_exception, bad_request, unauthorized, forbidden, authorization_missing, not_subscribed,
}
use news_board.Exec.{Result, ok, err, Exec, ◌>>=◌, ◌>>◌, lift}
use news_board.Context.{Context}
use news_board.Crm.{CommunitySubscription, CrmDb, CrmSession, query}
use news_board.Local.Repository.{with_community_scope}
use news_board.Security.{Role, role_of_value, role_rank}

-- a text that is neither `None` nor empty, else the error
abbrev require_text : Option String → Result String → Result String
require_text none missing = missing
require_text (some s) missing = elim (truthy (some s)) [ true ↦ ok s | false ↦ missing ]

unfoldable pub require_authenticated : Context → Result String
require_authenticated ctx = require_text ctx.user_id (err (bad_request unauthorized))

abbrev pub bind : {A B : Type 0} → Result A → (A → Result B) → Result B
bind (ok a) f = f a
bind (err e) f = err e

unfoldable pub require_community : Context → Result String
unfolding require_authenticated
require_community ctx =
    bind (require_authenticated ctx)
      (λ _. require_text ctx.community_id (err (bad_request authorization_missing)))

abbrev check_rank : Role → Option Role → String → Result String
check_rank min_role none user_id = err (error_exception forbidden 403)
check_rank min_role (some role) user_id = elim (ltb (role_rank role) (role_rank min_role)) [
  | true ↦ err (error_exception forbidden 403)
  | false ↦ ok user_id
]

-- `require_min_role`: a missing, an empty and an unknown role are refused alike
unfoldable pub require_min_role : Role → Context → Result String
unfolding require_community
require_min_role min_role ctx = bind (require_authenticated ctx) (λ user_id.
    bind (require_community ctx) (λ _. elim ctx.user_role [
      | none ↦ err (error_exception forbidden 403)
      | some role_str ↦ elim (truthy (some role_str)) [
        | false ↦ err (error_exception forbidden 403)
        | true ↦ check_rank min_role (role_of_value role_str) user_id
      ]
    ]))

abbrev pub is_subscribed : Option CommunitySubscription → Bool
is_subscribed none = false
is_subscribed (some sub) = sub.is_active

unfoldable pub find_subscription : Context → String → CrmDb → Option CommunitySubscription
find_subscription ctx feature d =
    find (λ (s : CommunitySubscription). str_eq s.feature feature)
      (with_community_scope ctx (λ (s : CommunitySubscription). s.id_community) d.subscriptions)

-- `_ensure_active_subscription`
unfoldable pub ensure_active_subscription : Context → String → Exec CrmSession Unit
unfolding require_community
ensure_active_subscription ctx feature = do
  lift (require_community ctx)
  sub ← query (find_subscription ctx feature)
  elim (is_subscribed sub) [
    | true ↦ lift (ok tt)
    | false ↦ lift (err (error_exception not_subscribed 403))
  ]
