-- ===== src/Security.antt =====
-- core/security/user_context.py and core/security/gateway_auth.py: roles, and the role that the
-- gateway's header gives.
pub mod Dependencies
pub mod Highest
pub mod Scope
use news_board.Prelude.{
  ℕ, String, Bool, true, Option, none, some, List, [], ◌∷◌, ltb, str_eq, truthy, ◌&&◌, find,
  if◌then◌else◌,
}
use news_board.Context.{Context}

pub data Role : Type 0 where
  member manager admin : Role

abbrev pub role_value : Role → String
role_value member = "MEMBER"
role_value manager = "MANAGER"
role_value admin = "ADMIN"

-- `Role(s)`; `none` is its `ValueError`
abbrev pub role_of_value : String → Option Role
role_of_value s =
    if str_eq s "MEMBER"
    then some member
    else if str_eq s "MANAGER"
    then some manager
    else if str_eq s "ADMIN"
    then some admin
    else none

-- `ROLE_HIERARCHY`
abbrev pub role_rank : Role → ℕ
role_rank member = 1
role_rank manager = 2
role_rank admin = 3

pub record OrgToken : Type 0 where
  pub org_id : String
  pub org_path : String
  pub role : Role

-- `rank > best_rank`, where the rank of no role is -1
abbrev pub exceeds : Role → Option Role → Bool
exceeds role none = true
exceeds role (some best) = ltb (role_rank best) (role_rank role)

abbrev pub keep_best : Option Role → Option Role → Option Role
keep_best best none = best
keep_best best (some role) = if exceeds role best then some role else best

unfoldable pub highest_from : Option Role → List String → Option Role
highest_from best [] = best
highest_from best (r ∷ rs) = highest_from (keep_best best (role_of_value r)) rs

-- `_resolve_highest_role`
unfoldable pub resolve_highest_role : List String → Option Role
unfolding highest_from
resolve_highest_role roles = highest_from none roles

-- One match of the header's pattern: `orgId`, `orgPath`, and the split list of roles.
pub record OrgMatch : Type 0 where
  pub org_id : String
  pub org_path : String
  pub role_list : List String

-- The loop of `parse_user_orgs` over the matches.
unfoldable pub parse_user_orgs : List OrgMatch → List OrgToken
unfolding resolve_highest_role
parse_user_orgs [] = []
parse_user_orgs (m ∷ ms) =
    let rest = parse_user_orgs ms in
    elim (resolve_highest_role m.role_list) [
      | none ↦ rest
      | some role ↦ record { org_id = m.org_id; org_path = m.org_path; role = role } ∷ rest
    ]

-- the role of the first token for the active community
abbrev role_for : String → List OrgToken → Option String
role_for community tokens = elim (find (λ (t : OrgToken). str_eq t.org_id community) tokens) [
  | none ↦ none
  | some t ↦ some (role_value t.role)
]

-- The headers of a request, with the matches in `x-user-orgs`.
pub record Headers : Type 0 where
  pub x_user_id : Option String
  pub x_community_id : Option String
  pub x_user_orgs : Option String
  pub x_source_ip : Option String
  pub matches : List OrgMatch

abbrev role_in : Option String → Headers → Option String
unfolding parse_user_orgs
role_in none h = none
role_in (some c) h =
    if truthy (some c) && truthy h.x_user_orgs then role_for c (parse_user_orgs h.matches) else none

-- `GatewayScopeMiddleware.dispatch`: the context that the rest of the request sees
unfoldable pub gateway_scope : Headers → Context → Context
unfolding role_in
gateway_scope h ctx = record ctx {
  user_id = h.x_user_id;
  community_id = h.x_community_id;
  user_role = role_in h.x_community_id h;
  source_ip = h.x_source_ip;
}
