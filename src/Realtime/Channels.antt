-- ===== src/Realtime/Channels.antt =====
-- core/realtime/channels.py: the only place where a channel's name is built.
pub mod Grammar
use Prim.Native.String.{◌++◌}
use news_board.Prelude.{ℕ, String, List, [], ◌∷◌, map}
use news_board.Prelude.Decimal.{str_int}
use news_board.Prelude.Keys.{fromkeys, nat_key}

pub data Tier : Type 0 where
  member manager : Tier

abbrev pub tier_value : Tier → String
tier_value member = "MEMBER"
tier_value manager = "MANAGER"

abbrev pub prefix : String
prefix = "notify:v1"

unfoldable pub user_channel : ℕ → String
unfolding str_int
user_channel internal_user_id = prefix ++ ":u:" ++ str_int internal_user_id

unfoldable pub community_channel : ℕ → Tier → String
unfolding str_int
community_channel internal_community_id tier =
    prefix ++ ":c:" ++ str_int internal_community_id ++ ":" ++ tier_value tier

-- `UserAudience`, `UsersAudience`, `CommunityAudience`
pub data Audience : Type 0 where
  user : ℕ → Audience
  users : List ℕ → Audience
  community : ℕ → Tier → Audience

unfoldable pub channels : Audience → List String
unfolding user_channel community_channel fromkeys
channels (user user_id) = user_channel user_id ∷ []
channels (users user_ids) = map user_channel (fromkeys user_ids)
channels (community community_id tier) = community_channel community_id tier ∷ []
