-- ===== src/Notifications.antt =====
-- core/notifications: the contract that producers see. The service stands in `Notifications/Service`.
pub mod Recipients
pub mod Hints
pub mod Outbound
pub mod Muted
pub mod Preferences
pub mod Dedupe
pub mod Repository
pub mod Service
pub mod Used
pub mod Delivered
use news_board.Prelude.{ℕ, zero, suc, String, Bool, true, false, Option, none, some, List, [], ◌∷◌}

-- `Channel`
pub data Channel : Type 0 where
  inapp email : Channel

abbrev pub channel_code : Channel → ℕ
channel_code inapp = 1
channel_code email = 2

-- `Channel(n)`; `none` is its `ValueError`
abbrev pub channel_of_code : ℕ → Option Channel
channel_of_code zero = none
channel_of_code (suc zero) = some inapp
channel_of_code (suc (suc zero)) = some email
channel_of_code (suc (suc (suc n))) = none

abbrev pub same_channel : Channel → Channel → Bool
same_channel inapp inapp = true
same_channel inapp email = false
same_channel email inapp = false
same_channel email email = true

-- `NotificationCategory`
pub data NotificationCategory : Type 0 where
  transactional informational : NotificationCategory

abbrev pub category_code : NotificationCategory → ℕ
category_code transactional = 1
category_code informational = 2

-- `UserTarget`, `UsersTarget`, `CommunityTarget`
pub data NotificationTarget : Type 0 where
  user_target : ℕ → Option ℕ → NotificationTarget
  users_target : List ℕ → Option ℕ → NotificationTarget
  community_target : ℕ → Option (List String) → Option String → NotificationTarget

-- `MANAGER_ROLES`
abbrev pub manager_roles : List String
manager_roles = "ADMIN" ∷ "MANAGER" ∷ []

-- `NotificationTypes`
abbrev pub news_post_published : String
news_post_published = "news_post.published"

abbrev pub news_poll_published : String
news_poll_published = "news_poll.published"
