-- ===== src/Const.antt =====
-- shared/const.py: the enumerations, with the integers by which the columns store them.
use news_board.Prelude.{ℕ, zero, suc, Bool, true, false, Option, none, some, String}

pub data PostType : Type 0 where
  post poll_single_choice poll_multiple_choice : PostType

abbrev pub is_poll : PostType → Bool
is_poll post = false
is_poll poll_single_choice = true
is_poll poll_multiple_choice = true

abbrev pub int_of_post_type : PostType → ℕ
int_of_post_type post = 0
int_of_post_type poll_single_choice = 1
int_of_post_type poll_multiple_choice = 2

-- `PostType(n)`; `none` is its `ValueError`
abbrev pub post_type_of_int : ℕ → Option PostType
post_type_of_int zero = some post
post_type_of_int (suc zero) = some poll_single_choice
post_type_of_int (suc (suc zero)) = some poll_multiple_choice
post_type_of_int (suc (suc (suc n))) = none

pub data AdminVisibility : Type 0 where
  aggregate full : AdminVisibility

abbrev pub int_of_admin_visibility : AdminVisibility → ℕ
int_of_admin_visibility aggregate = 0
int_of_admin_visibility full = 1

abbrev pub admin_visibility_of_int : ℕ → Option AdminVisibility
admin_visibility_of_int zero = some aggregate
admin_visibility_of_int (suc zero) = some full
admin_visibility_of_int (suc (suc n)) = none

pub data MemberVisibility : Type 0 where
  nothing aggregate full : MemberVisibility

abbrev pub int_of_member_visibility : MemberVisibility → ℕ
int_of_member_visibility nothing = 0
int_of_member_visibility aggregate = 1
int_of_member_visibility full = 2

abbrev pub member_visibility_of_int : ℕ → Option MemberVisibility
member_visibility_of_int zero = some nothing
member_visibility_of_int (suc zero) = some aggregate
member_visibility_of_int (suc (suc zero)) = some full
member_visibility_of_int (suc (suc (suc n))) = none

pub data MemberDisplay : Type 0 where
  never before_vote after_vote when_poll_ends : MemberDisplay

abbrev pub int_of_member_display : MemberDisplay → ℕ
int_of_member_display never = 0
int_of_member_display before_vote = 1
int_of_member_display after_vote = 2
int_of_member_display when_poll_ends = 3

abbrev pub member_display_of_int : ℕ → Option MemberDisplay
member_display_of_int zero = some never
member_display_of_int (suc zero) = some before_vote
member_display_of_int (suc (suc zero)) = some after_vote
member_display_of_int (suc (suc (suc zero))) = some when_poll_ends
member_display_of_int (suc (suc (suc (suc n)))) = none

-- `FeatureName.NEWS`
abbrev pub feature_news : String
feature_news = "news"
