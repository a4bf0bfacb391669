-- ===== src/Realtime/Channels/Grammar.antt =====
-- The grammar that core/realtime/channels.py gives for the names of channels, read back.
use Prim.Native.Char.{code}
use Prim.Native.String.{◌++◌, [], ◌∷◌}
use text.Mathlib.TextLemmas.{append-nil, cons-append, nil-append}
use news_board.Prelude.{
  ℕ, String, Option, some, none, ◌==◌, ==_refl, str_eq, ◌≡◌, refl, sym, ap, ◌∙◌, if◌then◌else◌,
}
use news_board.Prelude.Decimal.{str_int}
use news_board.Prelude.Decimal.Read.{scan, scan-str_int}
use news_board.Realtime.Channels.{
  Tier, member, manager, tier_value, prefix, Audience, user, community, user_channel,
  community_channel,
}

abbrev without_prefix : String → String → Option String
without_prefix [] s = some s
without_prefix (c ∷ p) [] = none
without_prefix (c ∷ p) (d ∷ s) =
    let rest = without_prefix p s in if code c == code d then rest else none

abbrev user_of : ℕ × String → Option Audience
user_of (n, rest) = if str_eq rest "" then some (user n) else none

abbrev community_of : ℕ × String → Option Audience
community_of (n, rest) =
    if str_eq rest ":MEMBER"
    then some (community n member)
    else if str_eq rest ":MANAGER"
    then some (community n manager)
    else none

abbrev audience_from : Option String → Option String → Option Audience
audience_from (some rest) c = user_of (scan rest 0)
audience_from none (some rest) = community_of (scan rest 0)
audience_from none none = none

-- `notify:v1:u:{id}` and `notify:v1:c:{id}:{MEMBER|MANAGER}`
pub audience_of : String → Option Audience
audience_of channel =
    audience_from (without_prefix "notify:v1:u:" channel) (without_prefix "notify:v1:c:" channel)

without_prefix-append : (p q s : String) → without_prefix (p ++ q) (p ++ s) ≡ without_prefix q s
without_prefix-append [] q s = rw (nil-append q, nil-append s) refl
without_prefix-append (c ∷ p) q s =
    rw (cons-append c p q, cons-append c p s, ==_refl (code c)) (without_prefix-append p q s)

u_c : (s : String) → without_prefix ":u:" (":c:" ++ s) ≡ none
u_c s = rw (cons-append ":" "c:" s, cons-append "c" ":" s) refl

tier_read : (n : ℕ) (t : Tier) → community_of (scan (":" ++ tier_value t) n) ≡ some (community n t)
unfolding scan
tier_read n member = refl
tier_read n manager = refl

after_user : (s : String) → without_prefix "notify:v1:u:" (prefix ++ ":u:" ++ s) ≡ some s
after_user s = without_prefix-append prefix ":u:" (":u:" ++ s) ∙ without_prefix-append ":u:" [] s

after_community : (s : String) → without_prefix "notify:v1:c:" (prefix ++ ":c:" ++ s) ≡ some s
after_community s =
    without_prefix-append prefix ":c:" (":c:" ++ s) ∙ without_prefix-append ":c:" [] s

no_user : (s : String) → without_prefix "notify:v1:u:" (prefix ++ ":c:" ++ s) ≡ none
no_user s = without_prefix-append prefix ":u:" (":c:" ++ s) ∙ u_c s

audience_of-user : (s : String) → audience_of (prefix ++ ":u:" ++ s) ≡ user_of (scan s 0)
unfolding audience_of
audience_of-user s =
    ap (λ r. audience_from r (without_prefix "notify:v1:c:" (prefix ++ ":u:" ++ s))) (after_user s)

audience_of-community : (s : String) → audience_of (prefix ++ ":c:" ++ s) ≡ community_of (scan s 0)
unfolding audience_of
audience_of-community s =
    ap (λ r. audience_from r (without_prefix "notify:v1:c:" (prefix ++ ":c:" ++ s))) (no_user s)
    ∙ ap (audience_from none) (after_community s)

user_read : (i : ℕ) → user_of (scan (str_int i) 0) ≡ some (user i)
unfolding scan
user_read i =
    ap (λ s. user_of (scan s 0)) (sym (append-nil (str_int i))) ∙ ap user_of (scan-str_int i [])

community_read :
    (i : ℕ) (t : Tier)
    → community_of (scan (str_int i ++ ":" ++ tier_value t) 0) ≡ some (community i t)
community_read i t = ap community_of (scan-str_int i (":" ++ tier_value t)) ∙ tier_read i t

-- The channel of a user and the channel of a tier of a community, read back by the grammar
-- notify:v1:u:{id} and notify:v1:c:{id}:{MEMBER|MANAGER}, give that user, and that community and
-- tier.
pub audience_of-channels :
    (i : ℕ) (t : Tier)
    → (audience_of (user_channel i) ≡ some (user i))
      × (audience_of (community_channel i t) ≡ some (community i t))
unfolding user_channel community_channel
audience_of-channels i t = (
  audience_of-user (str_int i) ∙ user_read i,
  audience_of-community (str_int i ++ ":" ++ tier_value t) ∙ community_read i t,
)
