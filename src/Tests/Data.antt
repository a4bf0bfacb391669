-- ===== src/Tests/Data.antt =====
-- The test data: a consistent database, the CRM tables and the context of a request.
use news_board.Prelude.{ℕ, Bool, String, refl, true, Option, some, none, List, [], ◌∷◌, inl, arith}
use news_board.Prelude.Int.{pos}
use news_board.Prelude.Keys.{Nodup, nat_key}
use news_board.Context.{Context, aware}
use news_board.Markdown.{Packages}
use news_board.Crm.{CrmDb, CrmSession}
use news_board.Local.{PostModel, PostPollModel, PostPollVoteModel, Db}
use news_board.Local.Ballots.{ballot}
use news_board.Local.Consistency.{IsConsistent}
use news_board.Realtime.{Broker}
use news_board.Realtime.Message.{Encoding}
use news_board.Notifications.Service.{Config}

abbrev pub poll : PostModel
poll = record {
  id = 1;
  id_community = 7;
  author_id = "eve";
  author_email = none;
  type = 2;
  post = "Which day?";
  expires_at = some (aware 900);
  admin_visibility = some 1;
  member_visibility = some 2;
  member_display = some 1;
  created_at = 10;
  updated_at = 10;
}

abbrev pub monday : PostPollModel
monday = record {
  id = 1;
  id_community = 7;
  id_post = 1;
  option_value = "Monday";
  display_order = pos 0;
}

abbrev pub friday : PostPollModel
friday = record {
  id = 2;
  id_community = 7;
  id_post = 1;
  option_value = "Friday";
  display_order = pos 1;
}

abbrev pub vote : PostPollVoteModel
vote = record { id = 1; id_community = 7; id_post = 1; id_post_poll = 1; voter_id = "ann" }

abbrev pub db : Db
db = record {
  posts = poll ∷ [];
  options = monday ∷ friday ∷ [];
  votes = vote ∷ [];
  next_post = 2;
  next_option = 3;
  next_vote = 2;
}

once : (p : ℕ) (v : String) → Nodup (ballot p v db)
once p v = ground arith

pub db-IsConsistent : IsConsistent db
db-IsConsistent = record {
  keyed = record {
    post_fresh = λ p m. ground arith;
    post_unique = λ p q m n e. ground arith;
    option_fresh = λ o m. ground arith;
    option_unique = λ o q m n e. ground arith;
    option_post = λ o m. (poll, inl refl, ground arith, ground arith);
    vote_fresh = λ w m. ground arith;
    vote_unique = λ w x m n e. ground arith;
    vote_post = λ w m. (poll, inl refl, ground arith, ground arith);
    vote_option = λ w m. (monday, inl refl, ground arith, ground arith);
    posts_distinct = (refl, tt);
    options_distinct = (refl, (refl, tt));
    votes_distinct = (refl, tt);
    vote_once = once;
  };
  vote_single = λ p m t v. ground arith;
}

abbrev pub packages : Packages
packages = record { md_render = λ c s. s; nh3_clean = λ c s. s }

-- a request of `user` with `role` in community `c`, at time 100
abbrev pub context : Option String → Option String → ℕ → Context
context user role c = record {
  user_id = user;
  community_id = some "org";
  internal_community_id = some c;
  user_role = role;
  source_ip = none;
  now = 100;
  packages = packages;
}

abbrev pub bob : Context
bob = context (some "bob") (some "MEMBER") 7

abbrev pub boss : Context
boss = context (some "boss") (some "MANAGER") 7

abbrev pub stranger : Context
stranger = context (some "bob") (some "ADMIN") 8

abbrev pub tables : CrmDb
tables = record {
  communities = record { id = 7; auth_community_id = "org" } ∷ [];
  subscriptions = record { id_community = 7; feature = "news"; is_active = true } ∷ [];
  users =
      record {
        id = 5;
        auth_user_id = "bob";
        email = "bob@x";
        locale = none;
        first_name = none;
        last_name = none;
      }
      ∷ record {
        id = 6;
        auth_user_id = "ann";
        email = "ann@x";
        locale = none;
        first_name = none;
        last_name = none;
      }
      ∷ [];
  members =
      record { id_community = 7; id_user = 5; role = "MEMBER" }
      ∷ record { id_community = 7; id_user = 6; role = "MEMBER" }
      ∷ [];
  preferences =
      record { id_user = 5; type_prefix = ""; channel = 1; mode = 1 }
      ∷ record { id_user = 5; type_prefix = "news_post"; channel = 1; mode = 3 }
      ∷ [];
  notifications = [];
  next_notification = 1;
  outbound = [];
  suppressions = [];
  audit_log = [];
}

-- a session whose coming operations fail as `faults` says
abbrev pub session : List Bool → CrmSession
session faults = record { work = tables; saved = tables; faults = faults }

abbrev pub broker : Broker
broker = record { published = []; faults = [] }

abbrev pub encoding : Encoding
encoding = record { token_hex = "00"; at = "now"; json_dumps = λ e. e.topic }

abbrev pub config : Config
config = record {
  realtime = record { realtime_enabled = true; realtime_redis_url = "redis"; encoding = encoding };
  digest = record { sha256_hex = λ s. s; lower = λ s. s; canonical_json = λ p. "{}" };
}
