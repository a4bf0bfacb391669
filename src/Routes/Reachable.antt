-- ===== src/Routes/Reachable.antt =====
-- The databases that requests can lead to, one request after the other.
use news_board.Prelude.{◌≡◌, []}
use news_board.Prelude.Keys.{nat_key}
use news_board.Context.{Context}
use news_board.Crm.{CrmSession}
use news_board.Realtime.{Broker}
use news_board.Local.{Db}
use news_board.Local.Consistency.{IsConsistent}
use news_board.World.{request}
use news_board.Routes.Serve.{Call, serve, serve-IsConsistent}

abbrev pub empty_db : Db
empty_db = record {
  posts = [];
  options = [];
  votes = [];
  next_post = 1;
  next_option = 1;
  next_vote = 1;
}

empty_db-IsConsistent : IsConsistent empty_db
empty_db-IsConsistent = record {
  keyed = record {
    post_fresh = λ p m. absurd m;
    post_unique = λ p q m n e. absurd m;
    option_fresh = λ o m. absurd m;
    option_unique = λ o q m n e. absurd m;
    option_post = λ o m. absurd m;
    vote_fresh = λ w m. absurd m;
    vote_unique = λ w x m n e. absurd m;
    vote_post = λ w m. absurd m;
    vote_option = λ w m. absurd m;
    posts_distinct = tt;
    options_distinct = tt;
    votes_distinct = tt;
    vote_once = λ p v. tt;
  };
  vote_single = λ p m t v. absurd m;
}

-- One request against what the last one committed: any caller, any tables and faults of the CRM
-- database, any faults of Redis.
pub data Step (d e : Db) : Type 0 where
  call :
      (ctx : Context) (c : Call) (crm : CrmSession) (broker : Broker)
      → e ≡ (serve ctx c (request d crm broker)).local.saved
      → Step d e

pub data Reachable (d : Db) : Db → Type 0 where
  start : Reachable d d
  next : {e f : Db} → Reachable d e → Step e f → Reachable d f

Step-IsConsistent : {d e : Db} → IsConsistent d → Step d e → IsConsistent e
Step-IsConsistent {d} c (call ctx k crm broker same) =
    rw same (serve-IsConsistent ctx k d crm broker c)

Reachable-keeps : {d e : Db} → IsConsistent d → Reachable d e → IsConsistent e
Reachable-keeps c start = c
Reachable-keeps c (next r s) = Step-IsConsistent (Reachable-keeps c r) s

-- Every database that requests lead to from the empty one is consistent: any number of calls of
-- the eight routes, by any callers, each with any tables and faults of the CRM database and of
-- Redis, whether they succeed or raise. Keys are fresh and distinct, references hold, what
-- belongs to a post is in its community, no voter has an option twice, and none has two options
-- of a single-choice poll.
pub Reachable-IsConsistent : (e : Db) → Reachable empty_db e → IsConsistent e
Reachable-IsConsistent e r = Reachable-keeps empty_db-IsConsistent r
