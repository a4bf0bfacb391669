-- ===== src/Routes/Serve.antt =====
-- The eight routes as calls, and that each keeps a database consistent.
use news_board.Prelude.{
  ℕ, String, ◌≡◌, List, inl, inr, arith, Option, some, none, truthy, Bool-cases,
}
use news_board.Prelude.Keys.{nat_key}
use news_board.Context.{Context}
use news_board.Errors.{Error}
use news_board.Errors.Default
use news_board.Exec.{Exec, ◌>>=◌, Result-cases}
use news_board.Crm.{CrmSession, roundtrip}
use news_board.Realtime.{Broker}
use news_board.Local.{Db}
use news_board.Local.Consistency.{IsConsistent}
use news_board.Notifications.Service.{Config}
use news_board.Security.Dependencies.{ensure_active_subscription}
use news_board.Security.Scope.{resolve_internal_community}
use news_board.World.{World, request}
use news_board.News.Schemas.{CreatePostRequest, UpdatePostRequest}
use news_board.News.Posts
use news_board.News.Reads
use news_board.News.Updates
use news_board.News.Votes
use news_board.News.Results
use news_board.News.Preserved.Votes.{retract_vote-IsConsistent, cast_vote_preserves}
use news_board.News.Preserved.Posts.{delete_post-IsConsistent, create_post-IsConsistent}
use news_board.News.Preserved.Updates.{update_post-IsConsistent}
use news_board.News.Preserved.Reads.{get_post_saved, get_results_saved, list_posts_saved}
use news_board.Routes
use news_board.Routes.{news_board_member, news_board_manager, with_default_error, create_in}

-- From a consistent database the call commits a consistent database, whether it raises or not.
abbrev pub Preserves : {A : Type 0} → Exec World A → Type 0
Preserves m =
    (d : Db) (crm : CrmSession) (broker : Broker)
    → IsConsistent d
    → IsConsistent (m (request d crm broker)).1.local.saved

Preserves-with_default_error :
    {A : Type 0} (e : Error) (m : Exec World A) → Preserves m → Preserves (with_default_error e m)
unfolding with_default_error
Preserves-with_default_error e m p d crm broker c =
    let same : (with_default_error e m (request d crm broker)).1 ≡ (m (request d crm broker)).1 =
      ground arith in
    rw same (p d crm broker c)

member_world :
    (ctx : Context) (d : Db) (crm : CrmSession) (broker : Broker)
    → (news_board_member ctx (request d crm broker)).1
      ≡ request d (news_board_member ctx (request d crm broker)).1.crm broker
unfolding news_board_member ensure_active_subscription resolve_internal_community roundtrip
member_world ctx d crm broker = ground arith

manager_world :
    (ctx : Context) (d : Db) (crm : CrmSession) (broker : Broker)
    → (news_board_manager ctx (request d crm broker)).1
      ≡ request d (news_board_manager ctx (request d crm broker)).1.crm broker
unfolding news_board_manager
manager_world ctx d crm broker = ground (arith, member_world ctx d crm broker)

-- What a guard lets through, in the world that the guard leaves.
Preserves->>= :
    {A : Type 0} (guard : Exec World Context) (m : Context → Exec World A)
    → ((d : Db) (crm : CrmSession) (broker : Broker)
        → (guard (request d crm broker)).1 ≡ request d (guard (request d crm broker)).1.crm broker)
    → ((ctx : Context) → Preserves (m ctx))
    → Preserves (guard >>= m)
Preserves->>= guard m world p d crm broker c =
    let w = request d crm broker in
    let kept = world d crm broker in
    elim (Result-cases (guard w).0) [
      | inl (ctx, passed) ↦
          let state : ((guard >>= m) w).1 ≡ (m ctx (request d (guard w).1.crm broker)).1 =
            ground arith in
          rw state (p ctx d (guard w).1.crm broker c)
      | inr (e, stopped) ↦
          let state : ((guard >>= m) w).1 ≡ request d (guard w).1.crm broker = ground arith in
          rw state c
    ]

-- the calls that the routes take, with the settings of the deployment for those that publish
pub data Call : Type 0 where
  create : Config → CreatePostRequest → Call
  list_page : ℕ → ℕ → Call
  read : ℕ → Call
  update : ℕ → UpdatePostRequest → Call
  delete : ℕ → Call
  cast : ℕ → List ℕ → Call
  retract : ℕ → Call
  results : ℕ → Call

-- the world that a call leaves
unfoldable pub serve : Context → Call → World → World
unfolding Routes.create_post Routes.list_posts Routes.get_post Routes.update_post Routes.delete_post
    Routes.cast_vote Routes.retract_vote Routes.get_results
serve ctx (create cfg body) w = (Routes.create_post cfg ctx body w).1
serve ctx (list_page page page_size) w = (Routes.list_posts ctx page page_size w).1
serve ctx (read i) w = (Routes.get_post ctx i w).1
serve ctx (update i body) w = (Routes.update_post ctx i body w).1
serve ctx (delete i) w = (Routes.delete_post ctx i w).1
serve ctx (cast i ids) w = (Routes.cast_vote ctx i ids w).1
serve ctx (retract i) w = (Routes.retract_vote ctx i w).1
serve ctx (results i) w = (Routes.get_results ctx i w).1

create_in-Preserves :
    (cfg : Config) (ctx : Context) (body : CreatePostRequest) (community : Option ℕ)
    (author : Option String)
    → Preserves (create_in cfg ctx body community author)
create_in-Preserves cfg ctx body none author d crm broker c = c
create_in-Preserves cfg ctx body (some i) none d crm broker c = c
create_in-Preserves cfg ctx body (some i) (some author) d crm broker c =
    let w = request d crm broker in
    elim (Bool-cases (truthy (some author))) [
      | inl named ↦
          let state : (create_in cfg ctx body (some i) (some author) w).1
              ≡ (Posts.create_post cfg ctx body i author w).1 =
            ground arith in
          rw state (create_post-IsConsistent ctx d crm broker c cfg body i author)
      | inr empty ↦
          let state : (create_in cfg ctx body (some i) (some author) w).1 ≡ w = ground arith in
          rw state c
    ]

-- a route of any member, and one of managers
module _ {A : Type 0} (e : Error) (m : Context → Exec World A)
    (p : (ctx : Context) → Preserves (m ctx)) where
  Preserves-member :
      (ctx : Context)
      → Preserves (news_board_member ctx >>= λ scoped. with_default_error e (m scoped))
  Preserves-member ctx =
      Preserves->>= (news_board_member ctx) (λ scoped. with_default_error e (m scoped))
        (member_world ctx) (λ scoped. Preserves-with_default_error e (m scoped) (p scoped))

  Preserves-manager :
      (ctx : Context)
      → Preserves (news_board_manager ctx >>= λ scoped. with_default_error e (m scoped))
  Preserves-manager ctx =
      Preserves->>= (news_board_manager ctx) (λ scoped. with_default_error e (m scoped))
        (manager_world ctx) (λ scoped. Preserves-with_default_error e (m scoped) (p scoped))

pub serve-IsConsistent :
    (ctx : Context) (call : Call) (d : Db) (crm : CrmSession) (broker : Broker)
    → IsConsistent d
    → IsConsistent (serve ctx call (request d crm broker)).local.saved
unfolding serve
serve-IsConsistent ctx (create cfg body) =
    Preserves-manager Default.create_post
      (λ scoped. create_in cfg scoped body scoped.internal_community_id scoped.user_id)
      (λ scoped. create_in-Preserves cfg scoped body scoped.internal_community_id scoped.user_id)
      ctx
serve-IsConsistent ctx (list_page page page_size) =
    Preserves-member Default.get_posts (λ scoped. Reads.list_posts scoped page page_size)
      (λ scoped d crm broker c.
        rw (list_posts_saved scoped page page_size (request d crm broker)) c)
      ctx
serve-IsConsistent ctx (read i) =
    Preserves-member Default.get_post (λ scoped. Reads.get_post scoped i)
      (λ scoped d crm broker c. rw (get_post_saved scoped i (request d crm broker)) c) ctx
serve-IsConsistent ctx (update i body) =
    Preserves-manager Default.update_post (λ scoped. Updates.update_post scoped i body)
      (λ scoped d crm broker c. update_post-IsConsistent scoped d crm broker c i body) ctx
serve-IsConsistent ctx (delete i) =
    Preserves-manager Default.delete_post (λ scoped. Posts.delete_post scoped i)
      (λ scoped d crm broker c. delete_post-IsConsistent scoped d crm broker c i) ctx
serve-IsConsistent ctx (cast i ids) =
    Preserves-member Default.cast_vote (λ scoped. Votes.cast_vote scoped i ids)
      (λ scoped d crm broker c. cast_vote_preserves scoped d crm broker c i ids) ctx
serve-IsConsistent ctx (retract i) =
    Preserves-member Default.cast_vote (λ scoped. Votes.retract_vote scoped i)
      (λ scoped d crm broker c. retract_vote-IsConsistent scoped d crm broker c i) ctx
serve-IsConsistent ctx (results i) =
    Preserves-member Default.get_results (λ scoped. Results.get_results scoped i)
      (λ scoped d crm broker c. rw (get_results_saved scoped i (request d crm broker)) c) ctx
