-- ===== src/News/Effects.antt =====
-- The audit entry and the notification of an operation never raise and never touch the local database.
use news_board.Prelude.{ℕ, String, ◌≡◌, Bool, arith, if◌then◌else◌, [], ◌∷◌, none, some}
use news_board.Context.{Context}
use news_board.Exec.{ok}
use news_board.Crm.{int}
use news_board.Audit
use news_board.Audit.{AuditLogInput}
use news_board.Local.{PostModel}
use news_board.Notifications.{
  inapp, informational, community_target, news_post_published, news_poll_published,
}
use news_board.Notifications.Service.{Config, flush_realtime}
use news_board.Notifications.Service.Savepoint.{
  publish_keeps_local, publish_returns, flush_staged_keeps,
}
use news_board.World.{World}
use news_board.News.{audit}
use news_board.News.Posts.{notify_post_created}

pub audit_keeps :
    (ctx : Context) (entry : AuditLogInput) (w : World)
    → ((audit ctx entry w).0 ≡ ok tt) × ((audit ctx entry w).1.local ≡ w.local)
unfolding audit Audit.log
audit_keeps ctx entry w = ground arith

pub notify_keeps :
    (cfg : Config) (row : PostModel) (poll : Bool) (community : ℕ) (author : String) (w : World)
    → ((notify_post_created cfg row poll community author w).0 ≡ ok tt)
      × ((notify_post_created cfg row poll community author w).1.local ≡ w.local)
unfolding notify_post_created flush_realtime
notify_keeps cfg row poll community author w =
    let key = if poll then news_poll_published else news_post_published in
    let target = community_target community none (some author) in
    let (n, returned) =
      publish_returns cfg key target informational (inapp ∷ []) (("post_id", int row.id) ∷ []) none
        w in
    let same =
      publish_keeps_local cfg key target informational (inapp ∷ []) (("post_id", int row.id) ∷ [])
        none w in
    grind (arith, returned, same, flush_staged_keeps)
