-- ===== src/News/Deleted.antt =====
-- What a deletion leaves in the database.
use news_board.Prelude.{◌≡◌, ◌↔◌, ◌≢◌, true, In, arith}
use news_board.Context.{Context}
use news_board.Exec.{ok}
use news_board.Crm.{CrmSession}
use news_board.Realtime.{Broker}
use news_board.Local
use news_board.Local.{PostModel, PostPollModel, PostPollVoteModel, Db}
use news_board.Local.Repository
use news_board.Local.Repository.{in_scope, cascade_post, find_post}
use news_board.Local.Consistency.{IsConsistent}
use news_board.Local.Lookup.{find_post-some}
use news_board.Local.Removed.{cascade_post-IsConsistent, In-filter-not, stays_iff}
use news_board.World.{request}
use news_board.News.Effects.{audit_keeps}
use news_board.News.Posts.{delete_post}

module _ (ctx : Context) (d : Db) (crm : CrmSession) (broker : Broker) (post : PostModel)
    (c : IsConsistent d) (there : In post d.posts)
    (scoped : in_scope ctx.internal_community_id post.id_community ≡ true) where
  delete_post-cascaded :
      let (r, w) = delete_post ctx post.id (request d crm broker) in
      (r ≡ ok tt) × (w.local.saved ≡ cascade_post post.id d)
  unfolding delete_post Repository.delete_post Repository.get_post Local.commit
  delete_post-cascaded = grind (arith, find_post-some ctx d post c.keyed there scoped, audit_keeps)

  -- In a consistent database, deleting a post of the request's community succeeds and commits a
  -- consistent database of exactly the other posts, the options of other posts and the votes on
  -- other posts.
  pub delete_post_removes :
      let (r, w) = delete_post ctx post.id (request d crm broker) in
      (r ≡ ok tt)
      × IsConsistent w.local.saved
      × ((p : PostModel) → In p w.local.saved.posts ↔ (In p d.posts × (p.id ≢ post.id)))
      × ((o : PostPollModel)
          → In o w.local.saved.options ↔ (In o d.options × (o.id_post ≢ post.id)))
      × ((v : PostPollVoteModel)
          → In v w.local.saved.votes ↔ (In v d.votes × (v.id_post ≢ post.id)))
  unfolding cascade_post
  delete_post_removes =
      let (done, state) = delete_post-cascaded in
      (
        done,
        rw state (cascade_post-IsConsistent post.id d c),
        λ p. rw state (In-filter-not (λ (p : PostModel). p.id) post.id p d.posts),
        λ o. rw state (In-filter-not (λ (o : PostPollModel). o.id_post) post.id o d.options),
        λ v. rw state (stays_iff post.id d c v),
      )
