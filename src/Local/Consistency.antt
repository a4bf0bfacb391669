-- ===== src/Local/Consistency.antt =====
-- The well-formedness of the local database: primary keys, foreign keys, one community for a post
-- and all that belongs to it, the UNIQUE constraint, and one vote at most on a single-choice poll.
use news_board.Prelude.{ℕ, ◌≤◌, ◌<◌, String, ◌≡◌, length, map, In}
use news_board.Prelude.Keys.{Nodup, nat_key}
use news_board.Local.{PostModel, PostPollModel, PostPollVoteModel, Db}
use news_board.Local.Ballots.{ballot}

-- all of it but the last: what the database declares in constraints and foreign keys
pub record IsKeyed (d : Db) : Type 0 where
  pub post_fresh : (p : PostModel) → In p d.posts → p.id < d.next_post
  pub post_unique : (p q : PostModel) → In p d.posts → In q d.posts → p.id ≡ q.id → p ≡ q
  pub option_fresh : (o : PostPollModel) → In o d.options → o.id < d.next_option
  pub option_unique : (o q : PostPollModel) → In o d.options → In q d.options → o.id ≡ q.id → o ≡ q
  pub option_post :
      (o : PostPollModel)
      → In o d.options
      → (p : PostModel) × In p d.posts × (p.id ≡ o.id_post) × (p.id_community ≡ o.id_community)
  pub vote_fresh : (w : PostPollVoteModel) → In w d.votes → w.id < d.next_vote
  pub vote_unique : (w x : PostPollVoteModel) → In w d.votes → In x d.votes → w.id ≡ x.id → w ≡ x
  pub vote_post :
      (w : PostPollVoteModel)
      → In w d.votes
      → (p : PostModel) × In p d.posts × (p.id ≡ w.id_post) × (p.id_community ≡ w.id_community)
  pub vote_option :
      (w : PostPollVoteModel)
      → In w d.votes
      → (o : PostPollModel) × In o d.options × (o.id ≡ w.id_post_poll) × (o.id_post ≡ w.id_post)
  pub posts_distinct : Nodup (map (λ (p : PostModel). p.id) d.posts)
  pub options_distinct : Nodup (map (λ (o : PostPollModel). o.id) d.options)
  pub votes_distinct : Nodup (map (λ (w : PostPollVoteModel). w.id) d.votes)
  pub vote_once : (p : ℕ) (v : String) → Nodup (ballot p v d)

pub record IsConsistent (d : Db) : Type 0 where
  pub keyed : IsKeyed d
  pub open keyed use *
  pub vote_single :
      (p : PostModel) → In p d.posts → p.type ≡ 1 → (v : String) → length (ballot p.id v d) ≤ 1
