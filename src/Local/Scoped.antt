-- ===== src/Local/Scoped.antt =====
-- In a consistent database the community scope hides no vote on a post of the community.
use news_board.Prelude.{
  String, ◌≡◌, ◌∙◌, ap, true, Bool, Bool-cases, map, filter, In, filter-filter, filter_congr, arith,
  inl, inr, ◌&&◌, ==_iff,
}
use news_board.Context.{Context}
use news_board.Local.{PostModel, PostPollVoteModel, Db}
use news_board.Local.Repository.{in_scope, with_community_scope, votes_of}
use news_board.Local.Ballots.{holds, ballot}
use news_board.Local.Consistency.{IsConsistent}

module _ (ctx : Context) (d : Db) (post : PostModel) (c : IsConsistent d) (there : In post d.posts)
    (scoped : in_scope ctx.internal_community_id post.id_community ≡ true) where
  pub scoped_votes :
      (p : PostPollVoteModel → Bool)
      → ((w : PostPollVoteModel) → p w ≡ true → w.id_post ≡ post.id)
      → filter p (with_community_scope ctx (λ (w : PostPollVoteModel). w.id_community) d.votes)
        ≡ filter p d.votes
  scoped_votes p own =
      let scope = λ (w : PostPollVoteModel). in_scope ctx.internal_community_id w.id_community in
      filter-filter p scope d.votes
      ∙ filter_congr (λ w. scope w && p w) p d.votes
          (λ w m.
            let (q, mq, e, community) = c.vote_post w m in
            elim (Bool-cases (p w)) [
              | inl hit ↦
                  let id = own w hit in
                  let same : q ≡ post = c.post_unique q post mq there (ground (arith, e, id)) in
                  ground (arith, hit, same, community)
              | inr miss ↦ ground arith
            ])

  -- the rows that the service reads are the ballot
  pub map-votes_of :
      (v : String)
      → map (λ (w : PostPollVoteModel). w.id_post_poll) (votes_of ctx post.id v d)
        ≡ ballot post.id v d
  unfolding votes_of
  map-votes_of v =
      ap (map (λ (w : PostPollVoteModel). w.id_post_poll))
        (scoped_votes (holds post.id v) (λ w h. (==_iff w.id_post post.id).0 (ground arith)))
