-- ===== src/News/Votes/Retracted.antt =====
-- What a retraction leaves in the database.
use news_board.Prelude.{ℕ, String, ◌≡◌, refl, ◌≢◌, ◌⊎◌, true, false, some, [], In, arith, eq_iff}
use news_board.Context.{Context}
use news_board.Const.{PostType, post_type_of_int, is_poll}
use news_board.Exec.{ok}
use news_board.Crm.{CrmSession}
use news_board.Audit
use news_board.Realtime.{Broker}
use news_board.Local
use news_board.Local.{PostModel, PostPollVoteModel, Db}
use news_board.Local.Repository.{
  in_scope, votes_of, erase_votes, get_post, get_voter_votes, delete_votes,
}
use news_board.Local.Ballots.{
  ballot, ballot-erase_votes_all, erase_votes-eq-filter, spared, ballot-erase_votes_none,
}
use news_board.Local.Removed.{filter_votes-IsConsistent}
use news_board.Local.Consistency.{IsConsistent}
use news_board.Local.Lookup.{find_post-some, votes_of-In, In-votes_of}
use news_board.World.{request}
use news_board.News.{poll_ended, current_voter, require_voter, audit}
use news_board.News.Votes.{retract_vote}

erase_votes-nil : (d : Db) → erase_votes [] d ≡ d
unfolding erase_votes
erase_votes-nil d = refl

module _ (ctx : Context) (d : Db) (crm : CrmSession) (broker : Broker) (post : PostModel)
    (t : PostType) (v : String) (c : IsConsistent d) (there : In post d.posts)
    (scoped : in_scope ctx.internal_community_id post.id_community ≡ true)
    (typed : post_type_of_int post.type ≡ some t) (poll : is_poll t ≡ true)
    (running : poll_ended ctx post ≡ false) (voter : current_voter ctx ≡ some v) where
  pub retract_vote-erased :
      let (r, w) = retract_vote ctx post.id (request d crm broker) in
      (r ≡ ok tt) × (w.local.saved ≡ erase_votes (votes_of ctx post.id v d) d)
  unfolding retract_vote get_post get_voter_votes delete_votes require_voter audit Audit.log
      Local.commit
  retract_vote-erased =
      ground (arith, find_post-some ctx d post c.keyed there scoped, erase_votes-nil d)

  -- In a consistent database, a retraction of a signed-in caller on a running poll of the
  -- request's community succeeds, also where there is nothing to retract; the committed ballot
  -- of the caller on the poll is then empty and the committed database is consistent.
  pub retract_vote_clears :
      let (r, w) = retract_vote ctx post.id (request d crm broker) in
      (r ≡ ok tt) × (ballot post.id v w.local.saved ≡ []) × IsConsistent w.local.saved
  retract_vote_clears =
      let (done, state) = retract_vote-erased in
      let existing = votes_of ctx post.id v d in
      (
        done,
        rw state (
            ballot-erase_votes_all post.id v existing d
              (λ w m h. In-votes_of ctx d post v w c.keyed there scoped m h)),
        rw (state, erase_votes-eq-filter existing d)
            (filter_votes-IsConsistent d (spared existing) c),
      )

  -- In a consistent database, a retraction of a signed-in caller on a running poll of the
  -- request's community leaves every ballot of another voter, and the caller's ballot on every
  -- other post, as it was.
  pub retract_vote_keeps_others :
      (q : ℕ) (u : String)
      → (q ≢ post.id) ⊎ (u ≢ v)
      → ballot q u (retract_vote ctx post.id (request d crm broker)).1.local.saved ≡ ballot q u d
  retract_vote_keeps_others q u apart =
      let (done, state) = retract_vote-erased in
      let existing = votes_of ctx post.id v d in
      rw state (
        ballot-erase_votes_none q u existing d (λ w x mw mx e.
          let (there', own) = votes_of-In ctx d post.id v x mx in
          let same : w ≡ x = c.vote_unique w x mw there' e in
          ground (arith, own, same, eq_iff x.voter_id v, eq_iff x.voter_id u)))
