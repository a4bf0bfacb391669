-- ===== src/News/Races/Beside.antt =====
-- What a second vote finds that has read before the first wrote.
use news_board.Prelude.{
  ℕ, String, ◌≡◌, ◌∙◌, refl, ap, true, false, some, List, [], ◌∷◌, ◌++◌, In, In-any, any, any_none,
  In-filter_intro, In-map, In-map_inv, filter, arith, inl, inr, ◌==◌, Bool-cases, eq_iff,
}
use news_board.Prelude.Keys.{nat_key}
use news_board.Context.{Context}
use news_board.Local.{PostModel, PostPollModel, PostPollVoteModel, Db}
use news_board.Local.Repository.{insert_votes, votes_of}
use news_board.Local.Ballots.{ballot, holds, with_votes, ballot-with_votes_own}
use news_board.Local.Consistency.{IsKeyed}
use news_board.Local.Inserts.{clashes, Refers, insert_votes_total}
use news_board.Local.Lookup.{votes_of-In}
use news_board.News.Votes.{vote_for}
use news_board.News.Votes.Swap.{vote_for-post, vote_for-option, options-vote_for}
use news_board.News.Races.{Checked, VoteRequest}
use news_board.News.Races.Ready.{IsReady, inserted}
use news_board.News.Races.Steps.{new_rows, new_rows-voter}

-- a voter without a ballot has no rows to read
pub no_rows :
    (ctx : Context) (d : Db) (i : ℕ) (v : String) → ballot i v d ≡ [] → votes_of ctx i v d ≡ []
no_rows ctx d i v none_ = go (votes_of ctx i v d) (λ w m. votes_of-In ctx d i v w m)
  where
    go :
        (rows : List PostPollVoteModel)
        → ((w : PostPollVoteModel) → In w rows → In w d.votes × (holds i v w ≡ true))
        → rows ≡ []
    go [] h = refl
    go (w ∷ ws) h =
        let (there, own) = h w (inl refl) in
        let listed : In w.id_post_poll (ballot i v d) =
          In-map (λ (x : PostPollVoteModel). x.id_post_poll) (filter (holds i v) d.votes) w
            (In-filter_intro (holds i v) w d.votes there own) in
        absurd (rw none_ at listed)

-- Options that the voter does not hold are inserted beside those that the voter holds.
module _ (ctx : Context) (i : ℕ) (q : VoteRequest) (c : Checked) (d : Db) (k : IsKeyed d)
    (r : IsReady ctx i q d c)
    (apart : (o : ℕ) → In o (inserted q c) → In o (ballot i c.voter_id d) → ⊥) where
  refers : (w : PostPollVoteModel) → In w (new_rows i q c) → Refers w d
  refers w m =
      let rows = inserted q c in
      let here = rw (← r.id) at m in
      let (p, mp, ep, _) = vote_for-post d c.post c.voter_id rows r.stored w here in
      let (o, mo, eo, _) = vote_for-option d c.post c.voter_id rows r.valid w here in
      (
        In-any (λ (p : PostModel). p.id == w.id_post) d.posts p mp (ground (arith, ep)),
        In-any (λ (o : PostPollModel). o.id == w.id_post_poll) d.options o mo (ground (arith, eo)),
      )

  free : (w : PostPollVoteModel) → In w (new_rows i q c) → any (clashes w) d.votes ≡ false
  free w m =
      let (o, mo, e) = In-map_inv (vote_for c.post i c.voter_id) (inserted q c) w m in
      any_none (clashes w) d.votes (λ x mx. elim (Bool-cases (clashes w x)) [
        | inr other ↦ other
        | inl hit ↦
            let (a, ma, ea, pa) = r.valid o mo in
            let (b, mb, eb, pb) = k.vote_option x mx in
            let same : a ≡ b = k.option_unique a b ma mb (ground (arith, ea, eb, e, hit)) in
            let own : holds i c.voter_id x ≡ true = ground (arith, same, hit, e, pa, pb, r.id) in
            let listed : In x.id_post_poll (ballot i c.voter_id d) =
              In-map (λ (x : PostPollVoteModel). x.id_post_poll)
                (filter (holds i c.voter_id) d.votes) x
                (In-filter_intro (holds i c.voter_id) x d.votes mx own) in
            let chosen : x.id_post_poll ≡ o = ground (arith, e, hit) in
            absurd (apart o mo (rw chosen at listed))
      ])

  pub beside :
      (e : Db) × (insert_votes (new_rows i q c) d ≡ some e)
      × (ballot i c.voter_id e ≡ ballot i c.voter_id d ++ inserted q c)
  beside = (
    with_votes (new_rows i q c) d,
    insert_votes_total (new_rows i q c) d refers free
        (rw (options-vote_for c.post i c.voter_id (inserted q c)) r.distinct),
    ballot-with_votes_own i c.voter_id (new_rows i q c) d (λ w m.
          let (voter, post) = new_rows-voter i q c w m in
          ground (arith, voter, post, eq_iff c.voter_id c.voter_id))
        ∙ ap (◌++◌ (ballot i c.voter_id d)) (options-vote_for c.post i c.voter_id (inserted q c)),
  )
