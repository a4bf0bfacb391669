-- ===== src/News/Votes/Recorded.antt =====
-- What a vote that is accepted leaves in the database.
use news_board.Prelude.{
  ℕ, String, ◌≡◌, ap, ◌∙◌, ◌≢◌, ◌⊎◌, true, false, not, some, List, map, ==_iff, eq_iff, any_none,
  length, In, In-map, In-map_inv, arith,
}
use news_board.Prelude.Keys.{nat_key, contains, In-contains, fromkeys, fromkeys-Nodup, In-fromkeys}
use news_board.Context.{Context}
use news_board.Const.{PostType, post_type_of_int, is_poll}
use news_board.Exec.{ok}
use news_board.Crm.{CrmSession}
use news_board.Audit
use news_board.Realtime.{Broker}
use news_board.Local
use news_board.Local.{PostModel, PostPollModel, PostPollVoteModel, Db}
use news_board.Local.Repository.{
  in_scope, select_options, votes_of, erase_votes, get_post_with_options,
}
use news_board.Local.Ballots.{
  ballot, ballot-erase_votes_all, ballot-erase_votes_none, ballot-with_votes_own,
  ballot-with_votes_other,
}
use news_board.Local.Consistency.{IsKeyed, IsConsistent}
use news_board.Local.Lookup.{find_post-some, votes_of-In, In-votes_of, In-select_options}
use news_board.World.{request}
use news_board.News.{poll_ended, current_voter, require_voter, audit}
use news_board.News.Votes.{cast_vote, swap_votes, validate_selection, is_single, vote_for}
use news_board.News.Votes.Swap.{IsOptionOf, swapped, insert-swapped, options-vote_for}

module _ (ctx : Context) (d : Db) (c : IsKeyed d) (post : PostModel) (there : In post d.posts)
    (scoped : in_scope ctx.internal_community_id post.id_community ≡ true) (v : String) where
  -- the ids of the loaded options are those of the post
  valid_id :
      (i : ℕ)
      → IsOptionOf post.id d i
      → not (contains (map (λ (o : PostPollModel). o.id) (select_options post.id d)) i) ≡ false
  valid_id i (o, m, e, p) =
      let listed = (In-select_options post.id d o).1 (m, (==_iff o.id_post post.id).1 p) in
      ap not (
        In-contains (map (λ (o : PostPollModel). o.id) (select_options post.id d)) i
          (rw (← e) (In-map (λ (o : PostPollModel). o.id) (select_options post.id d) o listed)))

  pub validate_selection-ok :
      (t : PostType) (ids : List ℕ)
      → ((i : ℕ) → In i ids → IsOptionOf post.id d i)
      → (is_single t ≡ true → length (fromkeys ids) ≡ 1)
      → validate_selection ids t (select_options post.id d) ≡ ok (fromkeys ids)
  unfolding validate_selection
  validate_selection-ok t ids valid one = ground (
    arith,
    any_none (λ i. not (contains (map (λ (o : PostPollModel). o.id) (select_options post.id d)) i))
        (fromkeys ids) (λ i m. valid_id i (valid i (In-fromkeys ids i m))),
  )

  pub ballot-swapped_own :
      (selected : List ℕ) → ballot post.id v (swapped ctx post v selected d) ≡ selected
  ballot-swapped_own selected =
      ballot-with_votes_own post.id v (map (vote_for post post.id v) selected)
        (erase_votes (votes_of ctx post.id v d) d)
        (λ w m.
          let (i, _, e) = In-map_inv (vote_for post post.id v) selected w m in
          rw e (ground (arith, eq_iff v v)))
      ∙ rw
          (ballot-erase_votes_all post.id v (votes_of ctx post.id v d) d
            (λ w m h. In-votes_of ctx d post v w c there scoped m h))
          (options-vote_for post post.id v selected)

  pub ballot-swapped_other :
      (selected : List ℕ) (q : ℕ) (u : String)
      → (q ≢ post.id) ⊎ (u ≢ v)
      → ballot q u (swapped ctx post v selected d) ≡ ballot q u d
  ballot-swapped_other selected q u apart =
      ballot-with_votes_other q u (map (vote_for post post.id v) selected)
        (erase_votes (votes_of ctx post.id v d) d)
        (λ w m.
          let (i, _, e) = In-map_inv (vote_for post post.id v) selected w m in
          rw e (ground (arith, eq_iff v u)))
      ∙ ballot-erase_votes_none q u (votes_of ctx post.id v d) d (λ w x mw mx e.
        let (there', own) = votes_of-In ctx d post.id v x mx in
        let same : w ≡ x = c.vote_unique w x mw there' e in
        ground (arith, own, same, eq_iff x.voter_id v, eq_iff x.voter_id u))

module _ (ctx : Context) (d : Db) (crm : CrmSession) (broker : Broker) (post : PostModel)
    (t : PostType) (v : String) (ids : List ℕ) (c : IsConsistent d) (there : In post d.posts)
    (scoped : in_scope ctx.internal_community_id post.id_community ≡ true)
    (typed : post_type_of_int post.type ≡ some t) (poll : is_poll t ≡ true)
    (running : poll_ended ctx post ≡ false) (voter : current_voter ctx ≡ some v)
    (valid : (i : ℕ) → In i ids → IsOptionOf post.id d i)
    (one : is_single t ≡ true → length (fromkeys ids) ≡ 1) where
  pub cast_vote-swapped :
      let (r, w) = cast_vote ctx post.id ids (request d crm broker) in
      (r ≡ ok tt) × (w.local.saved ≡ swapped ctx post v (fromkeys ids) d)
  unfolding cast_vote swap_votes get_post_with_options require_voter audit Audit.log Local.commit
  cast_vote-swapped = ground (
    arith,
    find_post-some ctx d post c.keyed there scoped,
    validate_selection-ok ctx d c.keyed post there scoped v t ids valid one,
    insert-swapped ctx d c.keyed post there scoped v (fromkeys ids)
        (λ i m. valid i (In-fromkeys ids i m)) (fromkeys-Nodup ids),
  )

  -- In a consistent database, a vote of a signed-in caller on a running poll of the request's
  -- community, for options of that poll (exactly one distinct option if the poll is
  -- single-choice), succeeds; the committed ballot of the caller on the poll is then exactly
  -- the distinct options of the request, in their order.
  pub cast_vote_records :
      let (r, w) = cast_vote ctx post.id ids (request d crm broker) in
      (r ≡ ok tt) × (ballot post.id v w.local.saved ≡ fromkeys ids)
  cast_vote_records =
      let (done, state) = cast_vote-swapped in
      (done, rw state (ballot-swapped_own ctx d c.keyed post there scoped v (fromkeys ids)))

  -- In a consistent database, a vote of a signed-in caller on a running poll of the request's
  -- community, for options of that poll (exactly one distinct option if the poll is
  -- single-choice), leaves every ballot of another voter, and the caller's ballot on every
  -- other post, as it was.
  pub cast_vote_keeps_others :
      (q : ℕ) (u : String)
      → (q ≢ post.id) ⊎ (u ≢ v)
      → ballot q u (cast_vote ctx post.id ids (request d crm broker)).1.local.saved ≡ ballot q u d
  cast_vote_keeps_others q u apart =
      let (done, state) = cast_vote-swapped in
      rw state (ballot-swapped_other ctx d c.keyed post there scoped v (fromkeys ids) q u apart)
