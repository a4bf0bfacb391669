-- ===== src/News/Races/Steps.antt =====
-- What the writes of a request do to a database that may have changed since its checks.
use news_board.Prelude.{
  ℕ, suc, ◌≤◌, String, ◌≡◌, ◌≢◌, ◌⊎◌, refl, true, some, Option-cases, List, [], ◌∷◌, map, In,
  In-append, In-filter, filter, ◌++◌, In-map_inv, arith, inl, inr, eq_iff, ◌∙◌,
}
use news_board.Prelude.Keys.{nat_key}
use news_board.Context.{Context}
use news_board.Exec.{ok}
use news_board.Local
use news_board.Local.{PostModel, PostPollModel, PostPollVoteModel, Db}
use news_board.Local.Repository.{insert_votes, erase_votes, delete_votes, add_votes}
use news_board.Local.Accepted.{insert_votes-IsKeyed}
use news_board.Local.Added.{In-number}
use news_board.Local.Ballots.{
  ballot, holds, ballot-erase_votes_all, ballot-erase_votes_none, ballot-with_votes_other,
  ballot-with_votes_own, erase_votes-eq-filter, insert_votes-eq-with_votes, number, spared,
  with_votes,
}
use news_board.Local.Consistency.{IsKeyed}
use news_board.Local.Removed.{filter_votes-IsKeyed}
use news_board.World.{World}
use news_board.News.Effects.{audit_keeps}
use news_board.News.Votes.{vote_for}
use news_board.News.Votes.Swap.{
  Covers, insert_votes-erase_votes, options-vote_for, vote_for-post, vote_for-option,
}
use news_board.News.Races.{
  VoteRequest, cast, retract, Checked, store_request, store_cast, store_retract, sees,
}
use news_board.News.Races.Ready.{IsReady, inserted}

-- the rows that a request inserts
abbrev pub new_rows : ℕ → VoteRequest → Checked → List PostPollVoteModel
new_rows i q c = map (vote_for c.post i c.voter_id) (inserted q c)

pub erase_nothing : (c : Checked) (d : Db) → c.existing ≡ [] → erase_votes c.existing d ≡ d
unfolding erase_votes
erase_nothing c d h = rw h refl

-- The writes commit the swap of the rows that were read, or nothing where the database refuses it.
pub store_request-saved :
    (ctx : Context) (i : ℕ) (q : VoteRequest) (c : Checked) (d : Db) (w : World)
    → let e = (store_request ctx i q c (sees d w)).1.local.saved in
      (e ≡ d) ⊎ (insert_votes (new_rows i q c) (erase_votes c.existing d) ≡ some e)
unfolding store_request store_cast store_retract insert_votes add_votes delete_votes Local.commit
store_request-saved ctx i (cast ids) c d w =
    elim (Option-cases (insert_votes (new_rows i (cast ids) c) (erase_votes c.existing d))) [
      | inl refused ↦ inl (grind (arith, audit_keeps))
      | inr (e, done) ↦ inr (grind (arith, audit_keeps))
    ]
store_request-saved ctx i retract c d w = grind (arith, audit_keeps)

-- votes may come and go, and keys are not taken twice
pub record Evolves (d e : Db) : Type 0 where
  pub same_posts : e.posts ≡ d.posts
  pub same_options : e.options ≡ d.options
  pub later : d.next_vote ≤ e.next_vote
  pub old_or_new : (w : PostPollVoteModel) → In w e.votes → In w d.votes ⊎ (d.next_vote ≤ w.id)

-- the voter's rows on the post are among those of before, and make the same ballot
abbrev pub Keeps : ℕ → String → Db → Db → Type 0
Keeps p u d e =
    ((w : PostPollVoteModel) → In w e.votes → holds p u w ≡ true → In w d.votes)
    × (ballot p u e ≡ ballot p u d)

pub Evolves-refl : (d : Db) → Evolves d d
Evolves-refl d = record {
  same_posts = refl;
  same_options = refl;
  later = omega arith;
  old_or_new = λ w m. inl m;
}

numbered_voter :
    (u : String) (i n : ℕ) (vs : List PostPollVoteModel)
    → ((v : PostPollVoteModel) → In v vs → (v.voter_id ≡ u) × (v.id_post ≡ i))
    → (w : PostPollVoteModel) → In w (number n vs)
    → (w.voter_id ≡ u) × (w.id_post ≡ i)
numbered_voter u i n [] h w m = absurd m
numbered_voter u i n (v ∷ vs) h w (inl e) = ground (arith, e, h v (inl refl))
numbered_voter u i n (v ∷ vs) h w (inr m) = numbered_voter u i (suc n) vs (λ x k. h x (inr k)) w m

pub new_rows-voter :
    (i : ℕ) (q : VoteRequest) (c : Checked) (w : PostPollVoteModel)
    → In w (new_rows i q c)
    → (w.voter_id ≡ c.voter_id) × (w.id_post ≡ i)
new_rows-voter i q c w m =
    let (k, _, e) = In-map_inv (vote_for c.post i c.voter_id) (inserted q c) w m in
    (ground (arith, e), ground (arith, e))

-- What was made sure of stays so while votes come and go.
pub IsReady-Evolves :
    (ctx : Context) (i : ℕ) (q : VoteRequest) (d e : Db) (c : Checked)
    → Evolves d e
    → IsReady ctx i q d c
    → IsReady ctx i q e c
IsReady-Evolves ctx i q d e c step r = record {
  id = r.id;
  stored = rw step.same_posts r.stored;
  scoped = r.scoped;
  voter = r.voter;
  valid = λ k m. let (o, there, a, b) = r.valid k m in (o, rw step.same_options there, a, b);
  distinct = r.distinct;
  own = λ x m. let below = r.own x m in let later = step.later in omega (arith, below, later);
  mine = λ x w m n same. elim (step.old_or_new w n) [
    | inl old ↦ r.mine x w m old same
    | inr new ↦ let below = r.own x m in absurd (omega (arith, below, new, same))
  ];
}

module _ (ctx : Context) (i : ℕ) (q : VoteRequest) (c : Checked) (d e : Db)
    (r : IsReady ctx i q d c)
    (done : insert_votes (new_rows i q c) (erase_votes c.existing d) ≡ some e) where
  written : e ≡ with_votes (new_rows i q c) (erase_votes c.existing d)
  written = insert_votes-eq-with_votes (new_rows i q c) (erase_votes c.existing d) e done

  -- a row afterwards was there before, or is one of the new rows
  In-written :
      (w : PostPollVoteModel)
      → In w e.votes
      → In w d.votes ⊎ ((d.next_vote ≤ w.id) × (w.voter_id ≡ c.voter_id) × (w.id_post ≡ i))
  In-written w m =
      let rows = new_rows i q c in
      let there : In w (filter (spared c.existing) d.votes ++ number d.next_vote rows) =
        rw (written, erase_votes-eq-filter) at m in
      elim (In-append w (filter (spared c.existing) d.votes) (number d.next_vote rows) there) [
        | inl old ↦ inl (In-filter (spared c.existing) w d.votes old).0
        | inr new ↦
            let (voter, post) =
              numbered_voter c.voter_id i d.next_vote rows (new_rows-voter i q c) w new in
            inr ((In-number d.next_vote rows w new).5, voter, post)
      ]

  pub written-Evolves : Evolves d e
  written-Evolves = record {
    same_posts = rw (written, erase_votes-eq-filter) refl;
    same_options = rw (written, erase_votes-eq-filter) refl;
    later = rw (written, erase_votes-eq-filter) (omega arith);
    old_or_new = λ w m. elim (In-written w m) [ inl old ↦ inl old | inr (new, _, _) ↦ inr new ];
  }

  pub written-IsKeyed : IsKeyed d → IsKeyed e
  written-IsKeyed k =
      insert_votes-IsKeyed (new_rows i q c) (erase_votes c.existing d) e
        (rw erase_votes-eq-filter (filter_votes-IsKeyed d (spared c.existing) k))
        (λ w m. rw erase_votes-eq-filter (
          vote_for-post d c.post c.voter_id (inserted q c) r.stored w (rw (← r.id) at m),
          vote_for-option d c.post c.voter_id (inserted q c) r.valid w (rw (← r.id) at m),
        ))
        done

  -- The rows and the ballots of other voters, and of other posts, are those of before.
  pub written_foreign : (p : ℕ) (u : String) → (p ≢ i) ⊎ (u ≢ c.voter_id) → Keeps p u d e
  written_foreign p u apart = (
    λ w m own. elim (In-written w m) [
      | inl old ↦ old
      | inr (_, voter, post) ↦ absurd (ground (arith, own, voter, post, apart, eq_iff w.voter_id u))
    ],
    rw written (
        ballot-with_votes_other p u (new_rows i q c) (erase_votes c.existing d) (λ w m.
          let (voter, post) = new_rows-voter i q c w m in
          ground (arith, voter, post, eq_iff w.voter_id u, apart))
        ∙ ballot-erase_votes_none p u c.existing d (λ w x m n same.
          let mine = r.mine x w n m same in
          ground (arith, mine, apart, eq_iff w.voter_id u, eq_iff w.voter_id c.voter_id))),
  )

  -- Where the rows that were read still cover the voter's, the ballot is the new selection.
  pub written_own : Covers i c.voter_id d c.existing → ballot i c.voter_id e ≡ inserted q c
  written_own covers = rw written (
      ballot-with_votes_own i c.voter_id (new_rows i q c) (erase_votes c.existing d) (λ w m.
        let (voter, post) = new_rows-voter i q c w m in
        ground (arith, voter, post, eq_iff c.voter_id c.voter_id))
      ∙ rw
          (
            ballot-erase_votes_all i c.voter_id c.existing d covers,
            options-vote_for c.post i c.voter_id (inserted q c),
          )
          refl)

-- Where the rows that were read still cover the voter's, the database refuses nothing.
pub insert_votes-Covers :
    (ctx : Context) (i : ℕ) (q : VoteRequest) (c : Checked) (d : Db)
    → IsKeyed d
    → IsReady ctx i q d c
    → Covers i c.voter_id d c.existing
    → (e : Db) × (insert_votes (new_rows i q c) (erase_votes c.existing d) ≡ some e)
insert_votes-Covers ctx i q c d k r covers = rw (← r.id) (
  _,
  insert_votes-erase_votes d k c.post r.stored c.voter_id c.existing (rw r.id covers) (inserted q c)
      r.valid r.distinct,
)

-- The request then succeeds, and what it commits is the swap.
pub store_request-ok :
    (ctx : Context) (i : ℕ) (q : VoteRequest) (c : Checked) (d e : Db) (w : World)
    → insert_votes (new_rows i q c) (erase_votes c.existing d) ≡ some e
    → let (r, w') = store_request ctx i q c (sees d w) in (r ≡ ok tt) × (w'.local.saved ≡ e)
unfolding store_request store_cast store_retract insert_votes add_votes delete_votes erase_votes
    Local.commit
store_request-ok ctx i (cast ids) c d e w done = grind (arith, audit_keeps)
store_request-ok ctx i retract c d e w done = grind (arith, audit_keeps)
