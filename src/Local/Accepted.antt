-- ===== src/Local/Accepted.antt =====
-- A batch of votes that the database accepts, whatever rows were read before: UNIQUE
-- (id_post_poll, voter_id) keeps every ballot free of repetitions.
use news_board.Prelude.{
  ℕ, String, ◌≡◌, inl, inr, true, false, some, List, [], ◌∷◌, In, In-any, In-filter, In-map_inv,
  filter, arith, eq_iff, Bool-cases, refl,
}
use news_board.Prelude.Keys.{Nodup, nat_key, contains, contains-In, Nodup-snoc}
use news_board.Local.{PostModel, PostPollModel, PostPollVoteModel, Db}
use news_board.Local.Repository.{insert_vote, insert_votes, accepts_vote}
use news_board.Local.Ballots.{
  ballot, holds, with_votes, ballot-with_votes_own, ballot-with_votes_other,
}
use news_board.Local.Inserts.{clashes}
use news_board.Local.Added.{with_votes-IsKeyed}
use news_board.Local.Consistency.{IsKeyed}

-- the post and the option that a new row refers to
abbrev pub RefersTo : Db → PostPollVoteModel → Type 0
RefersTo d v =
    ((p : PostModel) × In p d.posts × (p.id ≡ v.id_post) × (p.id_community ≡ v.id_community))
    × ((o : PostPollModel) × In o d.options × (o.id ≡ v.id_post_poll) × (o.id_post ≡ v.id_post))

In-single : (w v : PostPollVoteModel) → In w (v ∷ []) → w ≡ v
In-single w v (inl e) = e
In-single w v (inr m) = absurd m

module _ (d : Db) (c : IsKeyed d) (v : PostPollVoteModel) (fits : accepts_vote v d ≡ true) where
  -- the voter does not hold the option yet
  not_held :
      (p : ℕ) (u : String) → holds p u v ≡ true → contains (ballot p u d) v.id_post_poll ≡ false
  not_held p u own = elim (Bool-cases (contains (ballot p u d) v.id_post_poll)) [
    | inr free ↦ free
    | inl hit ↦
        let (w, m, e) =
          In-map_inv (λ (w : PostPollVoteModel). w.id_post_poll) (filter (holds p u) d.votes)
            v.id_post_poll (contains-In (ballot p u d) v.id_post_poll hit) in
        let (there, held) = In-filter (holds p u) w d.votes m in
        let clash : clashes v w ≡ true = ground (
          arith,
          e,
          own,
          held,
          eq_iff w.voter_id u,
          eq_iff v.voter_id u,
          eq_iff w.voter_id v.voter_id,
        ) in
        ground (arith, fits, In-any (clashes v) d.votes w there clash)
  ]

  accepted_once : (p : ℕ) (u : String) → Nodup (ballot p u (with_votes (v ∷ []) d))
  accepted_once p u = elim (Bool-cases (holds p u v)) [
    | inl own ↦
        rw (ballot-with_votes_own p u (v ∷ []) d (λ w m. rw (In-single w v m) own))
          (Nodup-snoc (ballot p u d) v.id_post_poll (c.vote_once p u) (not_held p u own))
    | inr other ↦
        rw (ballot-with_votes_other p u (v ∷ []) d (λ w m. rw (In-single w v m) other))
          (c.vote_once p u)
  ]

  insert_vote-IsKeyed : RefersTo d v → IsKeyed (insert_vote v d)
  insert_vote-IsKeyed (post, option) =
      let same : insert_vote v d ≡ with_votes (v ∷ []) d = ground arith in
      rw same (
        with_votes-IsKeyed d c (v ∷ []) (λ w m. rw (In-single w v m) post)
          (λ w m. rw (In-single w v m) option) accepted_once)

-- Votes for options of stored posts that the database accepts leave its declared constraints.
pub insert_votes-IsKeyed :
    (vs : List PostPollVoteModel) (d e : Db)
    → IsKeyed d
    → ((v : PostPollVoteModel) → In v vs → RefersTo d v)
    → insert_votes vs d ≡ some e
    → IsKeyed e
unfolding insert_votes
insert_votes-IsKeyed [] d e c refers h = let same : d ≡ e = cc in rw (← same) c
insert_votes-IsKeyed (v ∷ vs) d e c refers h = elim (Bool-cases (accepts_vote v d)) [
  | inl fits ↦
      insert_votes-IsKeyed vs (insert_vote v d) e
        (insert_vote-IsKeyed d c v fits (refers v (inl refl))) (λ w m. refers w (inr m))
        (ground arith)
  | inr refused ↦ absurd (ground arith)
]
