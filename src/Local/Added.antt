-- ===== src/Local/Added.antt =====
-- Votes that refer to rows, and leave every ballot in order, keep a database consistent.
use news_board.Prelude.{
  ℕ, suc, ◌+◌, ◌≤◌, ◌<◌, String, ◌≡◌, refl, List, [], ◌∷◌, length, In, In-append, arith, inl, inr,
}
use news_board.Prelude.Keys.{Nodup, nat_key}
use news_board.Local.{PostModel, PostPollModel, PostPollVoteModel, Db}
use news_board.Local.Ballots.{number, with_votes, ballot}
use news_board.Local.Distinct.{Nodup-map-append, number-Nodup}
use news_board.Local.Consistency.{IsKeyed}

-- a numbered row is one of the rows, under an id of its own
pub In-number :
    (n : ℕ) (vs : List PostPollVoteModel) (w : PostPollVoteModel)
    → In w (number n vs)
    → (v : PostPollVoteModel) × In v vs
      × (w.id_post ≡ v.id_post)
      × (w.id_post_poll ≡ v.id_post_poll)
      × (w.id_community ≡ v.id_community)
      × (n ≤ w.id)
      × (w.id < n + length vs)
In-number n [] w m = absurd m
In-number n (v ∷ vs) w (inl e) =
    (v, inl refl, ground arith, ground arith, ground arith, ground arith, ground arith)
In-number n (v ∷ vs) w (inr m) =
    let (x, there, p, o, c, low, high) = In-number (suc n) vs w m in
    (x, inr there, p, o, c, omega (arith, low), omega (arith, high))

number_unique :
    (n : ℕ) (vs : List PostPollVoteModel) (w x : PostPollVoteModel)
    → In w (number n vs)
    → In x (number n vs)
    → w.id ≡ x.id
    → w ≡ x
number_unique n [] w x m k e = absurd m
number_unique n (v ∷ vs) w x (inl a) (inl b) e = ground arith
number_unique n (v ∷ vs) w x (inl a) (inr k) e =
    let (_, _, _, _, _, low, _) = In-number (suc n) vs x k in ground (arith, low)
number_unique n (v ∷ vs) w x (inr m) (inl b) e =
    let (_, _, _, _, _, low, _) = In-number (suc n) vs w m in ground (arith, low)
number_unique n (v ∷ vs) w x (inr m) (inr k) e = number_unique (suc n) vs w x m k e

module _ (d : Db) (c : IsKeyed d) (vs : List PostPollVoteModel)
    (posts : (v : PostPollVoteModel)
      → In v vs
      → (p : PostModel) × In p d.posts × (p.id ≡ v.id_post) × (p.id_community ≡ v.id_community))
    (options : (v : PostPollVoteModel)
      → In v vs
      → (o : PostPollModel) × In o d.options × (o.id ≡ v.id_post_poll) × (o.id_post ≡ v.id_post))
    (once : (p : ℕ) (v : String) → Nodup (ballot p v (with_votes vs d))) where
  pub with_votes-IsKeyed : IsKeyed (with_votes vs d)
  with_votes-IsKeyed = record {
    post_fresh = c.post_fresh;
    post_unique = c.post_unique;
    option_fresh = c.option_fresh;
    option_unique = c.option_unique;
    option_post = c.option_post;
    vote_fresh = λ w m. elim (In-append w d.votes (number d.next_vote vs) m) [
      | inl old ↦ let below = c.vote_fresh w old in omega (arith, below)
      | inr new ↦ (In-number d.next_vote vs w new).6
    ];
    vote_unique = λ w x m k e. elim (In-append w d.votes (number d.next_vote vs) m) [
      | inl old ↦ elim (In-append x d.votes (number d.next_vote vs) k) [
        | inl older ↦ c.vote_unique w x old older e
        | inr new ↦
            let (_, _, _, _, _, low, _) = In-number d.next_vote vs x new in
            let below = c.vote_fresh w old in ground (arith, low, below)
      ]
      | inr new ↦ elim (In-append x d.votes (number d.next_vote vs) k) [
        | inl old ↦
            let (_, _, _, _, _, low, _) = In-number d.next_vote vs w new in
            let below = c.vote_fresh x old in ground (arith, low, below)
        | inr newer ↦ number_unique d.next_vote vs w x new newer e
      ]
    ];
    vote_post = λ w m. elim (In-append w d.votes (number d.next_vote vs) m) [
      | inl old ↦ c.vote_post w old
      | inr new ↦
          let (v, there, post, option, community, _, _) = In-number d.next_vote vs w new in
          let (p, mp, e, f) = posts v there in
          (p, mp, ground (arith, e, post), ground (arith, f, community))
    ];
    vote_option = λ w m. elim (In-append w d.votes (number d.next_vote vs) m) [
      | inl old ↦ c.vote_option w old
      | inr new ↦
          let (v, there, post, option, community, _, _) = In-number d.next_vote vs w new in
          let (o, mo, e, f) = options v there in
          (o, mo, ground (arith, e, option), ground (arith, f, post))
    ];
    posts_distinct = c.posts_distinct;
    options_distinct = c.options_distinct;
    votes_distinct =
        Nodup-map-append (λ (w : PostPollVoteModel). w.id) d.next_vote d.votes
          (number d.next_vote vs) c.vote_fresh (λ w m. (In-number d.next_vote vs w m).5)
          c.votes_distinct (number-Nodup d.next_vote vs);
    vote_once = once;
  }
