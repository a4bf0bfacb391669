-- ===== src/Local/Removed.antt =====
-- Rows can be removed from a consistent database: fewer votes, or a post with all that belongs to it.
use news_board.Prelude.{
  ℕ, ◌≤◌, ◌≡◌, refl, false, not, ◌||◌, List, [], ◌∷◌, map, Bool, ◌==◌, ==_iff, filter, length, In,
  In-filter, In-filter_intro, In-map_inv, ◌≢◌, ◌↔◌, arith, inl, inr, Bool-cases,
}
use news_board.Prelude.Keys.{contains, Nodup, nat_key, contains-In}
use news_board.Local.{PostModel, PostPollModel, PostPollVoteModel, Db}
use news_board.Local.Repository.{cascade_post}
use news_board.Local.Ballots.{holds}
use news_board.Local.Distinct.{Nodup-map-filter}
use news_board.Local.Consistency.{IsKeyed, IsConsistent}

module _ {A : Type 0} (f : A → ℕ) (p q : A → Bool) where
  contains-filter :
      (xs : List A) (i : ℕ)
      → contains (map f (filter p xs)) i ≡ false
      → contains (map f (filter p (filter q xs))) i ≡ false
  contains-filter [] i h = refl
  contains-filter (x ∷ xs) i h = ground (arith, contains-filter xs i)

  Nodup-filter :
      (xs : List A) → Nodup (map f (filter p xs)) → Nodup (map f (filter p (filter q xs)))
  Nodup-filter [] h = tt
  Nodup-filter (x ∷ xs) h = ground (arith, Nodup-filter xs, contains-filter xs (f x))

  length-filter :
      (xs : List A) → length (map f (filter p (filter q xs))) ≤ length (map f (filter p xs))
  length-filter [] = ground arith
  length-filter (x ∷ xs) = ground (arith, length-filter xs)

-- what is left where the rows of one key go
pub In-filter-not :
    {A : Type 0} (f : A → ℕ) (i : ℕ) (a : A) (xs : List A)
    → In a (filter (λ x. not (f x == i)) xs) ↔ (In a xs × (f a ≢ i))
In-filter-not f i a xs = (
  λ m.
      let (there, kept) = In-filter (λ x. not (f x == i)) a xs m in
      (there, λ e. ground (arith, kept, e)),
  λ (m, other). In-filter_intro (λ x. not (f x == i)) a xs m (ground (arith, other)),
)

module _ (d : Db) (q : PostPollVoteModel → Bool) where
  -- any selection of the votes
  pub filter_votes-IsKeyed : IsKeyed d → IsKeyed (record d { votes = filter q d.votes })
  filter_votes-IsKeyed c = record {
    post_fresh = c.post_fresh;
    post_unique = c.post_unique;
    option_fresh = c.option_fresh;
    option_unique = c.option_unique;
    option_post = c.option_post;
    vote_fresh = λ w m. c.vote_fresh w (In-filter q w d.votes m).0;
    vote_unique =
        λ w x m n. c.vote_unique w x (In-filter q w d.votes m).0 (In-filter q x d.votes n).0;
    vote_post = λ w m. c.vote_post w (In-filter q w d.votes m).0;
    vote_option = λ w m. c.vote_option w (In-filter q w d.votes m).0;
    posts_distinct = c.posts_distinct;
    options_distinct = c.options_distinct;
    votes_distinct = Nodup-map-filter (λ (w : PostPollVoteModel). w.id) q d.votes c.votes_distinct;
    vote_once = λ p v. Nodup-filter (λ w. w.id_post_poll) (holds p v) q d.votes (c.vote_once p v);
  }

  pub filter_votes-IsConsistent :
      IsConsistent d → IsConsistent (record d { votes = filter q d.votes })
  filter_votes-IsConsistent c = record {
    keyed = filter_votes-IsKeyed c.keyed;
    vote_single = λ p m t v.
        let fewer =
          length-filter (λ (w : PostPollVoteModel). w.id_post_poll) (holds p.id v) q d.votes in
        let one = c.vote_single p m t v in omega (arith, fewer, one);
  }

module _ (i : ℕ) (d : Db) (c : IsConsistent d) where
  abbrev gone : List ℕ
  gone = map (λ (o : PostPollModel). o.id) (filter (λ o. o.id_post == i) d.options)

  abbrev stays : PostPollVoteModel → Bool
  stays v = not (v.id_post == i || contains gone v.id_post_poll)

  -- the votes that stay are those on other posts
  pub stays_iff :
      (w : PostPollVoteModel) → In w (cascade_post i d).votes ↔ (In w d.votes × (w.id_post ≢ i))
  unfolding cascade_post
  stays_iff w = (
    λ m. let (there, kept) = In-filter stays w d.votes m in (there, λ e. ground (arith, kept, e)),
    λ (m, other).
        let (o, mo, e, post) = c.vote_option w m in
        let mine : contains gone w.id_post_poll ≡ false =
          elim (Bool-cases (contains gone w.id_post_poll)) [
            | inr none_ ↦ none_
            | inl hit ↦
                let (q, mq, eq) =
                  In-map_inv (λ (o : PostPollModel). o.id) (filter (λ o. o.id_post == i) d.options)
                    w.id_post_poll (contains-In gone w.id_post_poll hit) in
                let (there, of_post) =
                  In-filter (λ (o : PostPollModel). o.id_post == i) q d.options mq in
                let same : o ≡ q = c.option_unique o q mo there (ground (arith, e, eq)) in
                absurd (other (ground (arith, same, of_post, post)))
          ] in
        In-filter_intro stays w d.votes m (ground (arith, mine, ==_iff w.id_post i, other)),
  )

  -- Deleting a post with its options and its votes keeps the database consistent.
  pub cascade_post-IsConsistent : IsConsistent (cascade_post i d)
  unfolding cascade_post
  cascade_post-IsConsistent =
      let v = filter_votes-IsConsistent d stays c in
      let other = λ (p : PostModel). not (p.id == i) in
      let apart = λ (o : PostPollModel). not (o.id_post == i) in
      record {
        keyed = record {
          post_fresh = λ p m. c.post_fresh p (In-filter other p d.posts m).0;
          post_unique = λ p q m n.
              c.post_unique p q (In-filter other p d.posts m).0 (In-filter other q d.posts n).0;
          option_fresh = λ o m. c.option_fresh o (In-filter apart o d.options m).0;
          option_unique = λ o q m n.
              c.option_unique o q (In-filter apart o d.options m).0
                (In-filter apart q d.options n).0;
          option_post = λ o m.
              let (there, kept) = In-filter apart o d.options m in
              let (p, mp, e, community) = c.option_post o there in
              (p, In-filter_intro other p d.posts mp (ground (arith, kept, e)), e, community);
          vote_fresh = v.vote_fresh;
          vote_unique = v.vote_unique;
          vote_post = λ w m.
              let (p, mp, e, community) = v.vote_post w m in
              let (there, kept) = In-filter stays w d.votes m in
              (p, In-filter_intro other p d.posts mp (ground (arith, kept, e)), e, community);
          vote_option = λ w m.
              let (o, mo, e, post) = v.vote_option w m in
              let (there, kept) = In-filter stays w d.votes m in
              (o, In-filter_intro apart o d.options mo (ground (arith, kept, post)), e, post);
          posts_distinct =
              Nodup-map-filter (λ (p : PostModel). p.id) other d.posts c.posts_distinct;
          options_distinct =
              Nodup-map-filter (λ (o : PostPollModel). o.id) apart d.options c.options_distinct;
          votes_distinct = v.votes_distinct;
          vote_once = v.vote_once;
        };
        vote_single = λ p m t u. v.vote_single p (In-filter other p d.posts m).0 t u;
      }
