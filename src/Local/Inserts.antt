-- ===== src/Local/Inserts.antt =====
-- When the database takes a batch of votes: foreign keys and UNIQUE (id_post_poll, voter_id).
use news_board.Prelude.{
  ◌≡◌, refl, ap, ◌∙◌, inl, inr, Bool, true, false, ◌&&◌, some, List, [], ◌∷◌, map, ◌==◌, ==_iff,
  str_eq, any, In, In-map, any-append, arith,
}
use news_board.Prelude.Keys.{Nodup, nat_key, In-contains}
use news_board.Local.{PostModel, PostPollModel, PostPollVoteModel, Db}
use news_board.Local.Repository.{insert_vote, insert_votes}
use news_board.Local.Ballots.{with_votes, insert_votes-eq-with_votes}

-- the rows that UNIQUE (id_post_poll, voter_id) sets against `v`
abbrev pub clashes : PostPollVoteModel → PostPollVoteModel → Bool
clashes v w = w.id_post_poll == v.id_post_poll && str_eq w.voter_id v.voter_id

abbrev pub Refers : PostPollVoteModel → Db → Type 0
Refers v d =
    (any (λ (p : PostModel). p.id == v.id_post) d.posts ≡ true)
    × (any (λ (o : PostPollModel). o.id == v.id_post_poll) d.options ≡ true)

insert_votes-some :
    (vs : List PostPollVoteModel) (d : Db)
    → ((v : PostPollVoteModel) → In v vs → Refers v d)
    → ((v : PostPollVoteModel) → In v vs → any (clashes v) d.votes ≡ false)
    → Nodup (map (λ v. v.id_post_poll) vs)
    → (e : Db) × (insert_votes vs d ≡ some e)
unfolding insert_votes
insert_votes-some [] d r c n = (d, refl)
insert_votes-some (v ∷ vs) d r c n =
    let later : (x : PostPollVoteModel)
        → In x vs
        → any (clashes x) (insert_vote v d).votes ≡ false =
      λ x m. ground (
        arith,
        any-append (clashes x) d.votes (record v { id = d.next_vote } ∷ []),
        c x (inr m),
        n.0,
        In-contains (map (λ w. w.id_post_poll) vs) x.id_post_poll
            (In-map (λ w. w.id_post_poll) vs x m),
        ==_iff v.id_post_poll x.id_post_poll,
      ) in
    let (e, done) = insert_votes-some vs (insert_vote v d) (λ x m. r x (inr m)) later n.1 in
    (e, ground (arith, r v (inl refl), c v (inl refl), done))

-- Votes that refer to rows, clash with none and are for different options are all inserted.
pub insert_votes_total :
    (vs : List PostPollVoteModel) (d : Db)
    → ((v : PostPollVoteModel) → In v vs → Refers v d)
    → ((v : PostPollVoteModel) → In v vs → any (clashes v) d.votes ≡ false)
    → Nodup (map (λ v. v.id_post_poll) vs)
    → insert_votes vs d ≡ some (with_votes vs d)
insert_votes_total vs d r c n =
    let (e, done) = insert_votes-some vs d r c n in
    done ∙ ap some (insert_votes-eq-with_votes vs d e done)
