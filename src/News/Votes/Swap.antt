-- ===== src/News/Votes/Swap.antt =====
-- The swap of `cast_vote`: the voter's rows are dropped and the selection is inserted, and in a
-- consistent database no constraint stands in its way.
use news_board.Prelude.{
  ℕ, String, ◌≡◌, refl, ap, inl, inr, true, false, some, List, [], ◌∷◌, map, ◌==◌, ==_refl, filter,
  any, In, In-any, any_none, In-filter, In-map_inv, Bool-cases, arith,
}
use news_board.Prelude.Keys.{Nodup, nat_key}
use news_board.Context.{Context}
use news_board.Local.{PostModel, PostPollModel, PostPollVoteModel, Db}
use news_board.Local.Repository.{in_scope, votes_of, erase_votes, insert_votes}
use news_board.Local.Ballots.{holds, spared, with_votes, erase_votes-eq-filter}
use news_board.Local.Consistency.{IsKeyed}
use news_board.Local.Inserts.{clashes, Refers, insert_votes_total}
use news_board.Local.Lookup.{In-votes_of}
use news_board.News.Votes.{vote_for}

-- `i` is an option of the post `p`
abbrev pub IsOptionOf : ℕ → Db → ℕ → Type 0
IsOptionOf p d i = (o : PostPollModel) × In o d.options × (o.id ≡ i) × (o.id_post ≡ p)

abbrev pub swapped : Context → PostModel → String → List ℕ → Db → Db
swapped ctx post v selected d =
    with_votes (map (vote_for post post.id v) selected) (erase_votes (votes_of ctx post.id v d) d)

pub options-vote_for :
    (post : PostModel) (post_id : ℕ) (v : String) (selected : List ℕ)
    → map (λ w. w.id_post_poll) (map (vote_for post post_id v) selected) ≡ selected
options-vote_for post post_id v [] = refl
options-vote_for post post_id v (i ∷ is) = ap (◌∷◌ i) (options-vote_for post post_id v is)

-- what the new rows refer to
module _ (d : Db) (post : PostModel) (v : String) (selected : List ℕ) where
  pub vote_for-post :
      In post d.posts
      → (w : PostPollVoteModel) → In w (map (vote_for post post.id v) selected)
      → (p : PostModel) × In p d.posts × (p.id ≡ w.id_post) × (p.id_community ≡ w.id_community)
  vote_for-post there w m =
      let (i, _, e) = In-map_inv (vote_for post post.id v) selected w m in
      (post, there, ground (arith, e), ground (arith, e))

  pub vote_for-option :
      ((i : ℕ) → In i selected → IsOptionOf post.id d i)
      → (w : PostPollVoteModel) → In w (map (vote_for post post.id v) selected)
      → (o : PostPollModel) × In o d.options × (o.id ≡ w.id_post_poll) × (o.id_post ≡ w.id_post)
  vote_for-option valid w m =
      let (i, mi, e) = In-map_inv (vote_for post post.id v) selected w m in
      let (o, mo, eo, po) = valid i mi in (o, mo, ground (arith, e, eo), ground (arith, e, po))

-- rows among which are all that the voter has on the post
abbrev pub Covers : ℕ → String → Db → List PostPollVoteModel → Type 0
Covers p v d rows = (w : PostPollVoteModel) → In w d.votes → holds p v w ≡ true → In w rows

module _ (d : Db) (c : IsKeyed d) (post : PostModel) (there : In post d.posts) (v : String)
    (existing : List PostPollVoteModel) (covers : Covers post.id v d existing) where
  -- After the erasure no row has an option of the post and the voter.
  no_clash :
      (i : ℕ)
      → IsOptionOf post.id d i
      → (w : PostPollVoteModel) → In w (filter (spared existing) d.votes)
      → clashes (vote_for post post.id v i) w ≡ false
  no_clash i (o, mo, eo, po) w m = elim (Bool-cases (clashes (vote_for post post.id v i) w)) [
    | inr free ↦ free
    | inl hit ↦
        let (mw, kept) = In-filter (spared existing) w d.votes m in
        let (q, mq, eq, pq) = c.vote_option w mw in
        let same : o ≡ q = c.option_unique o q mo mq (ground (arith, eo, eq, hit)) in
        let own : holds post.id v w ≡ true = ground (arith, same, hit, po, pq) in
        ground (arith, kept, In-any (λ x. w.id == x.id) existing w (covers w mw own) (==_refl w.id))
  ]

  -- Once the voter's rows are erased, options of the post are all inserted.
  pub insert_votes-erase_votes :
      (selected : List ℕ)
      → ((i : ℕ) → In i selected → IsOptionOf post.id d i)
      → Nodup selected
      → insert_votes (map (vote_for post post.id v) selected) (erase_votes existing d)
        ≡ some (with_votes (map (vote_for post post.id v) selected) (erase_votes existing d))
  insert_votes-erase_votes selected valid distinct =
      insert_votes_total (map (vote_for post post.id v) selected) (erase_votes existing d)
        (λ x m. rw erase_votes-eq-filter (refers_to x m))
        (λ x m. rw erase_votes-eq-filter (free x m)) (rw options-vote_for distinct)
    where
      refers_to :
          (x : PostPollVoteModel) → In x (map (vote_for post post.id v) selected) → Refers x d
      refers_to x m =
          let (i, mi, e) = In-map_inv (vote_for post post.id v) selected x m in
          let (o, mo, eo, po) = valid i mi in
          rw e (
            In-any (λ (p : PostModel). p.id == post.id) d.posts post there (==_refl post.id),
            In-any (λ (o : PostPollModel). o.id == i) d.options o mo (ground arith),
          )

      free :
          (x : PostPollVoteModel)
          → In x (map (vote_for post post.id v) selected)
          → any (clashes x) (filter (spared existing) d.votes) ≡ false
      free x m =
          let (i, mi, e) = In-map_inv (vote_for post post.id v) selected x m in
          rw e (
            any_none (clashes (vote_for post post.id v i)) (filter (spared existing) d.votes)
              (no_clash i (valid i mi)))

-- The swap of the rows that the request reads.
pub insert-swapped :
    (ctx : Context) (d : Db) (c : IsKeyed d) (post : PostModel) (there : In post d.posts)
    (scoped : in_scope ctx.internal_community_id post.id_community ≡ true) (v : String)
    (selected : List ℕ)
    → ((i : ℕ) → In i selected → IsOptionOf post.id d i)
    → Nodup selected
    → insert_votes
        (map (vote_for post post.id v) selected)
        (erase_votes (votes_of ctx post.id v d) d)
      ≡ some (swapped ctx post v selected d)
insert-swapped ctx d c post there scoped v selected valid distinct =
    insert_votes-erase_votes d c post there v (votes_of ctx post.id v d)
      (λ w m h. In-votes_of ctx d post v w c there scoped m h) selected valid distinct
