-- ===== src/Local/Lookup.antt =====
-- What the lookups of api/news/repository.py find in a consistent database.
use news_board.Prelude.{
  refl, inl, inr, ◌∷◌, Option-cases, ℕ, String, ◌≡◌, true, some, List, [], ◌∷◌, ◌==◌, ==_iff,
  filter, In, In-filter, In-filter_intro, find-In, find_unique, arith, ◌↔◌,
}
use news_board.Context.{Context}
use news_board.Exec.{ok}
use news_board.Local.{PostModel, PostPollModel, PostPollVoteModel, Db, LocalSession}
use news_board.Local.Repository.{
  in_scope, with_community_scope, find_post, votes_of, select_options, insert_sorted, sort_options,
  get_post_with_options, lookup_loaded,
}
use news_board.Local.Ballots.{holds}
use news_board.Local.Consistency.{IsKeyed}

module _ (ctx : Context) (d : Db) where
  -- A post that is found is a row of the request's community.
  pub find_post-In :
      (i : ℕ) (p : PostModel)
      → find_post ctx i d ≡ some p
      → In p d.posts × (p.id ≡ i) × (in_scope ctx.internal_community_id p.id_community ≡ true)
  unfolding find_post
  find_post-In i p h =
      let scoped = with_community_scope ctx (λ (p : PostModel). p.id_community) d.posts in
      let (m, e) = find-In (λ (p : PostModel). p.id == i) scoped p h in
      let (there, here) =
        In-filter (λ (p : PostModel). in_scope ctx.internal_community_id p.id_community) p d.posts
          m in
      (there, (==_iff p.id i).0 e, here)

  -- A row of the request's community is found by its id.
  pub find_post-some :
      (p : PostModel)
      → IsKeyed d
      → In p d.posts
      → in_scope ctx.internal_community_id p.id_community ≡ true
      → find_post ctx p.id d ≡ some p
  unfolding find_post
  find_post-some p c m h =
      find_unique (λ (q : PostModel). q.id == p.id)
        (with_community_scope ctx (λ (p : PostModel). p.id_community) d.posts) p
        (In-filter_intro (λ (p : PostModel). in_scope ctx.internal_community_id p.id_community) p
          d.posts m h)
        (ground arith)
        (λ q n e.
          c.post_unique q p
            (In-filter (λ (p : PostModel). in_scope ctx.internal_community_id p.id_community) q
              d.posts n).0
            m ((==_iff q.id p.id).0 e))

  pub votes_of-In :
      (i : ℕ) (v : String) (w : PostPollVoteModel)
      → In w (votes_of ctx i v d)
      → In w d.votes × (holds i v w ≡ true)
  unfolding votes_of
  votes_of-In i v w m =
      let (n, h) =
        In-filter (holds i v) w
          (with_community_scope ctx (λ (w : PostPollVoteModel). w.id_community) d.votes) m in
      (
        (In-filter (λ (w : PostPollVoteModel). in_scope ctx.internal_community_id w.id_community) w
            d.votes n).0,
        h,
      )

  -- In a consistent database the community scope hides no vote on a post of the community.
  pub In-votes_of :
      (p : PostModel) (v : String) (w : PostPollVoteModel)
      → IsKeyed d
      → In p d.posts
      → in_scope ctx.internal_community_id p.id_community ≡ true
      → In w d.votes
      → holds p.id v w ≡ true
      → In w (votes_of ctx p.id v d)
  unfolding votes_of
  In-votes_of p v w c m h n e =
      let (q, there, id, community) = c.vote_post w n in
      let same : q ≡ p = c.post_unique q p there m (ground arith) in
      In-filter_intro (holds p.id v) w
        (with_community_scope ctx (λ (w : PostPollVoteModel). w.id_community) d.votes)
        (In-filter_intro
          (λ (w : PostPollVoteModel). in_scope ctx.internal_community_id w.id_community) w d.votes n
          (ground arith))
        e

In-insert_sorted :
    (o q : PostPollModel) (os : List PostPollModel) → In q (insert_sorted o os) ↔ In q (o ∷ os)
In-insert_sorted o q [] = (λ m. m, λ m. m)
In-insert_sorted o q (x ∷ os) =
    let ih = In-insert_sorted o q os in (ground (arith, ih), ground (arith, ih))

In-sort_options : (q : PostPollModel) (os : List PostPollModel) → In q (sort_options os) ↔ In q os
In-sort_options q [] = (λ m. m, λ m. m)
In-sort_options q (o ∷ os) =
    let ih = In-sort_options q os in
    let step = In-insert_sorted o q (sort_options os) in
    (ground (arith, ih, step), ground (arith, ih, step))

-- The options of a post are the rows that refer to it.
pub In-select_options :
    (i : ℕ) (d : Db) (o : PostPollModel)
    → In o (select_options i d) ↔ (In o d.options × ((o.id_post == i) ≡ true))
unfolding select_options
In-select_options i d o =
    let sorted = In-sort_options o (filter (λ (o : PostPollModel). o.id_post == i) d.options) in
    (
      λ m. In-filter (λ (o : PostPollModel). o.id_post == i) o d.options (sorted.0 m),
      λ (m, e). sorted.1 (In-filter_intro (λ (o : PostPollModel). o.id_post == i) o d.options m e),
    )

-- A post that is found comes with a list of options, and its lookup changes no row.
pub get_post_with_options-found :
    (ctx : Context) (i : ℕ) (s : LocalSession) (p : PostModel)
    → find_post ctx i s.work ≡ some p
    → (os : List PostPollModel) × (t : LocalSession) × (get_post_with_options ctx i s
        ≡ (ok (some (p, os)), t))
      × (t.work ≡ s.work)
      × (t.saved ≡ s.saved)
unfolding get_post_with_options
get_post_with_options-found ctx i s p h = elim (Option-cases (lookup_loaded p.id s.loaded)) [
  | inl fresh ↦
      let rows = select_options p.id s.work in
      (rows, record s { loaded = (p.id, rows) ∷ s.loaded }, ground arith, refl, refl)
  | inr (os, cached) ↦ (os, s, ground arith, refl, refl)
]
