-- ===== src/News/Votes/Consistent.antt =====
-- A vote keeps the database consistent.
use news_board.Prelude.{
  ℕ, String, ◌≡◌, ◌≢◌, ◌⊎◌, inl, inr, true, false, some, List, map, length, In, arith, ◌==◌, ==_iff,
  str_eq, eq_iff, Bool-cases,
}
use news_board.Prelude.Keys.{In-fromkeys, nat_key, fromkeys, fromkeys-Nodup}
use news_board.Context.{Context}
use news_board.Const.{PostType, is_poll, post_type_of_int}
use news_board.Crm.{CrmSession}
use news_board.Realtime.{Broker}
use news_board.Local.{PostModel, Db}
use news_board.Local.Repository.{in_scope, votes_of, erase_votes}
use news_board.Local.Ballots.{spared, erase_votes-eq-filter}
use news_board.Local.Consistency.{IsKeyed, IsConsistent}
use news_board.Local.Removed.{filter_votes-IsKeyed}
use news_board.Local.Added.{with_votes-IsKeyed}
use news_board.World.{request}
use news_board.News.{poll_ended, current_voter}
use news_board.News.Votes.{is_single, cast_vote, vote_for}
use news_board.News.Votes.Swap.{IsOptionOf, swapped, vote_for-post, vote_for-option}
use news_board.News.Votes.Recorded.{ballot-swapped_own, ballot-swapped_other, cast_vote-swapped}

module _ (ctx : Context) (d : Db) (post : PostModel) (t : PostType) (v : String) (ids : List ℕ)
    (c : IsConsistent d) (there : In post d.posts)
    (scoped : in_scope ctx.internal_community_id post.id_community ≡ true)
    (typed : post_type_of_int post.type ≡ some t) (poll : is_poll t ≡ true)
    (valid : (i : ℕ) → In i ids → IsOptionOf post.id d i)
    (one : is_single t ≡ true → length (fromkeys ids) ≡ 1) where
  own_or_other : (q : ℕ) (u : String) → ((q ≡ post.id) × (u ≡ v)) ⊎ ((q ≢ post.id) ⊎ (u ≢ v))
  own_or_other q u = elim (Bool-cases (q == post.id)) [
    | inl same ↦ elim (Bool-cases (str_eq u v)) [
      | inl own ↦ inl ((==_iff q post.id).0 same, (eq_iff u v).0 own)
      | inr other ↦ inr (inr (λ e. ground (arith, eq_iff u v)))
    ]
    | inr other ↦ inr (inl (λ e. ground (arith, ==_iff q post.id)))
  ]

  swapped-IsConsistent : IsConsistent (swapped ctx post v (fromkeys ids) d)
  swapped-IsConsistent =
      let existing = votes_of ctx post.id v d in
      let rest : IsKeyed (erase_votes existing d) =
        rw (erase_votes-eq-filter existing d) (filter_votes-IsKeyed d (spared existing) c.keyed) in
      record {
        keyed =
            with_votes-IsKeyed (erase_votes existing d) rest
              (map (vote_for post post.id v) (fromkeys ids))
              (rw (erase_votes-eq-filter existing d) (vote_for-post d post v (fromkeys ids) there))
              (rw (erase_votes-eq-filter existing d)
                (vote_for-option d post v (fromkeys ids) (λ i m. valid i (In-fromkeys ids i m))))
              (λ q u. elim (own_or_other q u) [
                | inl (p, w) ↦
                    rw (p, w, ballot-swapped_own ctx d c.keyed post there scoped v (fromkeys ids))
                      (fromkeys-Nodup ids)
                | inr apart ↦
                    rw
                      (ballot-swapped_other ctx d c.keyed post there scoped v (fromkeys ids) q u
                        apart)
                      (c.vote_once q u)
              ]);
        vote_single = λ p m single u. elim (own_or_other p.id u) [
          | inl (e, w) ↦
              let same : p ≡ post =
                c.post_unique p post (rw (erase_votes-eq-filter existing d) at m) there e in
              let kind : is_single t ≡ true = ground (arith, same, single, typed, poll) in
              rw (e, w, ballot-swapped_own ctx d c.keyed post there scoped v (fromkeys ids))
                (ground (arith, one kind))
          | inr apart ↦
              rw
                (ballot-swapped_other ctx d c.keyed post there scoped v (fromkeys ids) p.id u apart)
                (c.vote_single p (rw (erase_votes-eq-filter existing d) at m) single u)
        ];
      }

-- In a consistent database, a vote of a signed-in caller on a running poll of the request's
-- community, for options of that poll (exactly one distinct option if the poll is single-choice),
-- leaves a consistent database: keys and references hold, no voter has an option twice, and none
-- has two options of a single-choice poll.
pub cast_vote-IsConsistent :
    (ctx : Context) (d : Db) (crm : CrmSession) (broker : Broker) (post : PostModel) (t : PostType)
    (v : String) (ids : List ℕ)
    → IsConsistent d
    → In post d.posts
    → in_scope ctx.internal_community_id post.id_community ≡ true
    → post_type_of_int post.type ≡ some t
    → is_poll t ≡ true
    → poll_ended ctx post ≡ false
    → current_voter ctx ≡ some v
    → ((i : ℕ) → In i ids → IsOptionOf post.id d i)
    → (is_single t ≡ true → length (fromkeys ids) ≡ 1)
    → IsConsistent (cast_vote ctx post.id ids (request d crm broker)).1.local.saved
cast_vote-IsConsistent ctx d crm broker post t v ids c there scoped typed poll running voter valid
      one =
    let (_, state) =
      cast_vote-swapped ctx d crm broker post t v ids c there scoped typed poll running voter valid
        one in
    rw state (swapped-IsConsistent ctx d post t v ids c there scoped typed poll valid one)
