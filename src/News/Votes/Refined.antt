-- ===== src/News/Votes/Refined.antt =====
-- The vote operations against their specification: a box of ballots, one for each voter and post.
use news_board.Prelude.{
  ℕ, String, ◌≡◌, refl, ◌≢◌, ◌⊎◌, inl, inr, true, false, Option, some, none, List, [], ◌∷◌, All,
  length, In, arith, ◌==◌, ==_iff, str_eq, eq_iff, ◌&&◌, if◌then◌else◌, ◌∙◌, ap, Bool-cases, All-In,
  All-map,
}
use news_board.Prelude.Keys.{fromkeys, nat_key}
use news_board.Context.{Context}
use news_board.Const.{PostType, is_poll, post_type_of_int}
use news_board.Crm.{CrmSession}
use news_board.Realtime.{Broker}
use news_board.Local.{PostModel, Db}
use news_board.Local.Repository.{in_scope}
use news_board.Local.Ballots.{ballot, erase_votes-eq-filter}
use news_board.Local.Consistency.{IsConsistent}
use news_board.World.{request}
use news_board.News.{poll_ended, current_voter}
use news_board.News.Votes.{is_single, cast_vote, retract_vote}
use news_board.News.Votes.Swap.{IsOptionOf}
use news_board.News.Votes.Recorded.{cast_vote-swapped, cast_vote_records, cast_vote_keeps_others}
use news_board.News.Votes.Consistent.{cast_vote-IsConsistent}
use news_board.News.Votes.Retracted.{
  retract_vote-erased, retract_vote_clears, retract_vote_keeps_others,
}

-- ---- the specification

abbrev pub Box : Type 0
Box = ℕ → String → List ℕ

-- the ballot of `v` on `p` is replaced, and no other changes
abbrev pub put_ballot : ℕ → String → List ℕ → Box → Box
put_ballot p v selected box q u = if q == p && str_eq u v then selected else box q u

-- ---- the requests: who asks, on which poll, and the options, or none for a retraction

pub record Ballot : Type 0 where
  pub ctx : Context
  pub voter : String
  pub post : PostModel
  pub type : PostType
  pub option_ids : Option (List ℕ)
  pub crm : CrmSession
  pub broker : Broker

abbrev handle_with : ℕ → Ballot → Option (List ℕ) → Db → Db
handle_with i b none d = (retract_vote b.ctx i (request d b.crm b.broker)).1.local.saved
handle_with i b (some ids) d = (cast_vote b.ctx i ids (request d b.crm b.broker)).1.local.saved

-- what the requests commit, one after the other
unfoldable pub handle_all : List Ballot → Db → Db
handle_all [] d = d
handle_all (b ∷ bs) d = handle_all bs (handle_with b.post.id b b.option_ids d)

abbrev chosen : Option (List ℕ) → List ℕ
chosen none = []
chosen (some ids) = fromkeys ids

unfoldable pub put_all : List Ballot → Box → Box
put_all [] box = box
put_all (b ∷ bs) box = put_all bs (put_ballot b.post.id b.voter (chosen b.option_ids) box)

abbrev IdsAllowed : PostModel → PostType → Db → Option (List ℕ) → Type 0
IdsAllowed post t d none = Unit
IdsAllowed post t d (some ids) =
    All (IsOptionOf post.id d) ids × ((is_single t ≡ false) ⊎ (length (fromkeys ids) ≡ 1))

-- a signed-in caller of the post's community, a poll before its end, and options of that poll
abbrev pub IsAllowed : Db → Ballot → Type 0
IsAllowed d b =
    In b.post d.posts
    × (post_type_of_int b.post.type ≡ some b.type)
    × (is_poll b.type ≡ true)
    × (in_scope b.ctx.internal_community_id b.post.id_community ≡ true)
    × (poll_ended b.ctx b.post ≡ false)
    × (current_voter b.ctx ≡ some b.voter)
    × IdsAllowed b.post b.type d b.option_ids

-- ---- one request

module _ (post : PostModel) (t : PostType) (typed : post_type_of_int post.type ≡ some t)
    (poll : is_poll t ≡ true) where
  -- what one request leaves: consistency, the posts and the options, and the ballots of the box
  abbrev Handled : String → Option (List ℕ) → Db → Db → Type 0
  Handled v asked d e =
      IsConsistent e
      × (e.posts ≡ d.posts)
      × (e.options ≡ d.options)
      × ((q : ℕ) (u : String)
          → ballot q u e ≡ put_ballot post.id v (chosen asked) (λ p w. ballot p w d) q u)

  apart : (q : ℕ) (u v : String) → (q == post.id && str_eq u v) ≡ false → (q ≢ post.id) ⊎ (u ≢ v)
  apart q u v h = elim (Bool-cases (q == post.id)) [
    | inl same ↦ inr (λ e. ground (arith, eq_iff u v))
    | inr other ↦ inl (λ e. ground (arith, ==_iff q post.id))
  ]

  -- a box that differs from the ballots of `d` by one entry
  put-ballot :
      (v : String) (selected : List ℕ) (d e : Db)
      → ballot post.id v e ≡ selected
      → ((q : ℕ) (u : String) → (q ≢ post.id) ⊎ (u ≢ v) → ballot q u e ≡ ballot q u d)
      → (q : ℕ) (u : String)
      → ballot q u e ≡ put_ballot post.id v selected (λ p w. ballot p w d) q u
  put-ballot v selected d e own others q u = elim (Bool-cases (q == post.id && str_eq u v)) [
    | inl same ↦ ground (arith, own, ==_iff q post.id, eq_iff u v)
    | inr other ↦ rw other (others q u (apart q u v other))
  ]

  handle_with-Handled :
      (b : Ballot) (asked : Option (List ℕ)) (d : Db)
      → IsConsistent d
      → In post d.posts
      → in_scope b.ctx.internal_community_id post.id_community ≡ true
      → poll_ended b.ctx post ≡ false
      → current_voter b.ctx ≡ some b.voter
      → IdsAllowed post t d asked
      → Handled b.voter asked d (handle_with post.id b asked d)
  handle_with-Handled b none d c there scoped running voter _ =
      let (_, state) =
        retract_vote-erased b.ctx d b.crm b.broker post t b.voter c there scoped typed poll running
          voter in
      let (_, own, still) =
        retract_vote_clears b.ctx d b.crm b.broker post t b.voter c there scoped typed poll running
          voter in
      (
        still,
        rw (state, erase_votes-eq-filter) refl,
        rw (state, erase_votes-eq-filter) refl,
        put-ballot b.voter [] d (handle_with post.id b none d) own (
            retract_vote_keeps_others b.ctx d b.crm b.broker post t b.voter c there scoped typed
              poll running voter),
      )
  handle_with-Handled b (some ids) d c there scoped running voter (options, one) =
      let valid = λ (i : ℕ) (m : In i ids). All-In (IsOptionOf post.id d) ids options i m in
      let single : is_single t ≡ true → length (fromkeys ids) ≡ 1 = λ s. ground arith in
      let (_, state) =
        cast_vote-swapped b.ctx d b.crm b.broker post t b.voter ids c there scoped typed poll
          running voter valid single in
      let (_, own) =
        cast_vote_records b.ctx d b.crm b.broker post t b.voter ids c there scoped typed poll
          running voter valid single in
      (
        cast_vote-IsConsistent b.ctx d b.crm b.broker post t b.voter ids c there scoped typed poll
            running voter valid single,
        rw (state, erase_votes-eq-filter) refl,
        rw (state, erase_votes-eq-filter) refl,
        put-ballot b.voter (fromkeys ids) d (handle_with post.id b (some ids) d) own (
            cast_vote_keeps_others b.ctx d b.crm b.broker post t b.voter ids c there scoped typed
              poll running voter valid single),
      )

-- ---- the refinement

-- the requests look at posts and options only, which no request changes
IdsAllowed-still :
    (post : PostModel) (t : PostType) (asked : Option (List ℕ)) (d e : Db)
    → e.options ≡ d.options
    → IdsAllowed post t d asked
    → IdsAllowed post t e asked
IdsAllowed-still post t none d e options h = h
IdsAllowed-still post t (some ids) d e options (valid, one) = (
  All-map (IsOptionOf post.id d) (IsOptionOf post.id e) (λ i (o, m, r, p). (o, rw options m, r, p))
      ids valid,
  one,
)

IsAllowed-still :
    (d e : Db)
    → e.posts ≡ d.posts
    → e.options ≡ d.options
    → (b : Ballot) → IsAllowed d b
    → IsAllowed e b
IsAllowed-still d e posts options b (there, typed, poll, scoped, running, voter, ids) = (
  rw posts there,
  typed,
  poll,
  scoped,
  running,
  voter,
  IdsAllowed-still b.post b.type b.option_ids d e options ids,
)

pub put_ballot-same :
    (p : ℕ) (v : String) (selected : List ℕ) (a box : Box)
    → ((q : ℕ) (u : String) → a q u ≡ box q u)
    → (q : ℕ) (u : String) → put_ballot p v selected a q u ≡ put_ballot p v selected box q u
put_ballot-same p v selected a box same q u =
    ap (λ old. if q == p && str_eq u v then selected else old) (same q u)

-- The vote operations refine a box of ballots. From a consistent database whose ballots are those
-- of a box, take any list of votes and retractions, each on a stored poll by a signed-in caller
-- of the poll's community before the end, a vote with options of that poll (exactly one distinct
-- option if the poll is single-choice). The ballots that they leave are those of the box after
-- each request has replaced one entry: the caller's ballot on that poll, by the distinct options
-- of the vote in their order, or by none for a retraction.
pub handle_all-put_all :
    (bs : List Ballot) (d : Db) (box : Box)
    → IsConsistent d
    → All (IsAllowed d) bs
    → ((q : ℕ) (u : String) → ballot q u d ≡ box q u)
    → (q : ℕ) (u : String) → ballot q u (handle_all bs d) ≡ put_all bs box q u
unfolding handle_all put_all
handle_all-put_all [] d box c _ same q u = same q u
handle_all-put_all (b ∷ bs) d box c ((there, typed, poll, scoped, running, voter, ids), rest) same q
      u =
    let e = handle_with b.post.id b b.option_ids d in
    let selected = chosen b.option_ids in
    let (still, posts, options, step) =
      handle_with-Handled b.post b.type typed poll b b.option_ids d c there scoped running voter
        ids in
    handle_all-put_all bs e (put_ballot b.post.id b.voter selected box) still
      (All-map (IsAllowed d) (IsAllowed e) (IsAllowed-still d e posts options) bs rest)
      (λ p w.
        step p w ∙ put_ballot-same b.post.id b.voter selected (λ r x. ballot r x d) box same p w)
      q u
