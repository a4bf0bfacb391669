-- ===== src/Local/Ballots.antt =====
-- What a voter holds on a post, and how the vote queries of api/news/repository.py change it.
use mathlib.Core.List.{append_assoc, append-nil, map-append}
use news_board.Prelude.{
  ℕ, suc, ◌+◌, String, ◌≡◌, refl, ap, ◌∙◌, inl, inr, Bool, true, false, not, ◌&&◌, some, List, [],
  ◌∷◌, ◌++◌, map, ◌==◌, ==_iff, str_eq, filter, any, length, In, In-filter, In-any, any-In,
  filter-append, filter-filter, filter_all, filter_none, filter_congr, arith, Bool-cases, ==_refl,
}
use news_board.Local.{PostPollVoteModel, Db}
use news_board.Local.Repository.{insert_vote, insert_votes, accepts_vote, erase_votes}

abbrev pub holds : ℕ → String → PostPollVoteModel → Bool
holds p v w = w.id_post == p && str_eq w.voter_id v

-- The options that `v` has chosen on the post `p`, in the order of insertion.
abbrev pub ballot : ℕ → String → Db → List ℕ
ballot p v d = map (λ w. w.id_post_poll) (filter (holds p v) d.votes)

-- the rows as the identity column numbers them
abbrev pub number : ℕ → List PostPollVoteModel → List PostPollVoteModel
number n [] = []
number n (v ∷ vs) = record v { id = n } ∷ number (suc n) vs

abbrev pub with_votes : List PostPollVoteModel → Db → Db
with_votes vs d = record d {
  votes = d.votes ++ number d.next_vote vs;
  next_vote = d.next_vote + length vs;
}

pub insert_votes-eq-with_votes :
    (vs : List PostPollVoteModel) (d e : Db) → insert_votes vs d ≡ some e → e ≡ with_votes vs d
unfolding insert_votes
insert_votes-eq-with_votes [] d e h = ground (arith, append-nil d.votes)
insert_votes-eq-with_votes (v ∷ vs) d e h = elim (Bool-cases (accepts_vote v d)) [
  | inl fits ↦ ground (
    arith,
    insert_votes-eq-with_votes vs (insert_vote v d) e,
    append_assoc d.votes (record v { id = d.next_vote } ∷ []) (number (suc d.next_vote) vs),
  )
  | inr refused ↦ ground arith
]

-- the rows whose primary key is none of `vs`
abbrev pub spared : List PostPollVoteModel → PostPollVoteModel → Bool
spared vs w = not (any (λ v. w.id == v.id) vs)

pub erase_votes-eq-filter :
    (vs : List PostPollVoteModel) (d : Db)
    → erase_votes vs d ≡ record d { votes = filter (spared vs) d.votes }
unfolding erase_votes
erase_votes-eq-filter [] d = ground (arith, filter_all (spared []) d.votes (λ w m. refl))
erase_votes-eq-filter (v ∷ vs) d =
    let first = λ (w : PostPollVoteModel). not (w.id == v.id) in
    ground (
      arith,
      erase_votes-eq-filter vs (record d { votes = filter first d.votes }),
      filter-filter (spared vs) first d.votes,
      filter_congr (λ w. first w && spared vs w) (spared (v ∷ vs)) d.votes (λ w m. ground arith),
    )

module _ (p : ℕ) (v : String) (vs : List PostPollVoteModel) (d : Db) where
  holds_erased :
      ((w : PostPollVoteModel) → In w d.votes → holds p v w ≡ true → In w vs)
      → (w : PostPollVoteModel) → In w (filter (spared vs) d.votes)
      → holds p v w ≡ false
  holds_erased covered w m =
      let (there, kept) = In-filter (spared vs) w d.votes m in
      elim (Bool-cases (holds p v w)) [
        | inl own ↦
            ground
              (arith, kept, In-any (λ x. w.id == x.id) vs w (covered w there own) (==_refl w.id))
        | inr other ↦ other
      ]

  -- Erasing every row that a voter has on a post empties the ballot.
  pub ballot-erase_votes_all :
      ((w : PostPollVoteModel) → In w d.votes → holds p v w ≡ true → In w vs)
      → ballot p v (erase_votes vs d) ≡ []
  ballot-erase_votes_all covered = rw (
    erase_votes-eq-filter,
    filter_none (holds p v) (filter (spared vs) d.votes) (holds_erased covered),
  )

  held_still :
      ((w x : PostPollVoteModel) → In w d.votes → In x vs → w.id ≡ x.id → holds p v w ≡ false)
      → (w : PostPollVoteModel) → In w d.votes
      → (spared vs w && holds p v w) ≡ holds p v w
  held_still apart w m = elim (Bool-cases (any (λ x. w.id == x.id) vs)) [
    | inl hit ↦
        let (x, mx, e) = any-In (λ x. w.id == x.id) vs hit in
        ground (arith, apart w x m mx ((==_iff w.id x.id).0 e))
    | inr miss ↦ ground arith
  ]

  -- Erasing rows of others leaves the ballot as it was.
  pub ballot-erase_votes_none :
      ((w x : PostPollVoteModel) → In w d.votes → In x vs → w.id ≡ x.id → holds p v w ≡ false)
      → ballot p v (erase_votes vs d) ≡ ballot p v d
  ballot-erase_votes_none apart = rw erase_votes-eq-filter (
      ap (map (λ w. w.id_post_poll)) (
        filter-filter (holds p v) (spared vs) d.votes
        ∙ filter_congr (λ w. spared vs w && holds p v w) (holds p v) d.votes (held_still apart)))

module _ (p : ℕ) (v : String) where
  options_numbered :
      (n : ℕ) (vs : List PostPollVoteModel)
      → ((w : PostPollVoteModel) → In w vs → holds p v w ≡ true)
      → map (λ w. w.id_post_poll) (filter (holds p v) (number n vs)) ≡ map (λ w. w.id_post_poll) vs
  options_numbered n [] h = refl
  options_numbered n (w ∷ vs) h =
      ground (arith, h w (inl refl), options_numbered (suc n) vs (λ x m. h x (inr m)))

  others_numbered :
      (n : ℕ) (vs : List PostPollVoteModel)
      → ((w : PostPollVoteModel) → In w vs → holds p v w ≡ false)
      → filter (holds p v) (number n vs) ≡ []
  others_numbered n [] h = refl
  others_numbered n (w ∷ vs) h =
      ground (arith, h w (inl refl), others_numbered (suc n) vs (λ x m. h x (inr m)))

  pub ballot-with_votes_own :
      (vs : List PostPollVoteModel) (d : Db)
      → ((w : PostPollVoteModel) → In w vs → holds p v w ≡ true)
      → ballot p v (with_votes vs d) ≡ ballot p v d ++ map (λ w. w.id_post_poll) vs
  ballot-with_votes_own vs d h =
      rw (filter-append, map-append) (ap (◌++◌ (ballot p v d)) (options_numbered d.next_vote vs h))

  pub ballot-with_votes_other :
      (vs : List PostPollVoteModel) (d : Db)
      → ((w : PostPollVoteModel) → In w vs → holds p v w ≡ false)
      → ballot p v (with_votes vs d) ≡ ballot p v d
  ballot-with_votes_other vs d h =
      ap (map (λ w. w.id_post_poll))
        (rw (filter-append, others_numbered d.next_vote vs h) (append-nil _))
