-- ===== src/News/Results/Disclosure.antt =====
-- What an answer of `get_results` discloses, and to whom.
use news_board.Prelude.{
  ℕ, ◌≡◌, refl, ◌⊎◌, inl, inr, Bool, true, false, ◌||◌, Option, none, some, List, [], ◌∷◌, map, any,
  is_some, String, arith, Bool-cases,
}
use news_board.Context.{Context}
use news_board.Exec.{ok, Result-cases}
use news_board.Local.{PostModel, PostPollModel}
use news_board.Local.Repository.{find_post, poll_votes, get_votes_for_post}
use news_board.Local.Lookup.{get_post_with_options-found}
use news_board.World.{World}
use news_board.News.{poll_ended}
use news_board.News.Schemas.{ResultsMode, PollResults, OptionTally}
use news_board.News.Results.{
  get_results, is_privileged, resolve_results_visibility, voted, tally, present,
}
use news_board.News.Results.Visibility.{IsTime, resolve_results_visibility_matrix}

-- some option of the answer comes with the identities of its voters
abbrev pub discloses_identities : PollResults → Bool
discloses_identities r = elim r.options [
  | none ↦ false
  | some l ↦ any (λ (t : OptionTally). is_some t.voters) l
]

-- the answer has counts or a number of voters
abbrev pub discloses_counts : PollResults → Bool
discloses_counts r = is_some r.options || is_some r.total_voters

aggregate_hides :
    (emails : List (String × String)) (votes : List (ℕ × String)) (options : List PostPollModel)
    → any
        (λ (t : OptionTally). is_some t.voters)
        (map (tally ResultsMode.aggregate emails votes) options)
      ≡ false
unfolding tally
aggregate_hides emails votes [] = refl
aggregate_hides emails votes (o ∷ os) = aggregate_hides emails votes os

-- An answer discloses only what the visibility allows.
present_identities :
    (post_id : ℕ) (ended : Bool) (votes : List (ℕ × String)) (options : List PostPollModel)
    (answer : Bool × Option ResultsMode) (w : World) (r : PollResults)
    → (present post_id ended votes options answer w).0 ≡ ok r
    → discloses_identities r ≡ true
    → answer ≡ (true, some ResultsMode.full)
unfolding present
present_identities post_id ended votes options (true, some ResultsMode.full) w r h p = refl
present_identities post_id ended votes options (true, some ResultsMode.aggregate) w r h p =
    ground (arith, aggregate_hides [] votes options)
present_identities post_id ended votes options _ w r h p = ground arith

present_counts :
    (post_id : ℕ) (ended : Bool) (votes : List (ℕ × String)) (options : List PostPollModel)
    (answer : Bool × Option ResultsMode) (w : World) (r : PollResults)
    → (present post_id ended votes options answer w).0 ≡ ok r
    → discloses_counts r ≡ true
    → (answer ≡ (true, some ResultsMode.full)) ⊎ (answer ≡ (true, some ResultsMode.aggregate))
unfolding present
present_counts post_id ended votes options (true, some ResultsMode.full) w r h p = inl refl
present_counts post_id ended votes options (true, some ResultsMode.aggregate) w r h p = inr refl
present_counts post_id ended votes options _ w r h p = ground arith

module _ (ctx : Context) (post_id : ℕ) (w : World) (r : PollResults) (post : PostModel)
    (answered : (get_results ctx post_id w).0 ≡ ok r)
    (found : find_post ctx post_id w.local.work ≡ some post) where
  -- the answer stems from `present` and a visibility that was resolved
  answer_from :
      (options : List PostPollModel) × (answer : Bool × Option ResultsMode) × (w' : World)
      × ((present post_id
            (poll_ended ctx post)
            (poll_votes ctx post_id w.local.work)
            options
            answer
            w').0
          ≡ ok r)
      × (resolve_results_visibility post
            (is_privileged ctx)
            (voted ctx.user_id (poll_votes ctx post_id w.local.work))
            (poll_ended ctx post)
          ≡ ok answer)
  unfolding get_results get_votes_for_post
  answer_from =
      let (os, t, loaded, same, _) = get_post_with_options-found ctx post_id w.local post found in
      elim (Result-cases (
        resolve_results_visibility post (is_privileged ctx)
          (voted ctx.user_id (poll_votes ctx post_id w.local.work)) (poll_ended ctx post))) [
            | inl (answer, e) ↦
                (os, answer, record w { local = t }, ground (arith, loaded, e, same), e)
            | inr (x, e) ↦ absurd (ground (arith, loaded, e, same))
          ]

  -- For a post that the request finds, an answer of get_results that names voters is given only
  -- to a manager or admin under admin_visibility 1, or to anybody else under member_visibility
  -- 2 at a time that member_display allows.
  pub get_results_identities :
      discloses_identities r ≡ true
      → ((is_privileged ctx ≡ true) × (post.admin_visibility ≡ some 1))
        ⊎ ((is_privileged ctx ≡ false)
            × (post.member_visibility ≡ some 2)
            × IsTime post
                (voted ctx.user_id (poll_votes ctx post_id w.local.work))
                (poll_ended ctx post))
  get_results_identities h =
      let (os, answer, w', shown, e) = answer_from in
      let hv = voted ctx.user_id (poll_votes ctx post_id w.local.work) in
      let full =
        present_identities post_id (poll_ended ctx post) (poll_votes ctx post_id w.local.work) os
          answer w' r shown h in
      let matrix = resolve_results_visibility_matrix post hv (poll_ended ctx post) in
      elim (Bool-cases (is_privileged ctx)) [
        | inl yes_manager ↦ ground (arith, matrix.0.0, e, full, yes_manager)
        | inr member ↦ ground (arith, matrix.2.0, e, full, member)
      ]

  -- For a post that the request finds, an answer of get_results with counts or a number of
  -- voters is given only to a manager or admin, or under member_visibility 1 or 2 at a time
  -- that member_display allows.
  pub get_results_counts :
      discloses_counts r ≡ true
      → (is_privileged ctx ≡ true)
        ⊎ (((post.member_visibility ≡ some 1) ⊎ (post.member_visibility ≡ some 2))
            × IsTime post
                (voted ctx.user_id (poll_votes ctx post_id w.local.work))
                (poll_ended ctx post))
  get_results_counts h =
      let (os, answer, w', shown, e) = answer_from in
      let hv = voted ctx.user_id (poll_votes ctx post_id w.local.work) in
      let visible =
        present_counts post_id (poll_ended ctx post) (poll_votes ctx post_id w.local.work) os answer
          w' r shown h in
      let matrix = resolve_results_visibility_matrix post hv (poll_ended ctx post) in
      elim (Bool-cases (is_privileged ctx)) [
        | inl yes_manager ↦ inl yes_manager
        | inr member ↦ ground (arith, matrix.2.0, matrix.3.0, e, visible, member)
      ]
