-- ===== src/News/Results/Tallied.antt =====
-- The tallies count every vote on the poll once.
use news_board.Prelude.{
  ℕ, suc, ◌+◌, String, ◌≡◌, refl, ap, ◌∙◌, true, false, Bool, some, List, [], ◌∷◌, map, filter,
  length, In, In-filter, In-map, In-map_inv, Option, none, arith, inl, inr, ◌==◌, ==_iff,
  Bool-cases,
}
use news_board.Prelude.Keys.{Nodup, nat_key, contains, In-contains}
use news_board.Context.{Context}
use news_board.Exec.{ok, Result-cases}
use news_board.Crm.{CrmSession}
use news_board.Realtime.{Broker}
use news_board.Local.{PostModel, PostPollModel, PostPollVoteModel, Db}
use news_board.Local.Repository.{
  in_scope, select_options, poll_votes, get_post_with_options, load_options, get_votes_for_post,
}
use news_board.Local.Consistency.{IsConsistent}
use news_board.Local.Scoped.{scoped_votes}
use news_board.Local.Lookup.{find_post-some, In-select_options}
use news_board.World.{World, request}
use news_board.News.Schemas.{OptionTally, PollResults, ResultsMode}
use news_board.News.{poll_ended}
use news_board.News.Results.{
  voters_for, tally, distinct_voters, emails_for, present, resolve_results_visibility,
  is_privileged, voted, get_results,
}
use news_board.Local.Sorted.{select_options-Nodup}

-- the votes for each of `os`, added up
abbrev votes_for : List (ℕ × String) → List PostPollModel → ℕ
votes_for votes [] = 0
votes_for votes (o ∷ os) = length (voters_for o.id votes) + votes_for votes os

votes_for-nil : (os : List PostPollModel) → votes_for [] os ≡ 0
votes_for-nil [] = refl
votes_for-nil (o ∷ os) = ground (arith, votes_for-nil os)

votes_for-cons :
    (v : ℕ × String) (votes : List (ℕ × String)) (os : List PostPollModel)
    → votes_for (v ∷ votes) os ≡ votes_for votes os + votes_for (v ∷ []) os
votes_for-cons v votes [] = ground arith
votes_for-cons v votes (o ∷ os) = ground (arith, votes_for-cons v votes os)

votes_for_absent :
    (v : ℕ × String) (os : List PostPollModel)
    → contains (map (λ (o : PostPollModel). o.id) os) v.0 ≡ false
    → votes_for (v ∷ []) os ≡ 0
votes_for_absent v [] h = refl
votes_for_absent v (o ∷ os) h = ground (arith, votes_for_absent v os)

votes_for_one :
    (v : ℕ × String) (os : List PostPollModel)
    → Nodup (map (λ (o : PostPollModel). o.id) os)
    → contains (map (λ (o : PostPollModel). o.id) os) v.0 ≡ true
    → votes_for (v ∷ []) os ≡ 1
votes_for_one v [] n h = cc
votes_for_one v (o ∷ os) n h = elim (Bool-cases (o.id == v.0)) [
  | inl own ↦
      let same : v.0 ≡ o.id = ground arith in
      let none_else : contains (map (λ (o : PostPollModel). o.id) os) v.0 ≡ false = rw same n.0 in
      ground (arith, votes_for_absent v os none_else)
  | inr other ↦ ground (arith, votes_for_one v os n.1)
]

votes_for_all :
    (votes : List (ℕ × String)) (os : List PostPollModel)
    → Nodup (map (λ (o : PostPollModel). o.id) os)
    → ((v : ℕ × String) → In v votes → contains (map (λ (o : PostPollModel). o.id) os) v.0 ≡ true)
    → votes_for votes os ≡ length votes
votes_for_all [] os n h = votes_for-nil os
votes_for_all (v ∷ votes) os n h =
    let rest = votes_for_all votes os n (λ x m. h x (inr m)) in
    omega (arith, votes_for-cons v votes os, votes_for_one v os n (h v (inl refl)), rest)

-- ---- what `get_results` returns

present_options :
    (post_id : ℕ) (ended : Bool) (votes : List (ℕ × String)) (options : List PostPollModel)
    (answer : Bool × Option ResultsMode) (w : World) (r : PollResults) (l : List OptionTally)
    → (present post_id ended votes options answer w).0 ≡ ok r
    → r.options ≡ some l
    → (mode : ResultsMode) × (emails : List (String × String)) × (l
        ≡ map (tally mode emails votes) options)
unfolding present
present_options post_id ended votes options (true, some ResultsMode.full) w r l h p =
    elim (Result-cases (emails_for ResultsMode.full (distinct_voters votes) w).0) [
      | inl (emails, e) ↦ (ResultsMode.full, emails, ground arith)
      | inr (x, e) ↦ absurd (ground arith)
    ]
present_options post_id ended votes options (true, some ResultsMode.aggregate) w r l h p =
    (ResultsMode.aggregate, [], ground arith)
present_options post_id ended votes options (true, none) w r l h p = absurd (ground arith)
present_options post_id ended votes options (false, m) w r l h p = absurd (ground arith)

-- the counts of an answer, added up
abbrev pub total_count : List OptionTally → ℕ
total_count [] = 0
total_count (t ∷ l) = t.count + total_count l

total_count-tally :
    (mode : ResultsMode) (emails : List (String × String)) (votes : List (ℕ × String))
    (os : List PostPollModel)
    → total_count (map (tally mode emails votes) os) ≡ votes_for votes os
unfolding tally
total_count-tally mode emails votes [] = refl
total_count-tally mode emails votes (o ∷ os) =
    ground (arith, total_count-tally mode emails votes os)

option_ids-tally :
    (mode : ResultsMode) (emails : List (String × String)) (votes : List (ℕ × String))
    (os : List PostPollModel)
    → map (λ (t : OptionTally). t.option_id) (map (tally mode emails votes) os)
      ≡ map (λ (o : PostPollModel). o.id) os
unfolding tally
option_ids-tally mode emails votes [] = refl
option_ids-tally mode emails votes (o ∷ os) = ground (arith, option_ids-tally mode emails votes os)

length-map : {A B : Type 0} (f : A → B) (xs : List A) → length (map f xs) ≡ length xs
length-map f [] = refl
length-map f (x ∷ xs) = ap suc (length-map f xs)

module _ (ctx : Context) (d : Db) (post : PostModel) (c : IsConsistent d) (there : In post d.posts)
    (scoped : in_scope ctx.internal_community_id post.id_community ≡ true) where
  -- the votes on the poll, by whomever
  abbrev on_poll : PostPollVoteModel → Bool
  on_poll v = v.id_post == post.id

  votes_scoped :
      filter on_poll (filter (λ v. in_scope ctx.internal_community_id v.id_community) d.votes)
      ≡ filter on_poll d.votes
  votes_scoped =
      scoped_votes ctx d post c there scoped on_poll (λ w h. (==_iff w.id_post post.id).0 h)

  length-poll_votes : length (poll_votes ctx post.id d) ≡ length (filter on_poll d.votes)
  unfolding poll_votes
  length-poll_votes =
      length-map (λ (v : PostPollVoteModel). (v.id_post_poll, v.voter_id))
        (filter on_poll (filter (λ v. in_scope ctx.internal_community_id v.id_community) d.votes))
      ∙ ap length votes_scoped

  poll_votes_known :
      (v : ℕ × String)
      → In v (poll_votes ctx post.id d)
      → contains (map (λ (o : PostPollModel). o.id) (select_options post.id d)) v.0 ≡ true
  unfolding poll_votes
  poll_votes_known v m =
      let scope = λ (v : PostPollVoteModel). in_scope ctx.internal_community_id v.id_community in
      let (w, mw, e) =
        In-map_inv (λ (v : PostPollVoteModel). (v.id_post_poll, v.voter_id))
          (filter on_poll (filter scope d.votes)) v m in
      let (kept, own) = In-filter on_poll w (filter scope d.votes) mw in
      let stored = (In-filter scope w d.votes kept).0 in
      let (o, mo, eo, po) = c.vote_option w stored in
      let listed = (In-select_options post.id d o).1 (mo, ground (arith, own, po)) in
      let found =
        In-contains (map (λ (o : PostPollModel). o.id) (select_options post.id d)) o.id
          (In-map (λ (o : PostPollModel). o.id) (select_options post.id d) o listed) in
      ground (arith, found, eo, e)

  counted :
      (mode : ResultsMode) (emails : List (String × String))
      → total_count (map (tally mode emails (poll_votes ctx post.id d)) (select_options post.id d))
        ≡ length (filter on_poll d.votes)
  counted mode emails =
      let sum =
        total_count-tally mode emails (poll_votes ctx post.id d) (select_options post.id d) in
      let all =
        votes_for_all (poll_votes ctx post.id d) (select_options post.id d)
          (select_options-Nodup post.id d c) poll_votes_known in
      omega (arith, sum, all, length-poll_votes)

  -- In a consistent database, where get_results on a stored post of the request's community
  -- returns counts, the options that are counted are exactly those of the post, in their order,
  -- and the counts add up to the number of all stored votes on the post.
  pub get_results_counts_all :
      (crm : CrmSession) (broker : Broker) (r : PollResults) (l : List OptionTally)
      → (get_results ctx post.id (request d crm broker)).0 ≡ ok r
      → r.options ≡ some l
      → (map (λ (t : OptionTally). t.option_id) l
          ≡ map (λ (o : PostPollModel). o.id) (select_options post.id d))
        × (total_count l
            ≡ length (filter (λ (v : PostPollVoteModel). v.id_post == post.id) d.votes))
  unfolding get_results get_post_with_options load_options get_votes_for_post
  get_results_counts_all crm broker r l h p =
      let options = select_options post.id d in
      let votes = poll_votes ctx post.id d in
      let found = find_post-some ctx d post c.keyed there scoped in
      let s : World = record (request d crm broker) {
        local = record (request d crm broker).local { loaded = (post.id, options) ∷ [] };
      } in
      elim (Result-cases (
        resolve_results_visibility post (is_privileged ctx) (voted ctx.user_id votes)
          (poll_ended ctx post))) [
            | inl (answer, e) ↦
                let shown : (present post.id (poll_ended ctx post) votes options answer s).0
                    ≡ ok r =
                  ground (arith, found, e) in
                let (mode, emails, same) =
                  present_options post.id (poll_ended ctx post) votes options answer s r l shown
                    p in
                (
                  rw same (option_ids-tally mode emails votes options),
                  rw same (counted mode emails),
                )
            | inr (x, e) ↦ absurd (ground (arith, found, e))
          ]
