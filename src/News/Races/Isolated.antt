-- ===== src/News/Races/Isolated.antt =====
-- `cast_vote` and `retract_vote` of one caller, while other callers vote.
use news_board.Prelude.{
  ℕ, zero, suc, ◌-◌, ◌≤◌, String, Bool, true, false, ◌≡◌, ◌⊎◌, ◌∙◌, refl, List, [], ◌∷◌, All,
  All-map, arith, inl, inr,
}
use news_board.Const.{PostType}
use news_board.Exec.{ok}
use news_board.Local.{PostModel, Db}
use news_board.Local.Ballots.{ballot}
use news_board.Local.Consistency.{IsKeyed, IsConsistent}
use news_board.News.Races.{Job, Phase, waiting, checked, finished, advance, turn, run}
use news_board.News.Races.Schedule.{JobReady, IsApart, IsWaiting, IsWaiting-JobReady, turn-AllSound}
use news_board.News.Races.Alone.{IsAllowed, asked}
use news_board.News.Races.Progress.{
  At, Progress, Progress-Keeps, advance_from-Progress, advance_from-left, left,
}

-- the turns that a schedule gives to the first request
abbrev pub turns : List ℕ → ℕ
turns [] = 0
turns (zero ∷ ns) = suc (turns ns)
turns (suc n ∷ ns) = turns ns

module _ (post : PostModel) (t : PostType) (v : String) (before : List ℕ) where
  -- what the schedule leaves of the first request
  abbrev Left : List ℕ → Job → Db × List Job → Type 0
  Left ns j (e, ks) =
      (k : Job) × (rest : List Job) × (ks ≡ k ∷ rest)
      × Progress post t v before e k
      × (k.request ≡ j.request)
      × (left k.phase ≤ left j.phase - turns ns)

  run-Left :
      (ns : List ℕ) (d : Db) (j : Job) (js : List Job)
      → IsKeyed d
      → Progress post t v before d j
      → All (JobReady d) (j ∷ js)
      → All (IsApart post.id v) js
      → Left ns j (run ns d (j ∷ js))
  unfolding run turn advance
  run-Left [] d j js k p r a = (j, js, refl, p, refl, omega arith)
  run-Left (zero ∷ ns) d j js k p r a =
      let (e, j') = advance j d in
      let (step, keyed, ready, _) = turn-AllSound zero d (j ∷ js) k r in
      let p' = advance_from-Progress post t v before j.phase d j k p.0 p.1 refl in
      let (fewer, same) = advance_from-left j.phase d j refl in
      let (x, rest, here, progress, request, fewest) = run-Left ns e j' js keyed p' ready a in
      (x, rest, here, progress, request ∙ same, omega (arith, fewer, fewest))
  run-Left (suc n ∷ ns) d j js k p r a =
      let (e, ks) = turn n d js in
      let (step, keyed, _, apart) = turn-AllSound n d js k r.1 in
      let (_, _, ready, _) = turn-AllSound (suc n) d (j ∷ js) k r in
      let (a', keeps) = apart post.id v a in
      run-Left ns e j ks keyed (Progress-Keeps post t v before d e j step keeps p) ready a'

abbrev pub is_finished : Phase → Bool
is_finished (finished r) = true
is_finished _ = false

going_left : (phase : Phase) → is_finished phase ≡ false → 1 ≤ left phase
going_left waiting h = omega arith
going_left (checked c) h = omega arith
going_left (finished r) h = cc

-- nothing is done, or all that was asked for
abbrev pub AllOrNothing : ℕ → String → Db → Db → Job → Job → Type 0
AllOrNothing p v d e j k =
    ((is_finished k.phase ≡ false) × (ballot p v e ≡ ballot p v d))
    ⊎ ((k.phase ≡ finished (ok tt)) × (ballot p v e ≡ asked j.request))

At-AllOrNothing :
    (post : PostModel) (t : PostType) (v : String) (d e : Db) (j k : Job)
    → k.request ≡ j.request
    → (phase : Phase) → At post t v (ballot post.id v d) e k phase
    → k.phase ≡ phase
    → AllOrNothing post.id v d e j k
At-AllOrNothing post t v d e j k same waiting h is = inl (rw is refl, h)
At-AllOrNothing post t v d e j k same (checked c) h is = inl (rw is refl, h.0)
At-AllOrNothing post t v d e j k same (finished r) (done, h) is =
    inr (rw (is, done) refl, rw (← same) h)

module _ (ns : List ℕ) (d : Db) (post : PostModel) (t : PostType) (v : String) (j : Job)
    (js : List Job) (c : IsConsistent d) (a : IsAllowed post t v d j) (w : IsWaiting j)
    (ws : All IsWaiting js) (apart : All (IsApart post.id v) js) where
  result : Left post t v (ballot post.id v d) ns j (run ns d (j ∷ js))
  result =
      run-Left post t v (ballot post.id v d) ns d j js c.keyed (a, rw w refl)
        (All-map IsWaiting (JobReady d) (IsWaiting-JobReady d) (j ∷ js) (w, ws)) apart

  -- From a consistent database, at any point of any schedule of votes and retractions, each
  -- about to begin, one of which is a vote or retraction of a signed-in caller on a running
  -- poll of the caller's community, for options of that poll (exactly one distinct option if
  -- the poll is single-choice), and the others by other callers or on other posts: either that
  -- request has not finished and the committed ballot of the caller is as it was, or it has
  -- succeeded and the ballot is exactly what it asked for.
  pub run_alone :
      let (e, ks) = run ns d (j ∷ js) in
      (k : Job) × (rest : List Job) × (ks ≡ k ∷ rest) × AllOrNothing post.id v d e j k
  run_alone =
      let (k, rest, here, (_, at), same, _) = result in
      (k, rest, here, At-AllOrNothing post t v d (run ns d (j ∷ js)).0 j k same k.phase at refl)

  -- Requests that overlap, each in two steps, the checks with their queries and the writes with
  -- their commit, under PostgreSQL's default isolation: from a consistent database, a vote or
  -- retraction of a signed-in caller on a running poll of the caller's community, for options
  -- of that poll (exactly one distinct option if the poll is single-choice), has succeeded once
  -- any schedule has given it two turns, whatever votes and retractions of other callers or on
  -- other posts, each about to begin, take turns in between; the committed ballot of the caller
  -- is then exactly the distinct options of the vote in their order, or empty for a retraction.
  pub run_alone_finishes :
      2 ≤ turns ns
      → let (e, ks) = run ns d (j ∷ js) in
        (k : Job) × (rest : List Job) × (ks ≡ k ∷ rest)
        × (k.phase ≡ finished (ok tt))
        × (ballot post.id v e ≡ asked j.request)
  run_alone_finishes enough =
      let (k, rest, here, (_, at), same, fewer) = result in
      let none_left : left k.phase ≡ 0 = ground (arith, w, enough, fewer) in
      elim (At-AllOrNothing post t v d (run ns d (j ∷ js)).0 j k same k.phase at refl) [
        | inl (going, _) ↦
            let more = going_left k.phase going in absurd (omega (arith, more, none_left))
        | inr (done, own) ↦ (k, rest, here, done, own)
      ]
