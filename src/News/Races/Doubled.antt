-- ===== src/News/Races/Doubled.antt =====
-- Two requests of one caller on one poll that both read before either writes.
use news_board.Prelude.{
  ℕ, String, ◌≡◌, ◌∙◌, refl, ap, true, false, some, List, [], ◌∷◌, ◌++◌, map, In, Bool,
  if◌then◌else◌,
}
use news_board.Prelude.Keys.{nat_key}
use news_board.Const.{PostType}
use news_board.Exec.{ok}
use news_board.Local.{PostModel, Db}
use news_board.Local.Repository.{insert_votes, erase_votes}
use news_board.Local.Ballots.{ballot}
use news_board.Local.Consistency.{IsKeyed, IsConsistent}
use news_board.News.Races.{
  Job, waiting, checked, finished, Checked, check_request, opens, advance, turn, run,
}
use news_board.News.Races.Ready.{IsReady, inserted, check_request-Passed, Passed-IsReady}
use news_board.News.Races.Steps.{
  Evolves, IsReady-Evolves, new_rows, written-Evolves, written-IsKeyed, store_request-ok,
  erase_nothing,
}
use news_board.News.Races.Schedule.{IsWaiting}
use news_board.News.Races.Alone.{IsAllowed, passes, asked}
use news_board.News.Races.Progress.{after_check-ok}
use news_board.News.Races.Beside.{no_rows, beside}

module _ (post : PostModel) (t : PostType) (v : String) where
  abbrev checked_job : Job → Checked → Db → Job
  checked_job j c d =
      let (_, w) = check_request j.ctx j.post_id j.request (opens d j.world) in
      record j { world = w; phase = checked c }

  -- the checks of a caller who holds nothing read no rows
  begun :
      (d : Db) (j : Job)
      → IsKeyed d
      → ballot post.id v d ≡ []
      → IsAllowed post t v d j
      → j.phase ≡ waiting
      → (c : Checked) × (advance j d ≡ (d, checked_job j c d))
        × IsReady j.ctx j.post_id j.request d c
        × (c.existing ≡ [])
        × (c.voter_id ≡ v)
        × (inserted j.request c ≡ asked j.request)
  unfolding advance
  begun d j k none_ a w =
      let (c, passed, voter, selected) = passes post t v d k j a j.request a.options in
      let facts = check_request-Passed j.ctx j.post_id j.request d j.world c passed in
      let x = check_request j.ctx j.post_id j.request (opens d j.world) in
      (
        c,
        rw w (ap (λ (k : Job). (d, k)) (after_check-ok post t v [] j c x passed)),
        Passed-IsReady j.ctx j.post_id j.request d c k facts,
        facts.2 ∙ no_rows j.ctx d j.post_id c.voter_id (rw (a.id, voter) none_),
        voter,
        selected,
      )

  -- the writes then erase nothing
  wrote :
      (d : Db) (j : Job) (c : Checked)
      → IsKeyed d
      → IsReady j.ctx j.post_id j.request d c
      → c.existing ≡ []
      → j.post_id ≡ post.id
      → c.voter_id ≡ v
      → inserted j.request c ≡ asked j.request
      → ((o : ℕ) → In o (asked j.request) → In o (ballot post.id v d) → ⊥)
      → j.phase ≡ checked c
      → let (e, k) = advance j d in
        (k.phase ≡ finished (ok tt))
        × IsKeyed e
        × Evolves d e
        × (ballot post.id v e ≡ ballot post.id v d ++ asked j.request)
  unfolding advance
  wrote d j c k r empty id voter selected apart w =
      let (e, done, own) =
        beside j.ctx j.post_id j.request c d k r (rw (selected, id, voter) apart) in
      let swap : insert_votes (new_rows j.post_id j.request c) (erase_votes c.existing d) ≡ some e =
        ap (insert_votes (new_rows j.post_id j.request c)) (erase_nothing c d empty) ∙ done in
      let (fine, saved) = store_request-ok j.ctx j.post_id j.request c d e j.world swap in
      rw (w, saved)
        (
          ap finished fine,
          written-IsKeyed j.ctx j.post_id j.request c d e r swap k,
          written-Evolves j.ctx j.post_id j.request c d e r swap,
          rw (← id, ← voter, ← selected) own,
        )

  -- two requests whose checks have read the state, the first to write being `j`
  module _ (d : Db) (j k : Job) (f g : Checked) (keyed : IsKeyed d)
      (none_ : ballot post.id v d ≡ []) (idj : j.post_id ≡ post.id) (idk : k.post_id ≡ post.id)
      (rf : IsReady j.ctx j.post_id j.request d f) (rg : IsReady k.ctx k.post_id k.request d g)
      (ef : f.existing ≡ []) (eg : g.existing ≡ []) (vf : f.voter_id ≡ v) (vg : g.voter_id ≡ v)
      (sf : inserted j.request f ≡ asked j.request) (sg : inserted k.request g ≡ asked k.request)
      (apart : (o : ℕ) → In o (asked j.request) → In o (asked k.request) → ⊥)
      (pj : j.phase ≡ checked f) (pk : k.phase ≡ checked g) where
    both :
        let (e, j') = advance j d in
        let (h, k') = advance k e in
        (j'.phase ≡ finished (ok tt))
        × (k'.phase ≡ finished (ok tt))
        × (ballot post.id v h ≡ asked j.request ++ asked k.request)
    both =
        let (done, kept, step, own) =
          wrote d j f keyed rf ef idj vf sf (λ o m n. rw none_ at n) pj in
        let (e, _) = advance j d in
        let held : ballot post.id v e ≡ asked j.request = rw none_ at own in
        let (done', _, _, own') =
          wrote e k g kept (IsReady-Evolves k.ctx k.post_id k.request d e g step rg) eg idk vg sg
            (λ o m n. apart o (rw held at n) m) pk in
        (done, done', own' ∙ ap (λ os. os ++ asked k.request) held)

  -- the turns of both requests, the checks first
  abbrev pub turns : Bool → Bool → List ℕ
  turns true true = 0 ∷ 1 ∷ 0 ∷ 1 ∷ []
  turns true false = 0 ∷ 1 ∷ 1 ∷ 0 ∷ []
  turns false true = 1 ∷ 0 ∷ 0 ∷ 1 ∷ []
  turns false false = 1 ∷ 0 ∷ 1 ∷ 0 ∷ []

  abbrev Doubles : Db → Job → Job → Bool → Bool → Type 0
  unfolding run turn
  Doubles d j k check_first write_first =
      let (e, js) = run (turns check_first write_first) d (j ∷ k ∷ []) in
      (map (λ j. j.phase) js ≡ finished (ok tt) ∷ finished (ok tt) ∷ [])
      × (ballot post.id v e ≡ (
          if write_first
          then asked j.request ++ asked k.request
          else asked k.request ++ asked j.request))

  -- In a consistent database, for a signed-in caller without a ballot on a running poll of the
  -- caller's community, also a single-choice one, take two votes of that caller for options of
  -- the poll (exactly one distinct option each if the poll is single-choice), with no option in
  -- common and both about to begin. If both make their checks before either writes, in each of
  -- the four orders of the checks and of the writes, both succeed, and the committed ballot of
  -- the caller has the options of both, those of the first to write first.
  pub run_doubles :
      (d : Db) (j k : Job) (check_first write_first : Bool)
      → IsConsistent d
      → ballot post.id v d ≡ []
      → IsAllowed post t v d j
      → IsAllowed post t v d k
      → IsWaiting j
      → IsWaiting k
      → ((o : ℕ) → In o (asked j.request) → In o (asked k.request) → ⊥)
      → let (e, js) = run (turns check_first write_first) d (j ∷ k ∷ []) in
        (map (λ j. j.phase) js ≡ finished (ok tt) ∷ finished (ok tt) ∷ [])
        × (ballot post.id v e ≡ (
            if write_first
            then asked j.request ++ asked k.request
            else asked k.request ++ asked j.request))
  unfolding run turn
  run_doubles d j k check_first write_first c none_ a b w x apart =
      let (f, first, rf, ef, vf, sf) = begun d j c.keyed none_ a w in
      let (g, second, rg, eg, vg, sg) = begun d k c.keyed none_ b x in
      let j' = checked_job j f d in
      let k' = checked_job k g d in
      let (done, done', own) =
        both d j' k' f g c.keyed none_ a.id b.id rf rg ef eg vf vg sf sg apart refl refl in
      let (last, last', other) =
        both d k' j' g f c.keyed none_ b.id a.id rg rf eg ef vg vf sg sf (λ o m n. apart o n m) refl
          refl in
      elim check_first as (λ a. Doubles d j k a write_first) [
        | true ↦ elim write_first as (λ b. Doubles d j k true b) [
          | true ↦ rw (first, second) (rw (done, done') refl, own)
          | false ↦ rw (first, second) (rw (last, last') refl, other)
        ]
        | false ↦ elim write_first as (λ b. Doubles d j k false b) [
          | true ↦ rw (second, first) (rw (done, done') refl, own)
          | false ↦ rw (second, first) (rw (last, last') refl, other)
        ]
      ]
