-- ===== src/News/Races/Progress.antt =====
-- A request whose caller has no other request on the poll, step by step among the steps of others.
use news_board.Prelude.{ℕ, ◌-◌, ◌≤◌, String, ◌≡◌, ◌∙◌, refl, List, arith}
use news_board.Prelude.Keys.{nat_key}
use news_board.Const.{PostType}
use news_board.Exec.{Result, ok, err}
use news_board.Local.{PostModel, Db}
use news_board.Local.Ballots.{ballot}
use news_board.Local.Consistency.{IsKeyed}
use news_board.Local.Lookup.{In-votes_of}
use news_board.World.{World}
use news_board.News.Votes.Swap.{Covers}
use news_board.News.Races.{
  Job, Phase, waiting, checked, finished, Checked, VoteRequest, cast, retract, advance_from,
  after_check, check_request, store_request, opens, sees,
}
use news_board.News.Races.Ready.{IsReady, inserted, check_request-Passed, Passed-IsReady}
use news_board.News.Races.Steps.{
  Evolves, Keeps, IsReady-Evolves, written-Evolves, written_own, insert_votes-Covers,
  store_request-ok,
}
use news_board.News.Races.Alone.{IsAllowed, RequestAllowed, passes, asked}

-- a step of this request keeps what it needs; so does a step that leaves posts and options
IsAllowed-Evolves :
    (post : PostModel) (t : PostType) (v : String) (d e : Db) (j : Job)
    → Evolves d e
    → IsAllowed post t v d j
    → IsAllowed post t v e j
IsAllowed-Evolves post t v d e j step a = record {
  there = rw step.same_posts a.there;
  typed = a.typed;
  poll = a.poll;
  id = a.id;
  scoped = a.scoped;
  running = a.running;
  voter = a.voter;
  options = go j.request a.options;
}
  where
    go : (q : VoteRequest) → RequestAllowed post t d q → RequestAllowed post t e q
    go (cast ids) (valid, one) =
        (λ i m. let (o, n, r, p) = valid i m in (o, rw step.same_options n, r, p), one)
    go retract u = tt

module _ (post : PostModel) (t : PostType) (v : String) (before : List ℕ) where
  -- where the request stands: until it has written, the ballot is the one of before, and then it
  -- is the one that was asked for
  abbrev pub At : Db → Job → Phase → Type 0
  At d j waiting = ballot post.id v d ≡ before
  At d j (checked c) =
      (ballot post.id v d ≡ before)
      × IsReady j.ctx j.post_id j.request d c
      × Covers post.id v d c.existing
      × (c.voter_id ≡ v)
      × (inserted j.request c ≡ asked j.request)
  At d j (finished r) = (r ≡ ok tt) × (ballot post.id v d ≡ asked j.request)

  abbrev pub Progress : Db → Job → Type 0
  Progress d j = IsAllowed post t v d j × At d j j.phase

  At-Keeps :
      (d e : Db) (j : Job)
      → Evolves d e
      → Keeps post.id v d e
      → (phase : Phase) → At d j phase
      → At e j phase
  At-Keeps d e j step (rows, same) waiting h = same ∙ h
  At-Keeps d e j step (rows, same) (checked c) (h, r, covers, voter, selected) = (
    same ∙ h,
    IsReady-Evolves j.ctx j.post_id j.request d e c step r,
    λ w m own. covers w (rows w m own) own,
    voter,
    selected,
  )
  At-Keeps d e j step (rows, same) (finished r) (done, h) = (done, same ∙ h)

  -- a step of another request
  pub Progress-Keeps :
      (d e : Db) (j : Job) → Evolves d e → Keeps post.id v d e → Progress d j → Progress e j
  Progress-Keeps d e j step keeps (a, h) =
      (IsAllowed-Evolves post t v d e j step a, At-Keeps d e j step keeps j.phase h)

  -- the sessions and the phase are no part of what a request needs
  IsAllowed-moved :
      (d : Db) (j : Job) (w : World) (phase : Phase)
      → IsAllowed post t v d j
      → IsAllowed post t v d (record j { world = w; phase = phase })
  IsAllowed-moved d j w phase a = record {
    there = a.there;
    typed = a.typed;
    poll = a.poll;
    id = a.id;
    scoped = a.scoped;
    running = a.running;
    voter = a.voter;
    options = a.options;
  }

  pub after_check-ok :
      (j : Job) (c : Checked) (x : Result Checked × World)
      → x.0 ≡ ok c
      → after_check j x ≡ record j { world = x.1; phase = checked c }
  after_check-ok j c (ok found, w) same = ground arith
  after_check-ok j c (err e, w) same = absurd (ground arith)

  pub advance_from-Progress :
      (phase : Phase) (d : Db) (j : Job)
      → IsKeyed d
      → IsAllowed post t v d j
      → At d j phase
      → j.phase ≡ phase
      → let (e, k) = advance_from phase j d in Progress e k
  advance_from-Progress waiting d j k a h same =
      let (c, passed, voter, selected) = passes post t v d k j a j.request a.options in
      let facts = check_request-Passed j.ctx j.post_id j.request d j.world c passed in
      let x = check_request j.ctx j.post_id j.request (opens d j.world) in
      rw (after_check-ok j c x passed) (
        IsAllowed-moved d j x.1 (checked c) a,
        (
          h,
          Passed-IsReady j.ctx j.post_id j.request d c k facts,
          (λ w m own.
              rw (facts.2, a.id, voter) (In-votes_of j.ctx d post v w k a.there a.scoped m own)),
          voter,
          selected,
        ),
      )
  advance_from-Progress (checked c) d j k a (h, r, covers, voter, selected) same =
      let own : Covers j.post_id c.voter_id d c.existing = rw (a.id, voter) covers in
      let (e, done) = insert_votes-Covers j.ctx j.post_id j.request c d k r own in
      let (fine, saved) = store_request-ok j.ctx j.post_id j.request c d e j.world done in
      let (result, w) = store_request j.ctx j.post_id j.request c (sees d j.world) in
      let step = written-Evolves j.ctx j.post_id j.request c d e r done in
      let mine = written_own j.ctx j.post_id j.request c d e r done own in
      rw saved (
        IsAllowed-moved e j w (finished result) (IsAllowed-Evolves post t v d e j step a),
        (fine, rw (← a.id, ← voter) (mine ∙ selected)),
      )
  advance_from-Progress (finished r) d j k a h same = (a, rw same h)

-- the steps that a request has left
abbrev pub left : Phase → ℕ
left waiting = 2
left (checked c) = 1
left (finished r) = 0

after_check-left :
    (j : Job) (x : Result Checked × World)
    → (left (after_check j x).phase ≤ 1) × ((after_check j x).request ≡ j.request)
after_check-left j (ok c, w) = (omega arith, refl)
after_check-left j (err e, w) = (omega arith, refl)

pub advance_from-left :
    (phase : Phase) (d : Db) (j : Job)
    → j.phase ≡ phase
    → let k = (advance_from phase j d).1 in
      (left k.phase ≤ left phase - 1) × (k.request ≡ j.request)
advance_from-left waiting d j same =
    after_check-left j (check_request j.ctx j.post_id j.request (opens d j.world))
advance_from-left (checked c) d j same = (omega arith, refl)
advance_from-left (finished r) d j same = (rw same (omega arith), refl)
