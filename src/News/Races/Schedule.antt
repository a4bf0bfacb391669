-- ===== src/News/Races/Schedule.antt =====
-- Any number of requests that take their steps in any order keep the declared constraints.
use news_board.Prelude.{
  ℕ, zero, suc, String, ◌≡◌, ◌≢◌, ◌⊎◌, refl, some, List, [], ◌∷◌, All, All-map, arith, inl, inr,
}
use news_board.Exec.{Result, ok, err}
use news_board.Local.{Db}
use news_board.Local.Consistency.{IsKeyed, IsConsistent}
use news_board.World.{World}
use news_board.News.{current_voter}
use news_board.News.Races.{
  Job, Phase, waiting, checked, finished, Checked, advance_from, advance, after_check, turn, run,
  check_request, store_request, opens, sees,
}
use news_board.News.Races.Ready.{IsReady, check_request-Passed, Passed-IsReady}
use news_board.News.Races.Steps.{
  Evolves, Evolves-refl, Keeps, IsReady-Evolves, written-Evolves, written-IsKeyed, written_foreign,
  store_request-saved,
}

abbrev PhaseReady : Job → Db → Phase → Type 0
PhaseReady j d waiting = Unit
PhaseReady j d (checked c) = IsReady j.ctx j.post_id j.request d c
PhaseReady j d (finished r) = Unit

-- what the checks of a request have made sure of still holds
abbrev pub JobReady : Db → Job → Type 0
JobReady d j = PhaseReady j d j.phase

-- the request is not of the voter, or not on the post
abbrev pub IsApart : ℕ → String → Job → Type 0
IsApart p v j = (p ≢ j.post_id) ⊎ (current_voter j.ctx ≢ some v)

abbrev Sound : Db → Job → Db → Job → Type 0
Sound d j e k =
    Evolves d e
    × IsKeyed e
    × JobReady e k
    × ((p : ℕ) (v : String) → IsApart p v j → IsApart p v k × Keeps p v d e)

-- a step that leaves the database
Sound-still :
    (d : Db) (j k : Job)
    → IsKeyed d
    → JobReady d k
    → k.ctx ≡ j.ctx
    → k.post_id ≡ j.post_id
    → Sound d j d k
Sound-still d j k c r ctx post =
    (Evolves-refl d, c, r, λ p v a. (rw (ctx, post) a, (λ w m h. m, refl)))

after_check-Sound :
    (d : Db) (j : Job) (x : Result Checked × World)
    → IsKeyed d
    → ((found : Checked) → x.0 ≡ ok found → IsReady j.ctx j.post_id j.request d found)
    → Sound d j d (after_check j x)
after_check-Sound d j (ok found, w) c r =
    Sound-still d j (record j { world = w; phase = checked found }) c (r found refl) refl refl
after_check-Sound d j (err e, w) c r =
    Sound-still d j (record j { world = w; phase = finished (err e) }) c tt refl refl

advance_from-Sound :
    (phase : Phase) (j : Job) (d : Db)
    → IsKeyed d
    → PhaseReady j d phase
    → j.phase ≡ phase
    → let (e, k) = advance_from phase j d in Sound d j e k
advance_from-Sound waiting j d c r same =
    after_check-Sound d j (check_request j.ctx j.post_id j.request (opens d j.world)) c
      (λ found passed.
        Passed-IsReady j.ctx j.post_id j.request d found c
          (check_request-Passed j.ctx j.post_id j.request d j.world found passed))
advance_from-Sound (checked found) j d c r same =
    let (result, w) = store_request j.ctx j.post_id j.request found (sees d j.world) in
    let k : Job = record j { world = w; phase = finished result } in
    elim (store_request-saved j.ctx j.post_id j.request found d j.world) [
      | inl unchanged ↦ rw unchanged (Sound-still d j k c tt refl refl)
      | inr done ↦ (
        written-Evolves j.ctx j.post_id j.request found d w.local.saved r done,
        written-IsKeyed j.ctx j.post_id j.request found d w.local.saved r done c,
        tt,
        λ p v a. (
          a,
          written_foreign j.ctx j.post_id j.request found d w.local.saved r done p v
              (ground (arith, a, r.voter)),
        ),
      )
    ]
advance_from-Sound (finished result) j d c r same = Sound-still d j j c (rw same tt) refl refl

pub advance-Sound :
    (j : Job) (d : Db) → IsKeyed d → JobReady d j → let (e, k) = advance j d in Sound d j e k
unfolding advance
advance-Sound j d c r = advance_from-Sound j.phase j d c r refl

JobReady-Evolves : (d e : Db) (j : Job) → Evolves d e → JobReady d j → JobReady e j
JobReady-Evolves d e j step r = go j.phase r
  where
    go : (phase : Phase) → PhaseReady j d phase → PhaseReady j e phase
    go waiting r = tt
    go (checked c) r = IsReady-Evolves j.ctx j.post_id j.request d e c step r
    go (finished result) r = tt

-- what a step of any request leaves to all of them
abbrev pub AllSound : Db → List Job → Db → List Job → Type 0
AllSound d js e ks =
    Evolves d e
    × IsKeyed e
    × All (JobReady e) ks
    × ((p : ℕ) (v : String) → All (IsApart p v) js → All (IsApart p v) ks × Keeps p v d e)

pub turn-AllSound :
    (n : ℕ) (d : Db) (js : List Job)
    → IsKeyed d
    → All (JobReady d) js
    → let (e, ks) = turn n d js in AllSound d js e ks
unfolding turn
turn-AllSound n d [] c r = (Evolves-refl d, c, tt, λ p v a. (tt, (λ w m h. m, refl)))
turn-AllSound zero d (j ∷ js) c (first, rest) =
    let (step, keyed, ready, apart) = advance-Sound j d c first in
    (
      step,
      keyed,
      (
        ready,
        All-map (JobReady d) (JobReady (advance j d).0)
            (λ k. JobReady-Evolves d (advance j d).0 k step) js rest,
      ),
      λ p v (a, b). let (a', keeps) = apart p v a in ((a', b), keeps),
    )
turn-AllSound (suc n) d (j ∷ js) c (first, rest) =
    let (step, keyed, ready, apart) = turn-AllSound n d js c rest in
    (
      step,
      keyed,
      (JobReady-Evolves d (turn n d js).0 j step first, ready),
      λ p v (a, b). let (b', keeps) = apart p v b in ((a, b'), keeps),
    )

run-keeps :
    (ns : List ℕ) (d : Db) (js : List Job)
    → IsKeyed d
    → All (JobReady d) js
    → IsKeyed (run ns d js).0
unfolding run
run-keeps [] d js c r = c
run-keeps (n ∷ ns) d js c r =
    let (_, keyed, ready, _) = turn-AllSound n d js c r in
    run-keeps ns (turn n d js).0 (turn n d js).1 keyed ready

abbrev pub IsWaiting : Job → Type 0
IsWaiting j = j.phase ≡ waiting

pub IsWaiting-JobReady : (d : Db) (j : Job) → IsWaiting j → JobReady d j
IsWaiting-JobReady d j h = rw h tt

-- From a consistent database, whatever votes and retractions of any callers, each about to begin,
-- take their steps in any order, the committed database has distinct keys, valid references, one
-- community for a post and all that belongs to it, and no option twice in a ballot.
pub run-IsKeyed :
    (ns : List ℕ) (d : Db) (js : List Job)
    → IsConsistent d
    → All IsWaiting js
    → IsKeyed (run ns d js).0
run-IsKeyed ns d js c h =
    run-keeps ns d js c.keyed (All-map IsWaiting (JobReady d) (IsWaiting-JobReady d) js h)
