-- ===== src/News/Races/Ready.antt =====
-- What the checks of a request have made sure of when its writes begin.
use news_board.Prelude.{ℕ, ◌≡◌, ◌<◌, true, false, some, Option-cases, List, [], In, arith, inl, inr}
use news_board.Prelude.Keys.{In-fromkeys, Nodup, fromkeys-Nodup, nat_key}
use news_board.Context.{Context}
use news_board.Const.{PostType, is_poll, post_type_of_int}
use news_board.Exec.{ok, Result-cases}
use news_board.Local.{PostPollVoteModel, Db}
use news_board.Local.Repository.{
  in_scope, find_post, get_post, get_voter_votes, votes_of, select_options, get_post_with_options,
  load_options,
}
use news_board.Local.Ballots.{holds}
use news_board.Local.Consistency.{IsKeyed}
use news_board.Local.Lookup.{find_post-In, votes_of-In}
use news_board.World.{World}
use news_board.News.{poll_ended, current_voter, require_voter}
use news_board.News.Votes.{validate_selection}
use news_board.News.Votes.Swap.{IsOptionOf}
use news_board.News.Votes.Selected.{validate_selection-accepted}
use news_board.News.Races.{
  VoteRequest, cast, retract, Checked, check_request, check_cast, check_retract, opens,
}

-- the options that a request inserts
abbrev pub inserted : VoteRequest → Checked → List ℕ
inserted (cast ids) c = c.selected
inserted retract c = []

abbrev SelectedFrom : VoteRequest → PostType → Db → Checked → Type 0
SelectedFrom (cast ids) t d c =
    validate_selection ids t (select_options c.post.id d) ≡ ok c.selected
SelectedFrom retract t d c = Unit

-- The conditions under which the checks pass, read off the code.
abbrev pub Passed : Context → ℕ → VoteRequest → Db → Checked → Type 0
Passed ctx i q d c =
    (find_post ctx i d ≡ some c.post)
    × (current_voter ctx ≡ some c.voter_id)
    × (c.existing ≡ votes_of ctx i c.voter_id d)
    × (t : PostType) × (post_type_of_int c.post.type ≡ some t)
    × (is_poll t ≡ true)
    × (poll_ended ctx c.post ≡ false)
    × SelectedFrom q t d c

pub check_request-Passed :
    (ctx : Context) (i : ℕ) (q : VoteRequest) (d : Db) (w : World) (c : Checked)
    → (check_request ctx i q (opens d w)).0 ≡ ok c
    → Passed ctx i q d c
unfolding check_request check_cast check_retract get_post get_post_with_options load_options
    require_voter get_voter_votes
check_request-Passed ctx i (cast ids) d w c h = elim (Option-cases (find_post ctx i d)) [
  | inl none_ ↦ absurd (ground arith)
  | inr (p, found) ↦ elim (Option-cases (post_type_of_int p.type)) [
    | inl none_ ↦ absurd (ground arith)
    | inr (t, typed) ↦ elim (Option-cases (current_voter ctx)) [
      | inl none_ ↦ absurd (ground arith)
      | inr (v, voter) ↦ elim (Result-cases (validate_selection ids t (select_options p.id d))) [
        | inl (selected, valid) ↦ (
          ground arith,
          ground arith,
          ground arith,
          t,
          ground arith,
          ground arith,
          ground arith,
          ground arith,
        )
        | inr (e, invalid) ↦ absurd (ground arith)
      ]
    ]
  ]
]
check_request-Passed ctx i retract d w c h = elim (Option-cases (find_post ctx i d)) [
  | inl none_ ↦ absurd (ground arith)
  | inr (p, found) ↦ elim (Option-cases (post_type_of_int p.type)) [
    | inl none_ ↦ absurd (ground arith)
    | inr (t, typed) ↦ elim (Option-cases (current_voter ctx)) [
      | inl none_ ↦ absurd (ground arith)
      | inr (v, voter) ↦ (
        ground arith,
        ground arith,
        ground arith,
        t,
        ground arith,
        ground arith,
        ground arith,
        tt,
      )
    ]
  ]
]

-- The rows that are to be erased are the voter's, and so is a row that has taken the key of one.
pub record IsReady (ctx : Context) (i : ℕ) (q : VoteRequest) (d : Db) (c : Checked) : Type 0 where
  pub id : c.post.id ≡ i
  pub stored : In c.post d.posts
  pub scoped : in_scope ctx.internal_community_id c.post.id_community ≡ true
  pub voter : current_voter ctx ≡ some c.voter_id
  pub valid : (k : ℕ) → In k (inserted q c) → IsOptionOf c.post.id d k
  pub distinct : Nodup (inserted q c)
  pub own : (x : PostPollVoteModel) → In x c.existing → x.id < d.next_vote
  pub mine :
      (x w : PostPollVoteModel)
      → In x c.existing
      → In w d.votes
      → w.id ≡ x.id
      → holds i c.voter_id w ≡ true

inserted-valid :
    (q : VoteRequest) (t : PostType) (d : Db) (c : Checked)
    → SelectedFrom q t d c
    → ((k : ℕ) → In k (inserted q c) → IsOptionOf c.post.id d k) × Nodup (inserted q c)
inserted-valid (cast ids) t d c from =
    let (same, valid, _) = validate_selection-accepted d c.post.id ids t c.selected from in
    (λ k m. valid k (In-fromkeys ids k (rw same at m)), rw same (fromkeys-Nodup ids))
inserted-valid retract t d c from = (λ k m. absurd m, tt)

pub Passed-IsReady :
    (ctx : Context) (i : ℕ) (q : VoteRequest) (d : Db) (c : Checked)
    → IsKeyed d
    → Passed ctx i q d c
    → IsReady ctx i q d c
Passed-IsReady ctx i q d c keyed (found, voter, existing, t, typed, poll, running, from) =
    let (there, id, scoped) = find_post-In ctx d i c.post found in
    let (valid, distinct) = inserted-valid q t d c from in
    record {
      id = id;
      stored = there;
      scoped = scoped;
      voter = voter;
      valid = valid;
      distinct = distinct;
      own = λ x m. keyed.vote_fresh x (votes_of-In ctx d i c.voter_id x (rw existing at m)).0;
      mine = λ x w m n e.
          let (there', held) = votes_of-In ctx d i c.voter_id x (rw existing at m) in
          rw (keyed.vote_unique w x n there' e) held;
    }
