-- ===== src/News/Preserved/Votes.antt =====
-- Votes and retractions keep the database consistent, on every branch.
use news_board.Prelude.{
  ℕ, String, ◌≡◌, ◌⊎◌, inl, inr, true, false, some, none, Option-cases, List, arith,
}
use news_board.Prelude.Keys.{nat_key}
use news_board.Context.{Context}
use news_board.Const.{PostType, is_poll, post_type_of_int}
use news_board.Exec.{ok, Result-cases}
use news_board.Crm.{CrmSession}
use news_board.Realtime.{Broker}
use news_board.Local
use news_board.Local.{PostModel, PostPollModel, Db}
use news_board.Local.Repository.{
  find_post, get_post, get_voter_votes, delete_votes, votes_of, erase_votes, select_options,
  get_post_with_options, load_options,
}
use news_board.Local.Ballots.{spared, erase_votes-eq-filter}
use news_board.Local.Consistency.{IsConsistent}
use news_board.Local.Lookup.{find_post-In}
use news_board.Local.Removed.{filter_votes-IsConsistent}
use news_board.World.{request}
use news_board.News.{poll_ended, current_voter, require_voter}
use news_board.News.Votes.{validate_selection, cast_vote, retract_vote}
use news_board.News.Votes.Selected.{validate_selection-accepted}
use news_board.News.Votes.Atomic.{cast_vote_atomic}
use news_board.News.Votes.Consistent.{cast_vote-IsConsistent}
use news_board.News.Effects.{audit_keeps}

module _ (ctx : Context) (d : Db) (crm : CrmSession) (broker : Broker) (c : IsConsistent d) where
  retract_vote_saved :
      (i : ℕ) (v : String)
      → current_voter ctx ≡ some v
      → let e = (retract_vote ctx i (request d crm broker)).1.local.saved in
        (e ≡ d) ⊎ (e ≡ erase_votes (votes_of ctx i v d) d)
  unfolding retract_vote get_post get_voter_votes delete_votes require_voter Local.commit
  retract_vote_saved i v h = grind (arith, audit_keeps)

  retract_vote_stranger :
      (i : ℕ)
      → current_voter ctx ≡ none
      → (retract_vote ctx i (request d crm broker)).1.local.saved ≡ d
  unfolding retract_vote get_post get_voter_votes delete_votes require_voter Local.commit
  retract_vote_stranger i h = ground arith

  pub retract_vote-IsConsistent :
      (i : ℕ) → IsConsistent (retract_vote ctx i (request d crm broker)).1.local.saved
  retract_vote-IsConsistent i = elim (Option-cases (current_voter ctx)) [
    | inl stranger ↦ rw (retract_vote_stranger i stranger) c
    | inr (v, voter) ↦ elim (retract_vote_saved i v voter) [
      | inl same ↦ rw same c
      | inr erased ↦
          let existing = votes_of ctx i v d in
          rw (erased, erase_votes-eq-filter existing d)
            (filter_votes-IsConsistent d (spared existing) c)
    ]
  ]

module _ (ctx : Context) (d : Db) (crm : CrmSession) (broker : Broker) (c : IsConsistent d) (i : ℕ)
    (ids : List ℕ) where
  -- The conditions under which `cast_vote` returns, read off the code.
  cast_vote-ok :
      (cast_vote ctx i ids (request d crm broker)).0 ≡ ok tt
      → (p : PostModel) × (t : PostType) × (v : String) × (find_post ctx i d ≡ some p)
        × (post_type_of_int p.type ≡ some t)
        × (is_poll t ≡ true)
        × (poll_ended ctx p ≡ false)
        × (current_voter ctx ≡ some v)
        × (selected : List ℕ) × (validate_selection ids t (select_options p.id d) ≡ ok selected)
  unfolding cast_vote get_post_with_options load_options require_voter
  cast_vote-ok h = elim (Option-cases (find_post ctx i d)) [
    | inl none_ ↦ absurd (ground arith)
    | inr (p, found) ↦ elim (Option-cases (post_type_of_int p.type)) [
      | inl none_ ↦ absurd (ground arith)
      | inr (t, typed) ↦ elim (Option-cases (current_voter ctx)) [
        | inl none_ ↦ absurd (ground arith)
        | inr (v, voter) ↦ elim (Result-cases (validate_selection ids t (select_options p.id d))) [
          | inl (selected, valid) ↦
              (p, t, v, found, typed, ground arith, ground arith, voter, selected, valid)
          | inr (e, invalid) ↦ absurd (ground arith)
        ]
      ]
    ]
  ]

  pub cast_vote_preserves : IsConsistent (cast_vote ctx i ids (request d crm broker)).1.local.saved
  cast_vote_preserves = elim (Result-cases (cast_vote ctx i ids (request d crm broker)).0) [
    | inr (e, raised) ↦ rw (cast_vote_atomic ctx i ids (request d crm broker) e raised) c
    | inl (u, done) ↦
        let (p, t, v, found, typed, poll, running, voter, selected, accepted) = cast_vote-ok done in
        let (there, id, scoped) = find_post-In ctx d i p found in
        let (_, valid, one) = validate_selection-accepted d p.id ids t selected accepted in
        rw (← id) (
          cast_vote-IsConsistent ctx d crm broker p t v ids c there scoped typed poll running voter
            valid one)
  ]
