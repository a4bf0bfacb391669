-- ===== src/News/Audited.antt =====
-- The audit entry that a change of the votes leaves, where the CRM database works.
pub mod Posts
use news_board.Prelude.{
  ℕ, String, ◌≡◌, ◌⊎◌, Option, some, none, List, [], ◌∷◌, ◌++◌, inl, inr, arith,
}
use news_board.Prelude.Decimal.{str_int}
use news_board.Prelude.Keys.{fromkeys, nat_key}
use news_board.Audit
use news_board.Audit.{AuditLogInput, audit_row, find_user, writer, vote_cast, vote_retracted}
use news_board.Context.{Context}
use news_board.Crm.{AppUserModel, AuditLogModel, CrmDb, Value, ints, roundtrip}
use news_board.Crm
use news_board.Errors.{Exception}
use news_board.Exec.{Result, ok, err, Result-cases}
use news_board.Local.{PostPollModel}
use news_board.Const.{PostType}
use news_board.Local.Repository.{get_post, get_voter_votes}
use news_board.World.{World}
use news_board.News.{audit, current_voter, require_voter, entry_for}
use news_board.News.Effects.{audit_keeps}
use news_board.News.Votes.{cast_vote, retract_vote, validate_selection}

-- the caller's row, where the caller is signed in
abbrev pub caller : Context → CrmDb → Option AppUserModel
unfolding current_voter
caller ctx d = elim (current_voter ctx) [ none ↦ none | some u ↦ find_user u d ]

-- the row of a write on an entity: who did it, and in which community
abbrev pub entry_row : Context → String → String → ℕ → List (String × Value) → CrmDb → AuditLogModel
entry_row ctx action entity i payload d = record {
  id_community = ctx.internal_community_id;
  action = action;
  source = "optimce-news-board";
  entity_type = entity;
  entity_id = some (str_int i);
  user_id = elim (caller ctx d) [ none ↦ none | some u ↦ some u.id ];
  user_email = elim (caller ctx d) [ none ↦ none | some u ↦ some u.email ];
  payload = payload;
}

writer-caller :
    (ctx : Context) (w : World)
    → w.crm.faults ≡ []
    → writer ctx.user_id w.crm ≡ (ok (caller ctx w.crm.work), w.crm)
unfolding current_voter roundtrip
writer-caller ctx w calm = ground arith

pub audit_logs :
    (ctx : Context) (entry : AuditLogInput) (w : World)
    → w.crm.faults ≡ []
    → (audit ctx entry w).1.crm.saved.audit_log
      ≡ w.crm.work.audit_log ++ audit_row ctx entry none (caller ctx w.crm.work) ∷ []
unfolding audit Audit.log roundtrip Crm.commit
audit_logs ctx entry w calm = ground (arith, writer-caller ctx w calm)

-- the row of a vote, and of a retraction
abbrev pub vote_row : Context → ℕ → List ℕ → CrmDb → AuditLogModel
vote_row ctx i ids d =
    entry_row ctx "news.vote.cast" "post_poll_vote" i (("option_ids", ints (fromkeys ids)) ∷ []) d

abbrev pub retract_row : Context → ℕ → CrmDb → AuditLogModel
retract_row ctx i d = entry_row ctx "news.vote.retracted" "post_poll_vote" i [] d

validate_selection-selected :
    (ids : List ℕ) (t : PostType) (options : List PostPollModel) (selected : List ℕ)
    → validate_selection ids t options ≡ ok selected
    → selected ≡ fromkeys ids
unfolding validate_selection
validate_selection-selected ids t options selected h = ground arith

cast_vote_unlogged :
    (ctx : Context) (i : ℕ) (ids : List ℕ) (w : World) (e : Exception)
    → (cast_vote ctx i ids w).0 ≡ err e
    → (cast_vote ctx i ids w).1.crm ≡ w.crm
unfolding cast_vote require_voter
cast_vote_unlogged ctx i ids w e h = grind (arith, audit_keeps)

cast_vote_logged :
    (ctx : Context) (i : ℕ) (ids : List ℕ) (w : World)
    → w.crm.faults ≡ []
    → (cast_vote ctx i ids w).0 ≡ ok tt
    → (cast_vote ctx i ids w).1.crm.saved.audit_log
      ≡ w.crm.work.audit_log ++ vote_row ctx i ids w.crm.work ∷ []
unfolding cast_vote require_voter
cast_vote_logged ctx i ids w calm h = grind (arith, audit_logs, validate_selection-selected)

retract_vote_unlogged :
    (ctx : Context) (i : ℕ) (w : World) (e : Exception)
    → (retract_vote ctx i w).0 ≡ err e
    → (retract_vote ctx i w).1.crm ≡ w.crm
unfolding retract_vote require_voter
retract_vote_unlogged ctx i w e h = grind (arith, audit_keeps)

retract_vote_logged :
    (ctx : Context) (i : ℕ) (w : World)
    → w.crm.faults ≡ []
    → (retract_vote ctx i w).0 ≡ ok tt
    → ((retract_vote ctx i w).1.crm.saved.audit_log
        ≡ w.crm.work.audit_log ++ retract_row ctx i w.crm.work ∷ [])
      ⊎ (((retract_vote ctx i w).1.crm ≡ w.crm)
          × ((retract_vote ctx i w).1.local.saved ≡ w.local.saved))
unfolding retract_vote require_voter get_post get_voter_votes
retract_vote_logged ctx i w calm h = grind (arith, audit_logs)

-- What a call leaves in the audit trail: an entry where it returns, nothing where it raises.
abbrev pub Audited : Result {0} Unit × World → World → AuditLogModel → Type 0
Audited (r, v) w entry =
    ((r ≡ ok tt) × (v.crm.saved.audit_log ≡ w.crm.work.audit_log ++ entry ∷ []))
    ⊎ ((e : Exception) × (r ≡ err e) × (v.crm ≡ w.crm))

-- Where no operation on the CRM database fails, a vote that succeeds adds one committed entry to
-- the audit trail, with the action news.vote.cast, the entity post_poll_vote and the post, the
-- distinct options in their order, the id and the email of the caller's row, the source
-- optimce-news-board and the community of the request, and a vote that raises leaves the CRM
-- session as it was; so does a retraction, with the action news.vote.retracted and no options,
-- but one that succeeds with nothing to retract may leave both databases as they were instead.
pub votes-Audited :
    (ctx : Context) (i : ℕ) (ids : List ℕ) (w : World)
    → w.crm.faults ≡ []
    → Audited (cast_vote ctx i ids w) w (vote_row ctx i ids w.crm.work)
      × (Audited (retract_vote ctx i w) w (retract_row ctx i w.crm.work)
          ⊎ (((retract_vote ctx i w).0 ≡ ok tt)
              × ((retract_vote ctx i w).1.crm ≡ w.crm)
              × ((retract_vote ctx i w).1.local.saved ≡ w.local.saved)))
votes-Audited ctx i ids w calm = (
  elim (Result-cases (cast_vote ctx i ids w).0) [
    | inl (tt, done) ↦ inl (done, cast_vote_logged ctx i ids w calm done)
    | inr (e, raised) ↦ inr (e, raised, cast_vote_unlogged ctx i ids w e raised)
  ],
  elim (Result-cases (retract_vote ctx i w).0) [
    | inl (tt, done) ↦ elim (retract_vote_logged ctx i w calm done) [
      | inl logged ↦ inl (inl (done, logged))
      | inr (crm, saved) ↦ inr (done, crm, saved)
    ]
    | inr (e, raised) ↦ inl (inr (e, raised, retract_vote_unlogged ctx i w e raised))
  ],
)
