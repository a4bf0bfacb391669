-- ===== src/News/Audited/Posts.antt =====
-- The audit entry of an update and of a deletion, where the CRM database works.
use news_board.Prelude.{
  ℕ, true, false, ◌≡◌, ◌⊎◌, some, none, [], ◌∷◌, ◌++◌, inl, inr, arith, Option-cases,
}
use news_board.Context.{Context}
use news_board.Crm.{AuditLogModel, CrmDb, bool, int}
use news_board.Errors.{Exception, error_exception, post_not_found}
use news_board.Exec.{ok, err, Result-cases}
use news_board.Local.{PostModel}
use news_board.Local.Repository.{find_post, get_post}
use news_board.World.{World}
use news_board.News.Effects.{audit_keeps}
use news_board.News.Posts.{delete_post}
use news_board.News.Schemas.{UpdatePostRequest}
use news_board.News.Updates.{apply_update, replace_options}
use news_board.News.Audited.{Audited, entry_row, audit_logs}

-- the row of an update, and of the deletion of a post
abbrev pub updated_row : Context → ℕ → UpdatePostRequest → CrmDb → AuditLogModel
updated_row ctx i req d =
    entry_row ctx "news.post.updated" "post" i
      (("options_replaced", bool (elim req.options [ none ↦ false | some os ↦ true ])) ∷ []) d

abbrev pub deleted_row : Context → ℕ → PostModel → CrmDb → AuditLogModel
deleted_row ctx i row d = entry_row ctx "news.post.deleted" "post" i (("type", int row.type) ∷ []) d

module _ (ctx : Context) (i : ℕ) (w : World) (calm : w.crm.faults ≡ []) where
  apply_update_logged :
      (req : UpdatePostRequest)
      → (apply_update ctx i req w).0 ≡ ok tt
      → (apply_update ctx i req w).1.crm.saved.audit_log
        ≡ w.crm.work.audit_log ++ updated_row ctx i req w.crm.work ∷ []
  unfolding apply_update replace_options
  apply_update_logged req h = grind (arith, audit_logs)

  apply_update_unlogged :
      (req : UpdatePostRequest) (e : Exception)
      → (apply_update ctx i req w).0 ≡ err e
      → (apply_update ctx i req w).1.crm ≡ w.crm
  unfolding apply_update replace_options
  apply_update_unlogged req e h = grind (arith, audit_keeps)

  delete_post_logged :
      (row : PostModel)
      → find_post ctx i w.local.work ≡ some row
      → (delete_post ctx i w).0 ≡ ok tt
      → (delete_post ctx i w).1.crm.saved.audit_log
        ≡ w.crm.work.audit_log ++ deleted_row ctx i row w.crm.work ∷ []
  unfolding delete_post get_post
  delete_post_logged row found h = grind (arith, audit_logs)

  delete_post_unlogged :
      (e : Exception) → (delete_post ctx i w).0 ≡ err e → (delete_post ctx i w).1.crm ≡ w.crm
  unfolding delete_post get_post
  delete_post_unlogged e h = grind (arith, audit_keeps)

  -- Where no operation on the CRM database fails, update_post up to its answer adds one
  -- committed entry to the audit trail where it succeeds, with the action news.post.updated,
  -- the entity post and its id, whether options were given, the id and the email of the
  -- caller's row, the source optimce-news-board and the community of the request, and leaves
  -- the CRM session as it was where it raises; so does delete_post on a post that the request
  -- finds, with the action news.post.deleted and the type of the post; on a post that it does
  -- not find, delete_post raises and leaves the CRM session as it was.
  pub posts-Audited :
      (req : UpdatePostRequest)
      → Audited (apply_update ctx i req w) w (updated_row ctx i req w.crm.work)
        × (((row : PostModel) × (find_post ctx i w.local.work ≡ some row)
              × Audited (delete_post ctx i w) w (deleted_row ctx i row w.crm.work))
            ⊎ ((find_post ctx i w.local.work ≡ none)
                × (e : Exception) × ((delete_post ctx i w).0 ≡ err e)
                × ((delete_post ctx i w).1.crm ≡ w.crm)))
  unfolding delete_post get_post
  posts-Audited req = (
    elim (Result-cases (apply_update ctx i req w).0) [
      | inl (tt, done) ↦ inl (done, apply_update_logged req done)
      | inr (e, raised) ↦ inr (e, raised, apply_update_unlogged req e raised)
    ],
    elim (Option-cases (find_post ctx i w.local.work)) [
      | inl missing ↦ inr (
        missing,
        error_exception post_not_found 404,
        ground arith,
        delete_post_unlogged (error_exception post_not_found 404) (ground arith),
      )
      | inr (row, found) ↦ inl (
        row,
        found,
        elim (Result-cases (delete_post ctx i w).0) [
          | inl (tt, done) ↦ inl (done, delete_post_logged row found done)
          | inr (e, raised) ↦ inr (e, raised, delete_post_unlogged e raised)
        ],
      )
    ],
  )
