-- ===== src/News/Reads.antt =====
-- api/news/service.py: `list_posts` and `get_post`; core/api_response.py: the pagination.
use news_board.Prelude.{
  ℕ, ◌+◌, ◌-◌, ◌/◌, Bool, true, false, none, some, List, [], ◌∷◌, map, length, ◌==◌, if◌then◌else◌,
}
use news_board.Prelude.Keys.{contains, nat_key}
use news_board.Errors.{error_exception, post_not_found, unexpected}
use news_board.Exec.{Result, ok, err, Exec, ◌>>=◌, or_raise, lift, pure}
use news_board.Const.{PostType, is_poll, post_type_of_int}
use news_board.Context.{Context}
use news_board.Local.{PostModel, PostPollModel}
use news_board.Local.Repository
use news_board.Local.Repository.{
  get_post_with_options, get_voter_votes, get_voted_post_ids, add_options, count_votes_for_post,
  save_post, assign_options,
}
use news_board.World.{World, on_local}
use news_board.News.{poll_ended, current_voter, post_type_of}
use news_board.News.Schemas.{PostDetail, PostListItem}
use news_board.News.Mappers.{to_post_detail, to_post_list_item}

-- `_voter_selection`
abbrev selection_of : Context → PostModel → PostType → Exec World (List ℕ)
selection_of ctx row post_type w = elim (is_poll post_type) [
  | false ↦ (ok [], w)
  | true ↦ elim (current_voter ctx) [
    | none ↦ (ok [], w)
    | some v ↦
        (on_local (get_voter_votes ctx row.id v) >>= λ votes.
        pure (map (λ x. x.id_post_poll) votes))
          w
  ]
]

unfoldable pub voter_selection : Context → PostModel → Exec World (List ℕ)
voter_selection ctx row = do post_type ← post_type_of row; selection_of ctx row post_type

-- `bool(option_ids)`
abbrev pub nonempty : List ℕ → Bool
nonempty [] = false
nonempty (i ∷ is) = true

unfoldable pub get_post : Context → ℕ → Exec World PostDetail
unfolding voter_selection
get_post ctx post_id = do
  found ← on_local (get_post_with_options ctx post_id)
  (row, options) ← or_raise found (error_exception post_not_found 404)
  mine ← voter_selection ctx row
  lift (to_post_detail ctx row options (nonempty mine) (poll_ended ctx row) mine)

abbrev bind : {A B : Type 0} → Result A → (A → Result B) → Result B
bind (ok a) f = f a
bind (err e) f = err e

abbrev Row : Type 0
Row = PostModel × List PostPollModel

-- `[p.id for p in rows if PostType(p.type).is_poll]`
abbrev pub poll_ids : List Row → Result (List ℕ)
poll_ids [] = ok []
poll_ids ((p, os) ∷ rows) =
    let rest = poll_ids rows in
    elim (post_type_of_int p.type) [
      | none ↦ err unexpected
      | some t ↦ bind rest (λ ids. ok (if is_poll t then p.id ∷ ids else ids))
    ]

-- the polls among the rows that the requester has voted on
abbrev pub voted_ids : Context → List Row → Exec World (List ℕ)
voted_ids ctx rows w = elim (current_voter ctx) [
  | none ↦ (ok [], w)
  | some v ↦ (lift (poll_ids rows) >>= λ ids. on_local (get_voted_post_ids ctx v ids)) w
]

unfoldable pub list_items : Context → List ℕ → List Row → Result (List PostListItem)
unfolding to_post_list_item poll_ended
list_items ctx voted [] = ok []
list_items ctx voted ((p, os) ∷ rows) =
    let rest = list_items ctx voted rows in
    bind (to_post_list_item ctx p (contains voted p.id) (poll_ended ctx p) (length os))
      (λ item. bind rest (λ items. ok (item ∷ items)))

-- `Pagination`
pub record Pagination : Type 0 where
  pub page : ℕ
  pub limit : ℕ
  pub total : ℕ
  pub total_pages : ℕ

-- `-(-total // page_size) if page_size else 0`: the quotient, rounded up
unfoldable pub total_pages_of : ℕ → ℕ → ℕ
total_pages_of total page_size = if page_size == 0 then 0 else (total + page_size - 1) / page_size

unfoldable pub list_posts : Context → ℕ → ℕ → Exec World (List PostListItem × Pagination)
unfolding list_items total_pages_of
list_posts ctx page page_size = do
  (rows, total) ← on_local (Repository.list_posts ctx page page_size)
  voted ← voted_ids ctx rows
  items ← lift (list_items ctx voted rows)
  pure (
    items,
    record {
      page = page;
      limit = page_size;
      total = total;
      total_pages = total_pages_of total page_size;
    },
  )
