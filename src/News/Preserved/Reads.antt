-- ===== src/News/Preserved/Reads.antt =====
-- Reading commits nothing.
use news_board.Prelude.{ℕ, ◌≡◌, refl, inl, inr, Option-cases, List, [], ◌∷◌, arith}
use news_board.Local.{PostModel, LocalSession}
use news_board.Context.{Context}
use news_board.World.{World}
use news_board.Local.Repository
use news_board.Local.Repository.{
  get_post_with_options, load_options, get_voter_votes, get_votes_for_post, get_voted_post_ids,
  load_each, lookup_loaded, select_options, page_of, newest_first, with_community_scope,
}
use news_board.News.Reads
use news_board.News.Reads.{voter_selection}
use news_board.News.Results.{get_results, present}

pub get_post_saved :
    (ctx : Context) (i : ℕ) (w : World) → (Reads.get_post ctx i w).1.local.saved ≡ w.local.saved
unfolding Reads.get_post get_post_with_options load_options voter_selection get_voter_votes
get_post_saved ctx i w = ground arith

pub get_results_saved :
    (ctx : Context) (i : ℕ) (w : World) → (get_results ctx i w).1.local.saved ≡ w.local.saved
unfolding get_results get_post_with_options load_options get_votes_for_post present
get_results_saved ctx i w = ground arith

load_each_saved : (ps : List PostModel) (s : LocalSession) → (load_each ps s).1.saved ≡ s.saved
unfolding load_options
load_each_saved [] s = refl
load_each_saved (p ∷ ps) s = elim (Option-cases (lookup_loaded p.id s.loaded)) [
  | inl fresh ↦ ground (
    arith,
    load_each_saved ps (record s { loaded = (p.id, select_options p.id s.work) ∷ s.loaded }),
  )
  | inr (os, cached) ↦ ground (arith, load_each_saved ps s)
]

pub list_posts_saved :
    (ctx : Context) (page page_size : ℕ) (w : World)
    → (Reads.list_posts ctx page page_size w).1.local.saved ≡ w.local.saved
unfolding Reads.list_posts Repository.list_posts get_voted_post_ids
list_posts_saved ctx page page_size w = ground (
  arith,
  load_each_saved
      (page_of page page_size (
        newest_first
          (with_community_scope ctx (λ (p : PostModel). p.id_community) w.local.work.posts)))
      w.local,
)
