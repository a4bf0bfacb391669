-- ===== src/News/Results/Visibility.antt =====
-- Who sees which results: the visibility matrix against an independent description.
use news_board.Prelude.{◌≡◌, ◌↔◌, ◌⊎◌, Bool, true, false, none, some, arith}
use news_board.Exec.{ok}
use news_board.Local.{PostModel}
use news_board.News.Schemas.{ResultsMode}
use news_board.News.Results.{resolve_results_visibility}

-- The time at which a member may look, by the stored `member_display`: 1 always, 2 after the own
-- vote, 3 after the end.
abbrev pub IsTime : PostModel → Bool → Bool → Type 0
IsTime post has_voted ended =
    (post.member_display ≡ some 1)
    ⊎ ((post.member_display ≡ some 2) × (has_voted ≡ true)
        ⊎ (post.member_display ≡ some 3) × (ended ≡ true))

-- The visibility matrix: for each stored setting and each time, exactly when the results are
-- shown with identities and exactly when they are shown as aggregates, to the privileged and to
-- everybody else.
pub resolve_results_visibility_matrix :
    (post : PostModel) (has_voted ended : Bool)
    → ((resolve_results_visibility post true has_voted ended ≡ ok (true, some ResultsMode.full))
        ↔ (post.admin_visibility ≡ some 1))
      × ((resolve_results_visibility post true has_voted ended
            ≡ ok (true, some ResultsMode.aggregate))
          ↔ ((post.admin_visibility ≡ none) ⊎ (post.admin_visibility ≡ some 0)))
      × ((resolve_results_visibility post false has_voted ended ≡ ok (true, some ResultsMode.full))
          ↔ ((post.member_visibility ≡ some 2) × IsTime post has_voted ended))
      × ((resolve_results_visibility post false has_voted ended
            ≡ ok (true, some ResultsMode.aggregate))
          ↔ ((post.member_visibility ≡ some 1) × IsTime post has_voted ended))
unfolding resolve_results_visibility
resolve_results_visibility_matrix post has_voted ended = (
  (ground arith, ground arith),
  (ground arith, ground arith),
  (ground arith, ground arith),
  (ground arith, ground arith),
)
