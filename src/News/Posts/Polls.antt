-- ===== src/News/Posts/Polls.antt =====
-- api/news/service.py: `_validate_poll_payload` and `_build_options`.
use news_board.Prelude.{
  ℕ, suc, not, Option, none, some, List, [], ◌∷◌, length, ltb, leb, is_some, ◌&&◌, if◌then◌else◌,
}
use news_board.Prelude.Int.{ℤ, pos}
use news_board.Errors.{error_exception, invalid_poll}
use news_board.Exec.{Result, ok, err}
use news_board.Context.{Context, DateTime, aware, ensure_aware}
use news_board.Local.{PostPollModel}
use news_board.News.Schemas.{PollOptionInput, CreatePostRequest}

abbrev pub option_map : {A B : Type 0} → (A → B) → Option A → Option B
option_map f none = none
option_map f (some a) = some (f a)

-- `len(req.options) if req.options else 0`
abbrev pub option_count : Option (List PollOptionInput) → ℕ
option_count none = 0
option_count (some os) = length os

-- the tests on the expiry, and the aware expiry
abbrev check_expiry : ℕ → Option DateTime → Result (Option DateTime)
check_expiry now none = err (error_exception invalid_poll 422)
check_expiry now (some t) =
    if leb (ensure_aware t) now
    then err (error_exception invalid_poll 422)
    else ok (some (aware (ensure_aware t)))

unfoldable pub validate_poll_payload : Context → CreatePostRequest → Result (Option DateTime)
validate_poll_payload ctx req =
    if ltb (option_count req.options) 2
    then err (error_exception invalid_poll 422)
    else if not (
        is_some req.admin_visibility && is_some req.member_visibility && is_some req.member_display)
    then err (error_exception invalid_poll 422)
    else check_expiry ctx.now req.expires_at

abbrev order_or : Option ℤ → ℕ → ℤ
order_or none idx = pos idx
order_or (some n) idx = n

-- the rows from position `idx` on; their `id` is set by the flush
abbrev pub build_from : ℕ → List PollOptionInput → ℕ → ℕ → List PostPollModel
build_from idx [] post_id community = []
build_from idx (o ∷ os) post_id community =
    record {
      id = 0;
      id_community = community;
      id_post = post_id;
      option_value = o.option_value;
      display_order = order_or o.display_order idx;
    }
    ∷ build_from (suc idx) os post_id community

-- `_build_options`
abbrev pub build_options : List PollOptionInput → ℕ → ℕ → List PostPollModel
build_options options post_id community = build_from 0 options post_id community
