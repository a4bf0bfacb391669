-- ===== src/News/Pages.antt =====
-- The pages of `list_posts`, from the first to the last that `Pagination` names.
use mathlib.Core.List.{Perm}
use mathlib.Core.List.Perm
use native.Mathlib.Nat.{lt-div-mul-add, suc-mul}
use news_board.Prelude.{
  ℕ, zero, suc, ◌+◌, ◌-◌, ◌*◌, ◌/◌, ◌≤◌, ◌<◌, ◌≡◌, refl, sym, ap, ◌∙◌, false, Bool-cases, List, [],
  ◌∷◌, ◌++◌, map, length, take, drop, arith, inl, inr, ◌==◌, ==_iff,
}
use news_board.Context.{Context}
use news_board.Exec.{Result, ok, err}
use news_board.Local.{PostModel, PostPollModel, LocalSession}
use news_board.Local.Repository.{
  with_community_scope, newer, insert_newest, newest_first, page_of, list_posts,
}
use news_board.Local.Board.{Newest, Newest-newest_first, load_each-posts}
use news_board.News.Reads.{total_pages_of}

module _ {A : Type 0} where
  take-drop : (n : ℕ) (xs : List A) → take n xs ++ drop n xs ≡ xs
  take-drop zero xs = refl
  take-drop (suc n) [] = refl
  take-drop (suc n) (x ∷ xs) = ap (◌∷◌ x) (take-drop n xs)

  drop-nil : (n : ℕ) → drop {A = A} n [] ≡ []
  drop-nil zero = refl
  drop-nil (suc n) = refl

  drop-drop : (n m : ℕ) (xs : List A) → drop n (drop m xs) ≡ drop (m + n) xs
  drop-drop n zero xs = let e : zero + n ≡ n = omega arith in rw e refl
  drop-drop n (suc m) [] = rw (drop-nil n, drop-nil (suc m + n)) refl
  drop-drop n (suc m) (x ∷ xs) =
      let e : suc m + n ≡ suc (m + n) = omega arith in rw e (drop-drop n m xs)

  drop_all : (n : ℕ) (xs : List A) → length xs ≤ n → drop n xs ≡ []
  drop_all zero [] h = refl
  drop_all zero (x ∷ xs) h = absurd (omega arith)
  drop_all (suc n) [] h = refl
  drop_all (suc n) (x ∷ xs) h = drop_all n xs (omega arith)

-- the number of pages is enough
total_pages_of-covers : (total size : ℕ) → 1 ≤ size → total ≤ total_pages_of total size * size
unfolding total_pages_of
total_pages_of-covers total size h =
    let some_ : (size == 0) ≡ false = ground (arith, ==_iff size 0) in
    let enough : total + size - 1 < (total + size - 1) / size * size + size =
      lt-div-mul-add (omega arith) in
    rw some_ (omega (arith, enough))

-- the posts of one page, and of some pages from one on
abbrev posts_in : Result (List (PostModel × List PostPollModel) × ℕ) → List PostModel
posts_in (ok (rows, total)) = map (λ (r : PostModel × List PostPollModel). r.0) rows
posts_in (err e) = []

abbrev total_in : Result (List (PostModel × List PostPollModel) × ℕ) → ℕ
total_in (ok (rows, total)) = total
total_in (err e) = 0

-- the number of pages that a page of the board comes with
abbrev pub pages_of : Context → ℕ → ℕ → LocalSession → ℕ
pages_of ctx page size s = total_pages_of (total_in (list_posts ctx page size s).0) size

abbrev pub page_posts : Context → ℕ → ℕ → LocalSession → List PostModel
page_posts ctx page size s = posts_in (list_posts ctx page size s).0

unfoldable pub pages_from : Context → ℕ → LocalSession → ℕ → ℕ → List PostModel
pages_from ctx size s page zero = []
pages_from ctx size s page (suc n) =
    page_posts ctx page size s ++ pages_from ctx size s (suc page) n

-- The queries for the pages read the posts that are sorted, page by page.
page_posts-page_of :
    (ctx : Context) (page size : ℕ) (s : LocalSession)
    → page_posts ctx page size s
      ≡ page_of page size
          (newest_first (with_community_scope ctx (λ (p : PostModel). p.id_community) s.work.posts))
unfolding list_posts
page_posts-page_of ctx page size s =
    let base = with_community_scope ctx (λ (p : PostModel). p.id_community) s.work.posts in
    let (rows, done, same) = load_each-posts (page_of page size (newest_first base)) s in
    ground (arith, done, same)

pages_from-drop :
    (ctx : Context) (size : ℕ) (s : LocalSession) (page n : ℕ)
    → let board =
        newest_first (with_community_scope ctx (λ (p : PostModel). p.id_community) s.work.posts) in
      length board ≤ (page + n) * size
      → pages_from ctx size s (suc page) n ≡ drop (page * size) board
unfolding pages_from
pages_from-drop ctx size s page zero h =
    let board =
      newest_first (with_community_scope ctx (λ (p : PostModel). p.id_community) s.work.posts) in
    let e : page + zero ≡ page = omega arith in sym (drop_all (page * size) board (rw (← e) h))
pages_from-drop ctx size s page (suc n) h =
    let board =
      newest_first (with_community_scope ctx (λ (p : PostModel). p.id_community) s.work.posts) in
    let start = page * size in
    let first : page_posts ctx (suc page) size s ≡ take size (drop start board) =
      let e : suc page - 1 ≡ page = omega arith in
      page_posts-page_of ctx (suc page) size s ∙ ap (λ k. take size (drop (k * size) board)) e in
    let rest =
      pages_from-drop ctx size s (suc page) n
        (let e : page + suc n ≡ suc page + n = omega arith in rw (← e) h) in
    let next : drop (suc page * size) board ≡ drop size (drop start board) =
      ap (λ k. drop k board) (suc-mul page size) ∙ sym (drop-drop size start board) in
    rw (first, rest, next) (take-drop size (drop start board))

insert_newest-Perm : (p : PostModel) (qs : List PostModel) → Perm (insert_newest p qs) (p ∷ qs)
insert_newest-Perm p [] = Perm.refl (p ∷ [])
insert_newest-Perm p (q ∷ qs) = elim (Bool-cases (newer p q)) [
  | inl front ↦ rw front (Perm.refl (p ∷ q ∷ qs))
  | inr later ↦ rw later (Perm.trans (Perm.cons q (insert_newest-Perm p qs)) (Perm.swap p q qs))
]

newest_first-Perm : (ps : List PostModel) → Perm (newest_first ps) ps
newest_first-Perm [] = Perm.refl []
newest_first-Perm (p ∷ ps) =
    Perm.trans (insert_newest-Perm p (newest_first ps)) (Perm.cons p (newest_first-Perm ps))

length-insert_newest :
    (p : PostModel) (qs : List PostModel) → length (insert_newest p qs) ≡ suc (length qs)
length-insert_newest p [] = refl
length-insert_newest p (q ∷ qs) = ground (arith, length-insert_newest p qs)

length-newest_first : (ps : List PostModel) → length (newest_first ps) ≡ length ps
length-newest_first [] = refl
length-newest_first (p ∷ ps) =
    length-insert_newest p (newest_first ps) ∙ ap suc (length-newest_first ps)

pages_of-length :
    (ctx : Context) (page size : ℕ) (s : LocalSession)
    → pages_of ctx page size s
      ≡ total_pages_of
          (length (with_community_scope ctx (λ (p : PostModel). p.id_community) s.work.posts))
          size
unfolding list_posts
pages_of-length ctx page size s =
    let base = with_community_scope ctx (λ (p : PostModel). p.id_community) s.work.posts in
    let (rows, done, same) = load_each-posts (page_of page size (newest_first base)) s in
    ground (arith, done)

-- With at least one post on a page, the pages from the first to the last that the pagination of
-- any page counts, read one after the other, have every post of the request's community exactly
-- once, newest first.
pub pages_from-Perm :
    (ctx : Context) (page size : ℕ) (s : LocalSession)
    → 1 ≤ size
    → let pages = pages_from ctx size s 1 (pages_of ctx page size s) in
      Perm pages (with_community_scope ctx (λ (p : PostModel). p.id_community) s.work.posts)
      × Newest pages
pages_from-Perm ctx page size s h =
    let base = with_community_scope ctx (λ (p : PostModel). p.id_community) s.work.posts in
    let n = total_pages_of (length base) size in
    let e : zero + n ≡ n = omega arith in
    let none_before : zero * size ≡ zero = omega arith in
    let all : pages_from ctx size s 1 (pages_of ctx page size s) ≡ newest_first base =
      rw (pages_of-length ctx page size s) (
        pages_from-drop ctx size s 0 n
          (rw (length-newest_first base, e) (total_pages_of-covers (length base) size h))
        ∙ ap (λ k. drop k (newest_first base)) none_before) in
    (rw all (newest_first-Perm base), rw all (Newest-newest_first base))
