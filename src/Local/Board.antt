-- ===== src/Local/Board.antt =====
-- The page of the board that `list_posts` of api/news/repository.py returns.
use news_board.Prelude.{
  ℕ, zero, suc, ◌≤◌, ◌≡◌, refl, true, false, Bool-cases, List, [], ◌∷◌, map, length, take, drop,
  All, In, arith, inl, inr, Option-cases,
}
use Prim.Native.Nat.{◌-◌, ◌*◌}
use news_board.Context.{Context}
use news_board.Exec.{ok}
use news_board.Local.{PostModel, PostPollModel, LocalSession}
use news_board.Local.Repository.{
  in_scope, with_community_scope, newer, insert_newest, newest_first, load_options, select_options,
  load_each, lookup_loaded, list_posts,
}

-- no post comes after one that is older
abbrev pub Newest : List PostModel → Type 0
Newest [] = Unit
Newest (p ∷ ps) = All (λ q. newer q p ≡ false) ps × Newest ps

abbrev pub OnBoard : Context → LocalSession → PostModel → Type 0
OnBoard ctx s p = In p s.work.posts × (in_scope ctx.internal_community_id p.id_community ≡ true)

newer_trans : (p q r : PostModel) → newer p q ≡ true → newer r q ≡ false → newer r p ≡ false
newer_trans p q r a b = ground arith

newer_asym : (p q : PostModel) → newer p q ≡ true → newer q p ≡ false
newer_asym p q a = ground arith

All-insert_newest :
    (P : PostModel → Type 0) (p : PostModel) (qs : List PostModel)
    → P p
    → All P qs
    → All P (insert_newest p qs)
All-insert_newest P p [] h a = (h, tt)
All-insert_newest P p (q ∷ qs) h a = elim (Bool-cases (newer p q)) [
  | inl front ↦ ground (arith, h, a)
  | inr later ↦ let rest = All-insert_newest P p qs h a.1 in ground (arith, rest, a)
]

All-newer :
    (p q : PostModel) (qs : List PostModel)
    → newer p q ≡ true
    → All (λ r. newer r q ≡ false) qs
    → All (λ r. newer r p ≡ false) qs
All-newer p q [] h a = tt
All-newer p q (r ∷ qs) h a = (newer_trans p q r h a.0, All-newer p q qs h a.1)

Newest-insert_newest :
    (p : PostModel) (qs : List PostModel) → Newest qs → Newest (insert_newest p qs)
Newest-insert_newest p [] n = (tt, tt)
Newest-insert_newest p (q ∷ qs) n = elim (Bool-cases (newer p q)) [
  | inl front ↦
      let rest = All-newer p q qs front n.0 in
      let first = newer_asym p q front in ground (arith, rest, first, n)
  | inr later ↦
      let tail = Newest-insert_newest p qs n.1 in
      let all = All-insert_newest (λ r. newer r q ≡ false) p qs later n.0 in
      ground (arith, tail, all)
]

pub Newest-newest_first : (ps : List PostModel) → Newest (newest_first ps)
Newest-newest_first [] = tt
Newest-newest_first (p ∷ ps) = Newest-insert_newest p (newest_first ps) (Newest-newest_first ps)

All-newest_first :
    (P : PostModel → Type 0) (ps : List PostModel) → All P ps → All P (newest_first ps)
All-newest_first P [] a = tt
All-newest_first P (p ∷ ps) a =
    All-insert_newest P p (newest_first ps) a.0 (All-newest_first P ps a.1)

All-take : (P : PostModel → Type 0) (n : ℕ) (ps : List PostModel) → All P ps → All P (take n ps)
All-take P zero ps a = tt
All-take P (suc n) [] a = tt
All-take P (suc n) (p ∷ ps) a = (a.0, All-take P n ps a.1)

All-drop : (P : PostModel → Type 0) (n : ℕ) (ps : List PostModel) → All P ps → All P (drop n ps)
All-drop P zero ps a = a
All-drop P (suc n) [] a = a
All-drop P (suc n) (p ∷ ps) a = All-drop P n ps a.1

Newest-take : (n : ℕ) (ps : List PostModel) → Newest ps → Newest (take n ps)
Newest-take zero ps a = tt
Newest-take (suc n) [] a = tt
Newest-take (suc n) (p ∷ ps) a = (All-take (λ q. newer q p ≡ false) n ps a.0, Newest-take n ps a.1)

Newest-drop : (n : ℕ) (ps : List PostModel) → Newest ps → Newest (drop n ps)
Newest-drop zero ps a = a
Newest-drop (suc n) [] a = a
Newest-drop (suc n) (p ∷ ps) a = Newest-drop n ps a.1

length-take : (n : ℕ) (ps : List PostModel) → length (take n ps) ≤ n
length-take zero ps = ground arith
length-take (suc n) [] = ground arith
length-take (suc n) (p ∷ ps) = let h = length-take n ps in omega (arith, h)

All-filter :
    (ctx : Context) (s : LocalSession) (ps : List PostModel)
    → ((p : PostModel) → In p ps → In p s.work.posts)
    → All (OnBoard ctx s) (with_community_scope ctx (λ p. p.id_community) ps)
All-filter ctx s [] h = tt
All-filter ctx s (p ∷ ps) h =
    ground (arith, h p (inl refl), All-filter ctx s ps (λ q m. h q (inr m)))

-- `load_each` keeps the posts, in their order
pub load_each-posts :
    (ps : List PostModel) (s : LocalSession)
    → (rows : List (PostModel × List PostPollModel)) × ((load_each ps s).0 ≡ ok rows)
      × (map (λ (r : PostModel × List PostPollModel). r.0) rows ≡ ps)
unfolding load_options
load_each-posts [] s = ([], refl, refl)
load_each-posts (p ∷ ps) s = elim (Option-cases (lookup_loaded p.id s.loaded)) [
  | inl fresh ↦
      let os = select_options p.id s.work in
      let (rows, done, same) = load_each-posts ps (record s { loaded = (p.id, os) ∷ s.loaded }) in
      ((p, os) ∷ rows, ground arith, ground arith)
  | inr (os, cached) ↦
      let (rows, done, same) = load_each-posts ps s in ((p, os) ∷ rows, ground arith, ground arith)
]

-- The query for a page of the board returns, with the number of posts of the request's community;
-- the posts it lists are stored posts of that community, newest first, and at most as many as
-- asked for.
pub list_posts_board :
    (ctx : Context) (page page_size : ℕ) (s : LocalSession)
    → (rows : List (PostModel × List PostPollModel)) × ((list_posts ctx page page_size s).0
        ≡ ok (
          rows,
          length (with_community_scope ctx (λ (p : PostModel). p.id_community) s.work.posts),
        ))
      × Newest (map (λ (r : PostModel × List PostPollModel). r.0) rows)
      × All (OnBoard ctx s) (map (λ (r : PostModel × List PostPollModel). r.0) rows)
      × (length (map (λ (r : PostModel × List PostPollModel). r.0) rows) ≤ page_size)
unfolding list_posts
list_posts_board ctx page page_size s =
    let base = with_community_scope ctx (λ (p : PostModel). p.id_community) s.work.posts in
    let skipped = drop ((page - 1) * page_size) (newest_first base) in
    let (rows, done, same) = load_each-posts (take page_size skipped) s in
    (
      rows,
      ground arith,
      rw same (
          Newest-take page_size skipped
            (Newest-drop ((page - 1) * page_size) (newest_first base) (Newest-newest_first base))),
      rw same (
          All-take (OnBoard ctx s) page_size skipped (
            All-drop (OnBoard ctx s) ((page - 1) * page_size) (newest_first base)
              (All-newest_first (OnBoard ctx s) base (All-filter ctx s s.work.posts (λ p m. m))))),
      rw same (length-take page_size skipped),
    )
