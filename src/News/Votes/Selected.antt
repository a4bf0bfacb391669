-- ===== src/News/Votes/Selected.antt =====
-- What `_validate_selection` of api/news/service.py accepts, on the options of a stored post.
use news_board.Prelude.{
  ℕ, ◌≡◌, true, false, not, Bool, Bool-cases, List, map, any, length, In, In-map_inv, In-any, arith,
  ==_iff, sym, ◌∙◌, inl, inr,
}
use news_board.Prelude.Keys.{
  contains, contains-In, In-contains, contains-fromkeys, fromkeys, nat_key,
}
use news_board.Const.{PostType}
use news_board.Exec.{ok}
use news_board.Local.{PostPollModel, Db}
use news_board.Local.Repository.{select_options}
use news_board.Local.Lookup.{In-select_options}
use news_board.News.Votes.{is_single, validate_selection}
use news_board.News.Votes.Swap.{IsOptionOf}

any-false : (p : ℕ → Bool) (is : List ℕ) (i : ℕ) → any p is ≡ false → In i is → p i ≡ false
any-false p is i h m = elim (Bool-cases (p i)) [
  | inl hit ↦ let some_hit = In-any p is i m hit in cc
  | inr miss ↦ miss
]

checks :
    (ids : List ℕ) (t : PostType) (options : List PostPollModel) (selected : List ℕ)
    → validate_selection ids t options ≡ ok selected
    → (any (λ i. not (contains (map (λ (o : PostPollModel). o.id) options) i)) (fromkeys ids)
        ≡ false)
      × (is_single t ≡ true → length (fromkeys ids) ≡ 1)
      × (selected ≡ fromkeys ids)
unfolding validate_selection
checks ids t options selected h = (ground arith, λ s. ground arith, ground arith)

-- A selection that is accepted is the request without repetitions, of options of the post, and of
-- one where the poll is single-choice.
pub validate_selection-accepted :
    (d : Db) (p : ℕ) (ids : List ℕ) (t : PostType) (selected : List ℕ)
    → validate_selection ids t (select_options p d) ≡ ok selected
    → (selected ≡ fromkeys ids)
      × ((j : ℕ) → In j ids → IsOptionOf p d j)
      × (is_single t ≡ true → length (fromkeys ids) ≡ 1)
validate_selection-accepted d p ids t selected accepted =
    let options = select_options p d in
    let (known, one, same) = checks ids t options selected accepted in
    (
      same,
      λ j m.
          let hit =
            any-false (λ k. not (contains (map (λ (o : PostPollModel). o.id) options) k))
              (fromkeys ids) j known
              (contains-In (fromkeys ids) j (contains-fromkeys ids j ∙ In-contains ids j m)) in
          let (o, mo, e) =
            In-map_inv (λ (o : PostPollModel). o.id) options j
              (contains-In (map (λ (o : PostPollModel). o.id) options) j (ground arith)) in
          let (stored, own) = (In-select_options p d o).0 mo in
          (o, stored, sym e, (==_iff o.id_post p).0 own),
      one,
    )
