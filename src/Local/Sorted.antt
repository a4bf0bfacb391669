-- ===== src/Local/Sorted.antt =====
-- The options of a post have different ids, also when they are sorted.
use news_board.Prelude.{ℕ, ◌≡◌, refl, List, [], ◌∷◌, map, filter, arith, ◌==◌}
use news_board.Prelude.Keys.{Nodup, nat_key, contains}
use news_board.Local.{PostPollModel, Db}
use news_board.Local.Repository.{insert_sorted, sort_options, select_options}
use news_board.Local.Consistency.{IsConsistent}
use news_board.Local.Distinct.{Nodup-map-filter}

contains-insert_sorted :
    (o : PostPollModel) (os : List PostPollModel) (i : ℕ)
    → contains (map (λ (o : PostPollModel). o.id) (insert_sorted o os)) i
      ≡ contains (map (λ (o : PostPollModel). o.id) (o ∷ os)) i
contains-insert_sorted o [] i = refl
contains-insert_sorted o (x ∷ os) i = ground (arith, contains-insert_sorted o os i)

Nodup-insert_sorted :
    (o : PostPollModel) (os : List PostPollModel)
    → Nodup (map (λ (o : PostPollModel). o.id) (o ∷ os))
    → Nodup (map (λ (o : PostPollModel). o.id) (insert_sorted o os))
Nodup-insert_sorted o [] n = n
Nodup-insert_sorted o (x ∷ os) n =
    ground (arith, Nodup-insert_sorted o os, contains-insert_sorted o os x.id)

contains-sort_options :
    (os : List PostPollModel) (i : ℕ)
    → contains (map (λ (o : PostPollModel). o.id) (sort_options os)) i
      ≡ contains (map (λ (o : PostPollModel). o.id) os) i
contains-sort_options [] i = refl
contains-sort_options (o ∷ os) i =
    ground (arith, contains-insert_sorted o (sort_options os) i, contains-sort_options os i)

Nodup-sort_options :
    (os : List PostPollModel)
    → Nodup (map (λ (o : PostPollModel). o.id) os)
    → Nodup (map (λ (o : PostPollModel). o.id) (sort_options os))
Nodup-sort_options [] n = tt
Nodup-sort_options (o ∷ os) n =
    let rest = Nodup-sort_options os n.1 in
    Nodup-insert_sorted o (sort_options os) (ground (arith, rest, contains-sort_options os o.id))

pub select_options-Nodup :
    (i : ℕ) (d : Db)
    → IsConsistent d
    → Nodup (map (λ (o : PostPollModel). o.id) (select_options i d))
unfolding select_options
select_options-Nodup i d c =
    let mine = λ (o : PostPollModel). o.id_post == i in
    Nodup-sort_options (filter mine d.options)
      (Nodup-map-filter (λ (o : PostPollModel). o.id) mine d.options c.options_distinct)

-- ---- counting by option
