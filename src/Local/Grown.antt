-- ===== src/Local/Grown.antt =====
-- A post and its options can be added to a consistent database.
use mathlib.Core.List.{append-nil, append_assoc}
use news_board.Prelude.{
  ℕ, suc, ◌+◌, ◌≤◌, ◌<◌, String, ◌≡◌, refl, ap, true, false, some, List, [], ◌∷◌, ◌++◌, map, length,
  In, In-append, In-append_left, arith, inl, inr, any, ◌==◌, filter_none,
}
use news_board.Local.{PostModel, PostPollModel, Db}
use news_board.Local.Repository.{insert_options, is_smallint}
use news_board.Local.Ballots.{holds, ballot}
use news_board.Local.Distinct.{Nodup-map-append}
use news_board.Prelude.Keys.{Nodup, nat_key, contains}
use news_board.Local.Consistency.{IsConsistent}

abbrev pub with_post : PostModel → Db → Db
with_post row d = record d { posts = d.posts ++ row ∷ []; next_post = suc d.next_post }

-- the rows as the identity column numbers them
abbrev pub number_options : ℕ → List PostPollModel → List PostPollModel
number_options n [] = []
number_options n (o ∷ os) = record o { id = n } ∷ number_options (suc n) os

abbrev pub with_options : List PostPollModel → Db → Db
with_options os d = record d {
  options = d.options ++ number_options d.next_option os;
  next_option = d.next_option + length os;
}

-- Options of stored posts, with display orders that fit the column, are all inserted.
pub insert_options_total :
    (os : List PostPollModel) (d : Db)
    → ((o : PostPollModel)
        → In o os
        → (is_smallint o.display_order ≡ true)
          × (any (λ (p : PostModel). p.id == o.id_post) d.posts ≡ true))
    → insert_options os d ≡ some (number_options d.next_option os, with_options os d)
insert_options_total [] d h = ground (arith, append-nil d.options)
insert_options_total (o ∷ os) d h =
    let row : PostPollModel = record o { id = d.next_option } in
    let d' : Db = record d { options = d.options ++ row ∷ []; next_option = suc d.next_option } in
    ground (
      arith,
      h o (inl refl),
      insert_options_total os d' (λ q m. h q (inr m)),
      append_assoc d.options (row ∷ []) (number_options (suc d.next_option) os),
    )

module _ (d : Db) (c : IsConsistent d) (row : PostModel) (id : row.id ≡ d.next_post) where
  no_votes : (v : String) → ballot row.id v d ≡ []
  no_votes v = ap (map (λ w. w.id_post_poll)) (
      filter_none (holds row.id v) d.votes (λ w m.
        let (p, there, e, _) = c.vote_post w m in
        let below = c.post_fresh p there in
        let apart : (w.id_post == row.id) ≡ false = ground (arith, id, e, below) in
        ground (arith, apart)))

  pub with_post-IsConsistent : IsConsistent (with_post row d)
  with_post-IsConsistent = record {
    keyed = record {
      post_fresh = λ p m. elim (In-append p d.posts (row ∷ []) m) [
        | inl old ↦ let below = c.post_fresh p old in omega (arith, below)
        | inr new ↦ ground (arith, id, new)
      ];
      post_unique = λ p q m n e. elim (In-append p d.posts (row ∷ []) m) [
        | inl old ↦ elim (In-append q d.posts (row ∷ []) n) [
          | inl older ↦ c.post_unique p q old older e
          | inr new ↦ let below = c.post_fresh p old in ground (arith, id, below)
        ]
        | inr new ↦ elim (In-append q d.posts (row ∷ []) n) [
          | inl old ↦ let below = c.post_fresh q old in ground (arith, id, below)
          | inr newer ↦ ground arith
        ]
      ];
      option_fresh = c.option_fresh;
      option_unique = c.option_unique;
      option_post = λ o m.
          let (p, there, e, f) = c.option_post o m in
          (p, In-append_left p d.posts (row ∷ []) there, e, f);
      vote_fresh = c.vote_fresh;
      vote_unique = c.vote_unique;
      vote_post = λ w m.
          let (p, there, e, f) = c.vote_post w m in
          (p, In-append_left p d.posts (row ∷ []) there, e, f);
      vote_option = c.vote_option;
      posts_distinct =
          Nodup-map-append (λ (p : PostModel). p.id) d.next_post d.posts (row ∷ []) c.post_fresh
            (λ p m. ground (arith, id)) c.posts_distinct (refl, tt);
      options_distinct = c.options_distinct;
      votes_distinct = c.votes_distinct;
      vote_once = c.vote_once;
    };
    vote_single = λ p m t v. elim (In-append p d.posts (row ∷ []) m) [
      | inl old ↦ c.vote_single p old t v
      | inr new ↦ ground (arith, no_votes v, new)
    ];
  }

In-number_options :
    (n : ℕ) (os : List PostPollModel) (q : PostPollModel)
    → In q (number_options n os)
    → (o : PostPollModel) × In o os
      × (q.id_post ≡ o.id_post)
      × (q.id_community ≡ o.id_community)
      × (n ≤ q.id)
      × (q.id < n + length os)
In-number_options n [] q m = absurd m
In-number_options n (o ∷ os) q (inl e) =
    (o, inl refl, ground arith, ground arith, ground arith, ground arith)
In-number_options n (o ∷ os) q (inr m) =
    let (x, there, p, c, low, high) = In-number_options (suc n) os q m in
    (x, inr there, p, c, omega (arith, low), omega (arith, high))

number_options_above :
    (k n : ℕ) (os : List PostPollModel)
    → k < n
    → contains (map (λ (o : PostPollModel). o.id) (number_options n os)) k ≡ false
number_options_above k n [] l = refl
number_options_above k n (o ∷ os) l = ground (arith, number_options_above k (suc n) os)

number_options-Nodup :
    (n : ℕ) (os : List PostPollModel)
    → Nodup (map (λ (o : PostPollModel). o.id) (number_options n os))
number_options-Nodup n [] = tt
number_options-Nodup n (o ∷ os) =
    ground (arith, number_options-Nodup (suc n) os, number_options_above n (suc n) os)

number_options_unique :
    (n : ℕ) (os : List PostPollModel) (q x : PostPollModel)
    → In q (number_options n os)
    → In x (number_options n os)
    → q.id ≡ x.id
    → q ≡ x
number_options_unique n [] q x m k e = absurd m
number_options_unique n (o ∷ os) q x (inl a) (inl b) e = ground arith
number_options_unique n (o ∷ os) q x (inl a) (inr k) e =
    let (_, _, _, _, low, _) = In-number_options (suc n) os x k in ground (arith, low)
number_options_unique n (o ∷ os) q x (inr m) (inl b) e =
    let (_, _, _, _, low, _) = In-number_options (suc n) os q m in ground (arith, low)
number_options_unique n (o ∷ os) q x (inr m) (inr k) e = number_options_unique (suc n) os q x m k e

module _ (d : Db) (c : IsConsistent d) (os : List PostPollModel)
    (posts : (o : PostPollModel)
      → In o os
      → (p : PostModel) × In p d.posts
        × (p.id ≡ o.id_post)
        × (p.id_community ≡ o.id_community)) where
  pub with_options-IsConsistent : IsConsistent (with_options os d)
  with_options-IsConsistent = record {
    keyed = record {
      post_fresh = c.post_fresh;
      post_unique = c.post_unique;
      option_fresh = λ o m. elim (In-append o d.options (number_options d.next_option os) m) [
        | inl old ↦ let below = c.option_fresh o old in omega (arith, below)
        | inr new ↦ (In-number_options d.next_option os o new).5
      ];
      option_unique = λ o q m n e.
          elim (In-append o d.options (number_options d.next_option os) m) [
            | inl old ↦ elim (In-append q d.options (number_options d.next_option os) n) [
              | inl older ↦ c.option_unique o q old older e
              | inr new ↦
                  let (_, _, _, _, low, _) = In-number_options d.next_option os q new in
                  let below = c.option_fresh o old in ground (arith, low, below)
            ]
            | inr new ↦ elim (In-append q d.options (number_options d.next_option os) n) [
              | inl old ↦
                  let (_, _, _, _, low, _) = In-number_options d.next_option os o new in
                  let below = c.option_fresh q old in ground (arith, low, below)
              | inr newer ↦ number_options_unique d.next_option os o q new newer e
            ]
          ];
      option_post = λ q m. elim (In-append q d.options (number_options d.next_option os) m) [
        | inl old ↦ c.option_post q old
        | inr new ↦
            let (o, there, post, community, _, _) = In-number_options d.next_option os q new in
            let (p, mp, e, f) = posts o there in
            (p, mp, ground (arith, e, post), ground (arith, f, community))
      ];
      vote_fresh = c.vote_fresh;
      vote_unique = c.vote_unique;
      vote_post = c.vote_post;
      vote_option = λ w m.
          let (o, there, e, f) = c.vote_option w m in
          (o, In-append_left o d.options (number_options d.next_option os) there, e, f);
      posts_distinct = c.posts_distinct;
      options_distinct =
          Nodup-map-append (λ (o : PostPollModel). o.id) d.next_option d.options
            (number_options d.next_option os) c.option_fresh
            (λ o m. (In-number_options d.next_option os o m).4) c.options_distinct
            (number_options-Nodup d.next_option os);
      votes_distinct = c.votes_distinct;
      vote_once = c.vote_once;
    };
    vote_single = c.vote_single;
  }
