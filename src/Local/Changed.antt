-- ===== src/Local/Changed.antt =====
-- A post row can be changed in a consistent database, its keys and its type kept.
use news_board.Prelude.{
  ◌≡◌, refl, ◌⊎◌, true, false, Bool-cases, List, [], ◌∷◌, In, arith, inl, inr, ◌==◌,
}
use news_board.Local.{PostModel, Db}
use news_board.Local.Repository.{set_row}
use news_board.Local.Distinct.{map-set_row}
use news_board.Local.Consistency.{IsConsistent}

-- a row of the changed table is the new row, or an old row under another key
In-set_row :
    (row : PostModel) (ps : List PostModel) (p : PostModel)
    → In p (set_row row ps)
    → (q : PostModel) × In q ps
      × (p.id ≡ q.id)
      × (((p ≡ row) × (q.id ≡ row.id)) ⊎ ((p ≡ q) × ((q.id == row.id) ≡ false)))
In-set_row row [] p m = absurd m
In-set_row row (x ∷ ps) p m = elim (Bool-cases (x.id == row.id)) [
  | inl same ↦
      let split : (p ≡ row) ⊎ In p (set_row row ps) = ground arith in
      elim split [
        | inl e ↦ (x, inl refl, ground arith, inl (e, ground arith))
        | inr n ↦ let (q, there, i, k) = In-set_row row ps p n in (q, inr there, i, k)
      ]
  | inr other ↦
      let split : (p ≡ x) ⊎ In p (set_row row ps) = ground arith in
      elim split [
        | inl e ↦ (x, inl refl, ground arith, inr (e, other))
        | inr n ↦ let (q, there, i, k) = In-set_row row ps p n in (q, inr there, i, k)
      ]
]

-- every old row is there, or the new row in its place
set_row-In :
    (row : PostModel) (ps : List PostModel) (q : PostModel)
    → In q ps
    → (((q.id == row.id) ≡ true) × In row (set_row row ps))
      ⊎ (((q.id == row.id) ≡ false) × In q (set_row row ps))
set_row-In row [] q m = absurd m
set_row-In row (x ∷ ps) q (inl e) = ground arith
set_row-In row (x ∷ ps) q (inr m) = let ih = set_row-In row ps q m in ground (arith, ih)

module _ (d : Db) (c : IsConsistent d) (post row : PostModel) (there : In post d.posts)
    (id : row.id ≡ post.id) (community : row.id_community ≡ post.id_community)
    (type : row.type ≡ post.type) where
  abbrev pub changed : Db
  changed = record d { posts = set_row row d.posts }

  pub In-changed : In row changed.posts
  In-changed = let here = set_row-In row d.posts post there in ground (arith, here, id)

  -- the old row of a key, and the row of that key afterwards, agree on community and type
  kept :
      (p : PostModel)
      → In p changed.posts
      → (q : PostModel) × In q d.posts
        × (p.id ≡ q.id)
        × (p.id_community ≡ q.id_community)
        × (p.type ≡ q.type)
  kept p m =
      let (q, old, i, k) = In-set_row row d.posts p m in
      elim k [
        | inl (e, f) ↦
            let same : q ≡ post = c.post_unique q post old there (ground arith) in
            (q, old, i, ground (arith, same), ground (arith, same))
        | inr (e, f) ↦ (q, old, i, ground arith, ground arith)
      ]

  still :
      (q : PostModel)
      → In q d.posts
      → (p : PostModel) × In p changed.posts × (p.id ≡ q.id) × (p.id_community ≡ q.id_community)
  still q m = elim (set_row-In row d.posts q m) [
    | inl (same, new) ↦
        let one : q ≡ post = c.post_unique q post m there (ground (arith, id)) in
        (row, new, ground (arith, one, id), ground (arith, one, community))
    | inr (other, old) ↦ (q, old, refl, refl)
  ]

  pub changed-IsConsistent : IsConsistent changed
  changed-IsConsistent = record {
    keyed = record {
      post_fresh = λ p m.
          let (q, old, i, _, _) = kept p m in
          let below = c.post_fresh q old in ground (arith, i, below);
      post_unique = λ p q m n e.
          let (x, mx, ix, kx) = In-set_row row d.posts p m in
          let (y, my, iy, ky) = In-set_row row d.posts q n in
          let one : x ≡ y = c.post_unique x y mx my (ground (arith, ix, iy)) in
          ground (arith, kx, ky, one);
      option_fresh = c.option_fresh;
      option_unique = c.option_unique;
      option_post = λ o m.
          let (q, old, e, f) = c.option_post o m in
          let (p, new, i, j) = still q old in (p, new, ground (arith, e, i), ground (arith, f, j));
      vote_fresh = c.vote_fresh;
      vote_unique = c.vote_unique;
      vote_post = λ w m.
          let (q, old, e, f) = c.vote_post w m in
          let (p, new, i, j) = still q old in (p, new, ground (arith, e, i), ground (arith, f, j));
      vote_option = c.vote_option;
      posts_distinct = rw (map-set_row row d.posts) c.posts_distinct;
      options_distinct = c.options_distinct;
      votes_distinct = c.votes_distinct;
      vote_once = c.vote_once;
    };
    vote_single = λ p m t v.
        let (q, old, i, _, k) = kept p m in rw i (c.vote_single q old (ground (arith, k, t)) v);
  }
