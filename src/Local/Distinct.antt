-- ===== src/Local/Distinct.antt =====
-- Tables whose primary keys differ stay so when rows are removed or numbered rows are added.
use news_board.Prelude.{
  ℕ, suc, ◌≤◌, ◌<◌, ◌≡◌, refl, Bool, false, List, [], ◌∷◌, ◌++◌, map, filter, In, arith, inl, inr,
}
use news_board.Prelude.Keys.{Nodup, nat_key, contains}
use news_board.Local.{PostModel, PostPollVoteModel}
use news_board.Local.Repository.{set_row}
use news_board.Local.Ballots.{number}

module _ {A : Type 0} (f : A → ℕ) where
  contains-map-filter :
      (q : A → Bool) (xs : List A) (i : ℕ)
      → contains (map f xs) i ≡ false
      → contains (map f (filter q xs)) i ≡ false
  contains-map-filter q [] i h = refl
  contains-map-filter q (x ∷ xs) i h = ground (arith, contains-map-filter q xs i)

  pub Nodup-map-filter :
      (q : A → Bool) (xs : List A) → Nodup (map f xs) → Nodup (map f (filter q xs))
  Nodup-map-filter q [] h = tt
  Nodup-map-filter q (x ∷ xs) h =
      ground (arith, Nodup-map-filter q xs, contains-map-filter q xs (f x))

  contains_above :
      (i n : ℕ) (ys : List A)
      → i < n
      → ((y : A) → In y ys → n ≤ f y)
      → contains (map f ys) i ≡ false
  contains_above i n [] l h = refl
  contains_above i n (y ∷ ys) l h =
      ground (arith, h y (inl refl), contains_above i n ys l (λ x m. h x (inr m)))

  contains-map-append :
      (xs ys : List A) (i : ℕ)
      → contains (map f xs) i ≡ false
      → contains (map f ys) i ≡ false
      → contains (map f (xs ++ ys)) i ≡ false
  contains-map-append [] ys i h k = k
  contains-map-append (x ∷ xs) ys i h k = ground (arith, contains-map-append xs ys i)

  -- old keys below `n`, new keys from `n` on
  pub Nodup-map-append :
      (n : ℕ) (xs ys : List A)
      → ((x : A) → In x xs → f x < n)
      → ((y : A) → In y ys → n ≤ f y)
      → Nodup (map f xs)
      → Nodup (map f ys)
      → Nodup (map f (xs ++ ys))
  Nodup-map-append n [] ys below above h k = k
  Nodup-map-append n (x ∷ xs) ys below above h k = ground (
    arith,
    Nodup-map-append n xs ys (λ z m. below z (inr m)) above h.1 k,
    contains-map-append xs ys (f x),
    contains_above (f x) n ys (below x (inl refl)) above,
  )

number_above :
    (k n : ℕ) (vs : List PostPollVoteModel)
    → k < n
    → contains (map (λ (v : PostPollVoteModel). v.id) (number n vs)) k ≡ false
number_above k n [] l = refl
number_above k n (v ∷ vs) l = ground (arith, number_above k (suc n) vs)

pub number-Nodup :
    (n : ℕ) (vs : List PostPollVoteModel)
    → Nodup (map (λ (v : PostPollVoteModel). v.id) (number n vs))
number-Nodup n [] = tt
number-Nodup n (v ∷ vs) = ground (arith, number-Nodup (suc n) vs, number_above n (suc n) vs)

-- A row that takes the place of the row of its key changes no key.
pub map-set_row :
    (row : PostModel) (ps : List PostModel)
    → map (λ (p : PostModel). p.id) (set_row row ps) ≡ map (λ (p : PostModel). p.id) ps
map-set_row row [] = refl
map-set_row row (p ∷ ps) = ground (arith, map-set_row row ps)
