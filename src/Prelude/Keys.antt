-- ===== src/Prelude/Keys.antt =====
-- Keys that Python compares with `==` and hashes: `in`, `dict.fromkeys` and sets over them.
use mathlib.Core.List.{append-nil, append_assoc}
use news_board.Prelude.{
  ℕ, String, ◌≡◌, refl, sym, ◌∙◌, List, [], ◌∷◌, ◌++◌, ◌↔◌, inl, inr, Bool, true, false, ◌||◌,
  arith, ◌==◌, ==_iff, str_eq, eq_iff, if◌then◌else◌, In, Bool-cases,
}

pub record Key (A : Type 0) : Type 0 where
  pub beq : A → A → Bool
  pub beq_iff : (a b : A) → (beq a b ≡ true) ↔ (a ≡ b)

instance abbrev pub nat_key : Key ℕ
nat_key = record { beq = ◌==◌; beq_iff = ==_iff }

instance abbrev pub string_key : Key String
string_key = record { beq = str_eq; beq_iff = eq_iff }

module _ {A : Type 0} ⦃k : Key A⦄ where
  -- `a in xs`
  abbrev pub contains : List A → A → Bool
  contains [] a = false
  contains (x ∷ xs) a = k.beq a x || contains xs a

  abbrev pub add_key : List A → A → List A
  add_key seen a = if contains seen a then seen else seen ++ a ∷ []

  abbrev pub add_keys : List A → List A → List A
  add_keys seen [] = seen
  add_keys seen (x ∷ xs) = add_keys (add_key seen x) xs

  -- `list(dict.fromkeys(xs))`: the first occurrence of each, in order
  unfoldable pub fromkeys : List A → List A
  fromkeys xs = add_keys [] xs

  -- no key is listed twice
  abbrev pub Nodup : List A → Type 0
  Nodup [] = Unit
  Nodup (x ∷ xs) = (contains xs x ≡ false) × Nodup xs

  pub beq_refl : (a : A) → k.beq a a ≡ true
  beq_refl a = (k.beq_iff a a).1 refl

  pub contains-In : (xs : List A) (a : A) → contains xs a ≡ true → In a xs
  contains-In [] a h = cc
  contains-In (x ∷ xs) a h = elim (Bool-cases (k.beq a x)) [
    | inl same ↦ inl ((k.beq_iff a x).0 same)
    | inr other ↦ inr (contains-In xs a (rw other at h))
  ]

  pub In-contains : (xs : List A) (a : A) → In a xs → contains xs a ≡ true
  In-contains [] a m = absurd m
  In-contains (x ∷ xs) a (inl e) = rw (e, beq_refl x)
  In-contains (x ∷ xs) a (inr m) = ground (arith, In-contains xs a m)

  pub contains-append :
      (xs ys : List A) (a : A) → contains (xs ++ ys) a ≡ (contains xs a || contains ys a)
  contains-append [] ys a = refl
  contains-append (x ∷ xs) ys a = ground (arith, contains-append xs ys a)

  beq_sym : (a b : A) → k.beq a b ≡ k.beq b a
  beq_sym a b = ground (arith, k.beq_iff a b, k.beq_iff b a)

  pub Nodup-snoc : (xs : List A) (a : A) → Nodup xs → contains xs a ≡ false → Nodup (xs ++ a ∷ [])
  Nodup-snoc [] a h n = (refl, tt)
  Nodup-snoc (x ∷ xs) a h n =
      ground (arith, contains-append xs (a ∷ []) x, beq_sym x a, Nodup-snoc xs a h.1)

  add_keys-Nodup : (seen xs : List A) → Nodup seen → Nodup (add_keys seen xs)
  add_keys-Nodup seen [] h = h
  add_keys-Nodup seen (x ∷ xs) h = elim (Bool-cases (contains seen x)) [
    | inl old ↦ rw old (add_keys-Nodup seen xs h)
    | inr new ↦ rw new (add_keys-Nodup (seen ++ x ∷ []) xs (Nodup-snoc seen x h new))
  ]

  contains-add_key :
      (seen : List A) (x a : A) → contains (add_key seen x) a ≡ (contains seen a || k.beq a x)
  contains-add_key seen x a = ground (arith, contains-append seen (x ∷ []) a, k.beq_iff a x)

  contains-add_keys :
      (seen xs : List A) (a : A)
      → contains (add_keys seen xs) a ≡ (contains seen a || contains xs a)
  contains-add_keys seen [] a = ground arith
  contains-add_keys seen (x ∷ xs) a =
      ground (arith, contains-add_keys (add_key seen x) xs a, contains-add_key seen x a)

  fresh :
      (seen : List A) (x : A) (xs : List A)
      → contains xs x ≡ false
      → ((a : A) → In a xs → contains seen a ≡ false)
      → (a : A) → In a xs
      → contains (seen ++ x ∷ []) a ≡ false
  fresh seen x xs absent new a m =
      ground (arith, contains-append seen (x ∷ []) a, k.beq_iff a x, new a m, In-contains xs a m)

  add_keys_new :
      (seen xs : List A)
      → Nodup xs
      → ((a : A) → In a xs → contains seen a ≡ false)
      → add_keys seen xs ≡ seen ++ xs
  add_keys_new seen [] h new = sym (append-nil seen)
  add_keys_new seen (x ∷ xs) h new = rw (new x (inl refl)) (
      add_keys_new (seen ++ x ∷ []) xs h.1 (fresh seen x xs h.0 (λ a m. new a (inr m)))
      ∙ append_assoc seen (x ∷ []) xs)

  pub fromkeys-Nodup : (xs : List A) → Nodup (fromkeys xs)
  unfolding fromkeys
  fromkeys-Nodup xs = add_keys-Nodup [] xs tt

  -- Dropping repetitions keeps the members.
  pub contains-fromkeys : (xs : List A) (a : A) → contains (fromkeys xs) a ≡ contains xs a
  unfolding fromkeys
  contains-fromkeys xs a = contains-add_keys [] xs a

  pub In-fromkeys : (xs : List A) (a : A) → In a (fromkeys xs) → In a xs
  In-fromkeys xs a m =
      contains-In xs a (sym (contains-fromkeys xs a) ∙ In-contains (fromkeys xs) a m)

  pub fromkeys_of_Nodup : (xs : List A) → Nodup xs → fromkeys xs ≡ xs
  unfolding fromkeys
  fromkeys_of_Nodup xs h = add_keys_new [] xs h (λ a m. refl)
