-- ===== src/Prelude/Text/Split.antt =====
-- `str.split`, `str.partition` and `str.rpartition`, for a separator of one character and for "://".
use Prim.Native.Char.{Char, code}
use Prim.Native.String.{[] as nil, ◌∷◌ as ◌∷ₛ◌, ◌++◌}
use text.Mathlib.TextLemmas.{nil-append, cons-append}
use news_board.Prelude.{
  ℕ, String, false, Option, none, some, List, [], ◌∷◌, ◌||◌, ◌&&◌, ◌==◌, ◌≡◌, refl, if◌then◌else◌,
  Bool-cases, inl, inr, arith, ==_iff, All, ap, ◌∙◌,
}
use news_board.Prelude.Text.{has_char}

-- a character before the first part
abbrev cons_first : Char → List String → List String
cons_first c [] = (c ∷ₛ nil) ∷ []
cons_first c (s ∷ parts) = (c ∷ₛ s) ∷ parts

-- `s.split(sep)`
unfoldable pub split_char : ℕ → String → List String
split_char n nil = nil ∷ []
split_char n (c ∷ₛ s) =
    let rest = split_char n s in if code c == n then nil ∷ rest else cons_first c rest

-- `sep.join(parts)`
unfoldable pub join_with : Char → List String → String
join_with c [] = nil
join_with c (s ∷ []) = s
join_with c (s ∷ (t ∷ parts)) = s ++ (c ∷ₛ join_with c (t ∷ parts))

-- `s.rpartition(sep)[2]`
unfoldable pub after_last : ℕ → String → String
after_last n nil = nil
after_last n (c ∷ₛ s) =
    let rest = after_last n s in if has_char n s then rest else if code c == n then s else c ∷ₛ s

-- what follows "://" at the start of a text
abbrev pub after_sep : String → Option String
after_sep nil = none
after_sep (a ∷ₛ nil) = none
after_sep (a ∷ₛ (b ∷ₛ nil)) = none
after_sep (a ∷ₛ (b ∷ₛ (c ∷ₛ s))) =
    if code a == 58 && code b == 47 && code c == 47 then some s else none

abbrev cons_scheme : Char → Option (String × String) → Option (String × String)
cons_scheme c none = none
cons_scheme c (some (a, b)) = some (c ∷ₛ a, b)

-- `s.partition("://")`, where the separator occurs
unfoldable pub partition_scheme : String → Option (String × String)
partition_scheme nil = none
partition_scheme (c ∷ₛ s) =
    let rest = partition_scheme s in
    elim (after_sep (c ∷ₛ s)) [ some t ↦ some (nil, t) | none ↦ cons_scheme c rest ]

split_example : split_char 46 "a.bc." ≡ "a" ∷ "bc" ∷ "" ∷ []
unfolding split_char
split_example = refl

partition_example : partition_scheme "redis://x@h" ≡ some ("redis", "x@h")
unfolding partition_scheme
partition_example = refl

-- a text without the separator is one part
split_char-none : (n : ℕ) (s : String) → has_char n s ≡ false → split_char n s ≡ s ∷ []
unfolding split_char
split_char-none n nil h = refl
split_char-none n (c ∷ₛ s) h = ground (arith, split_char-none n s (ground arith))

split_char-append :
    (n : ℕ) (c : Char) (s t : String)
    → code c ≡ n
    → has_char n s ≡ false
    → split_char n (s ++ (c ∷ₛ t)) ≡ s ∷ split_char n t
unfolding split_char
split_char-append n c nil t e h = ground (arith, nil-append (c ∷ₛ t), ==_iff (code c) n)
split_char-append n c (x ∷ₛ s) t e h =
    ground (arith, cons-append x s (c ∷ₛ t), split_char-append n c s t e (ground arith))

-- texts without the separator come back from their join
pub split_char-join :
    (c : Char) (s : String) (parts : List String)
    → All (λ p. has_char (code c) p ≡ false) (s ∷ parts)
    → split_char (code c) (join_with c (s ∷ parts)) ≡ s ∷ parts
unfolding join_with
split_char-join c s [] (h, _) = split_char-none (code c) s h
split_char-join c s (t ∷ parts) (h, rest) =
    split_char-append (code c) c s (join_with c (t ∷ parts)) refl h
    ∙ ap (◌∷◌ s) (split_char-join c t parts rest)

cons_first-lacks :
    (m : ℕ) (c : Char) (parts : List String)
    → (code c == m) ≡ false
    → All (λ p. has_char m p ≡ false) parts
    → All (λ p. has_char m p ≡ false) (cons_first c parts)
cons_first-lacks m c [] e h = (ground arith, tt)
cons_first-lacks m c (s ∷ parts) e (h, rest) = (ground arith, rest)

-- no part of a text has a character that the text lacks
pub split_char-lacks :
    (n m : ℕ) (s : String) → has_char m s ≡ false → All (λ p. has_char m p ≡ false) (split_char n s)
unfolding split_char
split_char-lacks n m nil h = (refl, tt)
split_char-lacks n m (c ∷ₛ s) h =
    let rest = split_char-lacks n m s (ground arith) in
    elim (Bool-cases (code c == n)) [
      | inl sep ↦ rw sep (refl, rest)
      | inr other ↦ rw other (cons_first-lacks m c (split_char n s) (ground arith) rest)
    ]

pub has_char-append : (n : ℕ) (s t : String) → has_char n (s ++ t) ≡ (has_char n s || has_char n t)
has_char-append n nil t = ap (has_char n) (nil-append t)
has_char-append n (c ∷ₛ s) t = ground (arith, cons-append c s t, has_char-append n s t)

after_last-none : (n : ℕ) (s : String) → has_char n s ≡ false → after_last n s ≡ s
unfolding after_last
after_last-none n nil h = refl
after_last-none n (c ∷ₛ s) h = ground arith

-- what follows the last separator
pub after_last-append :
    (n : ℕ) (c : Char) (s t : String)
    → code c ≡ n
    → has_char n t ≡ false
    → after_last n (s ++ (c ∷ₛ t)) ≡ t
unfolding after_last
after_last-append n c nil t e h = ground (arith, nil-append (c ∷ₛ t), ==_iff (code c) n)
after_last-append n c (x ∷ₛ s) t e h = ground (
  arith,
  cons-append x s (c ∷ₛ t),
  after_last-append n c s t e h,
  has_char-append n s (c ∷ₛ t),
  ==_iff (code c) n,
)

-- "://" and a text after it
abbrev pub sep_then : String → String
sep_then t = ":" ∷ₛ ("/" ∷ₛ ("/" ∷ₛ t))

after_sep-none : (c : Char) (s : String) → (code c == 58) ≡ false → after_sep (c ∷ₛ s) ≡ none
after_sep-none c nil h = refl
after_sep-none c (x ∷ₛ nil) h = refl
after_sep-none c (x ∷ₛ (y ∷ₛ s)) h = ground arith

-- a scheme without a colon ends at the first "://"
pub partition_scheme-append :
    (s t : String) → has_char 58 s ≡ false → partition_scheme (s ++ sep_then t) ≡ some (s, t)
unfolding partition_scheme
partition_scheme-append nil t h = rw (nil-append (sep_then t)) refl
partition_scheme-append (c ∷ₛ s) t h = ground (
  arith,
  cons-append c s (sep_then t),
  after_sep-none c (s ++ sep_then t),
  partition_scheme-append s t (ground arith),
)
