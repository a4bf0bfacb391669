-- ===== src/Prelude/Decimal/Read.antt =====
-- Reading back what `str(n)` prints, up to the first character that is no digit.
use Prim.Native.Char.{Char, code}
use Prim.Native.String.{[], ◌∷◌, ◌++◌}
use text.Mathlib.TextLemmas.{nil-append, cons-append}
use news_board.Prelude.{
  ℕ, zero, suc, ◌+◌, ◌-◌, ◌*◌, ◌/◌, ◌%◌, ◌<◌, String, Bool, ltb, leb, ◌&&◌, ◌≡◌, refl, ◌∙◌, ap,
  if◌then◌else◌, arith, Bool-cases, inl, inr,
}
use news_board.Prelude.Decimal.{digit, digits, str_int}

abbrev is_digit : Char → Bool
is_digit c = leb 48 (code c) && leb (code c) 57

-- the number that the leading digits make after `n`, and what follows them
unfoldable pub scan : String → ℕ → ℕ × String
scan [] n = (n, [])
scan (c ∷ s) n =
    let rest = scan s (n * 10 + (code c - 48)) in if is_digit c then rest else (n, c ∷ s)

code-digit : (d : ℕ) → d < 10 → code (digit d) ≡ 48 + d
code-digit zero l = refl
code-digit (suc zero) l = refl
code-digit (suc (suc zero)) l = refl
code-digit (suc (suc (suc zero))) l = refl
code-digit (suc (suc (suc (suc zero)))) l = refl
code-digit (suc (suc (suc (suc (suc zero))))) l = refl
code-digit (suc (suc (suc (suc (suc (suc zero)))))) l = refl
code-digit (suc (suc (suc (suc (suc (suc (suc zero))))))) l = refl
code-digit (suc (suc (suc (suc (suc (suc (suc (suc zero)))))))) l = refl
code-digit (suc (suc (suc (suc (suc (suc (suc (suc (suc zero))))))))) l = refl
code-digit (suc (suc (suc (suc (suc (suc (suc (suc (suc (suc d)))))))))) l = absurd (omega arith)

scan-digit : (d n : ℕ) (s : String) → d < 10 → scan (digit d ∷ s) n ≡ scan s (n * 10 + d)
unfolding scan
scan-digit d n s l = ground (arith, code-digit d l)

-- The fuel of `digits` is enough where it exceeds the number.
scan-digits : (f n : ℕ) (acc : String) → n < f → scan (digits f n acc) 0 ≡ scan acc n
unfolding digits
scan-digits zero n acc l = absurd (omega arith)
scan-digits (suc f) n acc l = elim (Bool-cases (ltb n 10)) [
  | inl small ↦ rw small (scan-digit n 0 acc (ground arith) ∙ ap (scan acc) (omega arith))
  | inr large ↦ rw large (
      scan-digits f (n / 10) (digit (n % 10) ∷ acc) (ground arith)
      ∙ scan-digit (n % 10) (n / 10) acc (omega arith)
      ∙ ap (scan acc) (omega arith))
]

digits-append : (f n : ℕ) (acc rest : String) → digits f n acc ++ rest ≡ digits f n (acc ++ rest)
unfolding digits
digits-append zero n acc rest = refl
digits-append (suc f) n acc rest = elim (Bool-cases (ltb n 10)) [
  | inl small ↦ rw small (cons-append (digit n) acc rest)
  | inr large ↦ rw large (
      digits-append f (n / 10) (digit (n % 10) ∷ acc) rest
      ∙ ap (digits f (n / 10)) (cons-append (digit (n % 10)) acc rest))
]

-- Reading a printed number gives the number back, and what follows it.
pub scan-str_int : (n : ℕ) (rest : String) → scan (str_int n ++ rest) 0 ≡ scan rest n
unfolding str_int
scan-str_int n rest =
    ap (λ s. scan s 0) (digits-append (suc n) n [] rest ∙ ap (digits (suc n) n) (nil-append rest))
    ∙ scan-digits (suc n) n rest (omega arith)
