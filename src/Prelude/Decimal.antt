-- ===== src/Prelude/Decimal.antt =====
-- `str(n)` of a number.
pub mod Read
use Prim.Native.Char.{Char}
use Prim.Native.String.{[], ◌∷◌}
use news_board.Prelude.{ℕ, zero, suc, ◌/◌, ◌%◌, String, ltb, ◌==◌, ◌≡◌, refl, if◌then◌else◌}

abbrev pub digit : ℕ → Char
digit d =
    if d == 0
    then "0"
    else if d == 1
    then "1"
    else if d == 2
    then "2"
    else if d == 3
    then "3"
    else if d == 4
    then "4"
    else if d == 5
    then "5"
    else if d == 6
    then "6"
    else if d == 7
    then "7"
    else if d == 8
    then "8"
    else "9"

pub digits : ℕ → ℕ → String → String
digits zero n acc = acc
digits (suc f) n acc =
    let rest = digits f (n / 10) (digit (n % 10) ∷ acc) in if ltb n 10 then digit n ∷ acc else rest

unfoldable pub str_int : ℕ → String
unfolding digits
str_int n = digits (suc n) n []

str_int-2026 : str_int 2026 ≡ "2026"
unfolding str_int
str_int-2026 = refl
