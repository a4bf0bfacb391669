-- ===== src/Prelude/Text.antt =====
-- The methods of Python's `str` that the program uses, over the characters of a text.
pub mod Split
use Prim.Native.Char.{code}
use Prim.Native.String.{[], ◌∷◌}
use news_board.Prelude.{
  ℕ, zero, suc, String, Bool, true, false, ◌||◌, ◌&&◌, ◌==◌, leb, ◌≡◌, refl, arith, if◌then◌else◌,
}

-- `s[:n]`
abbrev pub take_chars : ℕ → String → String
take_chars zero s = []
take_chars (suc n) [] = []
take_chars (suc n) (c ∷ s) = c ∷ take_chars n s

-- `c in s` for one character, by its code point
abbrev pub has_char : ℕ → String → Bool
has_char n [] = false
has_char n (c ∷ s) = code c == n || has_char n s

-- the first part of `s.partition(sep)`
abbrev pub before_char : ℕ → String → String
before_char n [] = []
before_char n (c ∷ s) = let rest = before_char n s in if code c == n then [] else c ∷ rest

-- `str.isspace` of one character
abbrev is_space : ℕ → Bool
is_space n =
    (leb 9 n && leb n 13)
    || (leb 28 n && leb n 32)
    || n == 133
    || n == 160
    || n == 5760
    || (leb 8192 n && leb n 8202)
    || n == 8232
    || n == 8233
    || n == 8239
    || n == 8287
    || n == 12288

abbrev is_empty : String → Bool
is_empty [] = true
is_empty (c ∷ s) = false

abbrev lstrip : String → String
lstrip [] = []
lstrip (c ∷ s) = let rest = lstrip s in if is_space (code c) then rest else c ∷ s

abbrev rstrip : String → String
rstrip [] = []
rstrip (c ∷ s) = let rest = rstrip s in if is_space (code c) && is_empty rest then [] else c ∷ rest

-- `s.strip()`
unfoldable pub strip : String → String
strip s = lstrip (rstrip s)

strip_both : strip " a b  " ≡ "a b"
unfolding strip
strip_both = refl

lstrip-lacks : (n : ℕ) (s : String) → has_char n s ≡ false → has_char n (lstrip s) ≡ false
lstrip-lacks n [] h = refl
lstrip-lacks n (c ∷ s) h = ground (arith, lstrip-lacks n s (ground arith))

rstrip-lacks : (n : ℕ) (s : String) → has_char n s ≡ false → has_char n (rstrip s) ≡ false
rstrip-lacks n [] h = refl
rstrip-lacks n (c ∷ s) h = ground (arith, rstrip-lacks n s (ground arith))

pub strip-lacks : (n : ℕ) (s : String) → has_char n s ≡ false → has_char n (strip s) ≡ false
unfolding strip
strip-lacks n s h = lstrip-lacks n (rstrip s) (rstrip-lacks n s h)
