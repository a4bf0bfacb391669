-- ===== src/Http/Resolved.antt =====
-- What core/i18n.py makes of a key: the text at the key's path, else the key.
use news_board.Prelude.{
  String, some, none, true, eq_iff, Bool-cases, In, ◌↔◌, Option-cases, List, [], ◌∷◌, ◌≡◌, refl,
  false, inl, inr, All, arith,
}
use news_board.Prelude.Text.{has_char}
use news_board.Prelude.Text.Split.{join_with, split_char-join}
use news_board.Http.Translate.{
  Json, text, object, other, Fields, Files, is_supported, resolved_locale, load_locale, get_field,
  walk, translate,
}

-- A document has a text at a path.
pub data TextAt : Json → List String → String → Type 0 where
  here : {m : String} → TextAt (text m) [] m
  inside :
      {fs : Fields} {part : String} {parts : List String} {node : Json} {m : String}
      → get_field part fs ≡ some node
      → TextAt node parts m
      → TextAt (object fs) (part ∷ parts) m

TextAt-walk :
    {d : Json} {parts : List String} {m : String} → TextAt d parts m → walk parts d ≡ some m
unfolding walk
TextAt-walk here = refl
TextAt-walk (inside found rest) = ground (arith, found, TextAt-walk rest)

walk-TextAt :
    (parts : List String) (d : Json) (m : String) → walk parts d ≡ some m → TextAt d parts m
unfolding walk
walk-TextAt [] (text s) m h = let same : s ≡ m = ground arith in rw same here
walk-TextAt [] (object fs) m h = absurd (ground arith)
walk-TextAt [] other m h = absurd (ground arith)
walk-TextAt (part ∷ parts) (text s) m h = absurd (ground arith)
walk-TextAt (part ∷ parts) other m h = absurd (ground arith)
walk-TextAt (part ∷ parts) (object fs) m h = elim (Option-cases (get_field part fs)) [
  | inl missing ↦ absurd (ground arith)
  | inr (node, found) ↦ inside found (walk-TextAt parts node m (ground arith))
]

-- The catalogue that serves a locale: its own, if the locale is one of the four and has a file,
-- and else the French one.
pub data Serves (files : Files) (locale : String) (d : Json) : Type 0 where
  own : In locale ("fr" ∷ "en" ∷ "de" ∷ "nl" ∷ []) → files locale ≡ some d → Serves files locale d
  without_file :
      In locale ("fr" ∷ "en" ∷ "de" ∷ "nl" ∷ [])
      → files locale ≡ none
      → files "fr" ≡ some d
      → Serves files locale d
  unsupported :
      (In locale ("fr" ∷ "en" ∷ "de" ∷ "nl" ∷ []) → ⊥) → files "fr" ≡ some d → Serves files locale d

-- The text of a key in a document: what stands at its path, and else the key.
pub data IsText (d : Json) (parts : List String) (key : String) : String → Type 0 where
  found : {m : String} → TextAt d parts m → IsText d parts key m
  missing : ((m : String) → ¬ TextAt d parts m) → IsText d parts key key

is_supported_iff : (l : String) → (is_supported l ≡ true) ↔ In l ("fr" ∷ "en" ∷ "de" ∷ "nl" ∷ [])
is_supported_iff l =
    let fr = eq_iff l "fr" in
    let en = eq_iff l "en" in
    let de = eq_iff l "de" in let nl = eq_iff l "nl" in (λ h. ground arith, λ m. ground arith)

load_locale-Serves :
    (files : Files) (locale : String) (d : Json)
    → Serves files locale d
    → load_locale files (resolved_locale locale) ≡ some d
unfolding load_locale
load_locale-Serves files locale d (own m file) =
    let known = (is_supported_iff locale).1 m in ground arith
load_locale-Serves files locale d (without_file m no_file file) =
    let known = (is_supported_iff locale).1 m in ground arith
load_locale-Serves files locale d (unsupported foreign file) =
    elim (Bool-cases (is_supported locale)) [
      | inl known ↦ absurd (foreign ((is_supported_iff locale).0 known))
      | inr unknown ↦ ground arith
    ]

-- For a key of parts without dots, joined by dots, translate gives the text of the key in the
-- catalogue that serves the locale (its own, if the locale is fr, en, de or nl and has a file,
-- and else the French one): what the catalogue has at the path of the parts, and the key itself
-- where it has no text there.
pub translate_resolves :
    (files : Files) (locale : String) (d : Json) (part : String) (parts : List String) (m : String)
    → Serves files locale d
    → All (λ p. has_char 46 p ≡ false) (part ∷ parts)
    → IsText d (part ∷ parts) (join_with "." (part ∷ parts)) m
    → translate files (join_with "." (part ∷ parts)) locale ≡ some m
unfolding translate
translate_resolves files locale d part parts m serves plain (found there) =
    let loaded = load_locale-Serves files locale d serves in
    ground (arith, split_char-join "." part parts plain, TextAt-walk there)
translate_resolves files locale d part parts m serves plain (missing none_) =
    let loaded = load_locale-Serves files locale d serves in
    let split = split_char-join "." part parts plain in
    elim (Option-cases (walk (part ∷ parts) d)) [
      | inl nothing ↦ ground (arith, split)
      | inr (n, at_path) ↦ absurd (none_ n (walk-TextAt (part ∷ parts) d n at_path))
    ]
