-- ===== src/Http/Translate.antt =====
-- core/i18n.py: the catalogues and the look-up of a dotted key.
use news_board.Prelude.{
  String, Bool, Option, none, some, List, [], ◌∷◌, str_eq, ◌||◌, if◌then◌else◌,
}
use news_board.Prelude.Text.Split.{split_char}

-- A JSON document, as far as a look-up tells its parts apart.
mutual
  pub data Json : Type 0 where
    text : String → Json
    object : Fields → Json
    other : Json

  pub data Fields : Type 0 where
    end : Fields
    field : String → Json → Fields → Fields

-- the catalogue of a locale, where locales/ has its file
abbrev pub Files : Type 0
Files = String → Option Json

-- `SUPPORTED_LOCALES` and `DEFAULT_LOCALE`
abbrev pub default_locale : String
default_locale = "fr"

abbrev pub is_supported : String → Bool
is_supported l = str_eq l "fr" || str_eq l "en" || str_eq l "de" || str_eq l "nl"

-- `locale if locale in SUPPORTED_LOCALES else DEFAULT_LOCALE`
abbrev pub resolved_locale : String → String
resolved_locale l = if is_supported l then l else default_locale

-- `_load_locale`; `none` is the `FileNotFoundError` of a missing default file
unfoldable pub load_locale : Files → String → Option Json
load_locale files l = elim (files l) [ some data_ ↦ some data_ | none ↦ files default_locale ]

-- `node[part]`, where it exists
unfoldable pub get_field : String → Fields → Option Json
get_field part end = none
get_field part (field k v fs) =
    let rest = get_field part fs in if str_eq part k then some v else rest

abbrev pub child : String → Json → Option Json
child part (object fs) = get_field part fs
child part (text s) = none
child part other = none

-- the loop over the parts, and the test that ends it
unfoldable pub walk : List String → Json → Option String
walk [] (text s) = some s
walk [] (object fs) = none
walk [] other = none
walk (part ∷ parts) node = elim (child part node) [ none ↦ none | some n ↦ walk parts n ]

abbrev or_key : String → Option String → String
or_key key none = key
or_key key (some s) = s

unfoldable pub translate : Files → String → String → Option String
unfolding load_locale walk split_char
translate files key locale = elim (load_locale files (resolved_locale locale)) [
  | none ↦ none
  | some data_ ↦ some (or_key key (walk (split_char 46 key) data_))
]
