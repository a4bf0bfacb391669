-- ===== src/Markdown/Safe.antt =====
-- What the allow-list of shared/markdown.py lets through, where nh3 keeps to its documentation.
use news_board.Prelude.{
  String, Bool, true, false, ◌≡◌, ◌≢◌, ◌⊎◌, inl, inr, refl, ap, List, [], ◌∷◌, In, All, All-In,
  str_eq, arith, Bool-cases, if◌then◌else◌,
}
use news_board.Prelude.Keys.{contains, contains-In, string_key}
use news_board.Prelude.Text.{take_chars}
use news_board.Markdown.{
  Cleaning, Packages, md, cleaning, allowed_tags, allowed_attributes, render_markdown,
}

-- an element of a document, as a browser reads it, with the scheme of each URL
pub record Element : Type 0 where
  pub tag : String
  pub attributes : List (String × String)
  pub schemes : List String

-- `attributes.get(tag, [])`
abbrev pub names_of : String → List (String × List String) → List String
names_of tag [] = []
names_of tag ((t, names) ∷ rest) = if str_eq tag t then names else names_of tag rest

-- `set_tag_attribute_values.get(tag, {})`
abbrev pub values_of : String → List (String × List (String × String)) → List (String × String)
values_of tag [] = []
values_of tag ((t, values) ∷ rest) = if str_eq tag t then values else values_of tag rest

-- What the documentation of `nh3.clean` says of its arguments: elements that are not listed are
-- dropped; so are attributes that are listed neither for their element nor under `"*"`, for any
-- element, but for `rel`, which it sets to `link_rel`, and for those that
-- `set_tag_attribute_values` has it set; and so are schemes of URLs that are not listed.
pub record Documented (elements : String → List Element) (nh3_clean : Cleaning → String → String)
    : Type 0 where
  pub tags :
      (c : Cleaning) (html : String) (e : Element)
      → In e (elements (nh3_clean c html))
      → contains c.tags e.tag ≡ true
  pub attributes :
      (c : Cleaning) (html : String) (e : Element)
      → In e (elements (nh3_clean c html))
      → (a : String × String) → In a e.attributes
      → (contains (names_of e.tag c.attributes) a.0 ≡ true)
        ⊎ ((contains (names_of "*" c.attributes) a.0 ≡ true)
            ⊎ (((a.0 ≡ "rel") × (a.1 ≡ c.link_rel))
                ⊎ In a (values_of e.tag c.set_tag_attribute_values)))
  pub schemes :
      (c : Cleaning) (html : String) (e : Element)
      → In e (elements (nh3_clean c html))
      → (s : String) → In s e.schemes
      → contains c.url_schemes s ≡ true

-- an attribute that runs a script or sets styles
abbrev pub is_active : String → Bool
is_active name = if str_eq (take_chars 2 name) "on" then true else str_eq name "style"

-- neither the element nor an attribute nor a URL of it runs a script
abbrev pub IsPassive : Element → Type 0
IsPassive e =
    (e.tag ≢ "script")
    × (e.tag ≢ "style")
    × (e.tag ≢ "iframe")
    × ((a : String × String) → In a e.attributes → is_active a.0 ≡ false)
    × ((s : String) → In s e.schemes → s ≢ "javascript")

names_of-All :
    (P : String → Type 0) (table : List (String × List String)) (tag : String)
    → All (λ (row : String × List String). All P row.1) table
    → All P (names_of tag table)
names_of-All P [] tag h = tt
names_of-All P ((t, names) ∷ rest) tag (first, others) = elim (Bool-cases (str_eq tag t)) [
  | inl here ↦ rw here first
  | inr later ↦ rw later (names_of-All P rest tag others)
]

allowed_passive :
    (tag : String) → All (λ name. is_active name ≡ false) (names_of tag allowed_attributes)
allowed_passive tag =
    names_of-All (λ name. is_active name ≡ false) allowed_attributes tag (ground arith)

-- the one attribute that is set is `target`, on links
set_target :
    (tag : String) (a : String × String)
    → In a (values_of tag cleaning.set_tag_attribute_values)
    → a.0 ≡ "target"
set_target tag a m = elim (Bool-cases (str_eq tag "a")) [
  | inl link ↦ elim (rw link at m) [
    | inl e ↦ ap (λ (p : String × String). p.0) e
    | inr n ↦ absurd n
  ]
  | inr other ↦ absurd (rw other at m)
]

pub render_markdown-IsPassive :
    (packages : Packages) (elements : String → List Element)
    → Documented elements packages.nh3_clean
    → (source : String) (e : Element) → In e (elements (render_markdown packages source))
    → IsPassive e
unfolding render_markdown
render_markdown-IsPassive packages elements law source e m =
    let html = packages.md_render md source in
    let listed = law.tags cleaning html e m in
    let other : (t : String) → contains allowed_tags t ≡ false → e.tag ≢ t =
      λ t absent x. let present = rw x at listed in absurd (cc) in
    (
      other "script" refl,
      other "style" refl,
      other "iframe" refl,
      λ a n. elim (law.attributes cleaning html e m a n) [
        | inl known ↦
            All-In (λ name. is_active name ≡ false) (names_of e.tag allowed_attributes)
              (allowed_passive e.tag) a.0
              (contains-In (names_of e.tag allowed_attributes) a.0 known)
        | inr (inl any_) ↦ absurd (cc)
        | inr (inr (inl (rel, _))) ↦ rw rel refl
        | inr (inr (inr set)) ↦ rw (set_target e.tag a set) refl
      ],
      λ s n x.
          let known = law.schemes cleaning html e m s n in absurd (ground (arith, rw x at known)),
    )
