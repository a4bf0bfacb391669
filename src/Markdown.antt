-- ===== src/Markdown.antt =====
-- shared/markdown.py: the configuration of the Markdown renderer and of the sanitiser.
pub mod Safe
use news_board.Prelude.{String, Bool, false, Option, some, none, List, [], ◌∷◌}

-- `MarkdownIt(preset, options)`, then `enable` and `use`
pub record MarkdownIt : Type 0 where
  pub preset : String
  pub html : Bool
  pub linkify : Bool
  pub typographer : Bool
  pub enabled : List String
  pub plugins : List String

abbrev pub md : MarkdownIt
md = record {
  preset = "commonmark";
  html = false;
  linkify = false;
  typographer = false;
  enabled = "strikethrough" ∷ [];
  plugins = "tasklists" ∷ [];
}

-- the keyword arguments of `nh3.clean`
pub record Cleaning : Type 0 where
  pub tags : List String
  pub attributes : List (String × List String)
  pub url_schemes : List String
  pub link_rel : String
  pub set_tag_attribute_values : List (String × List (String × String))

abbrev pub allowed_tags : List String
allowed_tags =
    "p" ∷ "br" ∷ "hr" ∷ "h1" ∷ "h2" ∷ "h3" ∷ "h4" ∷ "h5" ∷ "h6" ∷ "ul" ∷ "ol" ∷ "li" ∷ "blockquote"
    ∷ "pre" ∷ "code" ∷ "em" ∷ "strong" ∷ "s" ∷ "del" ∷ "a" ∷ "img" ∷ "input" ∷ []

abbrev pub allowed_attributes : List (String × List String)
allowed_attributes =
    ("a", "href" ∷ "title" ∷ "target" ∷ [])
    ∷ ("img", "src" ∷ "alt" ∷ "title" ∷ [])
    ∷ ("input", "type" ∷ "checked" ∷ "disabled" ∷ "class" ∷ [])
    ∷ ("ul", "class" ∷ [])
    ∷ ("ol", "class" ∷ [])
    ∷ ("li", "class" ∷ [])
    ∷ ("pre", "class" ∷ [])
    ∷ ("code", "class" ∷ [])
    ∷ []

abbrev pub url_schemes : List String
url_schemes = "http" ∷ "https" ∷ "mailto" ∷ []

abbrev pub cleaning : Cleaning
cleaning = record {
  tags = allowed_tags;
  attributes = allowed_attributes;
  url_schemes = url_schemes;
  link_rel = "nofollow noopener noreferrer ugc";
  set_tag_attribute_values = ("a", ("target", "_blank") ∷ []) ∷ [];
}

-- What the packages do: `MarkdownIt.render` and `nh3.clean`, each of its configuration and a text.
pub record Packages : Type 0 where
  pub md_render : MarkdownIt → String → String
  pub nh3_clean : Cleaning → String → String

-- `render_markdown`: rendered, then sanitised
unfoldable pub render_markdown : Packages → String → String
render_markdown packages source = packages.nh3_clean cleaning (packages.md_render md source)
