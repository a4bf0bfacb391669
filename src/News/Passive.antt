-- ===== src/News/Passive.antt =====
-- The HTML that the operations of api/news/service.py answer with.
use news_board.Prelude.{
  ℕ, String, Bool, ◌≡◌, List, [], ◌∷◌, In, inl, inr, some, none, length, arith,
}
use news_board.Prelude.Keys.{contains, nat_key}
use news_board.Context.{Context}
use news_board.Exec.{ok, Result-cases}
use news_board.Local.{PostModel, PostPollModel}
use news_board.Local.Repository.{get_post_with_options}
use news_board.Local.Repository
use news_board.Markdown.{render_markdown}
use news_board.Markdown.Safe.{Element, Documented, IsPassive, render_markdown-IsPassive}
use news_board.World.{World}
use news_board.News.{poll_ended}
use news_board.News.Schemas.{PostDetail, PostListItem, UpdatePostRequest}
use news_board.News.Mappers.{to_post_detail, to_post_list_item}
use news_board.News.Reads.{
  Pagination, get_post, list_posts, list_items, voter_selection, nonempty, voted_ids,
}
use news_board.News.Updates.{apply_update, update_post}

-- the HTML of a post in an answer
pub data IsShown (ctx : Context) (w : World) : String → Type 0 where
  read : (i : ℕ) (d : PostDetail) → (get_post ctx i w).0 ≡ ok d → IsShown ctx w d.body_html
  updated :
      (i : ℕ) (req : UpdatePostRequest) (d : PostDetail)
      → (update_post ctx i req w).0 ≡ ok d
      → IsShown ctx w d.body_html
  listed :
      (page page_size : ℕ) (items : List PostListItem) (p : Pagination) (item : PostListItem)
      → (list_posts ctx page page_size w).0 ≡ ok (items, p)
      → In item items
      → IsShown ctx w item.body_html

abbrev IsRendered : Context → String → Type 0
IsRendered ctx html = (source : String) × (html ≡ render_markdown ctx.packages source)

to_post_detail-IsRendered :
    (ctx : Context) (p : PostModel) (os : List PostPollModel) (voted ended : Bool) (mine : List ℕ)
    (d : PostDetail)
    → to_post_detail ctx p os voted ended mine ≡ ok d
    → IsRendered ctx d.body_html
unfolding to_post_detail
to_post_detail-IsRendered ctx p os voted ended mine d h = (p.post, ground arith)

get_post-IsRendered :
    (ctx : Context) (i : ℕ) (w : World) (d : PostDetail)
    → (get_post ctx i w).0 ≡ ok d
    → IsRendered ctx d.body_html
unfolding get_post
get_post-IsRendered ctx i w d h = elim (Result-cases (get_post_with_options ctx i w.local).0) [
  | inr (e, raised) ↦ absurd (ground arith)
  | inl (none, missing) ↦ absurd (ground arith)
  | inl (some (row, options), found) ↦
      let x : World = record w { local = (get_post_with_options ctx i w.local).1 } in
      elim (Result-cases (voter_selection ctx row x).0) [
        | inr (e, raised) ↦ absurd (ground arith)
        | inl (mine, chosen) ↦
            to_post_detail-IsRendered ctx row options (nonempty mine) (poll_ended ctx row) mine d
              (ground arith)
      ]
]

update_post-IsRendered :
    (ctx : Context) (i : ℕ) (req : UpdatePostRequest) (w : World) (d : PostDetail)
    → (update_post ctx i req w).0 ≡ ok d
    → IsRendered ctx d.body_html
unfolding update_post
update_post-IsRendered ctx i req w d h = elim (Result-cases (apply_update ctx i req w).0) [
  | inl (u, done) ↦ get_post-IsRendered ctx i (apply_update ctx i req w).1 d (ground arith)
  | inr (e, raised) ↦ absurd (ground arith)
]

list_item-body :
    (ctx : Context) (p : PostModel) (voted ended : Bool) (n : ℕ) (item : PostListItem)
    → to_post_list_item ctx p voted ended n ≡ ok item
    → item.body_html ≡ render_markdown ctx.packages p.post
unfolding to_post_list_item
list_item-body ctx p voted ended n item h = ground arith

list_items-IsRendered :
    (ctx : Context) (voted : List ℕ) (rows : List (PostModel × List PostPollModel))
    (items : List PostListItem) (item : PostListItem)
    → list_items ctx voted rows ≡ ok items
    → In item items
    → IsRendered ctx item.body_html
unfolding list_items
list_items-IsRendered ctx voted [] items item h m =
    let none_ : items ≡ [] = ground arith in absurd (rw none_ at m)
list_items-IsRendered ctx voted ((p, os) ∷ rows) items item h m =
    elim (Result-cases
      (to_post_list_item ctx p (contains voted p.id) (poll_ended ctx p) (length os))) [
        | inr (e, raised) ↦ absurd (ground arith)
        | inl (first, made) ↦ elim (Result-cases (list_items ctx voted rows)) [
          | inr (e, raised) ↦ absurd (ground arith)
          | inl (rest, made_rest) ↦
              let same : items ≡ first ∷ rest = ground arith in
              elim (rw same at m) [
                | inl here ↦ (
                  p.post,
                  ground (
                    arith,
                    here,
                    list_item-body ctx p (contains voted p.id) (poll_ended ctx p) (length os) first
                        made,
                  ),
                )
                | inr later ↦ list_items-IsRendered ctx voted rows rest item made_rest later
              ]
        ]
      ]

list_posts-IsRendered :
    (ctx : Context) (page page_size : ℕ) (w : World) (items : List PostListItem) (p : Pagination)
    (item : PostListItem)
    → (list_posts ctx page page_size w).0 ≡ ok (items, p)
    → In item items
    → IsRendered ctx item.body_html
unfolding list_posts
list_posts-IsRendered ctx page page_size w items p item h m =
    elim (Result-cases (Repository.list_posts ctx page page_size w.local).0) [
      | inr (e, raised) ↦ absurd (ground arith)
      | inl ((rows, total), found) ↦
          let x : World = record w {
            local = (Repository.list_posts ctx page page_size w.local).1;
          } in
          elim (Result-cases (voted_ids ctx rows x).0) [
            | inr (e, raised) ↦ absurd (ground arith)
            | inl (voted, chosen) ↦ elim (Result-cases (list_items ctx voted rows)) [
              | inr (e, raised) ↦ absurd (ground arith)
              | inl (made, done) ↦
                  let same : items ≡ made = ground arith in
                  list_items-IsRendered ctx voted rows made item done (rw same at m)
            ]
          ]
    ]

-- Where nh3 keeps to its documentation (it drops elements, attributes and schemes of URLs that
-- its arguments do not list, those under "*" for any element, but for the rel and the attributes
-- that they have it set), no HTML of a post that get_post, update_post or list_posts answers with
-- has an element script, style or iframe, an attribute that begins with on or is style, or a URL
-- of the scheme javascript.
pub IsShown-IsPassive :
    (ctx : Context) (w : World) (elements : String → List Element)
    → Documented elements ctx.packages.nh3_clean
    → (html : String) → IsShown ctx w html
    → (e : Element) → In e (elements html)
    → IsPassive e
IsShown-IsPassive ctx w elements law html shown e m = go html shown m
  where
    passive : (html : String) → IsRendered ctx html → In e (elements html) → IsPassive e
    passive html (source, same) m =
        render_markdown-IsPassive ctx.packages elements law source e (rw same at m)

    go : (html : String) → IsShown ctx w html → In e (elements html) → IsPassive e
    go _ (read i d h) m = passive d.body_html (get_post-IsRendered ctx i w d h) m
    go _ (updated i req d h) m = passive d.body_html (update_post-IsRendered ctx i req w d h) m
    go _ (listed page page_size items p item h n) m =
        passive item.body_html (list_posts-IsRendered ctx page page_size w items p item h n) m
