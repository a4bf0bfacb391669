-- ===== src/Local/Repository.antt =====
-- api/news/repository.py and core/database/with_community.py: the queries of the news board, over
-- one session of the local database.
mod Scope
mod Votes
use Prim.Native.Nat.{◌-◌, ◌*◌}
use news_board.Prelude.{
  ℕ, suc, String, Bool, false, not, ◌&&◌, ◌||◌, Option, none, some, List, [], ◌∷◌, ◌++◌, ◌==◌,
  str_eq, ltb, if◌then◌else◌, map, filter, any, find, length, take, drop,
}
use news_board.Prelude.Int.{ℤ, pos, negsuc, leb_ℤ}
use news_board.Prelude.Keys.{contains, fromkeys, nat_key}
use news_board.Context.{Context}
use news_board.Errors.{unexpected}
use news_board.Exec.{ok, err, Exec, ◌>>=◌}
use news_board.Local.{PostModel, PostPollModel, PostPollVoteModel, Db, LocalSession}
unfoldable pub use Scope.{in_scope, with_community_scope}
unfoldable pub use Votes.*

-- ---- posts

-- `id` is set by the flush
unfoldable pub create_post : PostModel → Exec LocalSession PostModel
create_post post s =
    let row : PostModel = record post { id = s.work.next_post } in
    (
      ok row,
      record s {
        work = record s.work { posts = s.work.posts ++ row ∷ []; next_post = suc s.work.next_post };
      },
    )

unfoldable pub find_post : Context → ℕ → Db → Option PostModel
find_post ctx post_id d =
    find (λ p. p.id == post_id) (with_community_scope ctx (λ p. p.id_community) d.posts)

unfoldable pub get_post : Context → ℕ → Exec LocalSession (Option PostModel)
get_post ctx post_id s = (ok (find_post ctx post_id s.work), s)

-- ORDER BY display_order, of rows in the order of insertion
abbrev pub insert_sorted : PostPollModel → List PostPollModel → List PostPollModel
insert_sorted o [] = o ∷ []
insert_sorted o (x ∷ xs) =
    let rest = insert_sorted o xs in
    if leb_ℤ o.display_order x.display_order then o ∷ x ∷ xs else x ∷ rest

abbrev pub sort_options : List PostPollModel → List PostPollModel
sort_options [] = []
sort_options (o ∷ os) = insert_sorted o (sort_options os)

unfoldable pub select_options : ℕ → Db → List PostPollModel
select_options post_id d = sort_options (filter (λ o. o.id_post == post_id) d.options)

abbrev pub lookup_loaded : ℕ → List (ℕ × List PostPollModel) → Option (List PostPollModel)
lookup_loaded i [] = none
lookup_loaded i ((j, os) ∷ l) = if i == j then some os else lookup_loaded i l

-- `post.options`: the collection of the identity map, else a query that fills it
unfoldable pub load_options : ℕ → Exec LocalSession (List PostPollModel)
load_options i s =
    let rows = select_options i s.work in
    elim (lookup_loaded i s.loaded) [
      | some os ↦ (ok os, s)
      | none ↦ (ok rows, record s { loaded = (i, rows) ∷ s.loaded })
    ]

-- The post with its `options`.
unfoldable pub get_post_with_options :
    Context → ℕ → Exec LocalSession (Option (PostModel × List PostPollModel))
unfolding load_options
get_post_with_options ctx post_id s = elim (find_post ctx post_id s.work) [
  | none ↦ (ok none, s)
  | some p ↦ (load_options p.id >>= λ os t. (ok (some (p, os)), t)) s
]

-- ORDER BY created_at DESC, id DESC
abbrev pub newer : PostModel → PostModel → Bool
newer p q = ltb q.created_at p.created_at || (p.created_at == q.created_at && ltb q.id p.id)

abbrev pub insert_newest : PostModel → List PostModel → List PostModel
insert_newest p [] = p ∷ []
insert_newest p (q ∷ qs) =
    let rest = insert_newest p qs in if newer p q then p ∷ q ∷ qs else q ∷ rest

abbrev pub newest_first : List PostModel → List PostModel
newest_first [] = []
newest_first (p ∷ ps) = insert_newest p (newest_first ps)

abbrev pub load_each : List PostModel → Exec LocalSession (List (PostModel × List PostPollModel))
load_each [] s = (ok [], s)
load_each (p ∷ ps) s =
    (load_options p.id >>= λ os. load_each ps >>= λ rest t. (ok ((p, os) ∷ rest), t)) s

-- `OFFSET (page - 1) * page_size LIMIT page_size`
abbrev pub page_of : {A : Type 0} → ℕ → ℕ → List A → List A
page_of page page_size rows = take page_size (drop ((page - 1) * page_size) rows)

unfoldable pub list_posts :
    Context → ℕ → ℕ → Exec LocalSession (List (PostModel × List PostPollModel) × ℕ)
unfolding load_options
list_posts ctx page page_size s =
    let base = with_community_scope ctx (λ p. p.id_community) s.work.posts in
    (load_each (page_of page page_size (newest_first base)) >>= λ rows t.
    (ok (rows, length base), t))
      s

-- ON DELETE CASCADE: the options of the post, its votes, and the votes for those options
unfoldable pub cascade_post : ℕ → Db → Db
cascade_post i d =
    let gone = map (λ (o : PostPollModel). o.id) (filter (λ o. o.id_post == i) d.options) in
    record d {
      posts = filter (λ p. not (p.id == i)) d.posts;
      options = filter (λ o. not (o.id_post == i)) d.options;
      votes = filter (λ v. not (v.id_post == i || contains gone v.id_post_poll)) d.votes;
    }

unfoldable pub delete_post : PostModel → Exec LocalSession Unit
unfolding cascade_post
delete_post post s = (ok tt, record s { work = cascade_post post.id s.work })

-- ---- options

-- `display_order SMALLINT`
abbrev pub is_smallint : ℤ → Bool
is_smallint (pos n) = ltb n 32768
is_smallint (negsuc n) = ltb n 32768

abbrev pub insert_options : List PostPollModel → Db → Option (List PostPollModel × Db)
insert_options [] d = some ([], d)
insert_options (o ∷ os) d =
    let row : PostPollModel = record o { id = d.next_option } in
    let d' : Db = record d { options = d.options ++ row ∷ []; next_option = suc d.next_option } in
    let rest = insert_options os d' in
    if is_smallint o.display_order && any (λ (p : PostModel). p.id == o.id_post) d.posts
    then elim rest [ none ↦ none | some (rows, e) ↦ some (row ∷ rows, e) ]
    else none

-- The rows as the flush left them. A row that the database refuses fails the flush, which rolls
-- the transaction back.
unfoldable pub add_options : List PostPollModel → Exec LocalSession (List PostPollModel)
add_options options s = elim (insert_options options s.work) [
  | none ↦ (err unexpected, record s { work = s.saved; loaded = [] })
  | some (rows, d) ↦ (ok rows, record s { work = d })
]

-- ---- the unit of work of the ORM, as shared/models/local_models.py declares it

abbrev pub set_row : PostModel → List PostModel → List PostModel
set_row row [] = []
set_row row (p ∷ ps) = let rest = set_row row ps in if p.id == row.id then row ∷ rest else p ∷ rest

-- The flush of a changed row, as its UPDATE leaves it.
unfoldable pub save_post : PostModel → Exec LocalSession Unit
save_post row s = (ok tt, record s { work = record s.work { posts = set_row row s.work.posts } })

-- `cascade="all, delete-orphan"`: options that left the collection are deleted, with their votes
abbrev pub drop_options : List ℕ → Db → Db
drop_options ids d = record d {
  options = filter (λ (o : PostPollModel). not (contains ids o.id)) d.options;
  votes = filter (λ (v : PostPollVoteModel). not (contains ids v.id_post_poll)) d.votes;
}

-- `post.options = new` and its flush: the new rows are inserted, the old ones deleted, and the
-- collection holds the new ones in the order of the assignment
unfoldable pub assign_options :
    ℕ → List PostPollModel → List PostPollModel → Exec LocalSession (List PostPollModel)
unfolding add_options
assign_options post_id old new = add_options new >>= λ rows s. (
  ok rows,
  record s {
    work = drop_options (map (λ (o : PostPollModel). o.id) old) s.work;
    loaded = (post_id, rows) ∷ s.loaded;
  },
)
