-- ===== src/News/Edited.antt =====
-- What an update without options leaves in the database.
use news_board.Prelude.{
  ◌≡◌, ◌⊎◌, ◌↔◌, ==_iff, ◌&&◌, inl, inr, refl, ◌∙◌, Bool, Option, ℕ, str_eq, eq_iff, Bool-cases,
  true, false, none, some, In, arith,
}
use news_board.Context.{Context, DateTime, ensure_aware}
use news_board.Const.{
  PostType, is_poll, post_type_of_int, int_of_admin_visibility, int_of_member_visibility,
  int_of_member_display,
}
use news_board.Exec.{ok}
use news_board.Crm.{CrmSession}
use news_board.Realtime.{Broker}
use news_board.Local
use news_board.Local.{PostModel, PostPollModel, Db}
use news_board.Local.Repository
use news_board.Local.Repository.{in_scope, find_post, set_row}
use news_board.Local.Consistency.{IsConsistent}
use news_board.Local.Changed.{changed, In-changed, changed-IsConsistent}
use news_board.Local.Lookup.{find_post-some, get_post_with_options-found}
use news_board.World.{request}
use news_board.News.Effects.{audit_keeps}
use news_board.News.Schemas.{UpdatePostRequest}
use news_board.News.Updates.{edited, touched, same_int, same_time, apply_update}

module _ (ctx : Context) (req : UpdatePostRequest) (t : PostType) (post : PostModel) where
  abbrev row : PostModel
  row = touched ctx post (edited req t post)

  row_keys : (row.id ≡ post.id) × (row.id_community ≡ post.id_community) × (row.type ≡ post.type)
  row_keys = (ground arith, ground arith, ground arith)

module _ (ctx : Context) (d : Db) (crm : CrmSession) (broker : Broker) (post : PostModel)
    (t : PostType) (req : UpdatePostRequest) (c : IsConsistent d) (there : In post d.posts)
    (scoped : in_scope ctx.internal_community_id post.id_community ≡ true)
    (typed : post_type_of_int post.type ≡ some t) (given : req.options ≡ none) where
  apply_update-changed :
      let (r, w) = apply_update ctx post.id req (request d crm broker) in
      (r ≡ ok tt)
      × (w.local.saved
          ≡ record d { posts = set_row (touched ctx post (edited req t post)) d.posts })
  unfolding apply_update Repository.save_post Local.commit
  apply_update-changed =
      let found = find_post-some ctx d post c.keyed there scoped in
      let (os, s, looked, work, saved) =
        get_post_with_options-found ctx post.id (request d crm broker).local post found in
      grind (arith, found, looked, work, saved, audit_keeps)

  update_post-touched :
      let (r, w) = apply_update ctx post.id req (request d crm broker) in
      (r ≡ ok tt)
      × IsConsistent w.local.saved
      × (find_post ctx post.id w.local.saved ≡ some (touched ctx post (edited req t post)))
      × (w.local.saved.options ≡ d.options)
      × (w.local.saved.votes ≡ d.votes)
  update_post-touched =
      let (id, community, type) = row_keys ctx req t post in
      let new = touched ctx post (edited req t post) in
      let (done, state) = apply_update-changed in
      let consistent = changed-IsConsistent d c post new there id community type in
      let found =
        find_post-some ctx (changed d c post new there id community type) new consistent.keyed
          (In-changed d c post new there id community type) (ground (arith, community)) in
      (done, rw state consistent, ground (arith, found, id), ground arith, ground arith)

-- a given value, else the stored one
abbrev pub given_or : {A : Type 0} → Option A → A → A
given_or none old = old
given_or (some a) old = a

abbrev pub stored_or : {A : Type 0} → Bool → (A → ℕ) → Option A → Option ℕ → Option ℕ
stored_or false stored given old = old
stored_or true stored none old = old
stored_or true stored (some a) old = some (stored a)

abbrev pub instant : Option DateTime → Option ℕ
instant none = none
instant (some t) = some (ensure_aware t)

abbrev instant_or : Bool → Option DateTime → Option DateTime → Option ℕ
instant_or false given old = instant old
instant_or true none old = instant old
instant_or true (some t) old = some (ensure_aware t)

-- no column that an update sets differs, but for `updated_at`
abbrev pub Same : PostModel → PostModel → Type 0
Same p q =
    (p.post ≡ q.post)
    × (instant p.expires_at ≡ instant q.expires_at)
    × (p.admin_visibility ≡ q.admin_visibility)
    × (p.member_visibility ≡ q.member_visibility)
    × (p.member_display ≡ q.member_display)

-- `p` with what the request gives
abbrev pub IsEdited : Context → UpdatePostRequest → PostType → PostModel → PostModel → Type 0
IsEdited ctx req t p q =
    (q.id ≡ p.id)
    × (q.id_community ≡ p.id_community)
    × (q.author_id ≡ p.author_id)
    × (q.author_email ≡ p.author_email)
    × (q.type ≡ p.type)
    × (q.created_at ≡ p.created_at)
    × (q.post ≡ given_or req.post p.post)
    × (instant q.expires_at ≡ instant_or (is_poll t) req.expires_at p.expires_at)
    × (q.admin_visibility
        ≡ stored_or (is_poll t) int_of_admin_visibility req.admin_visibility p.admin_visibility)
    × (q.member_visibility
        ≡ stored_or (is_poll t) int_of_member_visibility req.member_visibility p.member_visibility)
    × (q.member_display
        ≡ stored_or (is_poll t) int_of_member_display req.member_display p.member_display)
    × ((q ≡ p) ⊎ ((q.updated_at ≡ ctx.now) × (Same p q → ⊥)))

same_int_iff : (a b : Option ℕ) → (same_int a b ≡ true) ↔ (a ≡ b)
same_int_iff none none = ground arith
same_int_iff none (some b) = ground arith
same_int_iff (some a) none = ground arith
same_int_iff (some a) (some b) = ground (arith, ==_iff a b)

same_time_iff : (a b : Option DateTime) → (same_time a b ≡ true) ↔ (instant a ≡ instant b)
same_time_iff none none = ground arith
same_time_iff none (some b) = ground arith
same_time_iff (some a) none = ground arith
same_time_iff (some a) (some b) = ground (arith, ==_iff (ensure_aware a) (ensure_aware b))

touched_cases :
    (ctx : Context) (p q : PostModel)
    → ((touched ctx p q ≡ p) × Same p q)
      ⊎ ((touched ctx p q ≡ record q { updated_at = ctx.now }) × (Same p q → ⊥))
touched_cases ctx p q =
    let text = eq_iff p.post q.post in
    let expiry = same_time_iff p.expires_at q.expires_at in
    let admin = same_int_iff p.admin_visibility q.admin_visibility in
    let members = same_int_iff p.member_visibility q.member_visibility in
    let display = same_int_iff p.member_display q.member_display in
    elim (Bool-cases (
      str_eq p.post q.post
      && same_time p.expires_at q.expires_at
      && same_int p.admin_visibility q.admin_visibility
      && same_int p.member_visibility q.member_visibility
      && same_int p.member_display q.member_display)) [
        | inl same ↦ inl (
          rw same refl,
          (
            text.0 (ground arith),
            expiry.0 (ground arith),
            admin.0 (ground arith),
            members.0 (ground arith),
            display.0 (ground arith),
          ),
        )
        | inr other ↦ inr (
          rw other refl,
          λ (a, b, c, d, e).
              ground (arith, text.1 a, expiry.1 b, admin.1 c, members.1 d, display.1 e),
        )
      ]

module _ (ctx : Context) (req : UpdatePostRequest) (t : PostType) (p : PostModel) where
  edited-given :
      let q = edited req t p in
      (q.post ≡ given_or req.post p.post)
      × (instant q.expires_at ≡ instant_or (is_poll t) req.expires_at p.expires_at)
      × (q.admin_visibility
          ≡ stored_or (is_poll t) int_of_admin_visibility req.admin_visibility p.admin_visibility)
      × (q.member_visibility
          ≡ stored_or
              (is_poll t)
              int_of_member_visibility
              req.member_visibility
              p.member_visibility)
      × (q.member_display
          ≡ stored_or (is_poll t) int_of_member_display req.member_display p.member_display)
  edited-given = (ground arith, ground arith, ground arith, ground arith, ground arith)

  edited_kept :
      let q = edited req t p in
      (q.id ≡ p.id)
      × (q.id_community ≡ p.id_community)
      × (q.author_id ≡ p.author_id)
      × (q.author_email ≡ p.author_email)
      × (q.type ≡ p.type)
      × (q.created_at ≡ p.created_at)
  edited_kept = (ground arith, ground arith, ground arith, ground arith, ground arith, ground arith)

  pub touched-IsEdited : IsEdited ctx req t p (touched ctx p (edited req t p))
  touched-IsEdited =
      let (text, expiry, admin, members, display) = edited-given in
      elim (touched_cases ctx p (edited req t p)) [
        | inl (same, (s, e, a, m, d)) ↦ rw same (
          refl,
          refl,
          refl,
          refl,
          refl,
          refl,
          s ∙ text,
          e ∙ expiry,
          a ∙ admin,
          m ∙ members,
          d ∙ display,
          inl refl,
        )
        | inr (new, changed) ↦
            let (i, c, u, f, y, r) = edited_kept in
            rw new (i, c, u, f, y, r, text, expiry, admin, members, display, inr (refl, changed))
      ]

module _ (ctx : Context) (d : Db) (crm : CrmSession) (broker : Broker) (post : PostModel)
    (t : PostType) (req : UpdatePostRequest) (c : IsConsistent d) (there : In post d.posts)
    (scoped : in_scope ctx.internal_community_id post.id_community ≡ true)
    (typed : post_type_of_int post.type ≡ some t) (given : req.options ≡ none) where
  -- In a consistent database, an update without options of a post of the request's community
  -- succeeds, up to and with its audit entry, and commits a consistent database with the same
  -- options and votes, in which the request finds under the post's identity a row with the text
  -- that the request gives or else the stored one, on a poll also the instant of the expiry and
  -- the visibility settings that it gives or else those stored, and with the other columns as
  -- they were; but for updated_at, which is the time of the request where one of these columns
  -- changed, and as it was where the row is the stored one.
  pub update_post_edits :
      let (r, w) = apply_update ctx post.id req (request d crm broker) in
      (r ≡ ok tt)
      × IsConsistent w.local.saved
      × ((row : PostModel) × (find_post ctx post.id w.local.saved ≡ some row)
          × IsEdited ctx req t post row)
      × (w.local.saved.options ≡ d.options)
      × (w.local.saved.votes ≡ d.votes)
  update_post_edits =
      let (done, consistent, found, options, votes) =
        update_post-touched ctx d crm broker post t req c there scoped typed given in
      (
        done,
        consistent,
        (touched ctx post (edited req t post), found, touched-IsEdited ctx req t post),
        options,
        votes,
      )
