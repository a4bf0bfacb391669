-- ===== src/News/Preserved/Updates.antt =====
-- Updates keep the database consistent, on every branch.
use news_board.Prelude.{
  ℕ, ◌≡◌, ◌⊎◌, inl, inr, true, false, Bool-cases, some, none, Option-cases, List, map, In,
  In-filter, In-filter_intro, In-any, arith, ◌==◌, not,
}
use news_board.Prelude.Keys.{contains, nat_key}
use news_board.Context.{Context}
use news_board.Const.{PostType, is_poll, post_type_of_int}
use news_board.Crm.{CrmSession}
use news_board.Realtime.{Broker}
use news_board.Local
use news_board.Local.{PostModel, PostPollModel, PostPollVoteModel, Db}
use news_board.Local.Repository
use news_board.Local.Repository.{
  find_post, drop_options, insert_options, set_row, select_options, get_post_with_options,
  load_options, add_options, assign_options, count_votes_for_post,
}
use news_board.Local.Consistency.{IsConsistent}
use news_board.Local.Distinct.{Nodup-map-filter}
use news_board.Local.Removed.{filter_votes-IsConsistent}
use news_board.Local.Changed.{In-changed, changed-IsConsistent}
use news_board.Local.Lookup.{find_post-In}
use news_board.World.{request}
use news_board.News.Effects.{audit_keeps}
use news_board.News.Schemas.{UpdatePostRequest, PollOptionInput}
use news_board.News.Posts.Polls.{build_options}
use news_board.News.Posts.Stored.{build_from-belongs}
use news_board.News.Preserved.Posts.{insert_options_fit}
use news_board.News.Preserved.Reads.{get_post_saved}
use news_board.Local.Grown.{with_options, insert_options_total, with_options-IsConsistent}
use news_board.News.Updates.{edited, touched, replace_options, apply_update, update_post}

-- Options can be dropped with the votes for them.
module _ (ids : List ℕ) (d : Db) (c : IsConsistent d) where
  drop_options-IsConsistent : IsConsistent (drop_options ids d)
  drop_options-IsConsistent =
      let kept = λ (o : PostPollModel). not (contains ids o.id) in
      let stays = λ (v : PostPollVoteModel). not (contains ids v.id_post_poll) in
      let v = filter_votes-IsConsistent d stays c in
      record {
        keyed = record {
          post_fresh = c.post_fresh;
          post_unique = c.post_unique;
          option_fresh = λ o m. c.option_fresh o (In-filter kept o d.options m).0;
          option_unique = λ o q m n.
              c.option_unique o q (In-filter kept o d.options m).0 (In-filter kept q d.options n).0;
          option_post = λ o m. c.option_post o (In-filter kept o d.options m).0;
          vote_fresh = v.vote_fresh;
          vote_unique = v.vote_unique;
          vote_post = v.vote_post;
          vote_option = λ w m.
              let (o, mo, e, post) = v.vote_option w m in
              let (there, free) = In-filter stays w d.votes m in
              (o, In-filter_intro kept o d.options mo (ground (arith, free, e)), e, post);
          posts_distinct = c.posts_distinct;
          options_distinct =
              Nodup-map-filter (λ (o : PostPollModel). o.id) kept d.options c.options_distinct;
          votes_distinct = v.votes_distinct;
          vote_once = v.vote_once;
        };
        vote_single = v.vote_single;
      }

module _ (ctx : Context) (d : Db) (crm : CrmSession) (broker : Broker) (c : IsConsistent d) (i : ℕ)
    (req : UpdatePostRequest) where
  update_missing :
      find_post ctx i d ≡ none → (apply_update ctx i req (request d crm broker)).1.local.saved ≡ d
  unfolding apply_update get_post_with_options
  update_missing h = ground arith

  module _ (p : PostModel) (found : find_post ctx i d ≡ some p) where
    update_untyped :
        post_type_of_int p.type ≡ none
        → (apply_update ctx i req (request d crm broker)).1.local.saved ≡ d
    unfolding apply_update get_post_with_options load_options
    update_untyped h = ground (arith, found)

    module _ (t : PostType) (typed : post_type_of_int p.type ≡ some t) where
      abbrev row : PostModel
      row = touched ctx p (edited req t p)

      abbrev edit : Db
      edit = record d { posts = set_row row d.posts }

      edit-IsConsistent : IsConsistent edit × In row edit.posts
      edit-IsConsistent =
          let (there, _, _) = find_post-In ctx d i p found in
          (
            changed-IsConsistent d c p row there (ground arith) (ground arith) (ground arith),
            In-changed d c p row there (ground arith) (ground arith) (ground arith),
          )

      update_plain :
          (req.options ≡ none) ⊎ (is_poll t ≡ false)
          → (apply_update ctx i req (request d crm broker)).1.local.saved ≡ edit
      unfolding apply_update get_post_with_options load_options Repository.save_post Local.commit
      update_plain (inl none_) = grind (arith, found, audit_keeps)
      update_plain (inr post) = grind (arith, found, audit_keeps)

      module _ (options : List PollOptionInput) (given : req.options ≡ some options)
          (poll : is_poll t ≡ true) where
        abbrev new : List PostPollModel
        new = build_options options p.id p.id_community

        abbrev old : List ℕ
        old = map (λ (o : PostPollModel). o.id) (select_options p.id d)

        -- a replacement that is refused, by the code or by the database
        update_refused :
            insert_options new edit ≡ none
            → (apply_update ctx i req (request d crm broker)).1.local.saved ≡ d
        unfolding apply_update get_post_with_options load_options Repository.save_post
            replace_options count_votes_for_post assign_options add_options Local.commit
        update_refused h = ground (arith, found)

        update_replaced :
            (rows : List PostPollModel) (e : Db)
            → insert_options new edit ≡ some (rows, e)
            → ((apply_update ctx i req (request d crm broker)).1.local.saved ≡ d)
              ⊎ ((apply_update ctx i req (request d crm broker)).1.local.saved ≡ drop_options old e)
        unfolding apply_update get_post_with_options load_options Repository.save_post
            replace_options count_votes_for_post assign_options add_options Local.commit
        update_replaced rows e h = grind (arith, found, audit_keeps)

        replaced-IsConsistent :
            (rows : List PostPollModel) (e : Db)
            → insert_options new edit ≡ some (rows, e)
            → IsConsistent (drop_options old e)
        replaced-IsConsistent rows e h =
            let (good, there) = edit-IsConsistent in
            let total = insert_options_total new edit (λ o m.
              let (post, _) = build_from-belongs 0 options p.id p.id_community o m in
              (
                insert_options_fit new edit (rows, e) h o m,
                In-any (λ (p : PostModel). p.id == o.id_post) edit.posts row there
                    (ground (arith, post)),
              )) in
            let same : e ≡ with_options new edit = ground (arith, total) in
            let grown = with_options-IsConsistent edit good new (λ o m.
              let (post, community) = build_from-belongs 0 options p.id p.id_community o m in
              (row, there, ground (arith, post), ground (arith, community))) in
            drop_options-IsConsistent old e (rw same grown)

      typed-IsConsistent :
          IsConsistent (apply_update ctx i req (request d crm broker)).1.local.saved
      typed-IsConsistent = elim (Option-cases req.options) [
        | inl none_ ↦ rw (update_plain (inl none_)) (edit-IsConsistent.0)
        | inr (options, given) ↦ elim (Bool-cases (is_poll t)) [
          | inr post ↦ rw (update_plain (inr post)) (edit-IsConsistent.0)
          | inl poll ↦ elim (Option-cases (insert_options (new options given poll) edit)) [
            | inl refused ↦ rw (update_refused options given poll refused) c
            | inr ((rows, e), stored) ↦ elim (update_replaced options given poll rows e stored) [
              | inl same ↦ rw same c
              | inr replaced ↦ rw replaced (replaced-IsConsistent options given poll rows e stored)
            ]
          ]
        ]
      ]

  pub apply_update-IsConsistent :
      IsConsistent (apply_update ctx i req (request d crm broker)).1.local.saved
  apply_update-IsConsistent = elim (Option-cases (find_post ctx i d)) [
    | inl none_ ↦ rw (update_missing none_) c
    | inr (p, found) ↦ elim (Option-cases (post_type_of_int p.type)) [
      | inl untyped ↦ rw (update_untyped p found untyped) c
      | inr (t, typed) ↦ typed-IsConsistent p found t typed
    ]
  ]

  update_post-saved :
      (update_post ctx i req (request d crm broker)).1.local.saved
      ≡ (apply_update ctx i req (request d crm broker)).1.local.saved
  unfolding update_post
  update_post-saved =
      ground (arith, get_post_saved ctx i (apply_update ctx i req (request d crm broker)).1)

  pub update_post-IsConsistent :
      IsConsistent (update_post ctx i req (request d crm broker)).1.local.saved
  update_post-IsConsistent = rw update_post-saved apply_update-IsConsistent
