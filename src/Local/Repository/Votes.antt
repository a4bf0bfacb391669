-- ===== src/Local/Repository/Votes.antt =====
-- api/news/repository.py: the queries on votes.
use news_board.Prelude.{
  ℕ, suc, String, Bool, not, ◌&&◌, Option, none, some, List, [], ◌∷◌, ◌++◌, ◌==◌, str_eq,
  if◌then◌else◌, map, filter, any, length,
}
use news_board.Prelude.Keys.{contains, fromkeys, nat_key}
use news_board.Context.{Context}
use news_board.Errors.{unexpected}
use news_board.Exec.{ok, err, Exec}
use news_board.Local.{PostModel, PostPollModel, PostPollVoteModel, Db, LocalSession}
use news_board.Local.Repository.Scope.{with_community_scope}

unfoldable pub count_votes_for_post : Context → ℕ → Exec LocalSession ℕ
count_votes_for_post ctx post_id s =
    let scoped =
      with_community_scope ctx (λ (v : PostPollVoteModel). v.id_community) s.work.votes in
    (ok (length (filter (λ v. v.id_post == post_id) scoped)), s)

unfoldable pub votes_of : Context → ℕ → String → Db → List PostPollVoteModel
votes_of ctx post_id voter d =
    filter (λ v. v.id_post == post_id && str_eq v.voter_id voter)
      (with_community_scope ctx (λ v. v.id_community) d.votes)

unfoldable pub get_voter_votes : Context → ℕ → String → Exec LocalSession (List PostPollVoteModel)
unfolding votes_of
get_voter_votes ctx post_id voter s = (ok (votes_of ctx post_id voter s.work), s)

-- Foreign keys, and UNIQUE (id_post_poll, voter_id).
abbrev pub accepts_vote : PostPollVoteModel → Db → Bool
accepts_vote v d =
    any (λ (p : PostModel). p.id == v.id_post) d.posts
    && any (λ (o : PostPollModel). o.id == v.id_post_poll) d.options
    && not (any (λ w. w.id_post_poll == v.id_post_poll && str_eq w.voter_id v.voter_id) d.votes)

abbrev pub insert_vote : PostPollVoteModel → Db → Db
insert_vote v d = record d {
  votes = d.votes ++ record v { id = d.next_vote } ∷ [];
  next_vote = suc d.next_vote;
}

unfoldable pub insert_votes : List PostPollVoteModel → Db → Option Db
insert_votes [] d = some d
insert_votes (v ∷ vs) d =
    let rest = insert_votes vs (insert_vote v d) in if accepts_vote v d then rest else none

unfoldable pub add_votes : List PostPollVoteModel → Exec LocalSession Unit
add_votes votes s = elim (insert_votes votes s.work) [
  | none ↦ (err unexpected, record s { work = s.saved; loaded = [] })
  | some d ↦ (ok tt, record s { work = d })
]

-- one DELETE by primary key for each row
unfoldable pub erase_votes : List PostPollVoteModel → Db → Db
erase_votes [] d = d
erase_votes (v ∷ vs) d =
    erase_votes vs (record d { votes = filter (λ w. not (w.id == v.id)) d.votes })

unfoldable pub delete_votes : List PostPollVoteModel → Exec LocalSession Unit
delete_votes votes s = (ok tt, record s { work = erase_votes votes s.work })

unfoldable pub poll_votes : Context → ℕ → Db → List (ℕ × String)
poll_votes ctx post_id d =
    map (λ (v : PostPollVoteModel). (v.id_post_poll, v.voter_id))
      (filter (λ (v : PostPollVoteModel). v.id_post == post_id)
        (with_community_scope ctx (λ (v : PostPollVoteModel). v.id_community) d.votes))

unfoldable pub get_votes_for_post : Context → ℕ → Exec LocalSession (List (ℕ × String))
get_votes_for_post ctx post_id s = (ok (poll_votes ctx post_id s.work), s)

unfoldable pub get_voted_post_ids : Context → String → List ℕ → Exec LocalSession (List ℕ)
unfolding fromkeys
get_voted_post_ids ctx voter [] s = (ok [], s)
get_voted_post_ids ctx voter (i ∷ is) s =
    let scoped =
      with_community_scope ctx (λ (v : PostPollVoteModel). v.id_community) s.work.votes in
    (
      ok (
          fromkeys (
            map (λ v. v.id_post)
              (filter (λ v. str_eq v.voter_id voter && contains (i ∷ is) v.id_post) scoped))),
      s,
    )
