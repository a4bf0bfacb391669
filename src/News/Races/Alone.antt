-- ===== src/News/Races/Alone.antt =====
-- A request that the checks of api/news/service.py let pass, on a database as it is when it begins.
use news_board.Prelude.{ℕ, String, ◌≡◌, refl, true, false, some, List, [], In, length, arith}
use news_board.Prelude.Keys.{fromkeys, nat_key}
use news_board.Const.{PostType, is_poll, post_type_of_int}
use news_board.Exec.{ok}
use news_board.Local.{PostModel, Db}
use news_board.Local.Repository.{
  in_scope, get_post, get_voter_votes, votes_of, get_post_with_options, load_options,
}
use news_board.Local.Consistency.{IsKeyed}
use news_board.Local.Lookup.{find_post-some}
use news_board.News.{poll_ended, current_voter, require_voter}
use news_board.News.Votes.{is_single}
use news_board.News.Votes.Swap.{IsOptionOf}
use news_board.News.Votes.Recorded.{validate_selection-ok}
use news_board.News.Races.{
  Job, Checked, VoteRequest, cast, retract, check_request, check_cast, check_retract, opens,
}
use news_board.News.Races.Ready.{inserted}

-- the ballot that a request asks for
abbrev pub asked : VoteRequest → List ℕ
asked (cast ids) = fromkeys ids
asked retract = []

abbrev pub RequestAllowed : PostModel → PostType → Db → VoteRequest → Type 0
RequestAllowed post t d (cast ids) =
    ((i : ℕ) → In i ids → IsOptionOf post.id d i) × (is_single t ≡ true → length (fromkeys ids) ≡ 1)
RequestAllowed post t d retract = Unit

-- a request of a signed-in caller of the post's community, on the poll before its end, and for
-- options of that poll
pub record IsAllowed (post : PostModel) (t : PostType) (v : String) (d : Db) (j : Job)
    : Type 0 where
  pub there : In post d.posts
  pub typed : post_type_of_int post.type ≡ some t
  pub poll : is_poll t ≡ true
  pub id : j.post_id ≡ post.id
  pub scoped : in_scope j.ctx.internal_community_id post.id_community ≡ true
  pub running : poll_ended j.ctx post ≡ false
  pub voter : current_voter j.ctx ≡ some v
  pub options : RequestAllowed post t d j.request

module _ (post : PostModel) (t : PostType) (v : String) (d : Db) (k : IsKeyed d) (j : Job)
    (a : IsAllowed post t v d j) where
  pub passes :
      (q : VoteRequest)
      → RequestAllowed post t d q
      → (c : Checked) × ((check_request j.ctx j.post_id q (opens d j.world)).0 ≡ ok c)
        × (c.voter_id ≡ v)
        × (inserted q c ≡ asked q)
  unfolding check_request check_cast check_retract get_post get_post_with_options load_options
      require_voter get_voter_votes
  passes (cast ids) (valid, one) = (
    record {
      post = post;
      voter_id = v;
      selected = fromkeys ids;
      existing = votes_of j.ctx j.post_id v d;
    },
    ground (
      arith,
      find_post-some j.ctx d post k a.there a.scoped,
      validate_selection-ok j.ctx d k post a.there a.scoped v t ids valid one,
      a.id,
      a.typed,
      a.poll,
      a.running,
      a.voter,
    ),
    refl,
    refl,
  )
  passes retract _ = (
    record { post = post; voter_id = v; selected = []; existing = votes_of j.ctx j.post_id v d },
    ground (
      arith,
      find_post-some j.ctx d post k a.there a.scoped,
      a.id,
      a.typed,
      a.poll,
      a.running,
      a.voter,
    ),
    refl,
    refl,
  )
