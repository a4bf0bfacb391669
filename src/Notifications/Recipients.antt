-- ===== src/Notifications/Recipients.antt =====
-- Who receives a notification to a community.
use news_board.Prelude.{
  ℕ, String, ◌≡◌, ◌≢◌, ◌↔◌, refl, ap, sym, ◌∙◌, true, ◌&&◌, Option, some, none, List, filter, In,
  In-map, In-map_inv, In-filter, In-filter_intro, ◌==◌, arith, truthy,
}
use news_board.Exec.{ok}
use news_board.Crm.{CommunityUserModel, CrmDb, CrmSession, roundtrip}
use news_board.Crm.Roundtrip.{roundtrip-work}
use news_board.Notifications.{community_target}
use news_board.Notifications.Repository.{
  not_excluded, has_role, user_id_of, recipients_in, find_community_recipient_ids,
  resolve_internal_user_id,
}
use news_board.Notifications.Service.{resolve_audience}

-- `u` is a member of the community `c`
abbrev pub IsMember : ℕ → CrmDb → ℕ → Type 0
IsMember c d u = (m : CommunityUserModel) × In m d.members × (m.id_community ≡ c) × (m.id_user ≡ u)

not_excluded_iff :
    (exclude : Option ℕ) (m : CommunityUserModel)
    → (not_excluded exclude m ≡ true) ↔ (exclude ≢ some m.id_user)
not_excluded_iff none m = (λ h e. cc, λ h. refl)
not_excluded_iff (some x) m =
    (λ h e. ground arith, λ h. ground (arith, λ (e : m.id_user ≡ x). h (ap some (sym e))))

module _ (c : ℕ) (exclude : Option ℕ) (d : CrmDb) where
  recipients_in-IsMember :
      (u : ℕ) → In u (recipients_in c exclude none d) ↔ (IsMember c d u × (exclude ≢ some u))
  unfolding recipients_in
  recipients_in-IsMember u =
      let test = λ (m : CommunityUserModel).
        m.id_community == c && not_excluded exclude m && has_role none m in
      (
        λ h.
            let (m, there, e) =
              In-map_inv (λ (m : CommunityUserModel). m.id_user) (filter test d.members) u h in
            let (stored, passed) = In-filter test m d.members there in
            (
              (m, stored, ground (arith, passed), ground (arith, e)),
              λ x. (not_excluded_iff exclude m).0 (ground (arith, passed)) (x ∙ ap some e),
            ),
        λ ((m, stored, e, f), other). rw (← f) (
            In-map (λ (m : CommunityUserModel). m.id_user) (filter test d.members) m
              (In-filter_intro test m d.members stored
                (ground (arith, e, (not_excluded_iff exclude m).1 (λ x. other (x ∙ ap some f)))))),
      )

-- Where the audience of a notification to a community, its named author left out, can be read, it
-- is that community with exactly its members, less the author's own row if the author has one.
pub resolve_audience-IsMember :
    (c : ℕ) (author : String) (s : CrmSession) (ids : List ℕ) (community : Option ℕ)
    → truthy (some author) ≡ true
    → (resolve_audience (community_target c none (some author)) s).0 ≡ ok (ids, community)
    → (community ≡ some c)
      × ((u : ℕ) → In u ids ↔ (IsMember c s.work u × (user_id_of author s.work ≢ some u)))
unfolding resolve_audience find_community_recipient_ids resolve_internal_user_id
resolve_audience-IsMember c author s ids community named h =
    let same : ids ≡ recipients_in c (user_id_of author s.work) none s.work =
      ground (arith, roundtrip-work s, roundtrip-work (roundtrip s).1) in
    (ground arith, λ u. rw same (recipients_in-IsMember c (user_id_of author s.work) s.work u))
