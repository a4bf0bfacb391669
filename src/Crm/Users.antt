-- ===== src/Crm/Users.antt =====
-- shared/crm_repository.py: emails of users, from the CRM database.
use news_board.Prelude.{
  String, not, Option, none, some, List, [], ◌∷◌, map, str_eq, filter, if◌then◌else◌,
}
use news_board.Prelude.Keys.{contains, fromkeys, string_key}
use news_board.Exec.{ok, Exec}
use news_board.Crm.{CrmSession, query}

-- `dict.get`
abbrev pub email_of : List (String × String) → String → Option String
email_of [] v = none
email_of ((a, e) ∷ l) v = if str_eq v a then some e else email_of l v

unfoldable pub get_emails_by_auth_ids : List String → Exec CrmSession (List (String × String))
unfolding fromkeys
get_emails_by_auth_ids auth_ids s =
    let unique_ids = filter (λ a. not (str_eq a "")) (fromkeys auth_ids) in
    elim unique_ids [
      | [] ↦ (ok [], s)
      | i ∷ is ↦
          query
            (λ d.
              map (λ u. (u.auth_user_id, u.email))
                (filter (λ u. contains (i ∷ is) u.auth_user_id) d.users))
            s
    ]
