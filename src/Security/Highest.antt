-- ===== src/Security/Highest.antt =====
-- The role that `_resolve_highest_role` picks.
use news_board.Prelude.{
  ℕ, ◌≤◌, String, refl, Option, none, some, List, [], ◌∷◌, map, All, In, inl, arith,
}
use news_board.Security.{
  Role, role_of_value, role_rank, keep_best, highest_from, resolve_highest_role,
}

-- the rank of a role, 0 where there is none
abbrev pub rank_of : Option Role → ℕ
rank_of none = 0
rank_of (some r) = role_rank r

keep_best-rank :
    (best r : Option Role)
    → (rank_of best ≤ rank_of (keep_best best r)) × (rank_of r ≤ rank_of (keep_best best r))
keep_best-rank best none = (ground arith, ground arith)
keep_best-rank none (some r) = (ground arith, ground arith)
keep_best-rank (some b) (some r) = (ground arith, ground arith)

highest_from-best :
    (best : Option Role) (roles : List String)
    → (rank_of best ≤ rank_of (highest_from best roles))
      × All (λ s. rank_of (role_of_value s) ≤ rank_of (highest_from best roles)) roles
      × In (highest_from best roles) (best ∷ map role_of_value roles)
unfolding highest_from
highest_from-best best [] = (ground arith, tt, inl refl)
highest_from-best best (s ∷ roles) =
    let (above, all, there) = highest_from-best (keep_best best (role_of_value s)) roles in
    let (old, new) = keep_best-rank best (role_of_value s) in
    (omega arith, (omega arith, all), ground (arith, there))

-- The role that is picked from a list of role names has the highest rank among the names that are
-- roles, and a role that is picked is one that a name of the list stands for.
pub resolve_highest_role_max :
    (roles : List String)
    → All (λ s. rank_of (role_of_value s) ≤ rank_of (resolve_highest_role roles)) roles
      × In (resolve_highest_role roles) (none ∷ map role_of_value roles)
unfolding resolve_highest_role
resolve_highest_role_max roles = let (_, all, there) = highest_from-best none roles in (all, there)
