-- ===== src/Local/Repository/Scope.antt =====
-- core/database/with_community.py: the rows that a query sees.
use news_board.Prelude.{ℕ, Bool, false, Option, none, some, List, ◌==◌, filter}
use news_board.Prelude.Keys.{nat_key}
use news_board.Context.{Context}

-- `with_community_scope`: no community in the context, no rows
abbrev pub in_scope : Option ℕ → ℕ → Bool
in_scope none c = false
in_scope (some i) c = c == i

abbrev pub with_community_scope : {A : Type 0} → Context → (A → ℕ) → List A → List A
with_community_scope ctx id_community =
    filter (λ r. in_scope ctx.internal_community_id (id_community r))
