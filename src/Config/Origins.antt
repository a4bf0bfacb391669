-- ===== src/Config/Origins.antt =====
-- What the settings of a deployed service have, once core/config.py has accepted them.
use news_board.Prelude.{
  String, refl, true, false, none, List, [], map, filter, truthy, some, ◌≡◌, ◌≢◌, All, All-intro,
  All-In, In-filter, In-map_inv, arith,
}
use news_board.Prelude.Text.{strip, has_char, strip-lacks}
use news_board.Prelude.Text.Split.{split_char, split_char-lacks}
use news_board.Config.{
  Settings, is_local, origins_of, validate_env_config, cors_options, documentation,
}

-- an origin that CORS can match, with no wildcard in it
abbrev pub IsNamed : String → Type 0
IsNamed o = (truthy (some o) ≡ true) × (has_char 42 o ≡ false)

stripped-IsNamed :
    (parts : List String)
    → All (λ p. has_char 42 p ≡ false) parts
    → All IsNamed (filter (λ s. truthy (some s)) (map strip parts))
stripped-IsNamed parts h =
    let kept = λ (s : String). truthy (some s) in
    All-intro IsNamed (filter kept (map strip parts)) (λ o m.
      let (there, named) = In-filter kept o (map strip parts) m in
      let (p, mp, e) = In-map_inv strip parts o there in
      (named, rw e (strip-lacks 42 p (All-In (λ p. has_char 42 p ≡ false) parts h p mp))))

-- Settings of an environment other than local that the validator accepts give CORS at least one
-- origin, and only origins that are not empty and have no wildcard in them, have database URLs
-- that are not blank, and serve no documentation.
pub validate_env_config-deployed :
    (s : Settings)
    → is_local s.env ≡ false
    → validate_env_config s ≡ none
    → ((cors_options s).allow_origins ≢ [])
      × All IsNamed (cors_options s).allow_origins
      × (truthy (some (strip s.crm_database_url)) ≡ true)
      × (truthy (some (strip s.local_database_url)) ≡ true)
      × (documentation s ≡ record { docs_url = none; redoc_url = none; openapi_url = none })
unfolding validate_env_config origins_of
validate_env_config-deployed s deployed accepted = (
  (λ empty. ground (arith, empty)),
  stripped-IsNamed (split_char 44 s.allow_origin)
      (split_char-lacks 44 42 s.allow_origin (ground arith)),
  ground arith,
  ground arith,
  rw deployed refl,
)
