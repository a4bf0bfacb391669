-- ===== src/Notifications/Preferences.antt =====
-- Which preference decides, and that a channel switched off is not used.
use news_board.Prelude.{
  ℕ, String, ◌≡◌, refl, true, false, some, List, [], ◌∷◌, In, inl, inr, arith, ==_iff, eq_iff,
  str_eq, In-filter, In-filter_intro, filter,
}
use news_board.Prelude.Keys.{contains, nat_key}
use news_board.Crm.{NotificationPreferenceModel, CrmDb}
use news_board.Notifications.Repository.{
  Modes, mode_of, put_mode, same_key, take_row, take_rows, applies, resolve_preferences,
}

module _ (k : ℕ × ℕ) (m : ℕ) where
  mode_of-put_mode_same : (ms : Modes) → mode_of k (put_mode k m ms) ≡ some m
  mode_of-put_mode_same [] = ground (arith, ==_iff k.0 k.0)
  mode_of-put_mode_same ((j, x) ∷ ms) = ground (arith, mode_of-put_mode_same ms)

  -- no entry of another key disturbs one
  mode_of-put_mode :
      (j : ℕ × ℕ) (n : ℕ) (ms : Modes)
      → mode_of k ms ≡ some m
      → (same_key k j ≡ true → n ≡ m)
      → mode_of k (put_mode j n ms) ≡ some m
  mode_of-put_mode j n [] h same = ground arith
  mode_of-put_mode j n ((i, x) ∷ ms) h same = ground (arith, mode_of-put_mode j n ms)

  -- a row of this key with a prefix of its own says `m`
  abbrev Says : NotificationPreferenceModel → Type 0
  Says r = same_key k (r.id_user, r.channel) ≡ true → str_eq r.type_prefix "" ≡ false → r.mode ≡ m

  take_row-mode_of :
      (resolved : Modes) (r : NotificationPreferenceModel)
      → Says r
      → mode_of k resolved ≡ some m
      → mode_of k (take_row resolved r) ≡ some m
  take_row-mode_of resolved r says h =
      ground (arith, mode_of-put_mode (r.id_user, r.channel) r.mode resolved h)

  take_rows-keep :
      (resolved : Modes) (rows : List NotificationPreferenceModel)
      → ((r : NotificationPreferenceModel) → In r rows → Says r)
      → mode_of k resolved ≡ some m
      → mode_of k (take_rows resolved rows) ≡ some m
  unfolding take_rows
  take_rows-keep resolved [] says h = h
  take_rows-keep resolved (r ∷ rows) says h =
      take_rows-keep (take_row resolved r) rows (λ q n. says q (inr n))
        (take_row-mode_of resolved r (says r (inl refl)) h)

  take_rows-specific :
      (resolved : Modes) (rows : List NotificationPreferenceModel)
      (row : NotificationPreferenceModel)
      → ((r : NotificationPreferenceModel) → In r rows → Says r)
      → In row rows
      → same_key k (row.id_user, row.channel) ≡ true
      → str_eq row.type_prefix "" ≡ false
      → mode_of k (take_rows resolved rows) ≡ some m
  unfolding take_rows
  take_rows-specific resolved (r ∷ rows) row says (inl e) key specific =
      take_rows-keep (take_row resolved r) rows (λ q n. says q (inr n)) ground
        (arith, mode_of-put_mode_same resolved, says r (inl refl))
  take_rows-specific resolved (r ∷ rows) row says (inr n) key specific =
      take_rows-specific (take_row resolved r) rows row (λ q n. says q (inr n)) n key specific
  take_rows-specific resolved [] row says n key specific = absurd n

module _ (ids : List ℕ) (prefix : String) (d : CrmDb) (row : NotificationPreferenceModel)
    (stored : In row d.preferences) (recipient : contains ids row.id_user ≡ true)
    (specific : str_eq prefix "" ≡ false) (matches : row.type_prefix ≡ prefix)
    (unique : (r : NotificationPreferenceModel)
      → In r d.preferences
      → r.id_user ≡ row.id_user
      → r.channel ≡ row.channel
      → r.type_prefix ≡ row.type_prefix
      → r.mode ≡ row.mode) where
  -- A stored preference for the type's non-empty prefix decides the mode of its user, a
  -- recipient, on its channel, whatever default the user has and in whatever order the rows
  -- come, where rows of the same user, channel and prefix agree.
  pub resolve_preferences_specific :
      mode_of (row.id_user, row.channel) (resolve_preferences ids prefix d) ≡ some row.mode
  unfolding resolve_preferences
  resolve_preferences_specific =
      take_rows-specific (row.id_user, row.channel) row.mode []
        (filter (applies ids prefix) d.preferences) row
        (λ r n key own.
          let (there, applied) = In-filter (applies ids prefix) r d.preferences n in
          unique r there (grind (arith, ==_iff)) (grind (arith, ==_iff)) (grind (arith, eq_iff)))
        (In-filter_intro (applies ids prefix) row d.preferences stored
          (ground (arith, eq_iff row.type_prefix prefix)))
        (ground (arith, ==_iff row.id_user row.id_user, ==_iff row.channel row.channel))
        (ground arith)
