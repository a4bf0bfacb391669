-- ===== src/Notifications/Muted.antt =====
-- A channel that a preference switches off is not used.
use news_board.Prelude.{
  ℕ, String, ◌≡◌, refl, true, false, some, List, [], ◌∷◌, any, In, arith, ==_iff, str_eq,
  Option-cases, Bool-cases, inl, inr, not, filter,
}
use news_board.Prelude.Keys.{contains, nat_key}
use news_board.Crm.Roundtrip.{roundtrip-work}
use news_board.Exec.{ok}
use news_board.Crm.{NotificationPreferenceModel, CrmSession}
use news_board.Notifications.{
  Channel, informational, channel_code, channel_of_code, same_channel, inapp, email,
}
use news_board.Notifications.Dedupe.{type_prefix_of}
use news_board.Notifications.Repository.{
  Modes, mode_of, same_key, find_preferences, resolve_preferences,
}
use news_board.Notifications.Preferences.{resolve_preferences_specific}
use news_board.Notifications.Service.{
  Effective, mute, wants, apply_modes, effective_channels, default_channels, has_user,
}

channel_of_code-channel_code : (c : Channel) → channel_of_code (channel_code c) ≡ some c
channel_of_code-channel_code inapp = refl
channel_of_code-channel_code email = refl

unused :
    (c x : Channel) (cs : List Channel)
    → any (same_channel c) cs ≡ false
    → any (same_channel c) (filter (λ y. not (same_channel x y)) cs) ≡ false
unused c x [] h = refl
unused c x (y ∷ cs) h = ground (arith, unused c x cs)

removed :
    (c : Channel) (cs : List Channel)
    → any (same_channel c) (filter (λ y. not (same_channel c y)) cs) ≡ false
removed c [] = refl
removed c (y ∷ cs) = ground (arith, removed c cs)

module _ (c : Channel) (u : ℕ) where
  mute_keeps :
      (j : ℕ) (x : Channel) (e : Effective) → wants c e u ≡ false → wants c (mute j x e) u ≡ false
  mute_keeps j x [] h = h
  mute_keeps j x ((i, cs) ∷ e) h = ground (arith, mute_keeps j x e, unused c x cs)

  mute_off : (e : Effective) → wants c (mute u c e) u ≡ false
  mute_off [] = refl
  mute_off ((i, cs) ∷ e) = ground (arith, mute_off e, removed c cs)

  apply_modes_keeps :
      (modes : Modes) (e f : Effective)
      → apply_modes modes e ≡ ok f
      → wants c e u ≡ false
      → wants c f u ≡ false
  unfolding apply_modes
  apply_modes_keeps [] e f h off = ground arith
  apply_modes_keeps (((j, n), m) ∷ modes) e f h off = elim (Option-cases (channel_of_code n)) [
    | inl none_ ↦ ground (arith, apply_modes_keeps modes e f)
    | inr (x, known) ↦ ground (
      arith,
      apply_modes_keeps modes e f,
      apply_modes_keeps modes (mute j x e) f,
      mute_keeps j x e off,
    )
  ]

  absent : (e : Effective) → has_user u e ≡ false → wants c e u ≡ false
  absent [] h = refl
  absent ((i, cs) ∷ e) h = ground (arith, absent e)

  -- a mode 3 (OFF) for the user and the channel takes the channel away
  pub apply_modes_off :
      (modes : Modes) (e f : Effective)
      → apply_modes modes e ≡ ok f
      → mode_of (u, channel_code c) modes ≡ some 3
      → wants c f u ≡ false
  unfolding apply_modes
  apply_modes_off [] e f h off = cc
  apply_modes_off (((j, n), m) ∷ modes) e f h off =
      elim (Bool-cases (same_key (u, channel_code c) (j, n))) [
        | inl same ↦
            let here : n ≡ channel_code c = grind (arith, ==_iff) in
            let user : j ≡ u = grind (arith, ==_iff) in
            let three : m ≡ 3 = ground arith in
            ground (
              arith,
              channel_of_code-channel_code c,
              mute_off e,
              absent e,
              apply_modes_keeps modes e f,
              ==_iff u j,
              apply_modes_keeps modes (mute u c e) f,
            )
        | inr other ↦ elim (Option-cases (channel_of_code n)) [
          | inl none_ ↦ ground (arith, apply_modes_off modes e f)
          | inr (x, known) ↦
              ground (arith, apply_modes_off modes e f, apply_modes_off modes (mute j x e) f)
        ]
      ]

module _ (type : String) (requested : List Channel) (ids : List ℕ) (s : CrmSession) (c : Channel)
    (row : NotificationPreferenceModel) (e : Effective) (stored : In row s.work.preferences)
    (recipient : contains ids row.id_user ≡ true)
    (specific : str_eq (type_prefix_of type) "" ≡ false)
    (matches : row.type_prefix ≡ type_prefix_of type)
    (unique : (r : NotificationPreferenceModel)
      → In r s.work.preferences
      → r.id_user ≡ row.id_user
      → r.channel ≡ row.channel
      → r.type_prefix ≡ row.type_prefix
      → r.mode ≡ row.mode) where
  -- Where a recipient has, for the type's non-empty prefix, a stored preference that sets a
  -- channel OFF, and rows of the same user, channel and prefix agree, an informational
  -- notification does not use that channel for that recipient.
  effective_channels_off :
      row.channel ≡ channel_code c
      → row.mode ≡ 3
      → (effective_channels type informational requested ids s).0 ≡ ok e
      → wants c e row.id_user ≡ false
  unfolding effective_channels find_preferences
  effective_channels_off on off h =
      let specific_mode =
        resolve_preferences_specific ids (type_prefix_of type) s.work row stored recipient specific
          matches unique in
      apply_modes_off c row.id_user (resolve_preferences ids (type_prefix_of type) s.work)
        (default_channels requested ids) e (ground (arith, roundtrip-work s)) (ground arith)
