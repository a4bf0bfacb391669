-- ===== src/Notifications/Used.antt =====
-- The channels that a notification uses: the requested ones that no preference switches off.
use news_board.Prelude.{
  ℕ, zero, suc, String, ◌≡◌, refl, ◌∙◌, true, false, none, some, List, [], ◌∷◌, any, In, arith,
  ==_iff, str_eq, Option-cases, Bool-cases, inl, inr, not, filter, ◌&&◌, ◌==◌,
}
use news_board.Prelude.Keys.{contains, nat_key}
use news_board.Crm.Roundtrip.{roundtrip-work}
use news_board.Exec.{ok}
use news_board.Crm.{NotificationPreferenceModel, CrmSession}
use news_board.Notifications.{
  Channel, informational, channel_code, channel_of_code, same_channel, inapp, email,
}
use news_board.Notifications.Dedupe.{type_prefix_of}
use news_board.Notifications.Repository.{
  Modes, mode_of, put_mode, same_key, take_row, take_rows, applies, find_preferences,
  resolve_preferences,
}
use news_board.Notifications.Preferences.{resolve_preferences_specific}
use news_board.Notifications.Muted.{apply_modes_off}
use news_board.Notifications.Service.{
  Effective, mute, wants, apply_modes, effective_channels, default_channels,
}

-- no key has two entries
abbrev Distinct : Modes → Type 0
Distinct [] = Unit
Distinct ((k, m) ∷ ms) = (mode_of k ms ≡ none) × Distinct ms

same_key_sym : (j k : ℕ × ℕ) → same_key j k ≡ same_key k j
same_key_sym j k = ground arith

mode_of-put_mode_other :
    (j k : ℕ × ℕ) (m : ℕ) (ms : Modes)
    → same_key j k ≡ false
    → mode_of j ms ≡ none
    → mode_of j (put_mode k m ms) ≡ none
mode_of-put_mode_other j k m [] other h = ground arith
mode_of-put_mode_other j k m ((i, x) ∷ ms) other h = ground (arith, mode_of-put_mode_other j k m ms)

mode_of_same : (j k : ℕ × ℕ) (ms : Modes) → same_key j k ≡ true → mode_of j ms ≡ mode_of k ms
mode_of_same j k [] h = refl
mode_of_same j k ((i, x) ∷ ms) h = ground (arith, mode_of_same j k ms)

put_mode-Distinct : (k : ℕ × ℕ) (m : ℕ) (ms : Modes) → Distinct ms → Distinct (put_mode k m ms)
put_mode-Distinct k m [] h = (refl, tt)
put_mode-Distinct k m ((i, x) ∷ ms) (fresh, h) = elim (Bool-cases (same_key k i)) [
  | inl same ↦ ground (arith, mode_of_same k i ms)
  | inr other ↦
      ground (
        arith,
        fresh,
        same_key_sym i k,
        mode_of-put_mode_other i k m ms,
        put_mode-Distinct k m ms h,
      )
]

take_row-Distinct :
    (ms : Modes) (r : NotificationPreferenceModel) → Distinct ms → Distinct (take_row ms r)
take_row-Distinct ms r h = ground (arith, h, put_mode-Distinct (r.id_user, r.channel) r.mode ms h)

take_rows-Distinct :
    (ms : Modes) (rows : List NotificationPreferenceModel)
    → Distinct ms
    → Distinct (take_rows ms rows)
unfolding take_rows
take_rows-Distinct ms [] h = h
take_rows-Distinct ms (r ∷ rows) h =
    take_rows-Distinct (take_row ms r) rows (take_row-Distinct ms r h)

code_of_channel : (n : ℕ) (x : Channel) → channel_of_code n ≡ some x → n ≡ channel_code x
code_of_channel zero x h = cc
code_of_channel (suc zero) x h = ground arith
code_of_channel (suc (suc zero)) x h = ground arith
code_of_channel (suc (suc (suc n))) x h = cc

same_channel_eq : (c x : Channel) → same_channel c x ≡ true → c ≡ x
same_channel_eq inapp inapp h = refl
same_channel_eq email email h = refl
same_channel_eq inapp email h = cc
same_channel_eq email inapp h = cc

kept :
    (c x : Channel) (cs : List Channel)
    → same_channel c x ≡ false
    → any (same_channel c) (filter (λ y. not (same_channel x y)) cs) ≡ any (same_channel c) cs
kept c x [] h = refl
kept c x (y ∷ cs) h = ground (arith, kept c x cs, same_channel_eq c y, same_channel_eq x y)

module _ (c : Channel) (u : ℕ) where
  mute_other :
      (j : ℕ) (x : Channel) (e : Effective)
      → ((u == j) && same_channel c x) ≡ false
      → wants c (mute j x e) u ≡ wants c e u
  mute_other j x [] h = refl
  mute_other j x ((i, cs) ∷ e) h = ground (arith, mute_other j x e h, kept c x cs)

  default_channels-wants :
      (requested : List Channel) (ids : List ℕ)
      → contains ids u ≡ true
      → wants c (default_channels requested ids) u ≡ any (same_channel c) requested
  default_channels-wants requested [] h = ground arith
  default_channels-wants requested (i ∷ ids) h =
      ground (arith, default_channels-wants requested ids)

  -- where each key has one mode, a channel whose mode is not 3 (OFF) stays as it was
  apply_modes_on :
      (modes : Modes) (e f : Effective)
      → Distinct modes
      → (mode_of (u, channel_code c) modes ≡ some 3 → ⊥)
      → apply_modes modes e ≡ ok f
      → wants c f u ≡ wants c e u
  unfolding apply_modes
  apply_modes_on [] e f distinct on h = ground arith
  apply_modes_on (((j, n), m) ∷ modes) e f (fresh, distinct) on h =
      elim (Bool-cases (same_key (u, channel_code c) (j, n))) [
        | inl same ↦
            let none_left = mode_of_same (u, channel_code c) (j, n) modes same in
            ground (arith, none_left, fresh, apply_modes_on modes e f distinct)
        | inr other ↦ elim (Option-cases (channel_of_code n)) [
          | inl none_ ↦ ground (arith, on, apply_modes_on modes e f distinct)
          | inr (x, known) ↦
              let code = code_of_channel n x known in
              ground (
                arith,
                on,
                apply_modes_on modes e f distinct,
                apply_modes_on modes (mute j x e) f distinct,
                mute_other j x e,
                same_channel_eq c x,
                ==_iff u j,
              )
        ]
      ]

  apply_modes_mode :
      (m : ℕ) (modes : Modes) (e f : Effective)
      → Distinct modes
      → mode_of (u, channel_code c) modes ≡ some m
      → apply_modes modes e ≡ ok f
      → wants c f u ≡ (wants c e u && not (m == 3))
  apply_modes_mode m modes e f distinct decided h = elim (Bool-cases (m == 3)) [
    | inl off ↦ ground (arith, ==_iff m 3, apply_modes_off c u modes e f h)
    | inr on ↦
        ground (arith, apply_modes_on modes e f distinct (λ three. ground (arith, ==_iff m 3)) h)
  ]

resolve_preferences-Distinct :
    (ids : List ℕ) (prefix : String) (s : CrmSession)
    → Distinct (resolve_preferences ids prefix s.work)
unfolding resolve_preferences
resolve_preferences-Distinct ids prefix s =
    take_rows-Distinct [] (filter (applies ids prefix) s.work.preferences) tt

module _ (type : String) (requested : List Channel) (ids : List ℕ) (s : CrmSession) (c : Channel)
    (row : NotificationPreferenceModel) (e : Effective) (stored : In row s.work.preferences)
    (recipient : contains ids row.id_user ≡ true)
    (specific : str_eq (type_prefix_of type) "" ≡ false)
    (matches : row.type_prefix ≡ type_prefix_of type)
    (unique : (r : NotificationPreferenceModel)
      → In r s.work.preferences
      → r.id_user ≡ row.id_user
      → r.channel ≡ row.channel
      → r.type_prefix ≡ row.type_prefix
      → r.mode ≡ row.mode) where
  -- Where a recipient has, for the type's non-empty prefix, a stored preference on a channel,
  -- and rows of the same user, channel and prefix agree, an informational notification uses
  -- that channel for that recipient exactly where it is requested and the mode of the row is
  -- not OFF.
  pub effective_channels_mode :
      row.channel ≡ channel_code c
      → (effective_channels type informational requested ids s).0 ≡ ok e
      → wants c e row.id_user ≡ (any (same_channel c) requested && not (row.mode == 3))
  unfolding effective_channels find_preferences
  effective_channels_mode on h =
      apply_modes_mode c row.id_user row.mode (resolve_preferences ids (type_prefix_of type) s.work)
        (default_channels requested ids) e
        (resolve_preferences-Distinct ids (type_prefix_of type) s)
        (ground (
          arith,
          resolve_preferences_specific ids (type_prefix_of type) s.work row stored recipient
              specific matches unique,
        ))
        (ground (arith, roundtrip-work s))
      ∙ ground (arith, default_channels-wants c row.id_user requested ids recipient)
