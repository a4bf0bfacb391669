-- ===== src/Notifications/Dedupe.antt =====
-- core/notifications/dedupe.py: the idempotency key of one queued message.
use Prim.Native.String.{◌++◌}
use news_board.Prelude.{ℕ, String, Option, none, some, truthy, true, false}
use news_board.Prelude.Decimal.{str_int}
use news_board.Prelude.Text.{take_chars, before_char, strip}
use news_board.Crm.{Payload}

-- What the standard library supplies: the hex digest of `hashlib.sha256`, `str.lower`, and
-- `json.dumps` as `canonical_json` calls it.
pub record Digest : Type 0 where
  pub sha256_hex : String → String
  pub lower : String → String
  pub canonical_json : Payload → String

abbrev or_empty : Option String → String
or_empty none = ""
or_empty (some s) = s

unfoldable pub recipient_ref : Digest → Option ℕ → Option String → String
unfolding str_int strip
recipient_ref g (some id_user) recipient = "u" ++ str_int id_user
recipient_ref g none recipient =
    "a" ++ take_chars 16 (g.sha256_hex (g.lower (strip (or_empty recipient))))

abbrev derived_key : Digest → ℕ → String → Payload → String → String
unfolding str_int
derived_key g channel type payload ref =
    str_int channel
    ++ ":"
    ++ type
    ++ ":"
    ++ ref
    ++ ":"
    ++ take_chars 32 (g.sha256_hex (g.canonical_json payload))

unfoldable pub build_dedupe_key :
    Digest → ℕ → String → Payload → Option ℕ → Option String → Option String → String
unfolding recipient_ref derived_key
build_dedupe_key g channel type payload id_user recipient none =
    derived_key g channel type payload (recipient_ref g id_user recipient)
build_dedupe_key g channel type payload id_user recipient (some override) =
    elim (truthy (some override)) [
      | true ↦ take_chars 200 override
      | false ↦ derived_key g channel type payload (recipient_ref g id_user recipient)
    ]

-- the first dot-segment of a type
unfoldable pub type_prefix_of : String → String
type_prefix_of type = before_char b'.' type
