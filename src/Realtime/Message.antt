-- ===== src/Realtime/Message.antt =====
-- core/realtime/envelope.py: the hint that is published, and its contract.
use Prim.Native.String.{len}
use news_board.Prelude.{
  ℕ, String, Bool, true, false, Option, none, some, List, [], ◌∷◌, ltb, truthy, not, ◌&&◌, ◌||◌,
  if◌then◌else◌,
}
use news_board.Prelude.Keys.{contains, string_key}

-- A value of a hint: a JSON scalar, or anything else.
pub data HintValue : Type 0 where
  null : HintValue
  text : String → HintValue
  int : ℕ → HintValue
  bool : Bool → HintValue
  float : HintValue
  composite : HintValue

abbrev pub Hint : Type 0
Hint = List (String × HintValue)

-- `(kind, ref_id)`, the id as `str` prints it; `none` is the id `None`
abbrev pub Resource : Type 0
Resource = String × Option String

pub record Envelope : Type 0 where
  pub v : ℕ
  pub id : String
  pub topic : String
  pub at : String
  pub community_id : Option ℕ
  pub kind : String
  pub ref_id : String
  pub hint : Hint

-- What the standard library supplies: `secrets.token_hex(8)`, the printed time, and `json.dumps`.
pub record Encoding : Type 0 where
  pub token_hex : String
  pub at : String
  pub json_dumps : Envelope → String

abbrev pub max_envelope_bytes : ℕ
max_envelope_bytes = 1024

abbrev pub topics : List String
topics =
    "notification.created" ∷ "generation.finished" ∷ "simulation.finished" ∷ "billing_run.finished"
    ∷ "session.revoked" ∷ []

abbrev pub is_scalar : HintValue → Bool
is_scalar composite = false
is_scalar _ = true

abbrev pub all_scalar : Hint → Bool
all_scalar [] = true
all_scalar ((key, value) ∷ rest) = is_scalar value && all_scalar rest

abbrev envelope_of : Encoding → String → String → String → Hint → Option ℕ → Envelope
envelope_of enc topic kind ref_id hint scope = record {
  v = 1;
  id = enc.token_hex;
  topic = topic;
  at = enc.at;
  community_id = scope;
  kind = kind;
  ref_id = ref_id;
  hint = hint;
}

abbrev within_limit : Encoding → Envelope → Option Envelope
within_limit enc e = if ltb max_envelope_bytes (len (enc.json_dumps e)) then none else some e

unfoldable pub build_envelope : Encoding → String → Resource → Hint → Option ℕ → Option Envelope
build_envelope enc topic (kind, none) hint scope = none
build_envelope enc topic (kind, some ref_id) hint scope =
    if not (contains topics topic) || not (truthy (some kind)) || not (all_scalar hint)
    then none
    else within_limit enc (envelope_of enc topic kind ref_id hint scope)
