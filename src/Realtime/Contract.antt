-- ===== src/Realtime/Contract.antt =====
-- What an envelope that is built promises its readers.
use Prim.Native.String.{len}
use news_board.Prelude.{ℕ, ◌≤◌, String, ◌≡◌, true, Option, some, none, arith, truthy}
use news_board.Prelude.Keys.{contains, string_key}
use news_board.Realtime.Message.{
  Envelope, Encoding, Resource, Hint, topics, all_scalar, build_envelope, max_envelope_bytes,
}

-- An envelope that is built has version 1, a registered topic, the kind and the id of the
-- resource, a kind that is not empty, the hint and the scope it was given, scalar hint values
-- only, and prints to at most 1024 bytes.
build_envelope_contract :
    (enc : Encoding) (topic : String) (resource : Resource) (hint : Hint) (scope : Option ℕ)
    (e : Envelope)
    → build_envelope enc topic resource hint scope ≡ some e
    → (e.v ≡ 1)
      × (e.topic ≡ topic)
      × (contains topics e.topic ≡ true)
      × (e.kind ≡ resource.0)
      × (some e.ref_id ≡ resource.1)
      × (truthy (some e.kind) ≡ true)
      × (e.hint ≡ hint)
      × (all_scalar e.hint ≡ true)
      × (e.community_id ≡ scope)
      × (len (enc.json_dumps e) ≤ max_envelope_bytes)
unfolding build_envelope
build_envelope_contract enc topic (kind, none) hint scope e h = ground arith
build_envelope_contract enc topic (kind, some i) hint scope e h = ground arith
