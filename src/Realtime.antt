-- ===== src/Realtime.antt =====
-- core/realtime/bus.py: the fire-and-forget publisher over a Redis connection that may fail.
pub mod State
pub mod Contract
pub mod Channels
pub mod Message
pub mod Sent
use news_board.Prelude.{
  ℕ, String, Bool, true, false, Option, none, some, List, [], ◌∷◌, ◌++◌, truthy, ◌||◌, not,
}
use news_board.Errors.{unexpected}
use news_board.Exec.{ok, err, Exec, ◌>>=◌, ◌>>◌}
use Channels.{Audience, channels}
use Message.{Envelope, Hint, Resource, Encoding, build_envelope}

-- `settings.REALTIME_ENABLED`, `settings.REALTIME_REDIS_URL`, and the library calls of a message.
pub record Settings : Type 0 where
  pub realtime_enabled : Bool
  pub realtime_redis_url : String
  pub encoding : Encoding

-- What Redis has been given, channel and body, and whether each coming `publish` fails (an error
-- or the time-out of one second).
pub record Broker : Type 0 where
  pub published : List (String × String)
  pub faults : List Bool

abbrev publish_with : String → String → List Bool → Exec Broker Unit
publish_with channel body [] b =
    (ok tt, record b { published = b.published ++ (channel, body) ∷ [] })
publish_with channel body (true ∷ rest) b = (err unexpected, record b { faults = rest })
publish_with channel body (false ∷ rest) b =
    (ok tt, record b { published = b.published ++ (channel, body) ∷ []; faults = rest })

-- `client.publish(channel, body)`
unfoldable pub publish : String → String → Exec Broker Unit
publish channel body b = publish_with channel body b.faults b

unfoldable pub publish_all : List String → String → Exec Broker Unit
unfolding publish
publish_all [] body b = (ok tt, b)
publish_all (c ∷ cs) body b = (publish c body >> publish_all cs body) b

-- `emit`: no exception leaves it
unfoldable pub emit : Settings → String → Audience → Resource → Hint → Option ℕ → Exec Broker Unit
unfolding publish_all
emit cfg topic audience resource hint scope b =
    let sent = λ (e : Envelope). publish_all (channels audience) (cfg.encoding.json_dumps e) b in
    elim (not cfg.realtime_enabled || not (truthy (some cfg.realtime_redis_url))) [
      | true ↦ (ok tt, b)
      | false ↦ elim (build_envelope cfg.encoding topic resource hint scope) [
        | none ↦ (ok tt, b)
        | some e ↦ (ok tt, (sent e).1)
      ]
    ]
