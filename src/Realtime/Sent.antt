-- ===== src/Realtime/Sent.antt =====
-- The channels on which core/realtime/bus.py publishes.
use mathlib.Core.List.{append-nil, append_assoc}
use news_board.Prelude.{
  ℕ, String, Bool, true, false, ◌≡◌, refl, sym, ◌∙◌, ap, List, [], ◌∷◌, ◌++◌, All, All-append,
  All-In, All-intro, In-map_inv, map, Option, some, Option-cases, Bool-cases, inl, inr, arith,
  truthy, ◌||◌, not,
}
use news_board.Prelude.Keys.{fromkeys, In-fromkeys, nat_key}
use news_board.Exec.{Exec, Result, ok, err, ◌>>◌}
use news_board.Realtime.{Settings, Broker, publish_with, publish, publish_all, emit}
use news_board.Realtime.Channels.{Audience, users, channels, user_channel}
use news_board.Realtime.Message.{Hint, Resource, build_envelope}

-- what has been published since is on channels of one kind
abbrev pub Sends : (String → Type 0) → Broker → Broker → Type 0
Sends P b c =
    (messages : List (String × String)) × (c.published ≡ b.published ++ messages)
    × All (λ (m : String × String). P m.0) messages

module _ (P : String → Type 0) where
  pub Sends-refl : (b : Broker) → Sends P b b
  Sends-refl b = ([], sym (append-nil b.published), tt)

  pub Sends-trans : (b c d : Broker) → Sends P b c → Sends P c d → Sends P b d
  Sends-trans b c d (ms, e, h) (ns, f, k) = (
    ms ++ ns,
    f ∙ ap (λ x. x ++ ns) e ∙ append_assoc b.published ms ns,
    All-append (λ (m : String × String). P m.0) ms ns h k,
  )

  Sends->> :
      (m n : Exec Broker Unit) (b : Broker)
      → Sends P b (m b).1
      → ((d : Broker) → Sends P d (n d).1)
      → Sends P b ((m >> n) b).1
  Sends->> m n b first then = go (m b) first
    where
      go : (x : Result Unit × Broker) → Sends P b x.1 → Sends P b (((λ s. x) >> n) b).1
      go (ok u, d) h = Sends-trans b d (n d).1 h (then d)
      go (err e, d) h = h

  publish_with-Sends :
      (c body : String) (faults : List Bool) (b : Broker)
      → P c
      → Sends P b (publish_with c body faults b).1
  publish_with-Sends c body [] b p = ((c, body) ∷ [], refl, (p, tt))
  publish_with-Sends c body (true ∷ rest) b p = ([], sym (append-nil b.published), tt)
  publish_with-Sends c body (false ∷ rest) b p = ((c, body) ∷ [], refl, (p, tt))

  publish-Sends : (c body : String) (b : Broker) → P c → Sends P b (publish c body b).1
  unfolding publish
  publish-Sends c body b p = publish_with-Sends c body b.faults b p

  publish_all-Sends :
      (cs : List String) (body : String) (b : Broker)
      → All P cs
      → Sends P b (publish_all cs body b).1
  unfolding publish_all
  publish_all-Sends [] body b h = Sends-refl b
  publish_all-Sends (c ∷ cs) body b h =
      Sends->> (publish c body) (publish_all cs body) b (publish-Sends c body b h.0)
        (λ d. publish_all-Sends cs body d h.1)

  emit-Sends :
      (cfg : Settings) (topic : String) (audience : Audience) (resource : Resource) (hint : Hint)
      (scope : Option ℕ) (b : Broker)
      → All P (channels audience)
      → Sends P b (emit cfg topic audience resource hint scope b).1
  unfolding emit
  emit-Sends cfg topic audience resource hint scope b h =
      elim (Bool-cases (not cfg.realtime_enabled || not (truthy (some cfg.realtime_redis_url)))) [
        | inl off ↦
            let same : (emit cfg topic audience resource hint scope b).1 ≡ b = ground arith in
            rw same (Sends-refl b)
        | inr on ↦ elim (Option-cases (build_envelope cfg.encoding topic resource hint scope)) [
          | inl invalid ↦
              let same : (emit cfg topic audience resource hint scope b).1 ≡ b = ground arith in
              rw same (Sends-refl b)
          | inr (e, built) ↦
              let body = cfg.encoding.json_dumps e in
              let same : (emit cfg topic audience resource hint scope b).1
                  ≡ (publish_all (channels audience) body b).1 =
                ground arith in
              rw same (publish_all-Sends (channels audience) body b h)
        ]
      ]

  -- to the users of a list
  pub emit_users-Sends :
      (cfg : Settings) (topic : String) (ids : List ℕ) (resource : Resource) (hint : Hint)
      (scope : Option ℕ) (b : Broker)
      → All (λ u. P (user_channel u)) ids
      → Sends P b (emit cfg topic (users ids) resource hint scope b).1
  unfolding channels
  emit_users-Sends cfg topic ids resource hint scope b h =
      emit-Sends cfg topic (users ids) resource hint scope b (
        All-intro P (map user_channel (fromkeys ids)) (λ c m.
          let (u, there, e) = In-map_inv user_channel (fromkeys ids) c m in
          rw e (All-In (λ u. P (user_channel u)) ids h u (In-fromkeys ids u there))))
