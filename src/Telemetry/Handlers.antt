-- ===== src/Telemetry/Handlers.antt =====
-- The handlers of the root logger between start-up and exit.
use news_board.Prelude.{
  ℕ, true, false, not, Bool-cases, none, [], ◌∷◌, filter-append, filter_all, filter_none, ==_refl,
  ◌≡◌, refl, inl, inr, All, All-In, All-append, ap,
}
use mathlib.Core.List.{append-nil}
use news_board.Config.{Environment, local, test, staging, production, Settings}
use news_board.Telemetry.{Handler, otlp, configure_logging}
use news_board.Telemetry.Tracing.{
  Process, setup_tracer_provider, shutdown_telemetry, is_sink, is_silent, otlp_handler,
}

configured-stamped :
    (env : Environment) → All (λ h. h.stamped ≡ true) (configure_logging env).handlers
unfolding configure_logging
configured-stamped local = (refl, tt)
configured-stamped test = tt
configured-stamped staging = (refl, tt)
configured-stamped production = tt

-- Whatever the environment, each handler that start-up leaves stamps its records.
pub setup-stamped :
    (env : Environment) (s : Settings) (p : Process)
    → p.loggers ≡ configure_logging env
    → All (λ h. h.stamped ≡ true) (setup_tracer_provider s p).loggers.handlers
unfolding setup_tracer_provider
setup-stamped env s p start =
    let before : All (λ h. h.stamped ≡ true) p.loggers.handlers =
      rw start (configured-stamped env) in
    elim (Bool-cases (is_silent s)) [
      | inl silent ↦ rw silent before
      | inr exporting ↦ rw exporting (
          All-append (λ h. h.stamped ≡ true) p.loggers.handlers (otlp_handler p.next_provider ∷ [])
            before (refl, tt))
    ]

-- An exit whose flush succeeds leaves the handlers that were there before start-up.
pub shutdown-setup :
    (s : Settings) (p : Process) (budget : ℕ)
    → All (λ h. is_sink h.sink (otlp p.next_provider) ≡ false) p.loggers.handlers
    → (p.log_provider ≡ none)
    → (shutdown_telemetry budget false (setup_tracer_provider s p)).1.loggers.handlers
      ≡ p.loggers.handlers
unfolding setup_tracer_provider shutdown_telemetry
shutdown-setup s p budget others fresh =
    let kept = λ (h : Handler). not (is_sink h.sink (otlp p.next_provider)) in
    elim (Bool-cases (is_silent s)) [
      | inl silent ↦ rw (silent, fresh) refl
      | inr exporting ↦
          rw
            (
              exporting,
              filter-append,
              filter_all kept p.loggers.handlers (λ h m. ap not (
                  All-In (λ h. is_sink h.sink (otlp p.next_provider) ≡ false) p.loggers.handlers
                    others h m)),
              filter_none kept (otlp_handler p.next_provider ∷ []) (λ h m. elim m [
                | inl e ↦ rw e (ap not (==_refl p.next_provider))
                | inr n ↦ absurd n
              ]),
            )
            (append-nil p.loggers.handlers)
    ]
