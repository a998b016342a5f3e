-- ===== src/Runtime/Scheduler/Reachable.antt =====
-- The schedulers that the operations reach, and the backoffs of their adapters.
use lnwdeck.Prelude.{ℕ, ◌*◌, ◌≤◌, ◌≡◌, refl, min, some, arith, Bool-cases, Option-cases, inl, inr}
use lnwdeck.Prelude.Text.{Text, text_eq, text_eq_sound}
use lnwdeck.Prelude.Maps.{lookup}
use lnwdeck.Domain.Float.{F64}
use lnwdeck.Domain.Usage.{Instant}
use lnwdeck.Runtime.Permissions.{Permissions}
use lnwdeck.Runtime.Registry.{AdapterRegistry}
use lnwdeck.Runtime.Scheduler.{
  AdaptiveScheduler, SchedulerConfig, new, with_config, with_permissions, cancel, reset_cancel,
  mark_success, mark_failure, marked_failure,
}
use lnwdeck.Runtime.Scheduler.Backoff.{
  backoff_of, mark_failure-marked, backoff_of-marked_failure, backoff_of-mark_success,
  backoff_of-marked_failure_other, backoff_of-mark_success_other,
}

-- An entry's backoff is between the bounds.
abbrev pub IsBackoff : ℕ → ℕ → ℕ → Type 0
IsBackoff low high b = (low ≤ b) × (b ≤ high)

module _ (F : F64) where
  -- The two backoffs of a configuration are between the bounds.
  abbrev pub IsBetween : ℕ → ℕ → SchedulerConfig F → Type 0
  IsBetween low high config =
      (low ≤ config.base_backoff)
      × (low ≤ config.max_backoff)
      × (config.base_backoff ≤ high)
      × (config.max_backoff ≤ high)

  -- The schedulers that the operations reach while every configuration's backoffs are between the
  -- bounds. `with_config` and `with_permissions` keep the states, so they may come at any time.
  pub data IsReachable (low high : ℕ) : AdaptiveScheduler F → Type 0 where
    built :
        (default config : SchedulerConfig F) (registry : AdapterRegistry F)
        → IsBetween low high config
        → IsReachable low high (with_config F (new F default registry) config)
    configured :
        (s : AdaptiveScheduler F) (config : SchedulerConfig F)
        → IsReachable low high s
        → IsBetween low high config
        → IsReachable low high (with_config F s config)
    permits :
        (s : AdaptiveScheduler F) (permissions : Permissions)
        → IsReachable low high s
        → IsReachable low high (with_permissions F s permissions)
    cancelled :
        (s : AdaptiveScheduler F) → IsReachable low high s → IsReachable low high (cancel F s)
    resumed :
        (s : AdaptiveScheduler F) → IsReachable low high s → IsReachable low high (reset_cancel F s)
    successful :
        (s : AdaptiveScheduler F) (id : Text) (now : Instant)
        → IsReachable low high s
        → IsReachable low high (mark_success F s id now)
    unsuccessful :
        (s t : AdaptiveScheduler F) (id : Text) (now : Instant)
        → IsReachable low high s
        → mark_failure F s id now ≡ some t
        → IsReachable low high t

  pub config-IsBetween :
      (low high : ℕ) (s : AdaptiveScheduler F)
      → IsReachable low high s
      → IsBetween low high s.config
  unfolding with_permissions with_config cancel reset_cancel mark_success mark_failure
      marked_failure
  config-IsBetween low high _ (built default config registry h) = h
  config-IsBetween low high _ (configured s config r h) = h
  config-IsBetween low high _ (permits s permissions r) = config-IsBetween low high s r
  config-IsBetween low high _ (cancelled s r) = config-IsBetween low high s r
  config-IsBetween low high _ (resumed s r) = config-IsBetween low high s r
  config-IsBetween low high _ (successful s id now r) = config-IsBetween low high s r
  config-IsBetween low high _ (unsuccessful s t id now r marked) =
      rw (mark_failure-marked F s t id now marked) (config-IsBetween low high s r)

  doubled-IsBackoff :
      (low high : ℕ) (config : SchedulerConfig F) (b : ℕ)
      → IsBetween low high config
      → IsBackoff low high b
      → IsBackoff low high (min (b * 2) config.max_backoff)
  doubled-IsBackoff low high config b (base_low, max_low, base_high, max_high) (above, below) =
      (omega (arith, above, max_low), omega (arith, max_high))

  built-IsBackoff :
      (low high : ℕ) (default config : SchedulerConfig F) (registry : AdapterRegistry F) (id : Text)
      → IsBetween low high config
      → IsBackoff low high (backoff_of F (with_config F (new F default registry) config) id)
  unfolding with_config lookup
  built-IsBackoff low high default config registry id between = (between.0, between.2)

  -- A new configuration leaves the backoff of an adapter that has one.
  reconfigured-IsBackoff :
      (low high : ℕ) (s : AdaptiveScheduler F) (config : SchedulerConfig F) (id : Text)
      → IsBetween low high config
      → IsBackoff low high (backoff_of F s id)
      → IsBackoff low high (backoff_of F (with_config F s config) id)
  unfolding with_config
  reconfigured-IsBackoff low high s config id between within =
      elim (Option-cases (lookup id s.states)) [
        | inl absent ↦ rw (backoff_of, absent) (between.0, between.2)
        | inr (st, present) ↦
            let read : backoff_of F s id ≡ st.backoff = rw (backoff_of, present) refl in
            rw (backoff_of, present) (rw (← read) within)
      ]

  pub backoff_of-IsBackoff :
      (low high : ℕ) (s : AdaptiveScheduler F) (id : Text)
      → IsReachable low high s
      → IsBackoff low high (backoff_of F s id)
  unfolding with_permissions cancel reset_cancel
  backoff_of-IsBackoff low high _ id (built default config registry between) =
      built-IsBackoff low high default config registry id between
  backoff_of-IsBackoff low high _ id (configured s config r between) =
      reconfigured-IsBackoff low high s config id between (backoff_of-IsBackoff low high s id r)
  backoff_of-IsBackoff low high _ id (permits s permissions r) =
      backoff_of-IsBackoff low high s id r
  backoff_of-IsBackoff low high _ id (cancelled s r) = backoff_of-IsBackoff low high s id r
  backoff_of-IsBackoff low high _ id (resumed s r) = backoff_of-IsBackoff low high s id r
  backoff_of-IsBackoff low high _ id (successful s key now r) = elim (Bool-cases (text_eq key id)) [
    | inl e ↦
        let same = text_eq_sound key id e in
        let between = config-IsBetween low high s r in
        rw (← same, backoff_of-mark_success F s key now) (between.0, between.2)
    | inr e ↦
        rw (backoff_of-mark_success_other F s key id now e) (backoff_of-IsBackoff low high s id r)
  ]
  backoff_of-IsBackoff low high _ id (unsuccessful s t key now r marked) =
      elim (Bool-cases (text_eq key id)) [
        | inl e ↦
            let same = text_eq_sound key id e in
            let between = config-IsBetween low high s r in
            rw
              (
                mark_failure-marked F s t key now marked,
                ← same,
                backoff_of-marked_failure F s key now,
              )
              (doubled-IsBackoff low high s.config (backoff_of F s key) between
                (backoff_of-IsBackoff low high s key r))
        | inr e ↦
            rw
              (
                mark_failure-marked F s t key now marked,
                backoff_of-marked_failure_other F s key id now e,
              )
              (backoff_of-IsBackoff low high s id r)
      ]
