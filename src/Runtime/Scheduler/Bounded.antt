-- ===== src/Runtime/Scheduler/Bounded.antt =====
-- The bounds of a schedule.
use lnwdeck.Prelude.{
  Bool, ℕ, suc, ◌+◌, ◌*◌, ◌^◌, ◌≤◌, ◌<◌, ltb, if◌then◌else◌, ap, ◌∙◌, ◌≡◌, refl, min, true, false,
  none, some, List, [], ◌∷◌, arith,
}
use lnwdeck.Prelude.Text.{Text}
use lnwdeck.Prelude.Maps.{lookup, unwrap_or}
use lnwdeck.Domain.Float.{F64}
use lnwdeck.Runtime.Adapter.{ProviderAdapter}
use lnwdeck.Runtime.Scheduler.{
  AdapterState, AdaptiveScheduler, Duration, duration_end, fitting, capped, cons_delay,
  compute_backoff, schedule, schedule_all,
}
use lnwdeck.Runtime.Scheduler.Backoff.{backoff_of, backoff_read}
use lnwdeck.Runtime.Scheduler.Reachable.{
  IsReachable, IsBackoff, config-IsBetween, backoff_of-IsBackoff,
}

module _ (F : F64) where
  -- The ids of a schedule are those of the adapters, in their order, and each delay is between the
  -- bounds.
  abbrev pub IsSchedule : ℕ → ℕ → List (ProviderAdapter F) → List (Text × Duration) → Type 0
  IsSchedule low high [] [] = Unit
  IsSchedule low high (a ∷ rest) ((id, delay) ∷ delays) =
      (id ≡ a.descriptor.id) × ((low ≤ delay) × (delay ≤ high)) × IsSchedule low high rest delays
  IsSchedule low high _ _ = true ≡ false

  module _ (as_secs_f64 : Duration → F.Carrier) (as_u64 : F.Carrier → ℕ) where
    -- `as u64` gives a `u64`.
    abbrev IsU64 : Type 0
    IsU64 = (x : F.Carrier) → as_u64 x < 2 ^ 64

    small_jitter :
        (b : Bool) (n : ℕ) → n < 2 ^ 64 → (if b then n * 1000000 else 0) < 2 ^ 64 * 1000000
    small_jitter true n h = omega (arith, h)
    small_jitter false n h = omega arith

    capped-fitting :
        (b jitter limit : ℕ)
        → b + jitter < duration_end
        → capped F limit (fitting (b + jitter)) ≡ some (min (b + jitter) limit)
    unfolding fitting
    capped-fitting b jitter limit h =
        let fits : ltb (b + jitter) duration_end ≡ true = ground (arith, h) in rw fits refl

    compute_backoff-bounds :
        (low high : ℕ) (s : AdaptiveScheduler F) (rand : F.Carrier) (state : AdapterState)
        → IsU64
        → high + 2 ^ 64 * 1000000 ≤ duration_end
        → low ≤ s.config.max_backoff
        → IsBackoff low high state.backoff
        → (delay : Duration) × (compute_backoff F as_secs_f64 as_u64 s rand state ≡ some delay)
          × ((low ≤ delay) × (delay ≤ s.config.max_backoff))
    unfolding compute_backoff
    compute_backoff-bounds low high s rand state is_u64 fits capping (above, below) =
        let range = as_u64 (F.mul (as_secs_f64 state.backoff) s.config.jitter_factor) in
        let share = as_u64 (F.mul (F.of_u64 range) rand) in
        let jitter = if ltb 0 range then share * 1000000 else 0 in
        let small = small_jitter (ltb 0 range) share (is_u64 (F.mul (F.of_u64 range) rand)) in
        let sum : state.backoff + jitter < duration_end = omega (arith, below, small, fits) in
        (
          min (state.backoff + jitter) s.config.max_backoff,
          capped-fitting state.backoff jitter s.config.max_backoff sum,
          (omega (arith, above, capping), omega arith),
        )

    schedule-IsSchedule :
        (low high : ℕ) (s : AdaptiveScheduler F) (rands : ℕ → F.Carrier) (turn : ℕ)
        (adapters : List (ProviderAdapter F))
        → IsU64
        → high + 2 ^ 64 * 1000000 ≤ duration_end
        → low ≤ s.config.max_backoff
        → ((id : Text) → IsBackoff low high (backoff_of F s id))
        → (delays : List (Text × Duration)) × (schedule F as_secs_f64 as_u64 s rands turn adapters
            ≡ some delays)
          × IsSchedule low s.config.max_backoff adapters delays
    unfolding schedule cons_delay
    schedule-IsSchedule low high s rands turn [] is_u64 fits capping within = ([], refl, tt)
    schedule-IsSchedule low high s rands turn (a ∷ rest) is_u64 fits capping within =
        let default : AdapterState = record {
          backoff = s.config.base_backoff;
          last_run = none;
          last_success = none;
        } in
        let id = a.descriptor.id in
        let state = unwrap_or default (lookup id s.states) in
        let read : IsBackoff low high state.backoff =
          rw (backoff_read F s id default refl) (within id) in
        let (delay, computed, bounds) =
          compute_backoff-bounds low high s (rands turn) state is_u64 fits capping read in
        let (delays, later, scheduled) =
          schedule-IsSchedule low high s rands (suc turn) rest is_u64 fits capping within in
        (
          (id, delay) ∷ delays,
          ap (λ d. cons_delay id d (schedule F as_secs_f64 as_u64 s rands (suc turn) rest)) computed
              ∙ ap (cons_delay id (some delay)) later,
          (refl, bounds, scheduled),
        )

    -- Whatever the random shares and the jitter, and however the scheduler was reconfigured, the
    -- schedule of a scheduler that the operations reach does not panic and has each adapter of the
    -- registry once, in order. Each delay is at most the greatest backoff that is configured now,
    -- and at least `low`, under which no base or greatest backoff was ever configured. None was
    -- configured over `high`, and `high` with the longest jitter of a `u64` is a duration.
    pub schedule_all-IsSchedule :
        (low high : ℕ) (s : AdaptiveScheduler F) (rands : ℕ → F.Carrier)
        → ((x : F.Carrier) → as_u64 x < 2 ^ 64)
        → high + 2 ^ 64 * 1000000 ≤ duration_end
        → IsReachable F low high s
        → (delays : List (Text × Duration)) × (schedule_all F as_secs_f64 as_u64 s rands
            ≡ some delays)
          × IsSchedule low s.config.max_backoff s.registry.adapters delays
    unfolding schedule_all
    schedule_all-IsSchedule low high s rands is_u64 fits r =
        schedule-IsSchedule low high s rands 0 s.registry.adapters is_u64 fits
          (config-IsBetween F low high s r).1 (λ id. backoff_of-IsBackoff F low high s id r)
