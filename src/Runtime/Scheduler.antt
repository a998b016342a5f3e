-- ===== src/Runtime/Scheduler.antt =====
-- crates/provider-runtime/src/scheduler.rs. A duration is its nanoseconds, and `none` is the panic of
-- one that does not fit. The floats of the jitter,
-- the conversions between durations, floats and integers and the random share are parameters;
-- `Instant::now()` is an argument. The state behind the lock is a field.
pub mod Backoff
pub mod Reachable
pub mod Bounded
pub mod Triggered
use lnwdeck.Prelude.{
  ℕ, zero, suc, ◌+◌, ◌*◌, ◌^◌, is_some, min, Bool, true, false, not, Option, none, some, List, [],
  ◌∷◌, all, length, if◌then◌else◌, ltb,
}
use lnwdeck.Prelude.Text.{Text, text_eq}
use lnwdeck.Prelude.Maps.{lookup, upsert, unwrap_or}
use lnwdeck.Domain.Float.{F64}
use lnwdeck.Domain.Usage.{Instant}
use lnwdeck.Runtime.Permissions.{Permissions, has}
use lnwdeck.Runtime.Adapter.{ProviderAdapter}
use lnwdeck.Runtime.Registry
use lnwdeck.Runtime.Registry.{AdapterRegistry}

abbrev pub Duration : Type 0
Duration = ℕ

-- A `Duration` has its seconds in a `u64`.
abbrev pub duration_end : ℕ
duration_end = 2 ^ 64 * 1000000000

-- A sum or a product of durations, which panics where it does not fit.
unfoldable pub fitting : ℕ → Option Duration
fitting d = if ltb d duration_end then some d else none

-- One more delay of a schedule.
unfoldable pub cons_delay :
    Text → Option Duration → Option (List (Text × Duration)) → Option (List (Text × Duration))
cons_delay id none later = none
cons_delay id (some delay) none = none
cons_delay id (some delay) (some later) = some ((id, delay) ∷ later)

pub record AdapterState : Type 0 where
  pub backoff : Duration
  pub last_run : Option Instant
  pub last_success : Option Instant

module _ (F : F64) where
  pub record SchedulerConfig : Type 0 where
    pub default_interval : Duration
    pub idle_slowdown_factor : F.Carrier
    pub max_backoff : Duration
    pub base_backoff : Duration
    pub hard_timeout : Duration
    pub jitter_factor : F.Carrier

  pub record AdaptiveScheduler : Type 0 where
    pub registry : AdapterRegistry F
    pub cancel_flag : Bool
    pub states : List (Text × AdapterState)
    pub config : SchedulerConfig
    pub permissions : Permissions

  -- `SchedulerConfig::default()`, its two factors being arguments
  abbrev pub default_config : F.Carrier → F.Carrier → SchedulerConfig
  default_config idle_slowdown_factor jitter_factor = record {
    default_interval = 300 * 1000000000;
    idle_slowdown_factor = idle_slowdown_factor;
    max_backoff = 3600 * 1000000000;
    base_backoff = 5 * 1000000000;
    hard_timeout = 30 * 1000000000;
    jitter_factor = jitter_factor;
  }

  abbrev pub new : SchedulerConfig → AdapterRegistry F → AdaptiveScheduler
  new default registry = record {
    registry = registry;
    cancel_flag = false;
    states = [];
    config = default;
    permissions = record { granted = [] };
  }

  unfoldable pub with_config : AdaptiveScheduler → SchedulerConfig → AdaptiveScheduler
  with_config s config = record s { config = config }

  unfoldable pub with_permissions : AdaptiveScheduler → Permissions → AdaptiveScheduler
  with_permissions s permissions = record s { permissions = permissions }

  unfoldable pub adapter_count : AdaptiveScheduler → ℕ
  adapter_count s = length s.registry.adapters

  unfoldable pub cancel : AdaptiveScheduler → AdaptiveScheduler
  cancel s = record s { cancel_flag = true }

  unfoldable pub is_cancelled : AdaptiveScheduler → Bool
  is_cancelled s = s.cancel_flag

  unfoldable pub reset_cancel : AdaptiveScheduler → AdaptiveScheduler
  reset_cancel s = record s { cancel_flag = false }

  unfoldable pub is_adapter_permitted : AdaptiveScheduler → ProviderAdapter F → Bool
  unfolding has
  is_adapter_permitted s a = all (has s.permissions) a.required_permissions

  -- The loop of `trigger_manual`.
  unfoldable pub trigger : AdaptiveScheduler → List (ProviderAdapter F) → Text → Option Bool
  unfolding is_adapter_permitted text_eq
  trigger s [] adapter_id = none
  trigger s (a ∷ rest) adapter_id =
      let later = trigger s rest adapter_id in
      if text_eq a.descriptor.id adapter_id
      then (if not (is_adapter_permitted s a) then some false else some true)
      else later

  unfoldable pub trigger_manual : AdaptiveScheduler → Text → Option Bool
  unfolding trigger
  trigger_manual s adapter_id = trigger s s.registry.adapters adapter_id

  -- `.min(max_backoff)`
  abbrev pub capped : Duration → Option Duration → Option Duration
  capped max_backoff none = none
  capped max_backoff (some d) = some (min d max_backoff)

  module _ (as_secs_f64 : Duration → F.Carrier) (as_u64 : F.Carrier → ℕ) where
    unfoldable pub compute_backoff : AdaptiveScheduler → F.Carrier → AdapterState → Option Duration
    unfolding fitting
    compute_backoff s rand state =
        let jitter_range = as_u64 (F.mul (as_secs_f64 state.backoff) s.config.jitter_factor) in
        let jitter =
          if ltb 0 jitter_range then as_u64 (F.mul (F.of_u64 jitter_range) rand) * 1000000 else 0 in
        capped s.config.max_backoff (fitting (state.backoff + jitter))

    -- The loop of `schedule_all`; `rands` is the random share that each turn draws.
    unfoldable pub schedule :
        AdaptiveScheduler
        → (ℕ → F.Carrier)
        → ℕ
        → List (ProviderAdapter F)
        → Option (List (Text × Duration))
    unfolding compute_backoff lookup cons_delay
    schedule s rands turn [] = some []
    schedule s rands turn (a ∷ rest) =
        let default_state : AdapterState = record {
          backoff = s.config.base_backoff;
          last_run = none;
          last_success = none;
        } in
        let state = unwrap_or default_state (lookup a.descriptor.id s.states) in
        cons_delay a.descriptor.id (compute_backoff s (rands turn) state)
          (schedule s rands (suc turn) rest)

    unfoldable pub schedule_all :
        AdaptiveScheduler → (ℕ → F.Carrier) → Option (List (Text × Duration))
    unfolding schedule
    schedule_all s rands = schedule s rands 0 s.registry.adapters

  -- What `mark_success` and `mark_failure` insert where there is no entry, and what they make of one.
  abbrev pub inserted : AdaptiveScheduler → Instant → Option Instant → AdapterState
  inserted s now last_success = record {
    backoff = s.config.base_backoff;
    last_run = some now;
    last_success = last_success;
  }

  abbrev pub succeeded : AdaptiveScheduler → Instant → AdapterState → AdapterState
  succeeded s now state = record {
    backoff = s.config.base_backoff;
    last_run = some now;
    last_success = some now;
  }

  abbrev pub failed : AdaptiveScheduler → Instant → AdapterState → AdapterState
  failed s now state = record state {
    backoff = min (state.backoff * 2) s.config.max_backoff;
    last_run = some now;
  }

  unfoldable pub mark_success : AdaptiveScheduler → Text → Instant → AdaptiveScheduler
  unfolding upsert
  mark_success s adapter_id now = record s {
    states = upsert adapter_id (inserted s now (some now)) (succeeded s now) s.states;
  }

  unfoldable pub marked_failure : AdaptiveScheduler → Text → Instant → AdaptiveScheduler
  unfolding upsert
  marked_failure s adapter_id now = record s {
    states = upsert adapter_id (inserted s now none) (failed s now) s.states;
  }

  -- The doubling is of the entry's backoff, or of the one that is inserted.
  unfoldable pub mark_failure : AdaptiveScheduler → Text → Instant → Option AdaptiveScheduler
  unfolding fitting lookup marked_failure
  mark_failure s adapter_id now =
      let state = unwrap_or (inserted s now none) (lookup adapter_id s.states) in
      if is_some (fitting (state.backoff * 2)) then some (marked_failure s adapter_id now) else none
