-- ===== src/Runtime/Examples.antt =====
-- The theorems on the runtime at two adapters, with whole numbers in place of floats.
use lnwdeck.Prelude.{
  ℕ, ◌*◌, ◌^◌, ◌-◌, ◌<◌, ◌≡◌, ◌↔◌, min, List, refl, Option, none, some, [], ◌∷◌, ok, err, arith,
}
use lnwdeck.Prelude.Maps.{lookup}
use lnwdeck.Prelude.Text.{Text, codes, trim}
use lnwdeck.Domain.Examples.{whole}
use lnwdeck.Runtime.Descriptor.{
  AdapterDescriptor, local_estimate, unsupported, local_jsonl, remote_api, native, local_files,
  api_key, is_supported, check, from_descriptor,
}
use lnwdeck.Runtime.Permissions.{file_system}
use lnwdeck.Runtime.Adapter.{ProviderAdapter, collect_quota_report}
use lnwdeck.Runtime.Adapter.Collected.{Records, collect_quota_report-Records}
use lnwdeck.Runtime.Registry.{AdapterRegistry, register, find_adapter, rank}
use lnwdeck.Runtime.Registry.Distinct.{
  found_or_new, IsRegistry, register-IsRegistry, register-Refused, rank-get_elem?,
}
use lnwdeck.Runtime.Scheduler
use lnwdeck.Runtime.Scheduler.{
  AdaptiveScheduler, SchedulerConfig, with_config, with_permissions, default_config, mark_success,
  mark_failure, marked_failure, schedule_all, trigger_manual, is_adapter_permitted,
}
use lnwdeck.Runtime.Scheduler.Backoff.{
  backoff_of, failures, mark_failure-some, failures-mark_success,
}
use lnwdeck.Runtime.Scheduler.Reachable.{
  IsBetween, IsReachable, built, configured, permits, unsuccessful,
}
use lnwdeck.Runtime.Scheduler.Bounded.{IsSchedule, schedule_all-IsSchedule}

abbrev codex_descriptor : AdapterDescriptor
codex_descriptor = record {
  id = codes "openai_codex";
  display_name = codes "Codex";
  vendor = codes "OpenAI";
  source_kind = local_jsonl;
  usage_support = local_estimate;
  quota_support = unsupported;
  auth = local_files;
  adapter_version = codes "0.2.0";
}

abbrev glm_descriptor : AdapterDescriptor
glm_descriptor = record {
  id = codes "glm";
  display_name = codes "GLM";
  vendor = codes "Zhipu";
  source_kind = remote_api;
  usage_support = unsupported;
  quota_support = native;
  auth = api_key;
  adapter_version = codes "0.2.0";
}

abbrev codex : ProviderAdapter whole
codex = record {
  descriptor = codex_descriptor;
  account_identity = none;
  collect_usage = err (codes "LOCKED");
  collect_quota = ok none;
  required_permissions = file_system ∷ [];
  detect = err (codes "LOCKED");
}

abbrev glm : ProviderAdapter whole
glm = record {
  descriptor = glm_descriptor;
  account_identity = none;
  collect_usage = ok (record { events = []; batch_id = codes "b" });
  collect_quota = err (codes "AUTH_EXPIRED");
  required_permissions = [];
  detect = ok (from_descriptor 7 glm_descriptor);
}

abbrev one : AdapterRegistry whole
one = record { adapters = codex ∷ [] }

abbrev two : AdapterRegistry whole
two = record { adapters = codex ∷ glm ∷ [] }

one-IsRegistry : IsRegistry whole one
unfolding check trim
one-IsRegistry = ((refl, tt), (refl, tt))

both : register whole one glm ≡ ok two
unfolding register trim
both = refl

register-IsRegistry_example :
    IsRegistry whole two
    × (find_adapter whole two (codes "glm") ≡ some glm)
    × (rank whole two (codes "glm") ≡ some 1)
    × ((id : Text)
        → find_adapter whole two id ≡ found_or_new whole (find_adapter whole one id) glm id)
register-IsRegistry_example = register-IsRegistry whole one glm two one-IsRegistry both

two-IsRegistry : IsRegistry whole two
two-IsRegistry = (register-IsRegistry whole one glm two one-IsRegistry both).0

register-Refused_example :
    ((r' : AdapterRegistry whole) × (register whole two codex ≡ ok r'))
    ↔ ((check codex_descriptor ≡ ok tt) × (find_adapter whole two (codes "openai_codex") ≡ none))
register-Refused_example = register-Refused whole two codex

rank-get_elem?_example :
    (find_adapter whole two (codes "glm") ≡ some glm) × (rank whole two (codes "glm") ≡ some 1)
rank-get_elem?_example = rank-get_elem? whole two 1 glm two-IsRegistry refl

collect_quota_report-Records_example :
    Records whole 1 2 3 (collect_quota_report whole 1 2 3 glm) (err (codes "AUTH_EXPIRED"))
unfolding is_supported
collect_quota_report-Records_example = collect_quota_report-Records whole 1 2 3 glm

abbrev scheduler : AdaptiveScheduler whole
scheduler =
    let config = default_config whole (some 2) (some 1) in
    with_permissions whole (with_config whole (Scheduler.new whole config two) config)
      (record { granted = file_system ∷ [] })

-- A failure at a base of five seconds, and then a base of a minute.
abbrev slower : SchedulerConfig whole
slower = record (default_config whole (some 2) (some 1)) { base_backoff = 60 * 1000000000 }

abbrev slowed : AdaptiveScheduler whole
slowed = with_config whole (marked_failure whole scheduler (codes "glm") 9) slower

scheduler_marked :
    mark_failure whole scheduler (codes "glm") 9
    ≡ some (marked_failure whole scheduler (codes "glm") 9)
unfolding with_permissions with_config lookup
scheduler_marked = mark_failure-some whole scheduler (codes "glm") 9 (omega arith)

slowed-IsReachable : IsReachable whole (5 * 1000000000) (3600 * 1000000000) slowed
slowed-IsReachable =
    let config = default_config whole (some 2) (some 1) in
    let between : IsBetween whole (5 * 1000000000) (3600 * 1000000000) config =
      (omega arith, omega arith, omega arith, omega arith) in
    let start = with_config whole (Scheduler.new whole config two) config in
    configured (marked_failure whole scheduler (codes "glm") 9) slower
      (unsuccessful scheduler (marked_failure whole scheduler (codes "glm") 9) (codes "glm") 9
        (permits start (record { granted = file_system ∷ [] }) (built config config two between))
        scheduler_marked)
      (omega arith, omega arith, omega arith, omega arith)

-- Twelve failures reach the greatest backoff, an hour.
failures-mark_success_example :
    (t : AdaptiveScheduler whole) × (failures whole
        (mark_success whole scheduler (codes "glm") 1)
        (codes "glm")
        (1 ∷ 2 ∷ 3 ∷ 4 ∷ 5 ∷ 6 ∷ 7 ∷ 8 ∷ 9 ∷ 10 ∷ 11 ∷ 12 ∷ [])
      ≡ some t)
    × (backoff_of whole t (codes "glm") ≡ 3600 * 1000000000)
unfolding with_permissions with_config
failures-mark_success_example =
    failures-mark_success whole scheduler (codes "glm") 1
      (1 ∷ 2 ∷ 3 ∷ 4 ∷ 5 ∷ 6 ∷ 7 ∷ 8 ∷ 9 ∷ 10 ∷ 11 ∷ 12 ∷ []) (omega arith) (omega arith)

-- `as u64` saturates.
abbrev saturated : Option ℕ → ℕ
saturated none = 0
saturated (some x) = min x (2 ^ 64 - 1)

saturated_lem : (x : Option ℕ) → saturated x < 2 ^ 64
saturated_lem none = omega arith
saturated_lem (some x) = omega arith

schedule_all-IsSchedule_example :
    (delays : List (Text × ℕ)) × (schedule_all whole some saturated slowed (λ turn. some turn)
      ≡ some delays)
    × IsSchedule whole (5 * 1000000000) slowed.config.max_backoff slowed.registry.adapters delays
schedule_all-IsSchedule_example =
    schedule_all-IsSchedule whole some saturated (5 * 1000000000) (3600 * 1000000000) slowed
      (λ turn. some turn) saturated_lem (omega arith) slowed-IsReachable
