-- ===== src/Application/Examples.antt =====
-- The theorems on the application at concrete states, with whole numbers in place of floats.
use lnwdeck.Prelude.{
  ℕ, ◌+◌, ◌*◌, ◌≤◌, ◌≡◌, ◌⊎◌, refl, true, Option, none, some, List, [], ◌∷◌, length, All, arith, ok,
}
use lnwdeck.Prelude.Text.{codes, text_eq}
use lnwdeck.Domain.Examples.{whole, weekly_window}
use lnwdeck.Domain.Quota.{QuotaReport}
use lnwdeck.Domain.Quota.Report.{new}
use lnwdeck.Runtime.Descriptor.{
  AdapterDescriptor, unsupported, remote_api, native, api_key, is_supported,
}
use lnwdeck.Storage.Alerts.Open.{is_open_key}
use lnwdeck.Storage.Examples.{rate_observation, empty_table}
use lnwdeck.Runtime.Adapter.{ProviderAdapter}
use lnwdeck.Runtime.Descriptor.{from_descriptor}
use lnwdeck.Application.Refresh.{
  Pool, idle, works, left, Step, takes, leaves, finishes, IsReached, starts, steps, IsJoined,
  started_pool, Readings, write_slot, set_worker,
}
use lnwdeck.Application.Refresh.Filled.{reached-Filled}
use lnwdeck.Application.Refresh.Progress.{step_count, reached-Progress}
use lnwdeck.Application.Alerts.{execute}
use lnwdeck.Application.Alerts.Evaluated.{is_open_key-execute}
use lnwdeck.Application.Quota.{connected, connection_state_for}
use lnwdeck.Application.Quota.Cards.{descriptor_cards}
use lnwdeck.Application.Quota.Connected.{Evidence, connection_state_for-connected}
use lnwdeck.Application.Quota.Honest.{IsHonest, descriptor_cards-IsHonest}

abbrev pub glm_descriptor : AdapterDescriptor
glm_descriptor = record {
  id = codes "glm";
  display_name = codes "GLM";
  vendor = codes "Zhipu";
  source_kind = remote_api;
  usage_support = unsupported;
  quota_support = native;
  auth = api_key;
  adapter_version = codes "0.2.0";
}

abbrev pub stored : QuotaReport whole
stored = new whole 100 (codes "glm") (codes "provider_api") (weekly_window ∷ []) 60

glm_connected : connection_state_for whole glm_descriptor none none (some stored) ≡ connected
unfolding connection_state_for new text_eq
glm_connected = refl

connection_state_for-connected_example :
    (is_supported native ≡ true) × Evidence whole none (some stored)
connection_state_for-connected_example =
    connection_state_for-connected whole glm_descriptor none none (some stored) glm_connected

descriptor_cards-IsHonest_example :
    All
      (IsHonest whole glm_descriptor)
      (descriptor_cards whole 200 glm_descriptor [] [] (stored ∷ stored ∷ []))
    × (length (descriptor_cards whole 200 glm_descriptor [] [] (stored ∷ stored ∷ [])) ≡ 2)
descriptor_cards-IsHonest_example =
    descriptor_cards-IsHonest whole 200 glm_descriptor [] [] (stored ∷ stored ∷ [])

is_open_key-execute_example :
    is_open_key
      (codes "rate:glm:default")
      ((execute 9 ((8, rate_observation) ∷ []) empty_table).0.rows)
    ≡ true
unfolding text_eq
is_open_key-execute_example =
    is_open_key-execute 9 ((8, rate_observation) ∷ []) empty_table (codes "rate:glm:default")

-- Two adapters, and the cursor of the second cannot be read; the second is finished first.
abbrev collected : List (Option ℕ)
collected = some 7 ∷ none ∷ []

abbrev one_taken : Pool ℕ
one_taken = record { next = 1; workers = works 0 ∷ idle ∷ []; slots = none ∷ none ∷ [] }

abbrev both_taken : Pool ℕ
both_taken = record { next = 2; workers = works 0 ∷ works 1 ∷ []; slots = none ∷ none ∷ [] }

abbrev second_done : Pool ℕ
second_done = record { next = 2; workers = works 0 ∷ idle ∷ []; slots = none ∷ none ∷ [] }

abbrev both_done : Pool ℕ
both_done = record { next = 2; workers = idle ∷ idle ∷ []; slots = some 7 ∷ none ∷ [] }

abbrev second_left : Pool ℕ
second_left = record { next = 3; workers = idle ∷ left ∷ []; slots = some 7 ∷ none ∷ [] }

abbrev joined_pool : Pool ℕ
joined_pool = record { next = 4; workers = left ∷ left ∷ []; slots = some 7 ∷ none ∷ [] }

both_done-IsReached : IsReached collected both_done
unfolding write_slot set_worker
both_done-IsReached =
    let start = started_pool collected in
    let first = steps start one_taken starts (takes start 0 refl (omega arith)) in
    let second = steps one_taken both_taken first (takes one_taken 1 refl (omega arith)) in
    let third = steps both_taken second_done second (finishes both_taken 1 1 none refl refl) in
    steps second_done both_done third (finishes second_done 0 0 (some 7) refl refl)

joined_pool-IsReached : IsReached collected joined_pool
unfolding set_worker
joined_pool-IsReached =
    let last =
      steps both_done second_left both_done-IsReached (leaves both_done 1 refl (omega arith)) in
    steps second_left joined_pool last (leaves second_left 0 refl (omega arith))

reached-Filled_example : joined_pool.slots ≡ collected
reached-Filled_example = reached-Filled collected joined_pool joined_pool-IsReached refl

reached-Progress_example :
    (step_count collected both_done both_done-IsReached ≤ length collected * 2 + 2)
    × (2 ≤ 4)
    × (IsJoined collected both_done ⊎ ((q : Pool ℕ) × Step collected both_done q))
reached-Progress_example = reached-Progress collected both_done both_done-IsReached

abbrev pub glm : ProviderAdapter whole
glm = record {
  descriptor = glm_descriptor;
  account_identity = none;
  collect_usage = ok (record { events = []; batch_id = codes "b" });
  collect_quota = ok (some stored);
  required_permissions = [];
  detect = ok (from_descriptor 7 glm_descriptor);
}

abbrev pub readings : Readings
readings = record { started = 1; finished = 2; now = 3 }
