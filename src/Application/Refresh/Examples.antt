-- ===== src/Application/Refresh/Examples.antt =====
-- The theorems on what a refresh stores, at a refresh of two adapters, with the mappings of ASCII for
-- those of Unicode and a hash that keeps the input.
use lnwdeck.Prelude.{ℕ, ◌≡◌, Bool, true, false, Option, none, some, List, [], ◌∷◌, length, ok, leb}
use lnwdeck.Prelude.Text.{Text, codes, to_ascii_lowercase}
use lnwdeck.Domain.Examples.{whole}
use lnwdeck.Runtime.Descriptor.{from_descriptor}
use lnwdeck.Runtime.Collection.{success, quota_from_report}
use lnwdeck.Security.Examples.{to_ascii_uppercase}
use lnwdeck.Storage.Examples.{batch_of_two}
use lnwdeck.Application.Examples.{glm, glm_descriptor, stored, readings}
use lnwdeck.Application.Refresh.{ProviderCollection}
use lnwdeck.Application.Refresh.Persist.{
  Library, Statements, Database, persist_usage, persist_quota, persist_provider,
}
use lnwdeck.Application.Refresh.Persist.Separate.{persist_provider-same}
use lnwdeck.Application.Refresh.Persist.Private.{IsPrivateDatabase}
use lnwdeck.Application.Refresh.Cycle.{Turn, Cycle, execute_with_progress}
use lnwdeck.Application.Refresh.Cycle.Stopped.{all_turns, execute_with_progress-taken_turns}
use lnwdeck.Application.Refresh.Cycle.Private.{execute_with_progress-IsPrivateDatabase}

abbrev ascii_library : Library whole
ascii_library = record {
  is_finite = λ x. true;
  rfc3339 = λ t. codes "1970-01-01T00:00:00+00:00";
  to_lowercase = to_ascii_lowercase;
  to_uppercase = to_ascii_uppercase;
  hash = λ key input. input;
}

abbrev all_succeed : Statements
all_succeed = record {
  state_ok = true;
  usage_ok = true;
  cursor_ok = true;
  usage_run_ok = true;
  quota_ok = true;
  quota_run_ok = true;
}

abbrev empty_database : Database whole
empty_database = record {
  usage = [];
  quotas = record { reports = []; windows = []; next_id = 1 };
  states = [];
  cursors = [];
  runs = [];
  next_run = 1;
}

abbrev glm_collection : ProviderCollection whole
glm_collection = record {
  fingerprint = some (codes "f1");
  detection = ok (from_descriptor 7 glm_descriptor);
  usage = record {
    batch = some batch_of_two;
    outcome = success 2 3 (codes "glm") (codes "local_scan") 1 2;
    next_cursor = some (codes "c2");
  };
  quota = quota_from_report whole 2 3 stored 1;
  full_scan = false;
}

abbrev glm_turn : Option (ProviderCollection whole) → Turn ascii_library
glm_turn collection = record {
  adapter = glm;
  collection = collection;
  statements = all_succeed;
  usage_at = readings;
  quota_at = readings;
}

-- The second adapter's cursor could not be read, and the third is not reached.
abbrev three_turns : List (Turn ascii_library)
three_turns = glm_turn (some glm_collection) ∷ glm_turn none ∷ glm_turn (some glm_collection) ∷ []

abbrev stops_at_two : Text → ℕ → ℕ → Bool
stops_at_two id index total = leb index 1

abbrev done : Cycle ascii_library
done = execute_with_progress ascii_library stops_at_two three_turns empty_database

persist_provider-same_example :
    let both =
      (persist_provider ascii_library all_succeed readings readings glm glm_collection
        empty_database).0 in
    let used =
      (persist_usage ascii_library all_succeed readings glm glm_collection empty_database).0 in
    let kept =
      (persist_quota ascii_library all_succeed readings glm glm_collection empty_database).0 in
    (both.usage ≡ used.usage)
    × (both.states ≡ used.states)
    × (both.cursors ≡ used.cursors)
    × (both.quotas ≡ kept.quotas)
persist_provider-same_example =
    persist_provider-same ascii_library all_succeed readings readings glm glm_collection
      empty_database

execute_with_progress-taken_turns_example :
    (done
      ≡ all_turns ascii_library
          (glm_turn (some glm_collection) ∷ glm_turn none ∷ [])
          (record { db = empty_database; outcome = record { usage = []; quota = [] } }))
    × (length done.outcome.usage ≡ 2)
    × (length done.outcome.quota ≡ 1)
execute_with_progress-taken_turns_example =
    execute_with_progress-taken_turns ascii_library stops_at_two three_turns empty_database

execute_with_progress-IsPrivateDatabase_example : IsPrivateDatabase ascii_library done.db
execute_with_progress-IsPrivateDatabase_example =
    execute_with_progress-IsPrivateDatabase ascii_library stops_at_two three_turns empty_database
      (tt, (tt, tt))
