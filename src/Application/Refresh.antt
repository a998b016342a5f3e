-- ===== src/Application/Refresh.antt =====
-- `collect_one` and `collect_all` of crates/application/src/refresh.rs. The times at which the
-- channels read the clock and the fingerprints are arguments.
pub mod Workers
pub mod Filled
pub mod Progress
pub mod Cursors
pub mod Stored
pub mod Persist
pub mod Cycle
pub mod Examples
use lnwdeck.Prelude.{
  ℕ, zero, suc, ◌+◌, ◌<◌, ◌≤◌, ◌≡◌, min, Bool, true, false, not, ◌&&◌, ◌||◌, Option, none, some,
  List, [], ◌∷◌, map, length, all, if◌then◌else◌, ◌==◌, Result, ok, err, get_elem?,
}
use lnwdeck.Prelude.Text.{Text, codes, text_eq}
use lnwdeck.Domain.Float.{F64}
use lnwdeck.Domain.Usage.{Instant}
use lnwdeck.Runtime.Descriptor.{DetectionResult}
use lnwdeck.Runtime.Collection.{
  CollectionResult, QuotaCollectionResult, failure, quota_source_unavailable,
}
use lnwdeck.Runtime.Adapter.{ProviderAdapter, collect_usage_with_cursor, collect_quota_report}

-- The clock's readings of one channel: at its start, for the end and for the duration.
pub record Readings : Type 0 where
  pub started : Instant
  pub finished : Instant
  pub now : Instant

abbrev pub is_absent : Result Text DetectionResult → Bool
is_absent (ok result) = not result.detected && not result.source_exists
is_absent (err code) = false

unfoldable pub is_full_scan : Text → Bool
unfolding text_eq
is_full_scan id = text_eq id (codes "openai_codex") || text_eq id (codes "opencode")

module _ (F : F64) where
  pub record ProviderCollection : Type 0 where
    pub fingerprint : Option Text
    pub detection : Result Text DetectionResult
    pub usage : CollectionResult
    pub quota : QuotaCollectionResult F
    pub full_scan : Bool

  -- What is collected of a source that is not there, and of one that may be.
  unfoldable pub collect_absent :
      Readings → Readings → ProviderAdapter F → Option Text → ProviderCollection
  unfolding failure quota_source_unavailable is_full_scan
  collect_absent u q a fingerprint = record {
    fingerprint = fingerprint;
    detection = a.detect;
    usage = record {
      batch = none;
      outcome =
          failure u.finished u.now a.descriptor.id (codes "not_detected") u.started
            (codes "SOURCE_UNAVAILABLE");
      next_cursor = none;
    };
    quota = quota_source_unavailable F q.finished q.now a.descriptor.id q.started;
    full_scan = is_full_scan a.descriptor.id;
  }

  unfoldable pub collect_present :
      Readings → Readings → ProviderAdapter F → Option Text → Option Text → ProviderCollection
  unfolding collect_usage_with_cursor collect_quota_report is_full_scan
  collect_present u q a cursor fingerprint =
      let usage_cursor = if is_full_scan a.descriptor.id then none else cursor in
      record {
        fingerprint = fingerprint;
        detection = a.detect;
        usage = collect_usage_with_cursor F u.started u.finished u.now a usage_cursor;
        quota = collect_quota_report F q.started q.finished q.now a;
        full_scan = is_full_scan a.descriptor.id;
      }

  unfoldable pub collect_one :
      Readings → Readings → ProviderAdapter F → Option Text → Option Text → ProviderCollection
  unfolding collect_absent collect_present
  collect_one u q a cursor fingerprint =
      if is_absent a.detect
      then collect_absent u q a fingerprint
      else collect_present u q a cursor fingerprint

  -- What a worker writes for an adapter: nothing where the cursor could not be read.
  unfoldable pub slot_of :
      Readings
      → Readings
      → ProviderAdapter F
      → Result Text (Option Text)
      → Option Text
      → Option ProviderCollection
  unfolding collect_one
  slot_of u q a (ok cursor) fingerprint = some (collect_one u q a cursor fingerprint)
  slot_of u q a (err failed) fingerprint = none

-- `COLLECTION_WORKERS`
abbrev pub collection_workers : ℕ
collection_workers = 4

-- Writing a slot: nothing is written where the cursor could not be read.
unfoldable pub write_slot {ℓ} : {C : Type ℓ} → ℕ → Option C → List (Option C) → List (Option C)
write_slot i none slots = slots
write_slot i (some c) [] = []
write_slot zero (some c) (s ∷ slots) = some c ∷ slots
write_slot (suc i) (some c) (s ∷ slots) = s ∷ write_slot i (some c) slots

-- Where a worker is in its loop: before it takes an index, at work on one, or past the `break`.
pub data Worker : Type 0 where
  idle left : Worker
  works : ℕ → Worker

unfoldable pub set_worker : ℕ → Worker → List Worker → List Worker
set_worker k w [] = []
set_worker zero w (v ∷ ws) = w ∷ ws
set_worker (suc k) w (v ∷ ws) = v ∷ set_worker k w ws

abbrev pub is_left : Worker → Bool
is_left left = true
is_left idle = false
is_left (works i) = false

-- The state of `collect_all`: the next index, each worker, and the slots. `collected` is what
-- collecting each adapter gives, and `none` where its cursor could not be read.
pub record Pool (C : Type 0) : Type 0 where
  pub next : ℕ
  pub workers : List Worker
  pub slots : List (Option C)

abbrev pub idle_workers : ℕ → List Worker
idle_workers zero = []
idle_workers (suc n) = idle ∷ idle_workers n

module _ {C : Type 0} (collected : List (Option C)) where
  abbrev pub empty_slots : List (Option C)
  empty_slots = map (λ c. none) collected

  abbrev pub worker_count : ℕ
  worker_count = min collection_workers (length collected)

  abbrev pub started_pool : Pool C
  started_pool = record { next = 0; workers = idle_workers worker_count; slots = empty_slots }

  -- The worker `k` draws the next index, which is one of an adapter or past them all, where it
  -- leaves its loop; or it is done with an index.
  pub data Step : Pool C → Pool C → Type 0 where
    takes :
        (p : Pool C) (k : ℕ)
        → get_elem? p.workers k ≡ some idle
        → p.next < length collected
        → Step p (record p { next = suc p.next; workers = set_worker k (works p.next) p.workers })
    leaves :
        (p : Pool C) (k : ℕ)
        → get_elem? p.workers k ≡ some idle
        → length collected ≤ p.next
        → Step p (record p { next = suc p.next; workers = set_worker k left p.workers })
    finishes :
        (p : Pool C) (k i : ℕ) (c : Option C)
        → get_elem? p.workers k ≡ some (works i)
        → get_elem? collected i ≡ some c
        → Step p
            (record p { workers = set_worker k idle p.workers; slots = write_slot i c p.slots })

  pub data IsReached : Pool C → Type 0 where
    starts : IsReached started_pool
    steps : (p q : Pool C) → IsReached p → Step p q → IsReached q

  -- The scope ends when each worker has left its loop.
  abbrev pub IsJoined : Pool C → Type 0
  IsJoined p = all is_left p.workers ≡ true
