-- ===== src/Storage/Usage.antt =====
-- crates/storage/src/repositories/usage_repository.rs: the table `usage_events` as its rows in the
-- order of their insertion. A time is its instant, and a `u64` stays the same through the
-- column's `i64`. `Counted` is about the counts, `Again` about a batch that is ingested twice, and
-- `Replaced` about full scans.
pub mod Counted
pub mod Again
pub mod Replaced
use lnwdeck.Prelude.{
  ℕ, suc, ◌≡◌, refl, Bool, true, false, not, ◌&&◌, ◌||◌, List, [], ◌∷◌, ◌++◌, map, filter, any,
  is_nil, if◌then◌else◌,
}
use lnwdeck.Prelude.Text.{Text, text_eq}
use lnwdeck.Domain.Usage.{Instant, UsageEvent, UsageBatch}
use lnwdeck.Domain.Serialized.{confidence_name}
use lnwdeck.Storage.Quotas.{or_empty}

pub record UsageRow : Type 0 where
  pub id : Text
  pub batch_id : Text
  pub timestamp : Instant
  pub provider_id : Text
  pub model : Text
  pub tokens_input : ℕ
  pub tokens_cached : ℕ
  pub tokens_cache_write : ℕ
  pub tokens_output : ℕ
  pub tokens_reasoning : ℕ
  pub confidence : Text
  pub data_source : Text
  pub cost : Text
  pub session_hash : Text
  pub project_hash : Text
  pub account_fingerprint : Text

-- The values of the `INSERT`. `{:?}` of a confidence is its name.
unfoldable pub event_row : Text → UsageEvent → UsageRow
unfolding confidence_name
event_row batch_id e = record {
  id = e.id;
  batch_id = batch_id;
  timestamp = e.timestamp;
  provider_id = e.provider_id;
  model = e.model;
  tokens_input = e.tokens_input;
  tokens_cached = e.tokens_cached;
  tokens_cache_write = e.tokens_cache_write;
  tokens_output = e.tokens_output;
  tokens_reasoning = e.tokens_reasoning;
  confidence = confidence_name e.confidence;
  data_source = e.data_source;
  cost = e.cost;
  session_hash = or_empty e.session_hash;
  project_hash = or_empty e.project_hash;
  account_fingerprint = or_empty e.account_fingerprint;
}

-- The id is the primary key.
unfoldable pub has_id : Text → List UsageRow → Bool
unfolding text_eq
has_id id rows = any (λ r. text_eq r.id id) rows

-- `INSERT OR IGNORE`
unfoldable pub insert_or_ignore : UsageRow → List UsageRow → List UsageRow
unfolding has_id
insert_or_ignore row rows = if has_id row.id rows then rows else rows ++ row ∷ []

-- The rows, and how many were inserted and how many were skipped.
pub record Ingestion : Type 0 where
  pub rows : List UsageRow
  pub inserted : ℕ
  pub duplicates : ℕ

abbrev pub uncounted : List UsageRow → Ingestion
uncounted rows = record { rows = rows; inserted = 0; duplicates = 0 }

-- One turn of the loop.
unfoldable pub ingest_event : Text → UsageEvent → Ingestion → Ingestion
unfolding insert_or_ignore event_row
ingest_event batch_id e t = record {
  rows = insert_or_ignore (event_row batch_id e) t.rows;
  inserted = if has_id e.id t.rows then t.inserted else suc t.inserted;
  duplicates = if has_id e.id t.rows then suc t.duplicates else t.duplicates;
}

-- What a turn does with an id that is there, and with a new one.
pub ingest_event-stored :
    (batch_id : Text) (e : UsageEvent) (t : Ingestion)
    → has_id e.id t.rows ≡ true
    → ingest_event batch_id e t ≡ record t { duplicates = suc t.duplicates }
unfolding ingest_event insert_or_ignore event_row
ingest_event-stored batch_id e t h = rw h refl

pub ingest_event-new :
    (batch_id : Text) (e : UsageEvent) (t : Ingestion)
    → has_id e.id t.rows ≡ false
    → ingest_event batch_id e t
      ≡ record t { rows = t.rows ++ event_row batch_id e ∷ []; inserted = suc t.inserted }
unfolding ingest_event insert_or_ignore event_row
ingest_event-new batch_id e t h = rw h refl

unfoldable pub ingest_events : Text → List UsageEvent → Ingestion → Ingestion
unfolding ingest_event
ingest_events batch_id [] t = t
ingest_events batch_id (e ∷ events) t = ingest_events batch_id events (ingest_event batch_id e t)

unfoldable pub ingest_batch_with_counts : UsageBatch → List UsageRow → Ingestion
unfolding ingest_events
ingest_batch_with_counts batch rows = ingest_events batch.batch_id batch.events (uncounted rows)

-- The condition of the `DELETE`.
unfoldable pub is_replaced : Text → Text → Text → Text → UsageRow → Bool
unfolding text_eq
is_replaced provider current legacy account r =
    (text_eq r.provider_id provider
      && (text_eq r.data_source current || text_eq r.data_source legacy))
    && text_eq r.account_fingerprint account

-- The loop over the accounts. The set of them is given as the list that it is collected from: what
-- is deleted does not depend on the order, and nothing is left for the second time.
unfoldable pub delete_accounts : Text → Text → Text → List Text → List UsageRow → List UsageRow
unfolding is_replaced
delete_accounts provider current legacy [] rows = rows
delete_accounts provider current legacy (account ∷ accounts) rows =
    delete_accounts provider current legacy accounts
      (filter (λ r. not (is_replaced provider current legacy account r)) rows)

abbrev pub accounts_of : List UsageEvent → List Text
accounts_of events = map (λ e. or_empty e.account_fingerprint) events

-- The counts are of the rows that were inserted, and 0.
unfoldable pub replace_provider_batch : UsageBatch → Text → Text → Text → List UsageRow → Ingestion
unfolding delete_accounts ingest_events
replace_provider_batch batch provider current legacy rows =
    if is_nil batch.events
    then uncounted rows
    else let kept = delete_accounts provider current legacy (accounts_of batch.events) rows in
      let done = ingest_events batch.batch_id batch.events (uncounted kept) in
      record done { duplicates = 0 }
