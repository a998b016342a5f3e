-- ===== src/Storage/Usage/Again.antt =====
-- A batch that is ingested a second time.
use lnwdeck.Prelude.{
  suc, ◌+◌, ◌≡◌, refl, ap, ◌∙◌, true, List, [], ◌∷◌, ◌++◌, All, length, arith, inl, inr, Bool-cases,
}
use lnwdeck.Prelude.Text.{Text, text_eq_refl}
use lnwdeck.Domain.Usage.{UsageEvent, UsageBatch}
use lnwdeck.Storage.Usage.{
  UsageRow, Ingestion, event_row, has_id, insert_or_ignore, ingest_event, ingest_events,
  ingest_batch_with_counts, ingest_event-stored, uncounted,
}

-- An id that is there stays there.
has_id-append_left :
    (id : Text) (rows more : List UsageRow)
    → has_id id rows ≡ true
    → has_id id (rows ++ more) ≡ true
unfolding has_id
has_id-append_left id [] more h = cc
has_id-append_left id (r ∷ rows) more h =
    let ih = has_id-append_left id rows more in ground (arith, ih)

has_id-append_last :
    (rows : List UsageRow) (row : UsageRow) → has_id row.id (rows ++ row ∷ []) ≡ true
unfolding has_id
has_id-append_last [] row = rw (text_eq_refl row.id) refl
has_id-append_last (r ∷ rows) row = let ih = has_id-append_last rows row in ground (arith, ih)

has_id-ingest_event :
    (id batch_id : Text) (e : UsageEvent) (t : Ingestion)
    → has_id id t.rows ≡ true
    → has_id id (ingest_event batch_id e t).rows ≡ true
unfolding ingest_event insert_or_ignore event_row
has_id-ingest_event id batch_id e t h = elim (Bool-cases (has_id e.id t.rows)) [
  | inl k ↦ rw k h
  | inr k ↦ rw k (has_id-append_left id t.rows (event_row batch_id e ∷ []) h)
]

has_id-ingest_events :
    (id batch_id : Text) (events : List UsageEvent) (t : Ingestion)
    → has_id id t.rows ≡ true
    → has_id id (ingest_events batch_id events t).rows ≡ true
unfolding ingest_events
has_id-ingest_events id batch_id [] t h = h
has_id-ingest_events id batch_id (e ∷ events) t h =
    has_id-ingest_events id batch_id events (ingest_event batch_id e t)
      (has_id-ingest_event id batch_id e t h)

ingested-has_id :
    (batch_id : Text) (e : UsageEvent) (t : Ingestion)
    → has_id e.id (ingest_event batch_id e t).rows ≡ true
unfolding ingest_event insert_or_ignore event_row
ingested-has_id batch_id e t = elim (Bool-cases (has_id e.id t.rows)) [
  | inl k ↦ rw k k
  | inr k ↦ rw k (has_id-append_last t.rows (event_row batch_id e))
]

abbrev AllStored : List UsageEvent → List UsageRow → Type 0
AllStored events rows = All (λ e. has_id e.id rows ≡ true) events

ingest_events-AllStored :
    (batch_id : Text) (events : List UsageEvent) (t : Ingestion)
    → AllStored events (ingest_events batch_id events t).rows
unfolding ingest_events
ingest_events-AllStored batch_id [] t = tt
ingest_events-AllStored batch_id (e ∷ events) t =
    let next = ingest_event batch_id e t in
    (
      has_id-ingest_events e.id batch_id events next (ingested-has_id batch_id e t),
      ingest_events-AllStored batch_id events next,
    )

-- Events that are all stored are all duplicates.
ingest_events-stored :
    (batch_id : Text) (events : List UsageEvent) (t : Ingestion)
    → AllStored events t.rows
    → ingest_events batch_id events t ≡ record t { duplicates = length events + t.duplicates }
unfolding ingest_events
ingest_events-stored batch_id [] t h = ground arith
ingest_events-stored batch_id (e ∷ events) t (h, hs) =
    let next = record t { duplicates = suc t.duplicates } in
    let later = ingest_events-stored batch_id events next hs in
    rw (ingest_event-stored batch_id e t h) (later ∙ counted)
  where
    counted :
        record t { duplicates = length events + suc t.duplicates }
        ≡ record t { duplicates = suc (length events) + t.duplicates }
    counted = ap (λ n. record t { duplicates = n }) (omega arith)

-- A batch that is ingested again changes no row, inserts none, and counts every event a duplicate.
pub ingest_batch_with_counts-again :
    (batch : UsageBatch) (rows : List UsageRow)
    → ingest_batch_with_counts batch (ingest_batch_with_counts batch rows).rows ≡ record {
      rows = (ingest_batch_with_counts batch rows).rows;
      inserted = 0;
      duplicates = length batch.events;
    }
unfolding ingest_batch_with_counts
ingest_batch_with_counts-again batch rows =
    let start = uncounted rows in
    let first = ingest_events batch.batch_id batch.events start in
    let stored = ingest_events-AllStored batch.batch_id batch.events (uncounted rows) in
    let again = ingest_events-stored batch.batch_id batch.events (uncounted first.rows) stored in
    again ∙ ground arith
