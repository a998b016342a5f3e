-- ===== src/Storage/Usage/Counted.antt =====
-- The counts of an ingestion, and the primary key.
use lnwdeck.Prelude.{
  suc, ◌+◌, ◌≡◌, refl, Bool, true, false, not, ◌&&◌, ◌||◌, List, [], ◌∷◌, ◌++◌, length,
  length-append, arith, inl, inr, Bool-cases,
}
use lnwdeck.Prelude.Text.{Text, text_eq, text_eq_comm}
use lnwdeck.Domain.Usage.{UsageEvent, UsageBatch}
use lnwdeck.Storage.Usage.{
  UsageRow, Ingestion, event_row, has_id, insert_or_ignore, ingest_event, ingest_events,
  ingest_batch_with_counts, uncounted,
}

-- No id stands in two rows.
unfoldable pub has_distinct_ids : List UsageRow → Bool
unfolding has_id
has_distinct_ids [] = true
has_distinct_ids (r ∷ rows) = let rest = has_distinct_ids rows in not (has_id r.id rows) && rest

has_id-append :
    (id : Text) (rows : List UsageRow) (row : UsageRow)
    → has_id id (rows ++ row ∷ []) ≡ (has_id id rows || text_eq row.id id)
unfolding has_id
has_id-append id [] row = ground arith
has_id-append id (r ∷ rows) row = let ih = has_id-append id rows row in ground (arith, ih)

has_distinct_ids-append :
    (rows : List UsageRow) (row : UsageRow)
    → has_distinct_ids rows ≡ true
    → has_id row.id rows ≡ false
    → has_distinct_ids (rows ++ row ∷ []) ≡ true
unfolding has_distinct_ids has_id
has_distinct_ids-append [] row h k = refl
has_distinct_ids-append (r ∷ rows) row h k =
    let ih = has_distinct_ids-append rows row in
    rw (has_id-append r.id rows row, text_eq_comm row.id r.id) (ground (arith, ih))

has_distinct_ids-insert_or_ignore :
    (row : UsageRow) (rows : List UsageRow)
    → has_distinct_ids rows ≡ true
    → has_distinct_ids (insert_or_ignore row rows) ≡ true
unfolding insert_or_ignore
has_distinct_ids-insert_or_ignore row rows h = elim (Bool-cases (has_id row.id rows)) [
  | inl e ↦ rw e h
  | inr e ↦ rw e (has_distinct_ids-append rows row h e)
]

-- What one event adds to the counts and to the rows.
ingest_event-counts :
    (batch_id : Text) (e : UsageEvent) (t : Ingestion)
    → ((ingest_event batch_id e t).inserted + (ingest_event batch_id e t).duplicates
        ≡ suc (t.inserted + t.duplicates))
      × (length (ingest_event batch_id e t).rows + t.inserted
          ≡ length t.rows + (ingest_event batch_id e t).inserted)
unfolding ingest_event insert_or_ignore event_row
ingest_event-counts batch_id e t = elim (Bool-cases (has_id e.id t.rows)) [
  | inl h ↦ rw h (omega arith, refl)
  | inr h ↦
      let more = length-append t.rows (event_row batch_id e ∷ []) in
      rw (h, more) (omega arith, omega arith)
]

abbrev pub IsCounted : List UsageEvent → Ingestion → Ingestion → Type 0
IsCounted events before after =
    (after.inserted + after.duplicates ≡ before.inserted + before.duplicates + length events)
    × (length after.rows + before.inserted ≡ length before.rows + after.inserted)
    × (has_distinct_ids after.rows ≡ true)

pub ingest_events-IsCounted :
    (batch_id : Text) (events : List UsageEvent) (t : Ingestion)
    → has_distinct_ids t.rows ≡ true
    → IsCounted events t (ingest_events batch_id events t)
unfolding ingest_events
ingest_events-IsCounted batch_id [] t h = (omega arith, refl, h)
ingest_events-IsCounted batch_id (e ∷ events) t h =
    let next = ingest_event batch_id e t in
    let ih = ingest_events-IsCounted batch_id events next (distinct e) in
    let one = ingest_event-counts batch_id e t in
    (omega (arith, ih.0, one.0), omega (arith, ih.1, one.1), ih.2)
  where
    distinct : (e : UsageEvent) → has_distinct_ids (ingest_event batch_id e t).rows ≡ true
    distinct e = has_distinct_ids-insert_or_ignore (event_row batch_id e) t.rows h

-- Ingesting a batch counts each of its events once, as inserted or as a duplicate; the table grows
-- by as many rows as are counted inserted; and no two rows have one id, where that was so before.
pub ingest_batch_with_counts-IsCounted :
    (batch : UsageBatch) (rows : List UsageRow)
    → has_distinct_ids rows ≡ true
    → ((ingest_batch_with_counts batch rows).inserted
          + (ingest_batch_with_counts batch rows).duplicates
        ≡ length batch.events)
      × (length (ingest_batch_with_counts batch rows).rows
          ≡ length rows + (ingest_batch_with_counts batch rows).inserted)
      × (has_distinct_ids (ingest_batch_with_counts batch rows).rows ≡ true)
unfolding ingest_batch_with_counts
ingest_batch_with_counts-IsCounted batch rows h =
    let start = uncounted rows in
    let counted = ingest_events-IsCounted batch.batch_id batch.events start h in
    (omega (arith, counted.0), omega (arith, counted.1), counted.2)
