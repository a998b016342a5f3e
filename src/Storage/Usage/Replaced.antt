-- ===== src/Storage/Usage/Replaced.antt =====
-- A full scan replaces what an earlier one stored.
use lnwdeck.Prelude.{
  ℕ, suc, ◌+◌, ◌≡◌, refl, ap, sym, ◌∙◌, Bool, true, false, not, ◌&&◌, ◌||◌, if◌then◌else◌, List, [],
  ◌∷◌, ◌++◌, any, filter, length, arith, inl, inr, Bool-cases, map, filter-true,
  filter-not-filter-not,
}
use mathlib.Core.List.{append_assoc, append-nil}
use lnwdeck.Prelude.Text.{Text, text_eq}
use lnwdeck.Domain.Usage.{UsageEvent, UsageBatch}
use lnwdeck.Storage.Usage.{
  UsageRow, Ingestion, event_row, has_id, ingest_events, ingest_event-stored, ingest_event-new,
  uncounted, is_replaced, delete_accounts, accounts_of, replace_provider_batch,
}

-- The row is of the provider, one of the two sources, and one of the accounts.
abbrev is_replaced_of : Text → Text → Text → List Text → UsageRow → Bool
is_replaced_of provider current legacy accounts r =
    any (λ account. is_replaced provider current legacy account r) accounts

-- The deletions together are one, in whatever order.
delete_accounts-filter :
    (provider current legacy : Text) (accounts : List Text) (rows : List UsageRow)
    → delete_accounts provider current legacy accounts rows
      ≡ filter (λ r. not (is_replaced_of provider current legacy accounts r)) rows
unfolding delete_accounts
delete_accounts-filter provider current legacy [] rows =
    sym (filter-true (λ r. true) rows (λ r. refl))
delete_accounts-filter provider current legacy (account ∷ accounts) rows =
    let one = is_replaced provider current legacy account in
    delete_accounts-filter provider current legacy accounts (filter (λ r. not (one r)) rows)
    ∙ filter-not-filter-not one (is_replaced_of provider current legacy accounts) rows

-- A row that a full scan replaces: of the provider, of one of the two sources, and of an account of
-- the batch.
abbrev pub is_scanned : Text → List Text → List Text → UsageRow → Bool
is_scanned provider sources accounts r =
    any (text_eq r.account_fingerprint) accounts
    && (any (text_eq r.data_source) sources && text_eq r.provider_id provider)

is_replaced_of-is_scanned :
    (provider current legacy : Text) (accounts : List Text) (r : UsageRow)
    → is_replaced_of provider current legacy accounts r
      ≡ is_scanned provider (current ∷ legacy ∷ []) accounts r
unfolding is_replaced text_eq
is_replaced_of-is_scanned provider current legacy [] r = refl
is_replaced_of-is_scanned provider current legacy (account ∷ accounts) r =
    ground (arith, is_replaced_of-is_scanned provider current legacy accounts r)

-- The first row of each id that is not one of `ids`.
unfoldable pub first_rows : List Text → List UsageRow → List UsageRow
unfolding text_eq
first_rows ids [] = []
first_rows ids (r ∷ rows) =
    let repeated = first_rows ids rows in
    let new = first_rows (r.id ∷ ids) rows in
    if any (λ id. text_eq id r.id) ids then repeated else r ∷ new

first_rows-stored :
    (ids : List Text) (r : UsageRow) (rows : List UsageRow)
    → any (λ id. text_eq id r.id) ids ≡ true
    → first_rows ids (r ∷ rows) ≡ first_rows ids rows
unfolding first_rows
first_rows-stored ids r rows h = rw h refl

first_rows-new :
    (ids : List Text) (r : UsageRow) (rows : List UsageRow)
    → any (λ id. text_eq id r.id) ids ≡ false
    → first_rows ids (r ∷ rows) ≡ r ∷ first_rows (r.id ∷ ids) rows
unfolding first_rows
first_rows-new ids r rows h = rw h refl

event_row-id : (batch_id : Text) (e : UsageEvent) → (event_row batch_id e).id ≡ e.id
unfolding event_row
event_row-id batch_id e = refl

of_event :
    (batch_id : Text) (e : UsageEvent) (ids : List Text) (b : Bool)
    → any (λ id. text_eq id e.id) ids ≡ b
    → any (λ id. text_eq id (event_row batch_id e).id) ids ≡ b
unfolding event_row
of_event batch_id e ids b h = h

counted : (n m : ℕ) → suc n + m ≡ n + suc m
counted n m = omega arith

-- The ids are those of the rows.
abbrev AreIds : List UsageRow → List Text → Type 0
AreIds rows ids = (id : Text) → has_id id rows ≡ any (λ i. text_eq i id) ids

has_id-append :
    (id : Text) (rows : List UsageRow) (r : UsageRow)
    → has_id id (rows ++ r ∷ []) ≡ text_eq r.id id || has_id id rows
unfolding has_id
has_id-append id [] r = refl
has_id-append id (x ∷ rows) r = ground (arith, has_id-append id rows r)

AreIds-map : (rows : List UsageRow) → AreIds rows (map (λ r. r.id) rows)
unfolding has_id
AreIds-map [] id = refl
AreIds-map (r ∷ rows) id = ap (λ b. text_eq r.id id || b) (AreIds-map rows id)

-- An ingestion adds the first row of each id that is not stored, and counts them.
ingest_events-first_rows :
    (batch_id : Text) (events : List UsageEvent) (t : Ingestion) (ids : List Text)
    → AreIds t.rows ids
    → ((ingest_events batch_id events t).rows
        ≡ t.rows ++ first_rows ids (map (event_row batch_id) events))
      × ((ingest_events batch_id events t).inserted
          ≡ t.inserted + length (first_rows ids (map (event_row batch_id) events)))
unfolding ingest_events first_rows
ingest_events-first_rows batch_id [] t ids same = (sym (append-nil t.rows), omega arith)
ingest_events-first_rows batch_id (e ∷ events) t ids same = elim (Bool-cases (has_id e.id t.rows)) [
  | inl h ↦
      let next = record t { duplicates = suc t.duplicates } in
      let later = ingest_events-first_rows batch_id events next ids same in
      let row = event_row batch_id e in
      let rest = map (event_row batch_id) events in
      let skipped =
        first_rows-stored ids row rest (of_event batch_id e ids true (sym (same e.id) ∙ h)) in
      let step = ap (ingest_events batch_id events) (ingest_event-stored batch_id e t h) in
      (
        ap (λ x. x.rows) step ∙ later.0 ∙ ap (λ l. t.rows ++ l) (sym skipped),
        ap (λ x. x.inserted) step ∙ later.1 ∙ ap (λ l. t.inserted + length l) (sym skipped),
      )
  | inr h ↦
      let row = event_row batch_id e in
      let next = record t { rows = t.rows ++ row ∷ []; inserted = suc t.inserted } in
      let more : AreIds (t.rows ++ row ∷ []) (e.id ∷ ids) = λ id.
        has_id-append id t.rows row
        ∙ ap (λ x. text_eq x id || has_id id t.rows) (event_row-id batch_id e)
        ∙ ap (λ b. text_eq e.id id || b) (same id) in
      let (rows, inserted) = ingest_events-first_rows batch_id events next (e.id ∷ ids) more in
      let rest = map (event_row batch_id) events in
      let taken =
        first_rows-new ids row rest (of_event batch_id e ids false (sym (same e.id) ∙ h)) in
      let id : first_rows (row.id ∷ ids) rest ≡ first_rows (e.id ∷ ids) rest =
        ap (λ x. first_rows (x ∷ ids) rest) (event_row-id batch_id e) in
      let added = first_rows (e.id ∷ ids) rest in
      let all = taken ∙ ap (λ l. row ∷ l) id in
      let step = ap (ingest_events batch_id events) (ingest_event-new batch_id e t h) in
      (
        ap (λ x. x.rows) step
            ∙ rows
            ∙ append_assoc t.rows (row ∷ []) added
            ∙ ap (λ l. t.rows ++ l) (sym all),
        ap (λ x. x.inserted) step
            ∙ inserted
            ∙ counted t.inserted (length added)
            ∙ ap (λ l. t.inserted + length l) (sym all),
      )
]

-- What a full scan leaves of the table, and what it adds.
abbrev pub kept_rows : UsageBatch → Text → List Text → List UsageRow → List UsageRow
kept_rows batch provider sources rows =
    filter (λ r. not (is_scanned provider sources (accounts_of batch.events) r)) rows

abbrev pub added_rows : UsageBatch → List UsageRow → List UsageRow
added_rows batch kept =
    first_rows (map (λ r. r.id) kept) (map (event_row batch.batch_id) batch.events)

delete_accounts-kept_rows :
    (batch : UsageBatch) (provider current legacy : Text) (rows : List UsageRow)
    → delete_accounts provider current legacy (accounts_of batch.events) rows
      ≡ kept_rows batch provider (current ∷ legacy ∷ []) rows
delete_accounts-kept_rows batch provider current legacy rows =
    let accounts = accounts_of batch.events in
    delete_accounts-filter provider current legacy accounts rows
    ∙ ap {A = UsageRow → Bool} (λ p. filter (λ r. not (p r)) rows)
        (λ i r. is_replaced_of-is_scanned provider current legacy accounts r i)

-- After a full scan the table holds the rows before it that are not of the provider, one of its two
-- sources and an account of the batch, as they were, and then the rows of the batch's events, in
-- their order, without those whose id is of a row left or of an earlier event. As many rows are
-- counted inserted as were added, and none is counted a duplicate.
pub replace_provider_batch-kept_rows :
    (batch : UsageBatch) (provider current legacy : Text) (rows : List UsageRow)
    → let done = replace_provider_batch batch provider current legacy rows in
      let kept = kept_rows batch provider (current ∷ legacy ∷ []) rows in
      (done.rows ≡ kept ++ added_rows batch kept)
      × (done.inserted ≡ length (added_rows batch kept))
      × (done.duplicates ≡ 0)
unfolding replace_provider_batch first_rows
replace_provider_batch-kept_rows batch provider current legacy rows = replaced batch.events
  where
    replaced :
        (events : List UsageEvent)
        → let b = record batch { events = events } in
          let done = replace_provider_batch b provider current legacy rows in
          let kept = kept_rows b provider (current ∷ legacy ∷ []) rows in
          (done.rows ≡ kept ++ added_rows b kept)
          × (done.inserted ≡ length (added_rows b kept))
          × (done.duplicates ≡ 0)
    replaced [] =
        let all = filter-true (λ r. true) rows (λ r. refl) in (sym (append-nil _ ∙ all), refl, refl)
    replaced (e ∷ events) =
        let b = record batch { events = e ∷ events } in
        let kept = kept_rows b provider (current ∷ legacy ∷ []) rows in
        let deleted = delete_accounts-kept_rows b provider current legacy rows in
        let same =
          ingest_events-first_rows batch.batch_id (e ∷ events) (uncounted kept)
            (map (λ r. r.id) kept) (AreIds-map kept) in
        rw deleted (same.0, same.1 ∙ omega arith, refl)
