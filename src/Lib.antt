-- ===== src/Lib.antt =====
-- lnwdeck reads what AI tools leave on disk, records usage and quota, and shows both. Provider
-- adapters declare their channels in descriptors and are registered; the runtime calls the declared
-- channels and wraps what they return in outcomes; the application reads the stored reports, states
-- and runs and makes the cards of the quota dashboard of them. The desktop application also keeps a
-- store of animated pets that are installed from files and links.
--
-- Domain models crates/domain/src: Domain.Quota and its children the windows, statuses and reports
-- of quota.rs, Domain.Usage the events of usage.rs, Domain.Float what the code does with `f64`, as
-- an interface with the laws of IEEE 754 that are used.
--
-- Runtime models crates/provider-runtime/src: Descriptor (descriptor.rs, health.rs, detection.rs),
-- Permissions, Collection (collection.rs and quota.rs), Adapter (adapter.rs), Registry and
-- Scheduler. An adapter is the record of what its methods return. A duration or an instant is its
-- nanoseconds; the clock's readings, the random shares and the conversions of floats are arguments.
-- A `Duration` past 2 ^ 64 seconds panics, which is a value of the results: a doubling of a backoff
-- or a backoff with its jitter may not fit.
--
-- Security models crates/security/src/privacy_guard.rs: PrivacyGuard the walk over a JSON value, with
-- Batches for the calls on usage batches and quota reports, whose derived serialization is
-- Domain.Serialized. `str::to_lowercase` and `str::to_uppercase` are parameters.
--
-- Storage models crates/storage/src/repositories, each statement as a function on the rows of a
-- table, in the order of their insertion: Alerts (alert_repository.rs), Usage
-- (usage_repository.rs), Quotas (quota_repository.rs, without latest_report, latest_all and
-- history; SQLite holds a NaN of a REAL column as NULL, and the sign of a zero is left out), Budgets (budget_repository.rs, without list, with the parser of floats a parameter), and
-- Rows and Diagnostics for the rows and the writes of diagnostics_repository.rs and
-- sync_cursor_repository.rs.
--
-- Pricing models crates/pricing/src: Models the names of models and providers, Catalog the resolver,
-- Calculator the cost of tokens. The catalog's file is a build input, so its entries are an
-- argument. A slice inside a character is a panic, which is a value of the result.
--
-- Application.Alerts models the evaluation loop and the view of crates/application/src/alerts.rs,
-- over given conditions. Application.Quota models crates/application/src/quota.rs: the connection
-- state, the read-time status, the legacy filters and the cards; what the repositories return is an
-- argument, and the grouping of the reports and the sort of the cards are left out.
-- Application.Refresh models crates/application/src/refresh.rs: in Refresh itself collect_one and
-- collect_all, whose workers, each before an index, at work on one or past its loop, make their steps
-- on the shared counter and the slots in any order; in Persist what is stored of a collection, where an argument says which statements of
-- the database fail; in Cycle the loop over the adapters with on_provider.
--
-- Application.Settings models crates/application/src/settings.rs over the table of
-- app_settings_repository.rs, a map from keys to texts: what load reads, what save checks and
-- writes, and in Setters the setters of single settings.
--
-- Pets models apps/desktop/src-tauri/src/pets.rs: ids and kinds, manifests, the WebP header reader,
-- archives and links. The archive reader, the JSON parser and `str::to_lowercase` are parameters;
-- the file system and the download are left out. The header reader's loop runs on fuel, the length
-- of the buffer, and each turn moves its offset forward, so that is enough.
--
-- A Rust string is the list of its code points (Prelude.Text), a map with string keys an association
-- list (Prelude.Maps), a `Result` a data type with a bind (Prelude.Results).
-- Not modelled: the provider adapters, which read each tool's files or answers, the HTTP client, the
-- Windows integration and the desktop shell, which are input and output; the progress of
-- budgets, sessions,
-- analytics, redaction, the token scan and the hook manager.
mod Prelude
pub mod Domain
pub mod Json
pub mod Application
pub mod Pets
pub mod Pricing
pub mod Runtime
pub mod Security
pub mod Storage
