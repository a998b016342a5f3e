-- ===== src/Storage/Diagnostics.antt =====
-- The writes of crates/storage/src/repositories/diagnostics_repository.rs and
-- sync_cursor_repository.rs, on rows in the order of their insertion.
use lnwdeck.Prelude.{ℕ, List, [], ◌∷◌, ◌++◌, Option, if◌then◌else◌}
use lnwdeck.Prelude.Text.{Text, text_eq}
use lnwdeck.Prelude.Maps.{lookup, upsert}
use lnwdeck.Storage.Rows.{ProviderStateRow, CollectorRunRow}

-- `ON CONFLICT(provider_id) DO UPDATE`: the row of the provider keeps its place.
unfoldable pub upsert_provider_state :
    ProviderStateRow → List ProviderStateRow → List ProviderStateRow
unfolding text_eq
upsert_provider_state state [] = state ∷ []
upsert_provider_state state (r ∷ rows) =
    let later = upsert_provider_state state rows in
    if text_eq r.provider_id state.provider_id then state ∷ rows else r ∷ later

-- The database counts the ids.
unfoldable pub insert_collector_run :
    ℕ → CollectorRunRow → List CollectorRunRow → List CollectorRunRow
insert_collector_run id run rows = rows ++ record run { id = id } ∷ []

-- `sync_cursors` as a map from providers.
unfoldable pub upsert_cursor : Text → Text → List (Text × Text) → List (Text × Text)
unfolding upsert text_eq
upsert_cursor provider_id cursor_value cursors =
    upsert provider_id cursor_value (λ old. cursor_value) cursors

unfoldable pub get_cursor : Text → List (Text × Text) → Option Text
unfolding lookup text_eq
get_cursor provider_id cursors = lookup provider_id cursors
