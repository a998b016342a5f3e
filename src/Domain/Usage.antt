-- ===== src/Domain/Usage.antt =====
-- crates/domain/src/usage.rs and confidence.rs. An instant is its nanoseconds since the epoch.
use lnwdeck.Prelude.{ℕ, Option, List}
use lnwdeck.Prelude.Text.{Text}

pub data Confidence : Type 0 where
  low medium high : Confidence

abbrev pub Instant : Type 0
Instant = ℕ

pub record UsageEvent : Type 0 where
  pub id : Text
  pub timestamp : Instant
  pub provider_id : Text
  pub model : Text
  pub tokens_input : ℕ
  pub tokens_cached : ℕ
  pub tokens_cache_write : ℕ
  pub tokens_output : ℕ
  pub tokens_reasoning : ℕ
  pub confidence : Confidence
  pub data_source : Text
  pub cost : Text
  pub session_hash : Option Text
  pub project_hash : Option Text
  pub account_fingerprint : Option Text

pub record UsageBatch : Type 0 where
  pub events : List UsageEvent
  pub batch_id : Text
