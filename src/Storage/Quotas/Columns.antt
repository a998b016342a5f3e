-- ===== src/Storage/Quotas/Columns.antt =====
-- The texts of the columns of crates/storage/src/repositories/quota_repository.rs.
use lnwdeck.Prelude.{◌≡◌, refl, if◌then◌else◌}
use lnwdeck.Prelude.Text.{Text, codes, text_eq}
use lnwdeck.Domain.Usage.{Confidence, low, medium, high}
use lnwdeck.Domain.Quota.{
  QuotaStatus, QuotaWindowScope, QuotaKind, fresh, stale, unavailable, auth_expired, rate_limited,
  error, rolling, daily, weekly, monthly, session, other, requests, tokens, credits, parallel,
}

unfoldable pub status_to_str : QuotaStatus → Text
status_to_str fresh = codes "fresh"
status_to_str stale = codes "stale"
status_to_str unavailable = codes "unavailable"
status_to_str auth_expired = codes "auth_expired"
status_to_str rate_limited = codes "rate_limited"
status_to_str error = codes "error"

unfoldable pub parse_status : Text → QuotaStatus
unfolding text_eq
parse_status value =
    if text_eq value (codes "fresh")
    then fresh
    else if text_eq value (codes "stale")
    then stale
    else if text_eq value (codes "unavailable")
    then unavailable
    else if text_eq value (codes "auth_expired")
    then auth_expired
    else if text_eq value (codes "rate_limited")
    then rate_limited
    else error

unfoldable pub scope_to_str : QuotaWindowScope → Text
scope_to_str rolling = codes "rolling"
scope_to_str daily = codes "daily"
scope_to_str weekly = codes "weekly"
scope_to_str monthly = codes "monthly"
scope_to_str session = codes "session"
scope_to_str other = codes "other"

unfoldable pub parse_scope : Text → QuotaWindowScope
unfolding text_eq
parse_scope value =
    if text_eq value (codes "rolling")
    then rolling
    else if text_eq value (codes "daily")
    then daily
    else if text_eq value (codes "weekly")
    then weekly
    else if text_eq value (codes "monthly")
    then monthly
    else if text_eq value (codes "session")
    then session
    else other

unfoldable pub kind_to_str : QuotaKind → Text
kind_to_str requests = codes "requests"
kind_to_str tokens = codes "tokens"
kind_to_str credits = codes "credits"
kind_to_str parallel = codes "parallel"

unfoldable pub parse_kind : Text → QuotaKind
unfolding text_eq
parse_kind value =
    if text_eq value (codes "requests")
    then requests
    else if text_eq value (codes "tokens")
    then tokens
    else if text_eq value (codes "credits")
    then credits
    else if text_eq value (codes "parallel")
    then parallel
    else requests

unfoldable pub confidence_to_str : Confidence → Text
confidence_to_str low = codes "low"
confidence_to_str medium = codes "medium"
confidence_to_str high = codes "high"

unfoldable pub parse_confidence : Text → Confidence
unfolding text_eq
parse_confidence value =
    if text_eq value (codes "low")
    then low
    else if text_eq value (codes "high")
    then high
    else medium

pub parse_status-status_to_str : (s : QuotaStatus) → parse_status (status_to_str s) ≡ s
unfolding parse_status status_to_str
parse_status-status_to_str fresh = refl
parse_status-status_to_str stale = refl
parse_status-status_to_str unavailable = refl
parse_status-status_to_str auth_expired = refl
parse_status-status_to_str rate_limited = refl
parse_status-status_to_str error = refl

pub parse_scope-scope_to_str : (s : QuotaWindowScope) → parse_scope (scope_to_str s) ≡ s
unfolding parse_scope scope_to_str
parse_scope-scope_to_str rolling = refl
parse_scope-scope_to_str daily = refl
parse_scope-scope_to_str weekly = refl
parse_scope-scope_to_str monthly = refl
parse_scope-scope_to_str session = refl
parse_scope-scope_to_str other = refl

pub parse_kind-kind_to_str : (k : QuotaKind) → parse_kind (kind_to_str k) ≡ k
unfolding parse_kind kind_to_str
parse_kind-kind_to_str requests = refl
parse_kind-kind_to_str tokens = refl
parse_kind-kind_to_str credits = refl
parse_kind-kind_to_str parallel = refl

pub parse_confidence-confidence_to_str :
    (c : Confidence) → parse_confidence (confidence_to_str c) ≡ c
unfolding parse_confidence confidence_to_str
parse_confidence-confidence_to_str low = refl
parse_confidence-confidence_to_str medium = refl
parse_confidence-confidence_to_str high = refl
