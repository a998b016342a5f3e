-- ===== src/Domain/Quota/Status.antt =====
-- `impl QuotaStatus` of crates/domain/src/quota.rs.
use lnwdeck.Prelude.{Bool, true, false, List, [], ◌∷◌, if◌then◌else◌, any}
use lnwdeck.Prelude.Text.{Text, codes, text_eq}
use lnwdeck.Domain.Quota.{QuotaStatus, fresh, stale, unavailable, auth_expired, rate_limited, error}

unfoldable pub is_usable : QuotaStatus → Bool
is_usable fresh = true
is_usable stale = true
is_usable _ = false

unfoldable pub is_error : QuotaStatus → Bool
is_error unavailable = true
is_error auth_expired = true
is_error rate_limited = true
is_error error = true
is_error _ = false

-- The code is one of the texts of a pattern.
abbrev pub is_one_of : Text → List Text → Bool
is_one_of code texts = any (text_eq code) texts

abbrev pub auth_codes : List Text
auth_codes = codes "AUTH_EXPIRED" ∷ codes "AUTH_FAILED" ∷ codes "TOKEN_EXPIRED" ∷ []

abbrev pub rate_codes : List Text
rate_codes = codes "RATE_LIMITED" ∷ codes "RATE_LIMIT" ∷ []

abbrev pub unavailable_codes : List Text
unavailable_codes =
    codes "SOURCE_UNAVAILABLE"
    ∷ codes "NOT_INSTALLED"
    ∷ codes "UNSUPPORTED"
    ∷ codes "NOT_SUPPORTED"
    ∷ codes "NOT_CONFIGURED"
    ∷ codes "SOURCE_REQUIRES_IDE"
    ∷ []

unfoldable pub from_error_code : Text → QuotaStatus
from_error_code code =
    if is_one_of code auth_codes
    then auth_expired
    else if is_one_of code rate_codes
    then rate_limited
    else if is_one_of code unavailable_codes
    then unavailable
    else error
