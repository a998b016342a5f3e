-- ===== src/Runtime/Descriptor.antt =====
-- crates/provider-runtime/src/descriptor.rs, and what health.rs and detection.rs derive from a
-- descriptor. The texts of errors and messages are constructors.
pub mod Consistent
use lnwdeck.Prelude.{
  ℕ, Bool, true, false, not, ◌&&◌, ◌||◌, Option, none, some, List, [], ◌∷◌, if◌then◌else◌, Result,
  ok, err, ◌>>=◌, ◌>>◌, refuse, is_nil,
}
use lnwdeck.Prelude.Text.{Text, codes, trim}

pub data ChannelSupport : Type 0 where
  native local_estimate unsupported : ChannelSupport

unfoldable pub is_supported : ChannelSupport → Bool
is_supported unsupported = false
is_supported _ = true

unfoldable pub support_label : ChannelSupport → Text
support_label native = codes "supported"
support_label local_estimate = codes "local estimate"
support_label unsupported = codes "not supported"

pub data SourceKind : Type 0 where
  local_sqlite local_jsonl local_log local_api remote_api no_source : SourceKind

unfoldable pub source_label : SourceKind → Text
source_label local_sqlite = codes "local_sqlite"
source_label local_jsonl = codes "local_jsonl"
source_label local_log = codes "local_log"
source_label local_api = codes "local_api"
source_label remote_api = codes "remote_api"
source_label no_source = codes "none"

unfoldable pub is_remote : SourceKind → Bool
is_remote remote_api = true
is_remote _ = false

-- `self == SourceKind::None`
abbrev pub is_no_source : SourceKind → Bool
is_no_source no_source = true
is_no_source _ = false

pub data AuthKind : Type 0 where
  no_auth local_files api_key browser_cookie : AuthKind

-- `self == AuthKind::None`
abbrev pub is_no_auth : AuthKind → Bool
is_no_auth no_auth = true
is_no_auth _ = false

pub record AdapterDescriptor : Type 0 where
  pub id : Text
  pub display_name : Text
  pub vendor : Text
  pub source_kind : SourceKind
  pub usage_support : ChannelSupport
  pub quota_support : ChannelSupport
  pub auth : AuthKind
  pub adapter_version : Text

unfoldable pub is_inert : AdapterDescriptor → Bool
unfolding is_supported
is_inert d = not (is_supported d.usage_support) && not (is_supported d.quota_support)

unfoldable pub is_user_supplied : AuthKind → Bool
is_user_supplied api_key = true
is_user_supplied browser_cookie = true
is_user_supplied _ = false

unfoldable pub needs_credentials : AdapterDescriptor → Bool
unfolding is_user_supplied
needs_credentials d = is_user_supplied d.auth

pub data Contradiction : Type 0 where
  empty_id empty_display_name empty_version source_without_channel : Contradiction
  channel_without_source remote_without_auth : Contradiction

unfoldable pub check : AdapterDescriptor → Result Contradiction (Unit {0})
unfolding is_inert is_remote
check d = do
  refuse (is_nil (trim d.id)) empty_id
  refuse (is_nil (trim d.display_name)) empty_display_name
  refuse (is_nil (trim d.adapter_version)) empty_version
  refuse (is_inert d && not (is_no_source d.source_kind)) source_without_channel
  refuse (not (is_inert d) && is_no_source d.source_kind) channel_without_source
  refuse (is_remote d.source_kind && is_no_auth d.auth) remote_without_auth

pub data AdapterHealthStatus : Type 0 where
  healthy degraded unhealthy not_implemented not_configured : AdapterHealthStatus

unfoldable pub can_collect : AdapterHealthStatus → Bool
can_collect healthy = true
can_collect degraded = true
can_collect _ = false

-- The status of the default `health_check` of crates/provider-runtime/src/adapter.rs.
unfoldable pub health_check : AdapterDescriptor → AdapterHealthStatus
unfolding is_inert needs_credentials
health_check d =
    if is_inert d then not_implemented else if needs_credentials d then not_configured else degraded

pub record DetectionResult : Type 0 where
  pub provider_id : Text
  pub display_name : Text
  pub enabled : Bool
  pub detected : Bool
  pub detection_method : Text
  pub source_type : Text
  pub source_exists : Bool
  pub permission_state : Text
  pub adapter_version : Text
  pub last_detection_at : Option ℕ
  pub detection_error_code : Text

-- The method, the error code and the permission state of `from_descriptor`.
unfoldable pub detection_evidence : AdapterDescriptor → Text × Text × Text
unfolding is_inert needs_credentials
detection_evidence d =
    if is_inert d
    then (codes "unsupported", codes "NOT_SUPPORTED", codes "n/a")
    else if needs_credentials d
    then (codes "credential", codes "NOT_CONFIGURED", codes "credential_required")
    else (codes "unsupported", codes "NOT_SUPPORTED", codes "n/a")

-- `Utc::now()` is an argument.
unfoldable pub from_descriptor : ℕ → AdapterDescriptor → DetectionResult
unfolding detection_evidence source_label
from_descriptor now d = record {
  provider_id = d.id;
  display_name = d.display_name;
  enabled = true;
  detected = false;
  detection_method = (detection_evidence d).0;
  source_type = source_label d.source_kind;
  source_exists = false;
  permission_state = (detection_evidence d).2;
  adapter_version = d.adapter_version;
  last_detection_at = some now;
  detection_error_code = (detection_evidence d).1;
}
