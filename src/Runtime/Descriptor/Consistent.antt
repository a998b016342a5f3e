-- ===== src/Runtime/Descriptor/Consistent.antt =====
-- What the checks of a descriptor promise its clients.
use lnwdeck.Prelude.{ℕ, ◌≡◌, true, false, not, ◌&&◌, ◌||◌, ok, is_nil, ◌↔◌, arith}
use lnwdeck.Prelude.Text.{codes, trim}
use lnwdeck.Runtime.Descriptor.{
  AdapterDescriptor, is_supported, is_inert, is_remote, is_no_source, is_no_auth, needs_credentials,
  check, health_check, can_collect, from_descriptor,
}

-- A declaration that contradicts nothing: it has an id, a name and a version that are not blank, it
-- names a source exactly when it supports a channel, and a remote source comes with its auth.
abbrev pub IsCoherent : AdapterDescriptor → Type 0
IsCoherent d =
    (is_nil (trim d.id) ≡ false)
    × (is_nil (trim d.display_name) ≡ false)
    × (is_nil (trim d.adapter_version) ≡ false)
    × (is_no_source d.source_kind
        ≡ not (is_supported d.usage_support || is_supported d.quota_support))
    × ((is_remote d.source_kind && is_no_auth d.auth) ≡ false)

-- `check` accepts exactly the coherent descriptors.
pub check-IsCoherent : (d : AdapterDescriptor) → (check d ≡ ok tt) ↔ IsCoherent d
unfolding check
check-IsCoherent d = ground arith

-- The default health check lets an adapter collect exactly when one of its channels is
-- implemented and it waits for no credentials; and detection says `NOT_CONFIGURED` exactly of an
-- implemented adapter that waits for them.
pub can_collect-health_check :
    (now : ℕ) (d : AdapterDescriptor)
    → (can_collect (health_check d) ≡ (not (is_inert d) && not (needs_credentials d)))
      × (((from_descriptor now d).detection_error_code ≡ codes "NOT_CONFIGURED")
          ↔ ((not (is_inert d) && needs_credentials d) ≡ true))
unfolding health_check can_collect from_descriptor
can_collect-health_check now d = (ground arith, ground arith)
