-- ===== src/Runtime/Permissions.antt =====
-- crates/provider-runtime/src/permissions.rs.
use lnwdeck.Prelude.{Bool, true, false, List, any}

pub data Permission : Type 0 where
  file_system network credential hook : Permission

-- The derived `==`
unfoldable pub permission_eq : Permission → Permission → Bool
permission_eq file_system file_system = true
permission_eq network network = true
permission_eq credential credential = true
permission_eq hook hook = true
permission_eq _ _ = false

pub record Permissions : Type 0 where
  pub granted : List Permission

unfoldable pub has : Permissions → Permission → Bool
unfolding permission_eq
has permissions permission = any (permission_eq permission) permissions.granted
