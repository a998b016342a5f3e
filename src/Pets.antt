-- ===== src/Pets.antt =====
-- The pet store of the desktop application, apps/desktop/src-tauri/src/pets.rs.
pub mod Ids
pub mod Manifest
pub mod Url
pub mod Webp
pub mod Zip
mod Examples
