-- ===== src/Browser.antt =====
-- The file browser: frontend/src/main/resources/static/js/file-manager/file-manager-page.js.
pub mod PathStack
pub mod Format
pub mod State
pub mod Fetch
pub mod Selection
pub mod Navigate
pub mod Menu
pub mod Change
pub mod Search
pub mod Messages
