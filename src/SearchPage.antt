-- ===== src/SearchPage.antt =====
-- The search page: frontend/src/main/resources/static/js/search/search-page.js.
pub mod Advance
pub mod Areas
pub mod Info
pub mod Send
pub mod View
