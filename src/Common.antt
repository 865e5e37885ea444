-- ===== src/Common.antt =====
-- frontend/src/main/resources/static/js/common.js: requests with a CSRF token and one refresh of
-- the login, and the checks of an image.
pub mod Request
pub mod Image
