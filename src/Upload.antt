-- ===== src/Upload.antt =====
-- The upload of files: frontend/src/main/resources/static/js/file-manager/upload-file.js and
-- manage-upload-file.js.
pub mod Choose
pub mod Drop
pub mod Chunks
pub mod Workers
pub mod Session
pub mod Paths
pub mod Manage
