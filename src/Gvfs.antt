-- ===== src/Gvfs.antt =====
-- The virtual file system over Google Drive (gdrive/src).
pub mod FileId
pub mod Files
pub mod Cache
pub mod Directory
pub mod Tests
