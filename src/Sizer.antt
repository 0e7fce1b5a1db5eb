-- ===== src/Sizer.antt =====
-- internal/sizer: what file trees really occupy, on a file system that shares extents.
pub mod Extents
pub mod Files
mod Tests
