-- ===== src/Core.antt =====
-- internal/core: the primitives that the modules share.
pub mod Glob
pub mod LeakTarget
pub mod Paths
pub mod Safety
mod Tests
