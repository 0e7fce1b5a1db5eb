-- ===== src/Offload.antt =====
-- internal/modules/offload: the relocation of an asset to an external volume. The disk, Apply and the
-- deferred queue's runner are in the modules below.
pub mod Disk
pub mod Apply
pub mod Pending
mod Tests
