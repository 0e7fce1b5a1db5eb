-- ===== src/Daemon.antt =====
-- cmd/noo-nood: the daemon. The scheduler and the lanes of its consumer are in Schedule, the steps of a
-- tick in Persist, AutoClean and Storms, and the tick itself in Tick.
pub mod Persist
pub mod Storms
pub mod AutoClean
pub mod Schedule
pub mod Tick
mod Tests
