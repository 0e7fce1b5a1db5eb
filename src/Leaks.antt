-- ===== src/Leaks.antt =====
-- internal/leaks: the leak signatures, what makes a hit stale, and what is deleted.
pub mod Text
pub mod Causality
pub mod Signature
pub mod Classify
pub mod Family
pub mod Listing
pub mod Apply
mod Tests
