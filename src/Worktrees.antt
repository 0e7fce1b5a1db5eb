-- ===== src/Worktrees.antt =====
-- internal/worktrees: which git worktrees are finished, and what removes them.
pub mod Rows
pub mod Facts
pub mod Removal
mod Tests
