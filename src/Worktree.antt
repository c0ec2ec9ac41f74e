-- ===== src/Worktree.antt =====
-- internal/worktree: the git worktrees of sandboxes.
pub mod Git
pub mod Operations
pub mod Runs
pub mod Create
pub mod Merge
pub mod Remove
mod Tests
