-- ===== src/Config.antt =====
-- internal/config: profiles and their validation. The data types stand here.
mod Tests
pub mod Paths
pub mod Validate
pub mod Extend
use muro.Base.{List, Bool, Bytes}

-- `Mount` (profile.go)
pub record Mount : Type 0 where
  pub host : Bytes
  pub sandbox_path : Bytes
  pub mode : Bytes

-- `Tool`; the source's field `As` is `as_name` here, since `as` is a keyword.
pub record Tool : Type 0 where
  pub host : Bytes
  pub as_name : Bytes

-- `GitRepoPolicy` (gitpolicy.go)
pub record GitRepoPolicy : Type 0 where
  pub host : Bytes
  pub allowed_branches : List Bytes
  pub allowed_remotes : List Bytes
  pub worktree : Bool
  pub mount_path : Bytes

-- `GitPolicy`
pub record GitPolicy : Type 0 where
  pub repos : List GitRepoPolicy
