-- ===== src/Config/Validate.antt =====
-- internal/config/validate.go: `ValidSandboxName` and `ValidateProfile`, and the profile of profile.go.
-- `home`, `config_dir` and `state_dir` are the results of os.UserHomeDir, ConfigDir and StateDir; `none` is
-- an error. A map is the list of its keys and values, the newest first.
pub mod Contained
pub mod Sound
use muro.Base.{
  ℕ, Bool, true, false, ◌&&◌, ◌||◌, not, List, [], ◌∷◌, ◌++◌, Option, none, some, Bytes, codes,
  bytes_eq, has_prefix, contains, contains_byte, in_set, if◌then◌else◌, Result, ok, err, ◌>>=◌,
  ◌>>◌, fail_if, each,
}
use muro.Config.{Mount, Tool, GitRepoPolicy, GitPolicy}
use muro.Config.Paths.{slash, expand_home, path_covers_or_equals}

-- `Profile` (profile.go)
pub record Profile : Type 0 where
  pub name : Bytes
  pub extends : Bytes
  pub agent : Bytes
  pub agent_args : List Bytes
  pub mounts : List Mount
  pub tools : List Tool
  pub allow_urls : List Bytes
  pub deny_urls : List Bytes
  pub env : List (Bytes × Bytes)
  pub restart_policy : Bytes
  pub git : GitPolicy
  pub audio : Bool
  pub private_dirs : List Bytes
  pub instructions : Bytes
  pub skills : List Bytes
  pub work_dir : Bytes
  pub quiet_mode : Bool

pub data Fault : Type 0 where
  empty_name : Fault
  separator : Fault
  dot_dot : Fault
  leading_dot : Fault
  bad_restart_policy : Fault
  relative_workdir : Fault
  tools_clash : Fault
  mount_on_tool : Fault
  dangerous_mount : Fault
  broad_mount : Fault
  scaffold_mount : Fault
  dir_twice : Fault
  dir_on_tool : Fault
  dir_on_mount : Fault
  no_mount_path : Fault
  worktree_branches : Fault
  worktree_on_tool : Fault
  worktree_on_mount : Fault
  worktree_on_dir : Fault
  stray_mount_path : Fault
  repo_not_mounted : Fault
  no_branches : Fault
  no_remotes : Fault
  worktree_twice : Fault

abbrev pub Check : Type 0
Check = Result Fault (Unit {0})

-- `ValidSandboxName`
unfoldable pub valid_sandbox_name : Bytes → Check
valid_sandbox_name s =
    fail_if (bytes_eq s []) empty_name
    >> fail_if (contains_byte s b'/' || contains_byte s 92) separator
    >> fail_if (contains s (codes "..")) dot_dot
    >> fail_if (has_prefix s (codes ".")) leading_dot

-- a directory that was found, as the roots below append it
abbrev pub found_dir : Option Bytes → List Bytes
found_dir none = []
found_dir (some d) = if bytes_eq d [] then [] else d ∷ []

-- `dangerousHostRoots`
abbrev pub dangerous_host_roots : Option Bytes → Option Bytes → List Bytes
dangerous_host_roots config_dir state_dir =
    (codes "/etc"
      ∷ codes "/usr"
      ∷ codes "/bin"
      ∷ codes "/lib"
      ∷ codes "/proc"
      ∷ codes "/sys"
      ∷ codes "/dev"
      ∷ [])
    ++ (found_dir config_dir ++ found_dir state_dir)

-- `dangerousHostRootsExactOnly`
abbrev pub dangerous_host_roots_exact_only : Option Bytes → List Bytes
dangerous_host_roots_exact_only home = slash ∷ found_dir home

-- `sandboxScaffoldPaths`
abbrev pub sandbox_scaffold_paths : List Bytes
sandbox_scaffold_paths = codes "/proc" ∷ codes "/dev" ∷ codes "/tmp" ∷ []

abbrev pub tool_root : Bytes
tool_root = codes "/usr/local/bin"

abbrev pub default_policy : Bytes → Bytes
default_policy p = if bytes_eq p [] then codes "never" else p

-- `validRestartPolicies`
unfoldable pub valid_policy : Bytes → Bool
valid_policy p =
    bytes_eq p (codes "never") || (bytes_eq p (codes "on-failure") || bytes_eq p (codes "always"))

abbrev pub tool_target : Tool → Bytes
tool_target t = tool_root ++ (slash ++ t.as_name)

-- a tool that has a path of its own
abbrev pub is_named : Tool → Bool
is_named t = not (bytes_eq t.as_name [] || bytes_eq t.as_name (codes "*"))

-- the loop that fills `toolTargets`
unfoldable pub tool_targets : List Bytes → List Tool → Result Fault (List Bytes)
tool_targets targets [] = ok targets
tool_targets targets (t ∷ ts) = elim (is_named t) [
  | false ↦ tool_targets targets ts
  | true ↦ elim (in_set (tool_target t) targets) [
    | true ↦ err tools_clash
    | false ↦ tool_targets (tool_target t ∷ targets) ts
  ]
]

-- a mount's sandbox path is `path`
unfoldable pub mounted_at : Bytes → List Mount → Bool
mounted_at path [] = false
mounted_at path (m ∷ ms) = bytes_eq m.sandbox_path path || mounted_at path ms

module _ (home config_dir state_dir : Option Bytes) where
  -- the checks of a mount with mode "rw"
  unfoldable pub check_writable : Mount → Check
  check_writable m =
      let host_abs = expand_home home m.host in
      each
        (λ d.
          fail_if (path_covers_or_equals host_abs d || path_covers_or_equals d host_abs)
            dangerous_mount)
        (dangerous_host_roots config_dir state_dir)
      >> each (λ d. fail_if (path_covers_or_equals host_abs d) broad_mount)
          (dangerous_host_roots_exact_only home)

  -- the body of the loop over the mounts
  unfoldable pub check_mount : List Bytes → Mount → Check
  unfolding check_writable
  check_mount targets m =
      fail_if (in_set m.sandbox_path targets) mount_on_tool
      >> (if bytes_eq m.mode (codes "rw") then check_writable m else ok tt)
      >> each (λ d. fail_if (path_covers_or_equals m.sandbox_path d) scaffold_mount)
          sandbox_scaffold_paths

  -- the loop over the private directories
  unfoldable pub check_dirs :
      List Bytes → List Mount → List Bytes → List Bytes → Result Fault (List Bytes)
  check_dirs targets mounts seen [] = ok seen
  check_dirs targets mounts seen (d ∷ ds) =
      fail_if (in_set d seen) dir_twice
      >> fail_if (in_set d targets) dir_on_tool
      >> fail_if (mounted_at d mounts) dir_on_mount
      >> check_dirs targets mounts (d ∷ seen) ds

  unfoldable pub is_covered : List Mount → Bytes → Bool
  is_covered [] host_abs = false
  is_covered (m ∷ ms) host_abs =
      path_covers_or_equals (expand_home home m.host) host_abs || is_covered ms host_abs

  abbrev pub is_nil : List Bytes → Bool
  is_nil [] = true
  is_nil (x ∷ xs) = false

  -- the body of the loop over the git policy's repositories
  unfoldable pub check_repo : List Bytes → List Mount → List Bytes → GitRepoPolicy → Check
  unfolding is_covered
  check_repo targets mounts dirs repo =
      if repo.worktree
      then fail_if (bytes_eq repo.mount_path []) no_mount_path
        >> fail_if (not (is_nil repo.allowed_branches)) worktree_branches
        >> fail_if (in_set repo.mount_path targets) worktree_on_tool
        >> fail_if (mounted_at repo.mount_path mounts) worktree_on_mount
        >> fail_if (in_set repo.mount_path dirs) worktree_on_dir
      else fail_if (not (bytes_eq repo.mount_path [])) stray_mount_path
        >> fail_if (not (is_covered mounts (expand_home home repo.host))) repo_not_mounted
        >> fail_if (is_nil repo.allowed_branches) no_branches
        >> fail_if (is_nil repo.allowed_remotes) no_remotes

  -- the last loop: two worktrees at one path
  unfoldable pub check_worktrees : List Bytes → List GitRepoPolicy → Check
  check_worktrees seen [] = ok tt
  check_worktrees seen (repo ∷ repos) = elim repo.worktree [
    | false ↦ check_worktrees seen repos
    | true ↦
        fail_if (in_set repo.mount_path seen) worktree_twice
        >> check_worktrees (repo.mount_path ∷ seen) repos
  ]

  -- `ValidateProfile`
  unfoldable pub validate_profile : Profile → Check
  validate_profile p = do
    fail_if (bytes_eq p.name []) empty_name
    fail_if (not (valid_policy (default_policy p.restart_policy))) bad_restart_policy
    fail_if (not (bytes_eq p.work_dir []) && not (has_prefix p.work_dir slash)) relative_workdir
    targets ← tool_targets [] p.tools
    each (check_mount targets) p.mounts
    dirs ← check_dirs targets p.mounts [] p.private_dirs
    each (check_repo targets p.mounts dirs) p.git.repos
    check_worktrees [] p.git.repos
