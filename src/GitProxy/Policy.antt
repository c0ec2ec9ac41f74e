-- ===== src/GitProxy/Policy.antt =====
-- internal/gitproxy/policy.go. `glob` is path.Match of the standard library: `none` is its
-- ErrBadPattern. A rejection is the constructor of its message.
pub mod Cwd
pub mod Repo
pub mod Grammar
use muro.Base.{
  Result, ok, err, ◌>>=◌, ◌>>◌, fail_if, or_fail, objection, ℕ, zero, suc, Bool, true, false, ◌&&◌,
  ◌||◌, not, List, [], ◌∷◌, ◌++◌, Option, none, some, Bytes, codes, bytes_eq, has_prefix,
  trim_prefix, cut, length, ltb, ◌==◌, if◌then◌else◌,
}
use muro.Config.{Mount, GitRepoPolicy, GitPolicy}
use muro.Config.Paths.{clean, slash}

-- `Request`
pub record Request : Type 0 where
  pub argv : List Bytes
  pub cwd : Bytes

-- The test of `TranslateCwd` and of `ResolveRepo`, on cleaned paths.
unfoldable pub lies_in : Bytes → Bytes → Bool
lies_in root p = bytes_eq p root || has_prefix p (root ++ slash)

-- `bestLen` and `best` of `TranslateCwd`; `none` is `bestLen == -1`.
abbrev pub Best : Type 0
Best = Option (ℕ × Mount)

unfoldable pub is_longer : ℕ → Best → Bool
is_longer n none = true
is_longer n (some (best_len, _)) = ltb best_len n

-- one round of the loop of `TranslateCwd`
unfoldable pub better : Bytes → Best → Mount → Best
unfolding lies_in is_longer
better cwd best m =
    let sp = clean m.sandbox_path in
    if not (lies_in sp cwd)
    then best
    else if is_longer (length sp) best
    then some (length sp, m)
    else best

-- the loop of `TranslateCwd`
unfoldable pub best_mount : Bytes → Best → List Mount → Best
unfolding better
best_mount cwd best [] = best
best_mount cwd best (m ∷ ms) = best_mount cwd (better cwd best m) ms

-- the host path for `cwd` under the chosen mount
unfoldable pub host_path : Bytes → Mount → Bytes
host_path cwd m = clean (m.host ++ trim_prefix cwd (clean m.sandbox_path))

-- `TranslateCwd`
unfoldable pub translate_cwd : List Mount → Bytes → Option Bytes
translate_cwd mounts cwd = elim (best_mount (clean cwd) none mounts) [
  | none ↦ none
  | some (_, best) ↦ some (host_path (clean cwd) best)
]

unfoldable pub first_repo : Bytes → List GitRepoPolicy → Option GitRepoPolicy
first_repo p [] = none
first_repo p (r ∷ rs) = if lies_in (clean r.host) p then some r else first_repo p rs

-- `ResolveRepo`
unfoldable pub resolve_repo : Bytes → List GitRepoPolicy → Option GitRepoPolicy
unfolding first_repo lies_in
resolve_repo host_cwd repos = first_repo (clean host_cwd) repos

-- `containsString`
unfoldable pub contains_string : List Bytes → Bytes → Bool
contains_string [] s = false
contains_string (v ∷ vs) s = bytes_eq v s || contains_string vs s

-- `pushDestBranch`
unfoldable pub push_dest_branch : Bytes → Bytes
push_dest_branch branchspec =
    trim_prefix (elim (cut b':' branchspec) [ none ↦ branchspec | some (_, dest) ↦ dest ])
      (codes "refs/heads/")

pub data Rejection : Type 0 where
  empty_invocation not_permitted_by_daemon cwd_not_mounted no_repo_policy : Rejection
  takes_no_arguments diff_arguments : Rejection
  add_without_path add_flag add_absolute_path : Rejection
  commit_arguments : Rejection
  push_arguments push_flag remote_not_permitted branch_not_permitted : Rejection
  fetch_arguments fetch_flag : Rejection
  pull_arguments pull_flag : Rejection
  no_grammar : Rejection

abbrev pub is_flag : Bytes → Bool
is_flag a = has_prefix a (codes "-")

-- The checks of the `switch` of `Validate`, one to a case: `none` is no objection.
unfoldable pub check_none : List Bytes → Option Rejection
check_none args = if length args == 0 then none else some takes_no_arguments

unfoldable pub check_diff : List Bytes → Option Rejection
check_diff [] = none
check_diff (a ∷ []) = if bytes_eq a (codes "--staged") then none else some diff_arguments
check_diff (a ∷ b ∷ rest) = some diff_arguments

unfoldable pub check_paths : List Bytes → Option Rejection
check_paths [] = none
check_paths (a ∷ rest) =
    if bytes_eq a [] || is_flag a
    then some add_flag
    else if has_prefix a slash
    then some add_absolute_path
    else check_paths rest

unfoldable pub check_add : List Bytes → Option Rejection
unfolding check_paths
check_add args = if length args == 0 then some add_without_path else check_paths args

unfoldable pub check_commit : List Bytes → Option Rejection
check_commit (a ∷ message ∷ []) = if bytes_eq a (codes "-m") then none else some commit_arguments
check_commit args = some commit_arguments

unfoldable pub check_fetch : GitRepoPolicy → List Bytes → Option Rejection
unfolding contains_string
check_fetch repo [] = none
check_fetch repo (a ∷ []) =
    if is_flag a
    then some fetch_flag
    else if contains_string repo.allowed_remotes a
    then none
    else some remote_not_permitted
check_fetch repo (a ∷ b ∷ rest) = some fetch_arguments

unfoldable pub any_flag : List Bytes → Bool
any_flag [] = false
any_flag (a ∷ rest) = is_flag a || any_flag rest

-- len(args) >= 1 && !containsString(repo.AllowedRemotes, args[0])
unfoldable pub bad_first : GitRepoPolicy → List Bytes → Bool
unfolding contains_string
bad_first repo [] = false
bad_first repo (a ∷ rest) = not (contains_string repo.allowed_remotes a)

unfoldable pub check_pull : GitRepoPolicy → List Bytes → Option Rejection
unfolding any_flag bad_first
check_pull repo args =
    if ltb 2 (length args)
    then some pull_arguments
    else if any_flag args
    then some pull_flag
    else if bad_first repo args
    then some remote_not_permitted
    else none

-- err == nil && ok
abbrev pub is_match : Option Bool → Bool
is_match none = false
is_match (some b) = b

module _ (glob : Bytes → Bytes → Option Bool) where
  -- `matchesAny`
  unfoldable pub matches_any : List Bytes → Bytes → Bool
  matches_any [] s = false
  matches_any (p ∷ ps) s = is_match (glob p s) || matches_any ps s

  unfoldable pub check_push : GitRepoPolicy → List Bytes → Option Rejection
  unfolding matches_any contains_string push_dest_branch
  check_push repo (remote ∷ branchspec ∷ []) =
      if is_flag remote || is_flag branchspec
      then some push_flag
      else if not (contains_string repo.allowed_remotes remote)
      then some remote_not_permitted
      else if not (matches_any repo.allowed_branches (push_dest_branch branchspec))
      then some branch_not_permitted
      else none
  check_push repo args = some push_arguments

  -- the `switch` of `Validate`
  unfoldable pub check_args : GitRepoPolicy → Bytes → List Bytes → Option Rejection
  check_args repo subcommand args =
      if bytes_eq subcommand (codes "status") || bytes_eq subcommand (codes "show")
      then check_none args
      else if bytes_eq subcommand (codes "diff")
      then check_diff args
      else if bytes_eq subcommand (codes "log")
      then check_none args
      else if bytes_eq subcommand (codes "add")
      then check_add args
      else if bytes_eq subcommand (codes "commit")
      then check_commit args
      else if bytes_eq subcommand (codes "push")
      then check_push repo args
      else if bytes_eq subcommand (codes "fetch")
      then check_fetch repo args
      else if bytes_eq subcommand (codes "pull")
      then check_pull repo args
      else some no_grammar

  -- `Validate` on a split argv: the policy's repository and the subcommand.
  unfoldable pub validate_command :
      List Mount
      → GitPolicy
      → List Bytes
      → Bytes
      → Bytes
      → List Bytes
      → Result Rejection (GitRepoPolicy × Bytes)
  validate_command mounts policy daemon cwd subcommand args = do
    fail_if (not (contains_string daemon subcommand)) not_permitted_by_daemon
    host_cwd ← or_fail cwd_not_mounted (translate_cwd mounts cwd)
    repo ← or_fail no_repo_policy (resolve_repo host_cwd policy.repos)
    objection (check_args repo subcommand args)
    ok (repo, subcommand)

  -- `Validate`; it returns `repo.Host` of the repository.
  unfoldable pub validate :
      Request → List Mount → GitPolicy → List Bytes → Result Rejection (Bytes × Bytes)
  unfolding validate_command
  validate req mounts policy daemon = elim req.argv [
    | [] ↦ err empty_invocation
    | subcommand ∷ args ↦ do
      (repo, sub) ← validate_command mounts policy daemon req.cwd subcommand args
      ok (repo.host, sub)
  ]
