-- ===== src/Worktree/Operations.antt =====
-- internal/worktree/worktree.go: its functions.
use muro.Base.{
  ◌++◌, Bool, true, false, not, ◌==◌, ◌||◌, [], ◌∷◌, Option, none, some, Bytes, codes, bytes_eq,
  if◌then◌else◌,
}
use muro.GitProxy.Exec.{trim_space}
use muro.Worktree.Git.{
  ran, wrote, removed, Trace, Output, Host, Fault, launch_failed, detached_head, no_base_branch,
  not_recorded, bad_count, wrong_branch, uncommitted, no_message, conflict, conflict_left,
  commit_failed, commit_left, ok, err, Action, pure, raise, ◌>>=◌, ◌>>◌, raise_if,
  base_branch_sidecar_path, head_args, status_args, reset_args, merge_args, commit_args, tip_args,
  add_args, count_args, remove_args, delete_args, run_git, must,
}

module _ (host : Host) where
  -- `currentBranch`
  unfoldable pub current_branch : Bytes → Action Bytes
  unfolding must
  current_branch repo_host = do
    stdout ← must host repo_host head_args
    let branch = trim_space stdout
    raise_if (bytes_eq branch [] || bytes_eq branch (codes "HEAD")) detached_head
    pure branch

  -- `isClean`
  unfoldable pub is_clean : Bytes → Action Bool
  unfolding must
  is_clean repo_host = do
    stdout ← must host repo_host status_args
    pure (bytes_eq (trim_space stdout) [])

  -- `resetHard`: whether it succeeded
  unfoldable pub reset_hard : Bytes → Trace → Bool × Trace
  reset_hard repo_host t =
      let done : Bool = elim (host.git t repo_host reset_args) [
        | none ↦ false
        | some out ↦ out.exit_code == 0
      ] in
      (done, ran repo_host reset_args ∷ t)

  -- the end of a failed attempt
  unfoldable pub roll_back : Bytes → Fault → Fault → Action Bytes
  unfolding reset_hard
  roll_back repo_host rolled left t =
      let (done, t') = reset_hard repo_host t in ((if done then err rolled else err left), t')

  -- a run of `SquashMerge` that is rolled back if git exits with another code than 0
  unfoldable pub attempted : Bytes → Fault → Fault → Option Output → Action Bytes → Action Bytes
  unfolding roll_back
  attempted repo_host rolled left none k = raise launch_failed
  attempted repo_host rolled left (some out) k =
      if out.exit_code == 0 then k else roll_back repo_host rolled left

  -- `SquashMerge`
  unfoldable pub squash_merge : Bytes → Bytes → Bytes → Bytes → Action Bytes
  unfolding current_branch is_clean attempted
  squash_merge repo_host branch base_branch message = do
    cur ← current_branch repo_host
    raise_if (not (bytes_eq cur base_branch)) wrong_branch
    clean ← is_clean repo_host
    raise_if (not clean) uncommitted
    raise_if (bytes_eq message []) no_message
    merge ← run_git host repo_host (merge_args branch)
    attempted repo_host conflict conflict_left merge do
      commit ← run_git host repo_host (commit_args message)
      attempted repo_host commit_failed commit_left commit
          do stdout ← must host repo_host tip_args; pure (trim_space stdout)

  -- `Create` where there is no worktree yet
  unfoldable pub create_new : Bytes → Bytes → Bytes → Action Bytes
  unfolding current_branch must
  create_new repo_host worktree_host branch = do
    base ← current_branch repo_host
    must host repo_host (add_args worktree_host branch base)
    λ t. (
      (if host.writes t (base_branch_sidecar_path worktree_host)
          then ok base
          else err not_recorded),
      wrote (base_branch_sidecar_path worktree_host) base ∷ t,
    )

  -- what `Create` makes of the file beside a worktree
  unfoldable pub recorded : Option Bytes → Action Bytes
  recorded none = raise no_base_branch
  recorded (some text) = pure (trim_space text)

  -- `Create`
  unfoldable pub create : Bytes → Bytes → Bytes → Action Bytes
  unfolding create_new recorded
  create repo_host worktree_host branch t =
      if host.exists t worktree_host
      then recorded (host.read_file t (base_branch_sidecar_path worktree_host)) t
      else create_new repo_host worktree_host branch t

  -- `HasUnmergedCommits`
  unfoldable pub has_unmerged_commits : Bytes → Bytes → Action Bool
  unfolding must
  has_unmerged_commits worktree_host base_branch t =
      if not (host.exists t worktree_host)
      then (ok false, t)
      else (do
        stdout ← must host worktree_host (count_args base_branch)
        elim (host.is_positive (trim_space stdout)) [
          | none ↦ raise bad_count
          | some more ↦ pure more
        ])
          t

  -- `remove`
  unfoldable pub remove : Bytes → Bytes → Bytes → Bool → Action (Unit {0})
  unfolding must
  remove repo_host worktree_host branch force = do
    must host repo_host (remove_args force worktree_host)
    must host repo_host (delete_args branch)
    λ t. (ok tt, removed (base_branch_sidecar_path worktree_host) ∷ t)

  -- `Prune`
  unfoldable pub prune : Bytes → Bytes → Bytes → Action (Unit {0})
  unfolding remove
  prune repo_host worktree_host branch = remove repo_host worktree_host branch false

  -- `Discard`
  unfoldable pub discard : Bytes → Bytes → Bytes → Action (Unit {0})
  unfolding remove
  discard repo_host worktree_host branch = remove repo_host worktree_host branch true

  -- `LastCommitMessage`
  pub last_commit_message : Bytes → Action Bytes
  last_commit_message worktree_host =
      must host worktree_host (codes "log" ∷ codes "-1" ∷ codes "--format=%B" ∷ [])

  -- `Diff`
  pub diff : Bytes → Bytes → Action Bytes
  diff worktree_host base_branch =
      must host worktree_host (codes "diff" ∷ (base_branch ++ codes "...HEAD") ∷ [])
