-- ===== src/Sandbox/Manager/Delete.antt =====
-- internal/sandbox/manager.go: `Delete` and `Merge`. `Merge` changes its own
-- copy of the record, which `store.Get` cloned, and puts that; the store holds the new record whether or
-- not the `Put` reaches the disk.
use muro.Base.{
  Bool, true, false, ◌&&◌, List, [], ◌∷◌, Option, none, some, Bytes, bytes_eq, in_set,
  if◌then◌else◌,
}
use muro.Config.{Mount}
use muro.State.Store.{Sandbox, SandboxState, WorktreeInfo, delete}
use muro.Sandbox.Manager.{
  Env, Manager, Action, ok, err, ◌>>=◌, ◌>>◌, pure, raise, asks, modify, note, attempt, raise_if,
  some_or, not_found, still_active, unmerged, unmerged_unknown, not_deleted, no_worktree,
  nothing_to_merge, merge_failed, merged_not_saved, merged_not_pruned, remove_log,
  remove_private_dirs, discard, prune, squash_merge,
}
use muro.Sandbox.Manager.Actions.{find_sandbox, is_active, save}

-- the worktree of `Merge`: the first one at the mount path
unfoldable pub worktree_at : Bytes → List WorktreeInfo → Option WorktreeInfo
worktree_at path [] = none
worktree_at path (wt ∷ wts) = if bytes_eq wt.mount_path path then some wt else worktree_at path wts

-- the worktrees without the one of `Merge`
unfoldable pub drop_worktree : Bytes → List WorktreeInfo → List WorktreeInfo
drop_worktree path [] = []
drop_worktree path (wt ∷ wts) =
    let rest = drop_worktree path wts in if bytes_eq wt.mount_path path then wts else wt ∷ rest

-- the mounts without those of the worktree
unfoldable pub drop_mounts : WorktreeInfo → List Mount → List Mount
drop_mounts wt [] = []
drop_mounts wt (m ∷ ms) =
    let rest = drop_mounts wt ms in
    if bytes_eq m.host wt.host && bytes_eq m.sandbox_path wt.mount_path then rest else m ∷ rest

-- the sandbox after the merge of a worktree
unfoldable pub merged : WorktreeInfo → Bytes → Sandbox → Sandbox
unfolding drop_worktree drop_mounts
merged wt path sb = record sb {
  worktrees = drop_worktree path sb.worktrees;
  mounts = drop_mounts wt sb.mounts;
  state = if is_active sb.state then SandboxState.reload_pending else sb.state;
}

-- the removal of the log
abbrev pub drop_log : Option Bytes → Bytes → Bytes → Manager → Manager
drop_log none namespace name m = m
drop_log (some dir) namespace name m = note (remove_log namespace name) m

module _ (env : Env) where
  -- the body of the loop of `Delete` for a worktree whose loss was not accepted
  unfoldable pub refuse_unmerged : WorktreeInfo → Action (Unit {0})
  refuse_unmerged wt = do
    answer ← asks λ m. env.has_unmerged m.trace wt
    has ← some_or answer unmerged_unknown
    raise_if has unmerged

  -- the loop of `Delete` over the worktrees whose loss was not accepted
  unfoldable pub check_merged : List Bytes → List WorktreeInfo → Action (Unit {0})
  unfolding refuse_unmerged
  check_merged accepted [] = pure tt
  check_merged accepted (wt ∷ wts) = do
    (if in_set wt.mount_path accepted then pure tt else refuse_unmerged wt)
    check_merged accepted wts

  -- the last loop of `Delete`
  unfoldable pub drop_worktrees : List Bytes → List WorktreeInfo → Manager → Manager
  drop_worktrees accepted [] m = m
  drop_worktrees accepted (wt ∷ wts) m =
      let e = if in_set wt.mount_path accepted then discard wt else prune wt in
      drop_worktrees accepted wts (note e m)

  -- store.Delete
  unfoldable pub drop_record : Bytes → Bytes → Action (Unit {0})
  drop_record namespace name m =
      let (saved, s) = delete (env.disk m.trace) namespace name m.store in
      ((if saved then ok tt else err not_deleted), record m { store = s })

  -- the log and the private directories of a deleted sandbox
  unfoldable pub drop_files : Bytes → Bytes → Sandbox → Manager → Manager
  drop_files namespace name sb m =
      let m' = drop_log env.daemon_state_dir namespace name m in
      if bytes_eq env.state_dir [] then m' else note (remove_private_dirs sb.id) m'

  -- `Delete`
  unfoldable pub delete_sandbox : Bytes → Bytes → List Bytes → Action (Unit {0})
  unfolding check_merged drop_record drop_files drop_worktrees
  delete_sandbox namespace name accepted = do
    found ← find_sandbox env namespace name
    sb ← some_or found not_found
    raise_if (is_active sb.state) still_active
    check_merged accepted sb.worktrees
    drop_record namespace name
    modify λ m. drop_worktrees accepted sb.worktrees (drop_files namespace name sb m)

  -- worktree.SquashMerge
  unfoldable pub squash : WorktreeInfo → Action (Option Bytes)
  squash wt m = (ok (env.merges m.trace wt), note (squash_merge wt) m)

  -- worktree.Prune
  unfoldable pub prune_worktree : WorktreeInfo → Action Bool
  prune_worktree wt m = (ok (env.prunes m.trace wt), note (prune wt) m)

  -- `Merge`; the message of the commit is no part of the model
  unfoldable pub merge : Bytes → Bytes → Bytes → Action Bytes
  unfolding worktree_at merged squash prune_worktree
  merge namespace name path = do
    found ← find_sandbox env namespace name
    sb ← some_or found not_found
    wt ← some_or (worktree_at path sb.worktrees) no_worktree
    answer ← asks λ m. env.has_unmerged m.trace wt
    has ← some_or answer unmerged_unknown
    raise_if (if has then false else true) nothing_to_merge
    done ← squash wt
    commit ← some_or done merge_failed
    pruned ← prune_worktree wt
    attempt (save env (merged wt path sb)) (λ e. raise (merged_not_saved commit))
        (if pruned then pure commit else raise (merged_not_pruned commit))
