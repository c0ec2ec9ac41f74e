-- ===== src/Sandbox/Manager/Orderly/Changes.antt =====
-- internal/sandbox/manager.go: `Update`, `Reload`, `Delete`, `Merge` and `Attach` as evolutions of the
-- manager.
use muro.Base.{◌&&◌, not, false, List, [], ◌∷◌, Option, none, some, Bytes, in_set, bytes_eq, refl}
use muro.Config.{Mount}
use muro.State.Store.{Sandbox, SandboxState, WorktreeInfo, key}
use muro.State.Store.Laws.{put-delete-IsKeyed}
use muro.Sandbox.Manager.{
  Env, Handle, pure, raise, note, mounts_failed, unmerged_unknown, no_worktree, merge_failed,
  merged_not_pruned, no_process, not_found,
}
use muro.Sandbox.Manager.Books.{stay}
use muro.Sandbox.Manager.Frame.{
  Stillness, still, Still-trans, stays, quietly, Orderly, bind-Orderly, if-Still, then-Orderly,
  some_or-Orderly, save-Orderly, allow-Still, note-Still,
}
use muro.Sandbox.Manager.Orderly.{option-Orderly, if-Orderly, or_raise-Orderly, attempt-Orderly}
use muro.Sandbox.Manager.Orderly.Lifecycle.{detach_client-Still}
use muro.Sandbox.Manager.Update.{
  Selector, ConfigDelta, is_nil, named, match_selector, remount, apply_mounts, apply_candidate,
  apply_all, update, reload_in, reload,
}
use muro.Sandbox.Manager.Delete.{
  worktree_at, refuse_unmerged, check_merged, drop_worktrees, drop_record, drop_log, drop_files,
  delete_sandbox, squash, prune_worktree, merge,
}
use muro.Sandbox.Manager.Attach.{take_slot, stdio_of, attach}

-- some sandbox; the lemma on the store asks for one
abbrev nothing : Sandbox
nothing = record {
  id = [];
  name = [];
  namespace = [];
  profile = [];
  agent = [];
  agent_args = [];
  work_dir = [];
  quiet_mode = false;
  env = [];
  pid = 0;
  state = SandboxState.stopped;
  started_at = 0;
  mounts = [];
  tools = [];
  allow_urls = [];
  restart_policy = [];
  restart_count = 0;
  git_policy = record { repos = [] };
  audio = false;
  shim_socket = [];
  net_addr = [];
  slirp_pid = 0;
  inject_socket = [];
  session_id = [];
  private_dirs = [];
  worktrees = [];
}

module _ (env : Env) where
  remount-Orderly : (h : Handle) (mounts : List Mount) → Orderly (remount env h mounts)
  unfolding remount
  remount-Orderly h mounts = bind-Orderly _ _ stays λ answer.
      then-Orderly _ _ (λ m. quietly (note-Still _ m)) (some_or-Orderly answer mounts_failed)

  apply_mounts-Orderly : (delta : ConfigDelta) (c : Sandbox) → Orderly (apply_mounts env delta c)
  unfolding apply_mounts
  apply_mounts-Orderly delta c =
      if-Orderly (is_nil delta.add_mounts) _ _ stays
        (bind-Orderly _ _ stays λ o. option-Orderly o _ _ stays λ h. remount-Orderly h c.mounts)

  apply_candidate-Orderly :
      (delta : ConfigDelta) (c : Sandbox) → Orderly (apply_candidate env delta c)
  unfolding apply_candidate
  apply_candidate-Orderly delta c = bind-Orderly _ _ (apply_mounts-Orderly delta c) λ applied.
      then-Orderly _ _ (save-Orderly env _) (
        then-Orderly _ _
          (λ m. quietly (
            if-Still (is_nil delta.allow_urls && is_nil delta.deny_urls) (still _ _ refl refl)
              (allow-Still env c.id c.allow_urls m)))
          stays)

  apply_all-Orderly : (delta : ConfigDelta) (cs : List Sandbox) → Orderly (apply_all env delta cs)
  unfolding apply_all
  apply_all-Orderly delta [] = stays
  apply_all-Orderly delta (c ∷ cs) =
      bind-Orderly _ _ (apply_candidate-Orderly delta c)
        λ r. bind-Orderly _ _ (apply_all-Orderly delta cs) λ rs. stays

  match_selector-Orderly : (sel : Selector) → Orderly (match_selector env sel)
  unfolding match_selector named
  match_selector-Orderly sel =
      if-Orderly (not (bytes_eq sel.name [])) _ _
        (bind-Orderly _ _ stays λ found. or_raise-Orderly found not_found _ λ sb. stays)
        (if-Orderly sel.all _ _ stays (if-Orderly (not (bytes_eq sel.profile [])) _ _ stays stays))

  pub update-Orderly : (sel : Selector) (delta : ConfigDelta) → Orderly (update env sel delta)
  unfolding update
  update-Orderly sel delta =
      bind-Orderly _ _ (match_selector-Orderly sel)
        λ targets. then-Orderly _ _ stays (bind-Orderly _ _ stays (apply_all-Orderly delta))

  reload_pending-Orderly :
      (namespace name : Bytes) (sb : Sandbox) (s : SandboxState)
      → Orderly (reload_in env s namespace name sb)
  unfolding reload_in
  reload_pending-Orderly namespace name sb SandboxState.reload_pending =
      bind-Orderly _ _ stays λ handle.
        or_raise-Orderly handle no_process _
          λ h. bind-Orderly _ _ (remount-Orderly h sb.mounts) λ applied. save-Orderly env _
  reload_pending-Orderly namespace name sb SandboxState.running = stays
  reload_pending-Orderly namespace name sb SandboxState.stopped = stays
  reload_pending-Orderly namespace name sb SandboxState.crashed = stays
  reload_pending-Orderly namespace name sb SandboxState.restarting = stays
  reload_pending-Orderly namespace name sb SandboxState.restart_exhausted = stays

  pub reload-Orderly : (namespace name : Bytes) → Orderly (reload env namespace name)
  unfolding reload
  reload-Orderly namespace name = bind-Orderly _ _ stays λ found.
      or_raise-Orderly found not_found _ λ sb. reload_pending-Orderly namespace name sb sb.state

  refuse_unmerged-Orderly : (wt : WorktreeInfo) → Orderly (refuse_unmerged env wt)
  unfolding refuse_unmerged
  refuse_unmerged-Orderly wt =
      bind-Orderly _ _ stays λ answer. or_raise-Orderly answer unmerged_unknown _ λ has. stays

  check_merged-Orderly :
      (accepted : List Bytes) (wts : List WorktreeInfo) → Orderly (check_merged env accepted wts)
  unfolding check_merged
  check_merged-Orderly accepted [] = stays
  check_merged-Orderly accepted (wt ∷ wts) =
      then-Orderly _ _
        (if-Orderly (in_set wt.mount_path accepted) _ _ stays (refuse_unmerged-Orderly wt))
        (check_merged-Orderly accepted wts)

  pub drop_worktrees-Still :
      (accepted : List Bytes) (wts : List WorktreeInfo)
      → Stillness (drop_worktrees env accepted wts)
  unfolding drop_worktrees
  drop_worktrees-Still accepted [] m = still _ _ refl refl
  drop_worktrees-Still accepted (wt ∷ wts) m =
      Still-trans (note-Still _ m) (drop_worktrees-Still accepted wts (note _ m))

  drop_log-Still :
      (dir : Option Bytes) (namespace name : Bytes) → Stillness (drop_log dir namespace name)
  drop_log-Still none namespace name m = still _ _ refl refl
  drop_log-Still (some dir) namespace name m = still _ _ refl refl

  pub drop_files-Still :
      (namespace name : Bytes) (sb : Sandbox) → Stillness (drop_files env namespace name sb)
  unfolding drop_files
  drop_files-Still namespace name sb m =
      Still-trans (drop_log-Still env.daemon_state_dir namespace name m)
        (if-Still (bytes_eq env.state_dir []) (still _ _ refl refl) (still _ _ refl refl))

  drop_record-Orderly : (namespace name : Bytes) → Orderly (drop_record env namespace name)
  unfolding drop_record
  drop_record-Orderly namespace name m = record {
    moves = stay;
    keyed = λ h. (put-delete-IsKeyed (env.disk m.trace) nothing namespace name m.store h).1;
  }

  pub delete_sandbox-Orderly :
      (namespace name : Bytes) (accepted : List Bytes)
      → Orderly (delete_sandbox env namespace name accepted)
  unfolding delete_sandbox
  delete_sandbox-Orderly namespace name accepted = bind-Orderly _ _ stays λ found.
      or_raise-Orderly found not_found _ λ sb. then-Orderly _ _ stays (
        then-Orderly _ _ (check_merged-Orderly accepted sb.worktrees) (
          then-Orderly _ _ (drop_record-Orderly namespace name) λ m. quietly (
            Still-trans (drop_files-Still namespace name sb m)
              (drop_worktrees-Still accepted sb.worktrees _))))

  pub merge-Orderly : (namespace name path : Bytes) → Orderly (merge env namespace name path)
  unfolding merge squash prune_worktree
  merge-Orderly namespace name path = bind-Orderly _ _ stays λ found.
      or_raise-Orderly found not_found _ λ sb.
        or_raise-Orderly (worktree_at path sb.worktrees) no_worktree _ λ wt.
          bind-Orderly _ _ stays λ answer. or_raise-Orderly answer unmerged_unknown _ λ has.
            then-Orderly _ _ stays (
              bind-Orderly _ _ (λ m. quietly (still _ _ refl refl))
                λ done. or_raise-Orderly done merge_failed _ λ commit.
                  bind-Orderly _ _ (λ m. quietly (still _ _ refl refl))
                    λ pruned.
                      attempt-Orderly _ _ _ (save-Orderly env _) (λ e. stays)
                        (if-Orderly pruned (pure commit) (raise (merged_not_pruned commit)) stays
                          stays))

  stdio_of-Orderly : (k : Bytes) → Orderly (stdio_of env k)
  unfolding stdio_of
  stdio_of-Orderly k = bind-Orderly _ _ stays λ o.
      option-Orderly o _ _ (then-Orderly _ _ (λ m. quietly (detach_client-Still env k m)) stays)
        λ h.
          if-Orderly h.stdio _ _ stays
            (then-Orderly _ _ (λ m. quietly (detach_client-Still env k m)) stays)

  pub attach-Orderly : (namespace name : Bytes) → Orderly (attach env namespace name)
  unfolding attach take_slot
  attach-Orderly namespace name = bind-Orderly _ _ stays λ found.
      or_raise-Orderly found not_found _ λ sb. then-Orderly _ _ stays (
        then-Orderly _ _ (λ m. quietly (still _ _ refl refl))
          (stdio_of-Orderly (key namespace name)))
