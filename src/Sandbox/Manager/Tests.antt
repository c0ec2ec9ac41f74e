-- ===== src/Sandbox/Manager/Tests.antt =====
-- A manager with one sandbox, on a host that grants everything, and one that was stopped.
use muro.Base.{
  true, false, List, [], ◌∷◌, ◌++◌, none, some, Bytes, codes, bytes_eq, in_set, if◌then◌else◌,
  has_prefix, trim_prefix, split, each, refl, ◌≡◌, ◌⊎◌, inl, All, map,
}
use muro.Config.Paths.{
  clean, parts, is_abs, path_covers_or_equals, expand_home, resolve, clean_step, join, pop,
}
use muro.Config.Validate.{
  validate_profile, tool_targets, check_writable, check_mount, mounted_at, check_dirs, check_repo,
  check_worktrees, valid_policy, valid_sandbox_name,
}
use muro.Sandbox.Urls.{merge_mounts, apply_url_delta, visit_all, visit}
use muro.State.Store.{
  list, select, Sandbox, SandboxState, Store, new_store, key, find, get, put, persist, assign,
  erase,
}
use muro.State.Store.Laws.{IsKeyed}
use muro.Sandbox.Attach.{lookup, remove, detach}
use muro.Sandbox.Manager.{
  Manager, Watcher, Sleeper, Handle, Fault, ok, err, no_match, update_rejected, already_active,
  no_process, ◌>>=◌, ◌>>◌,
}
use muro.Sandbox.Manager.Actions.{
  at, without, is_active, epoch_of, get_handle, clear_handle, stop_handle, save, set_handle,
  publish_status, register, allow,
}
use muro.Sandbox.Manager.Bridges.{
  start_agent_bridge, start_tool_bridge, stop_agent_bridge, stop_tool_bridge, drop_key,
}
use muro.Sandbox.Manager.Launch.{passes, validate_sandbox_config}
use muro.Sandbox.Manager.Run.{run}
use muro.Sandbox.Manager.Update.{
  Selector, ConfigDelta, match_selector, named, update, is_nil, candidate_of, apply_all, reload,
}
use muro.Sandbox.Manager.Reattach.{reattach_all, reattach_each, reattach_sandbox, resume}
use muro.Sandbox.Manager.Restart.{stop_sandbox, release, detach_client, kill}
use muro.Sandbox.Manager.Delete.{delete_sandbox}
use muro.Sandbox.Manager.Attach.{attach}
use muro.Sandbox.Manager.Watch.{watch_exited, watch_wake}
use muro.Sandbox.Manager.Frame.{after}
use muro.Sandbox.Manager.Runs.{Ran}
use muro.Sandbox.Manager.Reach.{
  Reachable, at_once, followed, reattaches_all, new_manager, Good, Reachable-Good,
}
use muro.Sandbox.Manager.Silence.{superseded}
use muro.Sandbox.Manager.Stopped.{Closed, stop_sandbox-Closed}
use muro.Sandbox.Manager.Killed.{Killed}
use muro.Sandbox.Manager.Errors.{Spendable, Deleted, all_valid, update_lem, delete_sandbox_lem}
use muro.Sandbox.Manager.Outcomes.{attach_lem}
use muro.Sandbox.Manager.Exits.{Ends, Restarts}
use muro.Sandbox.Manager.Watched.{Alive, waiting, resumed, watch_wake-Alive, watch_exited_lem}
use muro.Sandbox.Manager.Started.{Started, run-Started}
use muro.Sandbox.Manager.Host.{process, host, profile, no_json}
use muro.Sandbox.Manager.Pending.{update-stuck}

abbrev empty : Store
empty = new_store no_json none

run-Started_example :
    Started host
      (codes "n")
      (codes "a")
      (new_manager empty)
      (run host profile (codes "a") (codes "n") (new_manager empty))
unfolding bytes_eq
run-Started_example = run-Started host profile (codes "a") (codes "n") (new_manager empty)

-- a sandbox as it is stored
abbrev sandbox : Sandbox
sandbox = record {
  id = codes "id";
  name = codes "a";
  namespace = codes "n";
  profile = codes "p";
  agent = [];
  agent_args = [];
  work_dir = [];
  quiet_mode = false;
  env = [];
  pid = 7;
  state = SandboxState.running;
  started_at = 3;
  mounts = [];
  tools = [];
  allow_urls = [];
  restart_policy = codes "always";
  restart_count = 0;
  git_policy = record { repos = [] };
  audio = false;
  shim_socket = [];
  net_addr = [];
  slirp_pid = 0;
  inject_socket = [];
  session_id = codes "s";
  private_dirs = [];
  worktrees = [];
}

abbrev watcher : Watcher
watcher = record { namespace = codes "n"; name = codes "a"; handle = process; epoch = 1 }

-- a manager that holds a sandbox, in a state, with its process if there is one
abbrev holding : SandboxState → List (Bytes × Handle) → Manager
holding s handles = record {
  store = record empty { sandboxes = (codes "n/a", record sandbox { state = s }) ∷ [] };
  handles = handles;
  epoch = (codes "n/a", 1) ∷ [];
  attach_reg = record { attached = [] };
  agent_sockets = [];
  tool_sockets = [];
  inbox_subscribed = [];
  watchers = watcher ∷ [];
  sleepers = [];
  trace = [];
}

abbrev alive : Manager
alive = holding SandboxState.running ((codes "n/a", process) ∷ [])

abbrev dead : Manager
dead = holding SandboxState.stopped []

attach_lem_example :
    ((e : Fault) × (attach host (codes "n") (codes "a") alive ≡ (err e, alive)))
    ⊎ ((h : Handle) × (at (key (codes "n") (codes "a")) alive.handles ≡ some h)
        × ((sb : Sandbox) × (get (codes "n") (codes "a") alive.store ≡ some sb)
            × (is_active sb.state ≡ true))
        × (h.stdio ≡ true)
        × (lookup (key (codes "n") (codes "a")) alive.attach_reg.attached ≡ none)
        × (attach host (codes "n") (codes "a") alive ≡ (
          ok h,
          record alive { attach_reg = record { attached = (key (codes "n") (codes "a"), 3) ∷ [] } },
        )))
attach_lem_example = attach_lem host (codes "n") (codes "a") alive

-- a daemon that takes up the sandbox of an earlier one
abbrev kept : Store
kept = record empty { sandboxes = (codes "n/a", sandbox) ∷ [] }

abbrev begun : Manager
begun = (reattach_all host (new_manager kept)).1

begun-Reachable : Reachable host kept begun
begun-Reachable = followed at_once reattaches_all

kept-IsKeyed : IsKeyed kept.sandboxes
unfolding IsKeyed find key
kept-IsKeyed = (refl, refl, tt)

Reachable-Good_example : Good begun
Reachable-Good_example = Reachable-Good host kept kept-IsKeyed begun-Reachable

stop_alive :
    Ran
      (stop_sandbox host (codes "n") (codes "a"))
      alive
      tt
      (after (stop_sandbox host (codes "n") (codes "a")) alive)
unfolding stop_sandbox release detach_client kill get_handle clear_handle stop_handle save put
    persist assign erase get find key at without ◌>>=◌ ◌>>◌ bytes_eq in_set stop_agent_bridge
    stop_tool_bridge detach remove drop_key publish_status
stop_alive = refl

alive-IsKeyed : IsKeyed alive.store.sandboxes
unfolding IsKeyed find key
alive-IsKeyed = (refl, refl, tt)

stop_sandbox-Closed_example :
    (sb : Sandbox) × (get (codes "n") (codes "a") alive.store ≡ some sb)
    × (get (codes "n") (codes "a") (after (stop_sandbox host (codes "n") (codes "a")) alive).store
        ≡ some (record sb { state = SandboxState.stopped }))
    × Closed
        (key (codes "n") (codes "a"))
        sb.id
        (after (stop_sandbox host (codes "n") (codes "a")) alive)
    × ((h : Handle)
        → at (key (codes "n") (codes "a")) alive.handles ≡ some h
        → Killed h alive (after (stop_sandbox host (codes "n") (codes "a")) alive))
stop_sandbox-Closed_example =
    stop_sandbox-Closed host (codes "n") (codes "a") alive
      (after (stop_sandbox host (codes "n") (codes "a")) alive) alive-IsKeyed stop_alive

-- the watcher of the sandbox that was run
abbrev first_watcher : Watcher
first_watcher = record { namespace = codes "n"; name = codes "a"; handle = process; epoch = 1 }

stop_begun :
    Ran
      (stop_sandbox host (codes "n") (codes "a"))
      begun
      tt
      (after (stop_sandbox host (codes "n") (codes "a")) begun)
unfolding stop_sandbox release detach_client kill get_handle clear_handle stop_handle without in_set
    stop_agent_bridge stop_tool_bridge detach remove drop_key reattach_all reattach_each
    reattach_sandbox resume register list select ◌>>=◌ ◌>>◌ get find save put persist assign erase
    set_handle publish_status bytes_eq epoch_of start_tool_bridge allow start_agent_bridge key at
stop_begun = refl

begun-watchers : begun.watchers ≡ [] ++ first_watcher ∷ []
unfolding reattach_all reattach_each reattach_sandbox resume register list select ◌>>=◌ ◌>>◌ get
    find save put persist assign erase set_handle publish_status bytes_eq epoch_of start_tool_bridge
    allow start_agent_bridge key at
begun-watchers = refl

superseded_example :
    watch_exited host first_watcher false (after (stop_sandbox host (codes "n") (codes "a")) begun)
    ≡ after (stop_sandbox host (codes "n") (codes "a")) begun
superseded_example =
    superseded host kept (codes "n") (codes "a") kept-IsKeyed begun-Reachable (inl stop_begun) []
      first_watcher [] begun-watchers refl at_once false

-- the conditions of the lemmas on watchers
abbrev sleeper : Sleeper
sleeper = record { namespace = codes "n"; name = codes "a"; sandbox = waiting host sandbox }

watch_wake-Alive_example :
    Alive
      (codes "n")
      (codes "a")
      process
      (resumed host (waiting host sandbox) process)
      (watch_wake host sleeper dead)
watch_wake-Alive_example = watch_wake-Alive host sleeper process dead refl refl

found_alive : get (codes "n") (codes "a") alive.store ≡ some sandbox
unfolding get find key bytes_eq
found_alive = refl

current_alive : epoch_of (key (codes "n") (codes "a")) alive.epoch ≡ 1
unfolding epoch_of key bytes_eq
current_alive = refl

watch_exited_lem_example :
    (Restarts host sandbox false
      × (get (codes "n") (codes "a") (watch_exited host watcher false alive).store
          ≡ some (waiting host sandbox))
      × ((watch_exited host watcher false alive).sleepers ≡ sleeper ∷ []))
    ⊎ (¬ Restarts host sandbox false
        × ((s : SandboxState) × Ends sandbox.restart_policy false s
            × (get (codes "n") (codes "a") (watch_exited host watcher false alive).store
                ≡ some (record sandbox { state = s })))
        × (at (key (codes "n") (codes "a")) (watch_exited host watcher false alive).handles ≡ none))
watch_exited_lem_example =
    watch_exited_lem host watcher false sandbox alive (current_alive, found_alive, refl)

delete_sandbox_lem_example :
    ((e : Fault) × (delete_sandbox host (codes "n") (codes "a") [] dead ≡ (err e, dead)))
    ⊎ ((sb : Sandbox) × (get (codes "n") (codes "a") dead.store ≡ some sb)
        × (is_active sb.state ≡ false)
        × All (Spendable host dead []) sb.worktrees
        × Deleted
            (codes "n")
            (codes "a")
            []
            dead
            (after (delete_sandbox host (codes "n") (codes "a") []) dead))
delete_sandbox_lem_example = delete_sandbox_lem host (codes "n") (codes "a") [] dead

-- an update that adds a mount
abbrev selector : Selector
selector = record { name = codes "a"; namespace = codes "n"; profile = []; all = false }

abbrev delta : ConfigDelta
delta = record {
  add_mounts = record { host = codes "/srv/x"; sandbox_path = codes "/x"; mode = codes "ro" } ∷ [];
  allow_urls = [];
  deny_urls = [];
}

abbrev stopped_one : Sandbox
stopped_one = record sandbox { state = SandboxState.stopped }

chosen : (match_selector host selector dead).0 ≡ ok (stopped_one ∷ [])
unfolding match_selector named bytes_eq ◌>>=◌ get find key
chosen = refl

update_lem_example : update host selector delta dead ≡ (
    if is_nil (stopped_one ∷ [])
    then (err no_match, dead)
    else if all_valid host delta (stopped_one ∷ [])
    then apply_all host delta (map (candidate_of host delta) (stopped_one ∷ [])) dead
    else (err update_rejected, dead))
update_lem_example = update_lem host selector delta dead (stopped_one ∷ []) chosen

mounted : passes (validate_sandbox_config host (candidate_of host delta stopped_one)) ≡ true
unfolding validate_sandbox_config candidate_of merge_mounts apply_url_delta visit_all visit
    validate_profile tool_targets check_writable check_mount mounted_at check_dirs check_repo
    check_worktrees valid_policy bytes_eq has_prefix trim_prefix split clean parts is_abs
    path_covers_or_equals expand_home resolve clean_step join pop in_set each valid_sandbox_name
mounted = refl

found_dead : get (codes "n") (codes "a") dead.store ≡ some stopped_one
unfolding get find key bytes_eq
found_dead = refl

update-stuck_example :
    (n : Manager) × (n ≡ after (update host selector delta) dead)
    × (get (codes "n") (codes "a") n.store
        ≡ some
            (record (candidate_of host delta stopped_one) { state = SandboxState.reload_pending }))
    × (run host profile (codes "a") (codes "n") n ≡ (err already_active, n))
    × (reload host (codes "n") (codes "a") n ≡ (err no_process, n))
unfolding bytes_eq at key
update-stuck_example =
    update-stuck host selector delta profile stopped_one dead refl refl found_dead (refl, refl) refl
      mounted refl
