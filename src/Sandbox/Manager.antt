-- ===== src/Sandbox/Manager.antt =====
-- internal/sandbox/manager.go: the state of `Manager`, its actions, and what it asks of its surroundings.
-- An action takes the manager to a result and the manager after it. Whatever the manager does to the host,
-- the proxy, the broker or a worktree is an `Effect`; the host's answers are functions of the effects so
-- far, the newest first, so that no answer has to be the same twice.
pub mod Actions
pub mod Books
pub mod Frame
pub mod Orderly
pub mod Reach
pub mod Runs
pub mod Silence
pub mod Killed
pub mod Stopped
pub mod Errors
pub mod Outcomes
pub mod Exits
pub mod Watched
pub mod Started
pub mod Pending
pub mod Owned
pub mod Tests
pub mod Host
pub mod TreeTests
pub mod Bridges
pub mod Launch
pub mod Resolve
pub mod Run
pub mod Reattach
pub mod Update
pub mod Restart
pub mod Delete
pub mod Attach
pub mod Watch
use muro.Base.{ℕ, Bool, List, ◌∷◌, Option, none, some, Bytes, if◌then◌else◌}
use muro.Config.{Mount, Tool, GitPolicy}
use muro.Config.Validate.{Profile}
use muro.State.Store.{Sandbox, WorktreeInfo, Store}
use muro.Sandbox.Attach.{Registry}

-- `LaunchSpec` (isolator.go); the path of the git stub is filled in by the isolator
pub record LaunchSpec : Type 0 where
  pub mounts : List Mount
  pub tools : List Tool
  pub env : List (Bytes × Bytes)
  pub cmd : List Bytes
  pub pty : Bool
  pub work_dir : Bytes
  pub sandbox_id : Bytes
  pub log_path : Bytes
  pub agent_socket_path : Bytes
  pub tool_socket_path : Bytes
  pub audio_runtime_dir : Bytes
  pub session_id : Bytes

-- `shimRuntimeInfo`
pub record ShimInfo : Type 0 where
  pub shim_socket : Bytes
  pub slirp_pid : ℕ
  pub inject_socket : Bytes

-- `Handle`, with the capabilities that it may have: `networkAddrProvider`, `shimRuntimeInfo` and a pty
pub record Handle : Type 0 where
  pub pid : ℕ
  pub network_addr : Option Bytes
  pub shim : Option ShimInfo
  pub stdio : Bool

-- the events of `PublishStatus`
pub data Event : Type 0 where
  started : Event
  halted : Event
  restarting_event : Event
  restarted : Event
  crashed_event : Event
  exhausted : Event

pub data Effect : Type 0 where
  launch : LaunchSpec → Effect
  stop : Handle → Effect
  update_mounts : Handle → List Mount → Effect
  reattach : Sandbox → Effect
  publish : Bytes → Bytes → Event → Effect
  set_allowlist : Bytes → List Bytes → Effect
  register_addr : Bytes → Bytes → Effect
  listen : Bytes → Effect
  close : Bytes → Effect
  subscribe : Bytes → Bytes → Effect
  sleep : ℕ → Effect
  make_dir : Bytes → Effect
  create_worktree : Bytes → Bytes → Bytes → Effect
  remove_log : Bytes → Bytes → Effect
  remove_private_dirs : Bytes → Effect
  squash_merge : WorktreeInfo → Effect
  discard : WorktreeInfo → Effect
  prune : WorktreeInfo → Effect

abbrev pub Trace : Type 0
Trace = List Effect

-- `resolvedProfileFields`
pub record Fields : Type 0 where
  pub agent_args : List Bytes
  pub env : List (Bytes × Bytes)
  pub mounts : List Mount
  pub tools : List Tool
  pub allow_urls : List Bytes
  pub restart_policy : Bytes
  pub git_policy : GitPolicy
  pub audio : Bool
  pub private_dirs : List Bytes
  pub worktrees : List WorktreeInfo
  pub work_dir : Bytes
  pub quiet_mode : Bool

-- The errors, one for each message.
pub data Fault : Type 0 where
  not_found : Fault
  already_active : Fault
  no_id : Fault
  no_session : Fault
  mounts_invalid : Fault
  bundle_failed : Fault
  audio_failed : Fault
  private_failed : Fault
  no_home : Fault
  instructions_failed : Fault
  skill_failed : Fault
  worktree_failed : Fault
  launch_failed : Fault
  not_saved : Fault
  no_selector : Fault
  no_match : Fault
  update_rejected : Fault
  mounts_failed : Fault
  no_process : Fault
  profile_failed : Fault
  stop_failed : Fault
  still_active : Fault
  not_deleted : Fault
  unmerged_unknown : Fault
  unmerged : Fault
  no_worktree : Fault
  nothing_to_merge : Fault
  merge_failed : Fault
  merged_not_saved : Bytes → Fault
  merged_not_pruned : Bytes → Fault
  not_running : Fault
  already_attached : ℕ → Fault
  no_pty : Fault
  no_reattach : Fault
  reattach_failed : Fault

pub data Result (A : Type 0) : Type 0 where
  ok : A → Result A
  err : Fault → Result A

-- what os.Stat tells of a path
pub data FileKind : Type 0 where
  directory : FileKind
  socket : FileKind
  other_file : FileKind

-- What the manager is set up with, and the answers of the host.
pub record Env : Type 0 where
  -- the settings: a proxy and a publisher may be nil; "" is pub/sub turned off
  pub has_proxy : Bool
  pub has_publisher : Bool
  pub has_subscriber : Bool
  pub can_reattach : Bool
  pub pub_state_dir : Bytes
  pub state_dir : Bytes
  pub max_restart_attempts : ℕ
  pub profile_count : ℕ
  pub home : Option Bytes
  pub config_dir : Option Bytes
  pub daemon_state_dir : Option Bytes
  pub runtime_dir : Bytes
  pub profiles_dir : Option Bytes
  -- the answers
  pub now : Trace → ℕ
  pub new_id : Trace → Option Bytes
  pub new_session : Trace → Option Bytes
  pub disk : Trace → Bool
  pub sort : List Sandbox → List Sandbox
  pub read_profile : Trace → Bytes → Option Profile
  pub stat : Trace → Bytes → Option FileKind
  pub read_dir : Trace → Bytes → Option (List Bytes)
  pub makes_dir : Trace → Bytes → Bool
  pub creates_worktree : Trace → Bytes → Bytes → Bytes → Option Bytes
  pub launches : Trace → LaunchSpec → Option Handle
  pub stops : Trace → Handle → Bool
  pub remounts : Trace → Handle → List Mount → Option Bool
  pub reattaches : Trace → Sandbox → Option Handle
  pub listens : Trace → Bytes → Bool
  pub subscribes : Trace → Bytes → Bytes → Bool
  pub has_unmerged : Trace → WorktreeInfo → Option Bool
  pub merges : Trace → WorktreeInfo → Option Bytes
  pub prunes : Trace → WorktreeInfo → Bool

-- a goroutine of `watchLoop` that waits for its process
pub record Watcher : Type 0 where
  pub namespace : Bytes
  pub name : Bytes
  pub handle : Handle
  pub epoch : ℕ

-- a goroutine of `watchLoop` that sleeps before a restart, with its copy of the sandbox
pub record Sleeper : Type 0 where
  pub namespace : Bytes
  pub name : Bytes
  pub sandbox : Sandbox

-- `Manager`: its maps, where a git socket has the mounts and the policy it was started with, the goroutines that watch its sandboxes, those of them that sleep, and the
-- effects so far
pub record Manager : Type 0 where
  pub store : Store
  pub handles : List (Bytes × Handle)
  pub epoch : List (Bytes × ℕ)
  pub attach_reg : Registry
  pub agent_sockets : List Bytes
  pub tool_sockets : List (Bytes × (List Mount × GitPolicy))
  pub inbox_subscribed : List Bytes
  pub watchers : List Watcher
  pub sleepers : List Sleeper
  pub trace : Trace

abbrev pub Action : Type 0 → Type 0
Action A = Manager → Result A × Manager

abbrev pub pure : {A : Type 0} → A → Action A
pure a m = (ok a, m)

abbrev pub raise : {A : Type 0} → Fault → Action A
raise e m = (err e, m)

abbrev pub next : {A B : Type 0} → Result A → (A → Action B) → Action B
next (ok a) f m = f a m
next (err e) f m = (err e, m)

infixl 5 ◌>>=◌ ◌>>◌
unfoldable pub ◌>>=◌ : {A B : Type 0} → Action A → (A → Action B) → Action B
◌>>=◌ act f m = let (r, m') = act m in next r f m'

unfoldable pub ◌>>◌ : {A B : Type 0} → Action A → Action B → Action B
unfolding ◌>>=◌
act >> k = act >>= λ _. k

abbrev pub asks : {A : Type 0} → (Manager → A) → Action A
asks f m = (ok (f m), m)

abbrev pub modify : (Manager → Manager) → Action (Unit {0})
modify f m = (ok tt, f m)

-- an effect that cannot fail
abbrev pub note : Effect → Manager → Manager
note e m = record m { trace = e ∷ m.trace }

abbrev pub emit : Effect → Action (Unit {0})
emit e = modify (note e)

abbrev pub raise_if : Bool → Fault → Action (Unit {0})
raise_if c e m = ((if c then err e else ok tt), m)

abbrev pub some_or : {A : Type 0} → Option A → Fault → Action A
some_or none e = raise e
some_or (some a) e = pure a

-- if err := act; err != nil { failed err }; done
abbrev pub branch : {A B : Type 0} → Result A → (Fault → Action B) → Action B → Action B
branch (ok a) failed done m = done m
branch (err e) failed done m = failed e m

unfoldable pub attempt : {A B : Type 0} → Action A → (Fault → Action B) → Action B → Action B
attempt act failed done m = let (r, m') = act m in branch r failed done m'

-- _ = act
abbrev pub ignored : Action (Unit {0}) → Action (Unit {0})
ignored act m = (ok tt, (act m).1)
