-- ===== src/State/Store.antt =====
-- internal/state/store.go, sandbox.go and reconcile.go: the registry of sandboxes. `disk` says whether
-- a write of the state file succeeds. What encoding/json makes of a snapshot and of a file's bytes are two
-- functions that a store carries. The times and maps of a record are values here, so a clone of one is
-- the record itself.
pub mod Laws
pub mod Stale
pub mod Names
use muro.Base.{
  ℕ, Bool, true, false, ◌&&◌, ◌||◌, not, List, [], ◌∷◌, ◌++◌, Option, none, some, Bytes, codes,
  bytes_eq, ltb, ◌==◌, if◌then◌else◌, map,
}
use muro.Config.{Mount, Tool, GitPolicy}
use muro.Config.Paths.{slash}
use muro.State.Ring.{DeniedEvent, Ring, new_ring, push, snapshot, load_snapshot}

-- `SandboxState`
pub data SandboxState : Type 0 where
  running : SandboxState
  stopped : SandboxState
  reload_pending : SandboxState
  crashed : SandboxState
  restarting : SandboxState
  restart_exhausted : SandboxState

-- `WorktreeInfo`
pub record WorktreeInfo : Type 0 where
  pub mount_path : Bytes
  pub host : Bytes
  pub repo_host : Bytes
  pub branch : Bytes
  pub base_branch : Bytes

-- `Sandbox`
pub record Sandbox : Type 0 where
  pub id : Bytes
  pub name : Bytes
  pub namespace : Bytes
  pub profile : Bytes
  pub agent : Bytes
  pub agent_args : List Bytes
  pub work_dir : Bytes
  pub quiet_mode : Bool
  pub env : List (Bytes × Bytes)
  pub pid : ℕ
  pub state : SandboxState
  pub started_at : ℕ
  pub mounts : List Mount
  pub tools : List Tool
  pub allow_urls : List Bytes
  pub restart_policy : Bytes
  pub restart_count : ℕ
  pub git_policy : GitPolicy
  pub audio : Bool
  pub shim_socket : Bytes
  pub net_addr : Bytes
  pub slirp_pid : ℕ
  pub inject_socket : Bytes
  pub session_id : Bytes
  pub private_dirs : List Bytes
  pub worktrees : List WorktreeInfo

-- `key`
unfoldable pub key : Bytes → Bytes → Bytes
key namespace name = namespace ++ (slash ++ name)

-- a Go map from keys to sandboxes
abbrev pub Registry : Type 0
Registry = List (Bytes × Sandbox)

unfoldable pub find : Bytes → Registry → Option Sandbox
find k [] = none
find k ((j, sb) ∷ m) = if bytes_eq j k then some sb else find k m

unfoldable pub erase : Bytes → Registry → Registry
erase k [] = []
erase k ((j, sb) ∷ m) = let rest = erase k m in if bytes_eq j k then rest else (j, sb) ∷ rest

-- m[k] = sb
unfoldable pub assign : Bytes → Sandbox → Registry → Registry
unfolding erase
assign k sb m = (k, sb) ∷ erase k m

-- `snapshot`
pub record Snapshot : Type 0 where
  pub sandboxes : List Sandbox
  pub denied_events : List DeniedEvent

-- json.MarshalIndent and json.Unmarshal, for a snapshot: its texts, numbers, flags and times can all be
-- encoded, and `none` is an error of the decoder.
pub record Json : Type 0 where
  pub marshal : Snapshot → Bytes
  pub unmarshal : Bytes → Option Snapshot

-- `Store`; `file` holds the bytes of the state file, if there is one.
pub record Store : Type 0 where
  pub sandboxes : Registry
  pub events : Ring
  pub file : Option Bytes
  pub json : Json

-- `NewStore`
abbrev pub new_store : Json → Option Bytes → Store
new_store json file = record { sandboxes = []; events = new_ring 200; file = file; json = json }

abbrev pub values : Registry → List Sandbox
values m = map (λ (k, sb). sb) m

-- the snapshot that `persist` takes
abbrev pub snapshot_of : Store → Snapshot
snapshot_of s = record { sandboxes = values s.sandboxes; denied_events = snapshot s.events }

-- `persist`: whether it succeeded, and the new store
unfoldable pub persist : Bool → Store → Bool × Store
persist disk s =
    if disk then (true, record s { file = some (s.json.marshal (snapshot_of s)) }) else (false, s)

-- `Put`
unfoldable pub put : Bool → Sandbox → Store → Bool × Store
unfolding persist assign
put disk sb s =
    persist disk (record s { sandboxes = assign (key sb.namespace sb.name) sb s.sandboxes })

-- `Get`
unfoldable pub get : Bytes → Bytes → Store → Option Sandbox
unfolding find
get namespace name s = find (key namespace name) s.sandboxes

-- `Delete`
unfoldable pub delete : Bool → Bytes → Bytes → Store → Bool × Store
unfolding persist erase
delete disk namespace name s =
    persist disk (record s { sandboxes = erase (key namespace name) s.sandboxes })

-- `RecordDenied`
unfoldable pub record_denied : Bool → DeniedEvent → Store → Bool × Store
unfolding persist
record_denied disk ev s = persist disk (record s { events = push s.events ev })

-- the loop of `Load`
unfoldable pub load_all : List Sandbox → Registry → Registry
unfolding assign
load_all [] m = m
load_all (sb ∷ sbs) m = load_all sbs (assign (key sb.namespace sb.name) sb m)

-- `Load`: whether it succeeded, and the new store. A file that is there can be read here.
unfoldable pub load : Store → Bool × Store
unfolding load_all
load s = elim s.file [
  | none ↦ (true, s)
  | some bytes ↦ elim (s.json.unmarshal bytes) [
    | none ↦ (false, s)
    | some snap ↦ (
      true,
      record s {
        sandboxes = load_all snap.sandboxes [];
        events = load_snapshot s.events snap.denied_events;
      },
    )
  ]
]

-- the test of a namespace in `List`; the empty one stands for all
abbrev pub in_namespace : Bytes → Sandbox → Bool
in_namespace namespace sb = bytes_eq namespace [] || bytes_eq sb.namespace namespace

unfoldable pub select : Bytes → List Sandbox → List Sandbox
select namespace [] = []
select namespace (sb ∷ sbs) =
    let rest = select namespace sbs in if in_namespace namespace sb then sb ∷ rest else rest

abbrev pub is_running : SandboxState → Bool
is_running running = true
is_running _ = false

-- `List`, with sort.Slice
unfoldable pub list : (List Sandbox → List Sandbox) → Bytes → Store → List Sandbox
unfolding select
list sort namespace s = sort (select namespace (values s.sandboxes))

-- `isAlive`; `signal` says whether sending signal 0 finds the process.
unfoldable pub is_alive : (ℕ → Bool) → ℕ → Bool
is_alive signal pid = if pid == 0 then false else signal pid

module _ (signal : ℕ → Bool) (disk : Sandbox → Bool) where
  -- the body of the loop of `Reconcile`: `false` is its error
  unfoldable pub reconcile_one : Sandbox → Store → Bool × Store
  unfolding is_alive put
  reconcile_one sb s =
      if not (is_running sb.state)
      then (true, s)
      else if is_alive signal sb.pid
      then (true, s)
      else put (disk sb) (record sb { state = stopped }) s

  unfoldable pub reconcile_all : List Sandbox → Store → Bool × Store
  reconcile_all [] s = (true, s)
  reconcile_all (sb ∷ sbs) s =
      let (done, s') = reconcile_one sb s in
      elim done [ true ↦ reconcile_all sbs s' | false ↦ (false, s') ]

  -- `Reconcile`
  unfoldable pub reconcile : (List Sandbox → List Sandbox) → Store → Bool × Store
  unfolding reconcile_all list
  reconcile sort s = reconcile_all (list sort [] s) s
