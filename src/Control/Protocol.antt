-- ===== src/Control/Protocol.antt =====
-- internal/control/protocol.go: requests and responses. A decoder stands for json.Unmarshal into each
-- of the payloads, with `none` as its error; an encoded payload is the value it encodes. `String()` of
-- an error is the error; the empty `SandboxAttachResponse` and its like, all `{"ok": true}`, are `done`.
use muro.Base.{ℕ, Bool, List, Option, Bytes, codes}
use muro.Config.Validate
use muro.Config.Extend.{Loaded}
use muro.Sandbox.Manager
use muro.Sandbox.Manager.Update.{UpdateResult}

-- `Request`
pub record Request : Type 0 where
  pub type_name : Bytes
  pub payload : Bytes

abbrev pub type_status : Bytes
type_status = codes "status"

abbrev pub type_sandbox_show : Bytes
type_sandbox_show = codes "sandbox.show"

abbrev pub type_sandbox_run : Bytes
type_sandbox_run = codes "sandbox.run"

abbrev pub type_sandbox_update : Bytes
type_sandbox_update = codes "sandbox.update"

abbrev pub type_sandbox_reload : Bytes
type_sandbox_reload = codes "sandbox.reload"

abbrev pub type_sandbox_restart : Bytes
type_sandbox_restart = codes "sandbox.restart"

abbrev pub type_sandbox_stop : Bytes
type_sandbox_stop = codes "sandbox.stop"

abbrev pub type_sandbox_delete : Bytes
type_sandbox_delete = codes "sandbox.delete"

abbrev pub type_sandbox_merge : Bytes
type_sandbox_merge = codes "sandbox.merge"

abbrev pub type_sandbox_attach : Bytes
type_sandbox_attach = codes "sandbox.attach"

abbrev pub type_logs : Bytes
type_logs = codes "logs"

abbrev pub type_broker_status : Bytes
type_broker_status = codes "broker.status"

abbrev pub type_daemon_shutdown : Bytes
type_daemon_shutdown = codes "daemon.shutdown"

-- `StatusRequest`
pub record StatusRequest : Type 0 where
  pub namespace : Bytes

-- `SandboxShowRequest`, and `SandboxStopRequest` and `SandboxAttachRequest`, which have its fields
pub record SandboxShowRequest : Type 0 where
  pub namespace : Bytes
  pub name : Bytes

-- `SandboxRunRequest`
pub record SandboxRunRequest : Type 0 where
  pub profile : Bytes
  pub name : Bytes
  pub namespace : Bytes
  pub agent : Bytes
  pub agent_args : List Bytes

-- `MountView`
pub record MountView : Type 0 where
  pub host : Bytes
  pub sandbox_path : Bytes
  pub mode : Bytes

-- `UpdateSelector`
pub record UpdateSelector : Type 0 where
  pub name : Bytes
  pub profile : Bytes
  pub all : Bool

-- `SandboxUpdateRequest`
pub record SandboxUpdateRequest : Type 0 where
  pub selector : UpdateSelector
  pub namespace : Bytes
  pub mounts : List MountView
  pub allow_urls : List Bytes
  pub deny_urls : List Bytes

-- `SandboxReloadRequest`
pub record SandboxReloadRequest : Type 0 where
  pub namespace : Bytes
  pub name : Bytes

-- `SandboxRestartRequest`
pub record SandboxRestartRequest : Type 0 where
  pub namespace : Bytes
  pub name : Bytes
  pub from_profile : Bool

-- `SandboxDeleteRequest`
pub record SandboxDeleteRequest : Type 0 where
  pub namespace : Bytes
  pub name : Bytes
  pub discard_worktrees : List Bytes

-- `SandboxMergeRequest`
pub record SandboxMergeRequest : Type 0 where
  pub namespace : Bytes
  pub name : Bytes
  pub mount_path : Bytes
  pub message : Bytes

-- `LogsRequest`
pub record LogsRequest : Type 0 where
  pub namespace : Bytes
  pub name : Bytes
  pub follow : Bool

-- `ToolView`; `as` is a keyword
pub record ToolView : Type 0 where
  pub host : Bytes
  pub as_name : Bytes

-- `WorktreeView`
pub record WorktreeView : Type 0 where
  pub mount_path : Bytes
  pub host : Bytes
  pub branch : Bytes
  pub base_branch : Bytes
  pub has_unmerged_commits : Bool

-- `SandboxView`
pub record SandboxView : Type 0 where
  pub id : Bytes
  pub name : Bytes
  pub namespace : Bytes
  pub profile : Bytes
  pub agent : Bytes
  pub pid : ℕ
  pub state : Bytes
  pub started_at : Bytes
  pub mounts : List MountView
  pub tools : List ToolView
  pub allow_urls : List Bytes
  pub restart_policy : Bytes
  pub restart_count : ℕ
  pub worktrees : List WorktreeView

-- `BrokerStatusResponse`
pub record BrokerStatusResponse : Type 0 where
  pub connected : Bool
  pub address : Bytes
  pub last_error : Bytes

-- the payload of a `Response` that is OK
pub data Payload : Type 0 where
  sandboxes : List SandboxView → Payload
  sandbox : SandboxView → Payload
  results : List UpdateResult → Payload
  applied : Bool → Payload
  commit : Bytes → Payload
  broker_status : BrokerStatusResponse → Payload
  done : Payload

-- the error of one that is not
pub data Error : Type 0 where
  malformed_request : Error
  bad_payload : Error
  bad_name : Validate.Fault → Error
  load_profile_failed : Loaded → Error
  refused : Manager.Fault → Error
  not_found : Error
  no_mount_path : Error
  no_log_path : Error
  log_unreadable : Error
  unknown_type : Bytes → Error

-- `Response`
pub data Response : Type 0 where
  okay : Payload → Response
  failure : Error → Response

-- json.Unmarshal into a `Request` and into the payloads
pub record Decoder : Type 0 where
  pub request : Bytes → Option Request
  pub status : Bytes → Option StatusRequest
  pub show : Bytes → Option SandboxShowRequest
  pub run : Bytes → Option SandboxRunRequest
  pub update : Bytes → Option SandboxUpdateRequest
  pub reload : Bytes → Option SandboxReloadRequest
  pub restart : Bytes → Option SandboxRestartRequest
  pub delete : Bytes → Option SandboxDeleteRequest
  pub merge : Bytes → Option SandboxMergeRequest
  pub logs : Bytes → Option LogsRequest
