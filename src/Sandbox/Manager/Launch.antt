-- ===== src/Sandbox/Manager/Launch.antt =====
-- internal/sandbox/manager.go: what a sandbox is launched with, and what its handle tells.
use muro.Base.{
  ℕ, zero, suc, ◌-◌, Bool, true, false, List, [], ◌∷◌, ◌++◌, map, Option, none, some, Bytes, codes,
  bytes_eq, has_prefix, length, Result, ok, err, if◌then◌else◌,
}
use muro.Config.Validate.{Check, validate_profile}
use muro.Config.Paths.{expand_home}
use muro.State.Store.{Sandbox}
use muro.Sandbox.Manager.{Env, LaunchSpec, ShimInfo, Handle}
use muro.Sandbox.Manager.Bridges.{
  below, agent_socket_path, tool_socket_path, has_repos, pubsub_enabled,
}

-- strings.ReplaceAll for a text that is not empty; `skip` counts the bytes that a match has taken
unfoldable pub replace_from : ℕ → Bytes → Bytes → Bytes → Bytes
replace_from skip old new [] = []
replace_from (suc skip) old new (c ∷ s) = replace_from skip old new s
replace_from zero old new (c ∷ s) = elim (has_prefix (c ∷ s) old) [
  | true ↦ new ++ replace_from (length old - 1) old new s
  | false ↦ c ∷ replace_from 0 old new s
]

abbrev pub session_token : Bytes
session_token = codes "{{SESSION_ID}}"

unfoldable pub with_session : Bytes → Bytes → Bytes
unfolding replace_from
with_session session arg = replace_from 0 session_token session arg

abbrev pub quiet_chat_path : Bytes
quiet_chat_path = codes "~/.local/bin/muro-quiet-chat"

-- config.SandboxLogPath (internal/config/paths.go); the error of StateDir is dropped and leaves ""
abbrev pub sandbox_log_path : Option Bytes → Bytes → Bytes → Bytes
sandbox_log_path none namespace name = []
sandbox_log_path (some dir) namespace name =
    below dir
      (codes "logs" ∷ codes "sandbox" ∷ (namespace ++ (codes "__" ++ (name ++ codes ".log"))) ∷ [])

-- `cmd` of `buildLaunchSpec`
unfoldable pub command_of : Option Bytes → Sandbox → List Bytes
unfolding with_session
command_of home sb =
    if sb.quiet_mode
    then expand_home home quiet_chat_path ∷ []
    else if bytes_eq sb.agent []
    then codes "/bin/sh" ∷ []
    else sb.agent ∷ map (with_session sb.session_id) sb.agent_args

-- `buildLaunchSpec`
unfoldable pub build_launch_spec : Env → Sandbox → LaunchSpec
unfolding command_of
build_launch_spec env sb = record {
  mounts = sb.mounts;
  tools = sb.tools;
  env = sb.env;
  cmd = command_of env.home sb;
  pty = true;
  work_dir = sb.work_dir;
  sandbox_id = sb.id;
  log_path = sandbox_log_path env.daemon_state_dir sb.namespace sb.name;
  agent_socket_path = if pubsub_enabled env then agent_socket_path env.pub_state_dir sb.id else [];
  tool_socket_path =
      if has_repos sb.git_policy.repos then tool_socket_path env.state_dir sb.id else [];
  audio_runtime_dir = if sb.audio then env.runtime_dir else [];
  session_id = sb.session_id;
}

abbrev pub captured_addr : Option Bytes → Sandbox → Sandbox
captured_addr none sb = sb
captured_addr (some addr) sb = record sb { net_addr = addr }

abbrev pub captured_shim : Option ShimInfo → Sandbox → Sandbox
captured_shim none sb = sb
captured_shim (some i) sb = record sb {
  shim_socket = i.shim_socket;
  slirp_pid = i.slirp_pid;
  inject_socket = i.inject_socket;
}

-- `captureHandleInfo`
unfoldable pub capture_handle_info : Sandbox → Handle → Sandbox
capture_handle_info sb h =
    captured_shim h.shim (captured_addr h.network_addr (record sb { pid = h.pid }))

-- `validateSandboxConfig`: the profile of a sandbox's own fields
unfoldable pub validate_sandbox_config : Env → Sandbox → Check
validate_sandbox_config env sb =
    validate_profile env.home env.config_dir env.daemon_state_dir (record {
      name = sb.name;
      extends = [];
      agent = [];
      agent_args = [];
      mounts = sb.mounts;
      tools = sb.tools;
      allow_urls = [];
      deny_urls = [];
      env = [];
      restart_policy = sb.restart_policy;
      git = record { repos = [] };
      audio = false;
      private_dirs = [];
      instructions = [];
      skills = [];
      work_dir = [];
      quiet_mode = false;
    })

abbrev pub passes : Check → Bool
passes (ok _) = true
passes (err _) = false

-- the value of a result, whatever its error
abbrev pub value_of {ℓ κ} : {E : Type ℓ} {A : Type κ} → Result E A → Option A
value_of (ok a) = some a
value_of (err _) = none
