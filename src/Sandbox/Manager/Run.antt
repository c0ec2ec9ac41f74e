-- ===== src/Sandbox/Manager/Run.antt =====
-- internal/sandbox/manager.go: `Run` and `Reattach`, which bring a sandbox under the manager's watch.
use muro.Base.{ℕ, Bool, false, [], Option, none, some, Bytes, codes, bytes_eq, if◌then◌else◌}
use muro.Config.Validate.{Profile}
use muro.State.Store.{Sandbox, SandboxState, key}
use muro.Sandbox.Manager.{
  Env, Manager, Action, Fields, Handle, ◌>>=◌, ◌>>◌, pure, raise, asks, modify, some_or, attempt,
  ignored, raise_if, started, already_active, no_id, no_session, launch_failed,
}
use muro.Sandbox.Manager.Actions.{
  find_sandbox, is_active, set_handle, watch, save, allow, register_handle_network_addr,
  publish_status, stop_handle, launch_sandbox,
}
use muro.Sandbox.Manager.Bridges.{
  start_agent_bridge, stop_agent_bridge, start_tool_bridge, stop_tool_bridge,
}
use muro.Sandbox.Manager.Resolve.{resolve_fields}
use muro.Sandbox.Manager.Launch.{build_launch_spec, capture_handle_info}

abbrev pub default_namespace : Bytes → Bytes
default_namespace ns = if bytes_eq ns [] then codes "default" else ns

abbrev pub active_already : Option Sandbox → Bool
active_already none = false
active_already (some sb) = is_active sb.state

-- `sb` of `Run`
unfoldable pub new_sandbox : Bytes → Bytes → ℕ → Profile → Fields → Bytes → Bytes → Sandbox
new_sandbox id session now profile fields name ns = record {
  id = id;
  name = name;
  namespace = ns;
  profile = profile.name;
  agent = profile.agent;
  agent_args = fields.agent_args;
  work_dir = fields.work_dir;
  quiet_mode = fields.quiet_mode;
  env = fields.env;
  pid = 0;
  state = SandboxState.running;
  started_at = now;
  mounts = fields.mounts;
  tools = fields.tools;
  allow_urls = fields.allow_urls;
  restart_policy = fields.restart_policy;
  restart_count = 0;
  git_policy = fields.git_policy;
  audio = fields.audio;
  shim_socket = [];
  net_addr = [];
  slirp_pid = 0;
  inject_socket = [];
  session_id = session;
  private_dirs = fields.private_dirs;
  worktrees = fields.worktrees;
}

module _ (env : Env) where
  -- the part of `Run` before the launch: the new sandbox, or why there is none
  unfoldable pub prepare : Profile → Bytes → Bytes → Action Sandbox
  unfolding new_sandbox resolve_fields
  prepare profile name ns = do
    existing ← find_sandbox env ns name
    raise_if (active_already existing) already_active
    answered ← asks λ m. env.new_id m.trace
    id ← some_or answered no_id
    session' ← asks λ m. env.new_session m.trace
    session ← some_or session' no_session
    fields ← resolve_fields env profile ns name id
    asks λ m. new_sandbox id session (env.now m.trace) profile fields name ns

  -- the part of `Run` after `store.Put`
  unfoldable pub enroll : Sandbox → Handle → Manager → Manager
  enroll sb h m =
      let (epoch, m₁) = set_handle (key sb.namespace sb.name) h m in
      let m₂ = register_handle_network_addr env sb.id h (allow env sb.id sb.allow_urls m₁) in
      watch sb.namespace sb.name h epoch (publish_status env sb.namespace sb.name started m₂)

  -- the launch of `Run` and what follows it
  unfoldable pub start : Sandbox → Action Sandbox
  unfolding enroll
  start sb = do
    modify λ m. start_tool_bridge env sb (start_agent_bridge env sb m)
    launched ← launch_sandbox env (build_launch_spec env sb)
    elim launched [
      | none ↦ do
        modify λ m. stop_tool_bridge env sb.id (stop_agent_bridge env sb.id m)
        raise launch_failed
      | some h ↦ do
        let sb' = capture_handle_info sb h
        attempt (save env sb') (λ e. do ignored (stop_handle env h); raise e)
            (do modify (enroll sb' h); pure sb')
    ]

  -- `Run`
  unfoldable pub run : Profile → Bytes → Bytes → Action Sandbox
  unfolding prepare start
  run profile name namespace = prepare profile name (default_namespace namespace) >>= start
