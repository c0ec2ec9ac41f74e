-- ===== src/Sandbox/Manager/Restart.antt =====
-- internal/sandbox/manager.go: `Restart` and `Stop`.
use muro.Base.{suc, Bool, Option, none, some, Bytes, if◌then◌else◌}
use muro.Config.Validate.{Profile}
use muro.Config.Extend.{Loaded, profile, load_profile}
use muro.State.Store.{Sandbox, SandboxState, key}
use muro.Sandbox.Attach.{detach}
use muro.Sandbox.Manager.{
  Env, Manager, Action, Fields, Handle, err, ◌>>=◌, ◌>>◌, pure, asks, modify, some_or, restarted,
  halted, not_found, profile_failed, launch_failed,
}
use muro.Sandbox.Manager.Actions.{
  find_sandbox, get_handle, set_handle, clear_handle, watch, save, allow,
  register_handle_network_addr, publish_status, stop_handle, launch_sandbox,
}
use muro.Sandbox.Manager.Bridges.{stop_agent_bridge, start_tool_bridge, stop_tool_bridge}
use muro.Sandbox.Manager.Resolve.{resolve_fields}
use muro.Sandbox.Manager.Launch.{build_launch_spec, capture_handle_info}

-- the profile, if it was loaded
abbrev pub loaded_profile : Loaded → Option Profile
loaded_profile (profile p) = some p
loaded_profile _ = none

-- m.attachReg.Detach(key)
unfoldable pub detach_client : Bytes → Manager → Manager
unfolding detach
detach_client k m = record m { attach_reg = detach k m.attach_reg }

-- the fields of a sandbox that `restart --from-profile` takes from its profile
unfoldable pub with_fields : Profile → Fields → Sandbox → Sandbox
with_fields p fields sb = record sb {
  agent = p.agent;
  agent_args = fields.agent_args;
  env = fields.env;
  mounts = fields.mounts;
  tools = fields.tools;
  allow_urls = fields.allow_urls;
  restart_policy = fields.restart_policy;
  git_policy = fields.git_policy;
  audio = fields.audio;
  private_dirs = fields.private_dirs;
  worktrees = fields.worktrees;
  work_dir = fields.work_dir;
  quiet_mode = fields.quiet_mode;
}

module _ (env : Env) where
  -- the `fromProfile` branch of `Restart`
  unfoldable pub reload_profile : Bytes → Bytes → Sandbox → Action Sandbox
  unfolding with_fields resolve_fields
  reload_profile namespace name sb = do
    loaded ← asks λ m. load_profile (env.read_profile m.trace) (suc env.profile_count) sb.profile
    p ← some_or (loaded_profile loaded) profile_failed
    fields ← resolve_fields env p namespace name sb.id
    modify (stop_tool_bridge env sb.id)
    pure (with_fields p fields sb)

  -- the end of the process that runs, if any
  unfoldable pub kill : Bytes → Action (Unit {0})
  kill k = do
    handle ← asks (get_handle k)
    elim handle [ none ↦ pure tt | some h ↦ do modify (clear_handle k); stop_handle env h ]

  -- the part of `Restart` after its last `Put`
  unfoldable pub rewatch : Bytes → Bytes → Sandbox → Handle → Manager → Manager
  rewatch namespace name sb h m =
      let m₁ = register_handle_network_addr env sb.id h (allow env sb.id sb.allow_urls m) in
      let (epoch, m₂) = set_handle (key namespace name) h m₁ in
      watch namespace name h epoch (publish_status env namespace name restarted m₂)

  -- the launch of `Restart` and what follows it
  unfoldable pub relaunch : Bytes → Bytes → Sandbox → Action (Unit {0})
  unfolding rewatch
  relaunch namespace name sb = do
    launched ← launch_sandbox env (build_launch_spec env sb)
    elim launched [
      | none ↦ λ m. (err launch_failed, (save env (record sb { state = SandboxState.crashed }) m).1)
      | some h ↦ do
        let sb' = record (capture_handle_info sb h) { state = SandboxState.running }
        save env sb'
        modify (rewatch namespace name sb' h)
    ]

  -- `Restart`
  unfoldable pub restart : Bytes → Bytes → Bool → Action (Unit {0})
  unfolding reload_profile kill relaunch detach_client
  restart namespace name from_profile = do
    found ← find_sandbox env namespace name
    live ← some_or found not_found
    sb ← if from_profile then reload_profile namespace name live else pure live
    modify (detach_client (key namespace name))
    kill (key namespace name)
    modify λ m. if from_profile then start_tool_bridge env sb m else m
    relaunch namespace name sb

  -- the part of `Stop` before `store.Put`
  unfoldable pub release : Bytes → Bytes → Manager → Manager
  unfolding detach_client
  release k id m = stop_tool_bridge env id (stop_agent_bridge env id (detach_client k m))

  -- `Stop`
  unfoldable pub stop_sandbox : Bytes → Bytes → Action (Unit {0})
  unfolding kill release
  stop_sandbox namespace name = do
    found ← find_sandbox env namespace name
    sb ← some_or found not_found
    modify (release (key namespace name) sb.id)
    save env (record sb { state = SandboxState.stopped })
    kill (key namespace name)
    modify (publish_status env namespace name halted)
