-- ===== src/Sandbox/Manager/Reattach.antt =====
-- internal/sandbox/manager.go: `Reattach` and `ReattachAll`, which take up the sandboxes of an earlier
-- daemon.
use muro.Base.{true, false, List, [], ◌∷◌, if◌then◌else◌}
use muro.State.Store.{Sandbox, key, list, is_running}
use muro.Sandbox.Manager.{
  Env, Manager, Action, Handle, ok, err, Fault, ◌>>=◌, ◌>>◌, pure, asks, modify, emit, raise_if,
  some_or, no_reattach, reattach_failed, reattach,
}
use muro.Sandbox.Manager.Actions.{set_handle, watch, allow, register}
use muro.Sandbox.Manager.Bridges.{start_agent_bridge, start_tool_bridge}

module _ (env : Env) where
  -- the part of `Reattach` after the isolator's
  unfoldable pub resume : Sandbox → Handle → Manager → Manager
  resume sb h m =
      let (epoch, m₁) = set_handle (key sb.namespace sb.name) h m in
      watch sb.namespace sb.name h epoch
        (register env sb.id sb.net_addr (allow env sb.id sb.allow_urls m₁))

  -- `Reattach`
  unfoldable pub reattach_sandbox : Sandbox → Action (Unit {0})
  unfolding resume
  reattach_sandbox sb = do
    raise_if (if env.can_reattach then false else true) no_reattach
    modify λ m. start_tool_bridge env sb (start_agent_bridge env sb m)
    reattached ← asks λ m. env.reattaches m.trace sb
    emit (reattach sb)
    h ← some_or reattached reattach_failed
    modify (resume sb h)

  -- the loop of `ReattachAll`, with the errors of the sandboxes that fail
  unfoldable pub reattach_each : List Sandbox → Manager → List Fault × Manager
  unfolding reattach_sandbox
  reattach_each [] m = ([], m)
  reattach_each (sb ∷ sbs) m =
      let (r, m') = (if is_running sb.state then reattach_sandbox sb else pure tt) m in
      let (faults, m'') = reattach_each sbs m' in
      (elim r [ ok _ ↦ faults | err e ↦ e ∷ faults ], m'')

  -- `ReattachAll`
  unfoldable pub reattach_all : Manager → List Fault × Manager
  unfolding reattach_each
  reattach_all m = reattach_each (list env.sort [] m.store) m
