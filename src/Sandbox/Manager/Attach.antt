-- ===== src/Sandbox/Manager/Attach.antt =====
-- internal/sandbox/manager.go: `Attach`, and the `detach` that it returns.
use muro.Base.{true, false, none, some, Bytes, if◌then◌else◌}
use muro.State.Store.{key}
use muro.Sandbox.Attach.{try_attach}
use muro.Sandbox.Manager.{
  Env, Action, Handle, ok, err, ◌>>=◌, ◌>>◌, pure, raise, asks, modify, raise_if, some_or,
  not_found, not_running, already_attached, no_process, no_pty,
}
use muro.Sandbox.Manager.Actions.{find_sandbox, is_active, get_handle}
use muro.Sandbox.Manager.Restart.{detach_client}

module _ (env : Env) where
  -- attachReg.TryAttach
  unfoldable pub take_slot : Bytes → Action (Unit {0})
  take_slot k m =
      let ((already, since), r) = try_attach k (env.now m.trace) m.attach_reg in
      ((if already then err (already_attached since) else ok tt), record m { attach_reg = r })

  -- the pty of the process, or the slot given back
  unfoldable pub stdio_of : Bytes → Action Handle
  unfolding detach_client
  stdio_of k = do
    handle ← asks (get_handle k)
    elim handle [
      | none ↦ do modify (detach_client k); raise no_process
      | some h ↦ if h.stdio then pure h else (do modify (detach_client k); raise no_pty)
    ]

  -- `Attach`
  unfoldable pub attach : Bytes → Bytes → Action Handle
  unfolding take_slot stdio_of
  attach namespace name = do
    found ← find_sandbox env namespace name
    sb ← some_or found not_found
    raise_if (if is_active sb.state then false else true) not_running
    take_slot (key namespace name)
    stdio_of (key namespace name)
