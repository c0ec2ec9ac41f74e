-- ===== src/Sandbox/Manager/Watch.antt =====
-- internal/sandbox/manager.go: `watchLoop`, in two steps, before and after its sleep. In between, the
-- goroutine holds its own copy of the sandbox, and any other operation may run.
use muro.Base.{suc, ◌==◌, Bool, ◌&&◌, not, ◌∷◌, none, some, Bytes, codes, bytes_eq, if◌then◌else◌}
use muro.State.Store.{Sandbox, SandboxState, get, key}
use muro.Sandbox.Restart.{should_restart, backoff_delay}
use muro.Sandbox.Manager.{
  Env, Manager, Watcher, Sleeper, Handle, Event, note, sleep, halted, restarting_event, restarted,
  crashed_event, exhausted,
}
use muro.Sandbox.Manager.Actions.{
  epoch_of, set_handle, clear_handle, watch, save, register_handle_network_addr, publish_status,
  launch_sandbox,
}
use muro.Sandbox.Manager.Launch.{build_launch_spec, capture_handle_info}

-- the last `switch` of `watchLoop`
unfoldable pub final_state : Bytes → Bool → SandboxState × Event
final_state policy clean_exit =
    if bytes_eq policy (codes "on-failure") && not clean_exit
    then (SandboxState.restart_exhausted, exhausted)
    else if clean_exit
    then (SandboxState.stopped, halted)
    else (SandboxState.crashed, crashed_event)

module _ (env : Env) where
  -- `watchLoop` from the decision to restart to the sleep
  unfoldable pub back_off : Bytes → Bytes → Sandbox → Manager → Manager
  back_off namespace name sb m =
      let sb' = record sb {
        restart_count = suc sb.restart_count;
        state = SandboxState.restarting;
      } in
      let m₁ = publish_status env namespace name restarting_event (save env sb' m).1 in
      record (note (sleep (backoff_delay sb'.restart_count)) m₁) {
        sleepers = record { namespace = namespace; name = name; sandbox = sb' } ∷ m₁.sleepers;
      }

  -- `watchLoop` when it does not restart
  unfoldable pub give_up : Bytes → Bytes → Sandbox → Bool → Manager → Manager
  unfolding final_state
  give_up namespace name sb clean_exit m =
      let (s, event) = final_state sb.restart_policy clean_exit in
      let m₁ = publish_status env namespace name event (clear_handle (key namespace name) m) in
      (save env (record sb { state = s }) m₁).1

  -- `watchLoop` from the process's exit on, for a sandbox that is still there
  unfoldable pub decide : Bytes → Bytes → Sandbox → Bool → Manager → Manager
  unfolding back_off give_up
  decide namespace name sb clean_exit m =
      if should_restart sb.restart_policy sb.restart_count env.max_restart_attempts clean_exit
      then back_off namespace name sb m
      else give_up namespace name sb clean_exit m

  -- `watchLoop` from the process's exit on
  unfoldable pub watch_exited : Watcher → Bool → Manager → Manager
  unfolding decide
  watch_exited w clean_exit m =
      if epoch_of (key w.namespace w.name) m.epoch == w.epoch
      then elim (get w.namespace w.name m.store) [
        | none ↦ m
        | some sb ↦ decide w.namespace w.name sb clean_exit m
      ]
      else m

  -- `watchLoop` after a failed launch
  unfoldable pub give_up_launch : Bytes → Bytes → Sandbox → Manager → Manager
  give_up_launch namespace name sb m =
      let m₁ = (save env (record sb { state = SandboxState.crashed }) m).1 in
      clear_handle (key namespace name) (publish_status env namespace name crashed_event m₁)

  -- `watchLoop` after a launch, up to the loop's next turn
  unfoldable pub take_over : Bytes → Bytes → Sandbox → Handle → Manager → Manager
  take_over namespace name sb h m =
      let sb' = record (capture_handle_info sb h) { state = SandboxState.running } in
      let m₁ = register_handle_network_addr env sb.id h (save env sb' m).1 in
      let m₂ = publish_status env namespace name restarted m₁ in
      let (epoch, m₃) = set_handle (key namespace name) h m₂ in watch namespace name h epoch m₃

  -- `watchLoop` after the sleep
  unfoldable pub watch_wake : Sleeper → Manager → Manager
  unfolding give_up_launch take_over
  watch_wake s m =
      let spec = build_launch_spec env s.sandbox in
      let m' = (launch_sandbox env spec m).1 in
      elim (env.launches m.trace spec) [
        | none ↦ give_up_launch s.namespace s.name s.sandbox m'
        | some h ↦ take_over s.namespace s.name s.sandbox h m'
      ]
