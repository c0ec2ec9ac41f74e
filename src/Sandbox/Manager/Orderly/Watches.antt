-- ===== src/Sandbox/Manager/Orderly/Watches.antt =====
-- internal/sandbox/manager.go: `Reattach` and the two steps of `watchLoop` as evolutions of the manager.
use muro.Base.{
  ◌==◌, Bool, true, false, List, [], ◌∷◌, Option, none, some, Bytes, if◌then◌else◌, refl,
}
use muro.State.Store.{Sandbox, key, get, is_running, list}
use muro.Sandbox.Manager.{
  Env, Manager, Watcher, Sleeper, Handle, pure, reattach_failed, restarting_event, crashed_event,
  restarted,
}
use muro.Sandbox.Manager.Actions.{epoch_of}
use muro.Sandbox.Manager.Launch.{build_launch_spec}
use muro.Sandbox.Restart.{should_restart}
use muro.Sandbox.Manager.Frame.{
  still, Still-trans, Evolves, Evolution, Evolves-trans, stays, quietly, Orderly, bind-Orderly,
  then-Orderly, publish_status-Still, save-Orderly, allow-Still, register-Still,
  register_handle-Still, start_agent_bridge-Still, start_tool_bridge-Still, launch-Still,
  note-Still,
}
use muro.Sandbox.Manager.Orderly.{enlist-Evolves, if-Orderly, or_raise-Orderly}
use muro.Sandbox.Manager.Orderly.Lifecycle.{clear_handle-Evolves}
use muro.Sandbox.Manager.Reattach.{resume, reattach_sandbox, reattach_each, reattach_all}
use muro.Sandbox.Manager.Watch.{
  final_state, back_off, give_up, decide, watch_exited, give_up_launch, take_over, watch_wake,
}

module _ (env : Env) where
  resume-Evolves : (sb : Sandbox) (h : Handle) → Evolution (resume env sb h)
  unfolding resume
  resume-Evolves sb h m =
      enlist-Evolves sb.namespace sb.name h m m _ (still _ _ refl refl) (
        Still-trans (allow-Still env sb.id sb.allow_urls _)
          (register-Still env sb.id sb.net_addr _))

  reattach_sandbox-Orderly : (sb : Sandbox) → Orderly (reattach_sandbox env sb)
  unfolding reattach_sandbox
  reattach_sandbox-Orderly sb = then-Orderly _ _ stays (
      then-Orderly _ _
        (λ m.
          quietly
            (Still-trans (start_agent_bridge-Still env sb m) (start_tool_bridge-Still env sb _)))
        (bind-Orderly _ _ stays λ reattached.
          then-Orderly _ _ (λ m. quietly (note-Still _ m))
            (or_raise-Orderly reattached reattach_failed _ (resume-Evolves sb))))

  reattach_each-Evolves : (sbs : List Sandbox) (m : Manager) → Evolves m (reattach_each env sbs m).1
  unfolding reattach_each
  reattach_each-Evolves [] m = stays m
  reattach_each-Evolves (sb ∷ sbs) m =
      Evolves-trans
        (if-Orderly (is_running sb.state) (reattach_sandbox env sb) (pure tt)
          (reattach_sandbox-Orderly sb) stays m)
        (reattach_each-Evolves sbs _)

  pub reattach_all-Evolves : (m : Manager) → Evolves m (reattach_all env m).1
  unfolding reattach_all
  reattach_all-Evolves m = reattach_each-Evolves (list env.sort [] m.store) m

  back_off-Evolves :
      (namespace name : Bytes) (sb : Sandbox) → Evolution (back_off env namespace name sb)
  unfolding back_off
  back_off-Evolves namespace name sb m = Evolves-trans (save-Orderly env _ m) (
      quietly (
        Still-trans (publish_status-Still env namespace name restarting_event _)
          (still _ _ refl refl)))

  give_up-Evolves :
      (namespace name : Bytes) (sb : Sandbox) (clean_exit : Bool)
      → Evolution (give_up env namespace name sb clean_exit)
  unfolding give_up
  give_up-Evolves namespace name sb clean_exit m =
      Evolves-trans (clear_handle-Evolves env (key namespace name) m) (
        Evolves-trans
          (quietly (
            publish_status-Still env namespace name (final_state sb.restart_policy clean_exit).1 _))
          (save-Orderly env _ _))

  if-Evolves :
      {m n o : Manager} (c : Bool) → Evolves m n → Evolves m o → Evolves m (if c then n else o)
  if-Evolves true p q = p
  if-Evolves false p q = q

  decide-Evolves :
      (namespace name : Bytes) (sb : Sandbox) (clean_exit : Bool)
      → Evolution (decide env namespace name sb clean_exit)
  unfolding decide
  decide-Evolves namespace name sb clean_exit m =
      if-Evolves
        (should_restart sb.restart_policy sb.restart_count env.max_restart_attempts clean_exit)
        (back_off-Evolves namespace name sb m) (give_up-Evolves namespace name sb clean_exit m)

  found-Evolves :
      (o : Option Sandbox) (namespace name : Bytes) (clean_exit : Bool) (m : Manager)
      → Evolves m (elim o [ none ↦ m | some sb ↦ decide env namespace name sb clean_exit m ])
  found-Evolves none namespace name clean_exit m = stays m
  found-Evolves (some sb) namespace name clean_exit m =
      decide-Evolves namespace name sb clean_exit m

  pub watch_exited-Evolves :
      (w : Watcher) (clean_exit : Bool) → Evolution (watch_exited env w clean_exit)
  unfolding watch_exited
  watch_exited-Evolves w clean_exit m =
      if-Evolves (epoch_of (key w.namespace w.name) m.epoch == w.epoch)
        (found-Evolves (get w.namespace w.name m.store) w.namespace w.name clean_exit m) (stays m)

  give_up_launch-Evolves :
      (namespace name : Bytes) (sb : Sandbox) → Evolution (give_up_launch env namespace name sb)
  unfolding give_up_launch
  give_up_launch-Evolves namespace name sb m = Evolves-trans (save-Orderly env _ m) (
      Evolves-trans (quietly (publish_status-Still env namespace name crashed_event _))
        (clear_handle-Evolves env (key namespace name) _))

  take_over-Evolves :
      (namespace name : Bytes) (sb : Sandbox) (h : Handle)
      → Evolution (take_over env namespace name sb h)
  unfolding take_over
  take_over-Evolves namespace name sb h m = Evolves-trans (save-Orderly env _ m) (
      enlist-Evolves namespace name h _ _ _
        (Still-trans (register_handle-Still env sb.id h _)
          (publish_status-Still env namespace name restarted _))
        (still _ _ refl refl))

  woken-Evolves :
      (o : Option Handle) (s : Sleeper) (m : Manager)
      → Evolves m (elim o [
        | none ↦ give_up_launch env s.namespace s.name s.sandbox m
        | some h ↦ take_over env s.namespace s.name s.sandbox h m
      ])
  woken-Evolves none s m = give_up_launch-Evolves s.namespace s.name s.sandbox m
  woken-Evolves (some h) s m = take_over-Evolves s.namespace s.name s.sandbox h m

  pub watch_wake-Evolves : (s : Sleeper) → Evolution (watch_wake env s)
  unfolding watch_wake
  watch_wake-Evolves s m =
      Evolves-trans (quietly (launch-Still env (build_launch_spec env s.sandbox) m))
        (woken-Evolves (env.launches m.trace (build_launch_spec env s.sandbox)) s _)
