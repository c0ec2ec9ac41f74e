-- ===== src/Sandbox/Manager/Orderly/Lifecycle.antt =====
-- internal/sandbox/manager.go: `Run`, `Restart` and `Stop` as evolutions of the manager.
use muro.Base.{Bool, Bytes, refl}
use muro.Config.Validate.{Profile}
use muro.State.Store.{Sandbox, SandboxState, key}
use muro.Sandbox.Manager.{
  Env, Handle, pure, started, restarted, halted, not_found, profile_failed, no_id, no_session,
}
use muro.Sandbox.Manager.Actions.{clear_handle}
use muro.Sandbox.Manager.Launch.{capture_handle_info}
use muro.Sandbox.Manager.Books.{stay, clear}
use muro.Sandbox.Manager.Frame.{
  Stillness, still, Still-trans, Evolution, stays, quietly, Orderly, bind-Orderly, if-Still,
  then-Orderly, publish_status-Still, save-Orderly, allow-Still, register_handle-Still,
  start_agent_bridge-Still, stop_agent_bridge-Still, start_tool_bridge-Still,
  stop_tool_bridge-Still, stop_handle-Still, launch-Still,
}
use muro.Sandbox.Manager.Run.{prepare, enroll, start, run}
use muro.Sandbox.Manager.Restart.{
  detach_client, loaded_profile, reload_profile, kill, rewatch, relaunch, restart, release,
  stop_sandbox,
}
use muro.Sandbox.Manager.Orderly.Calm.{resolve_fields-Calm}
use muro.Sandbox.Manager.Orderly.{
  enlist-Evolves, option-Orderly, if-Orderly, or_raise-Orderly, attempt-Orderly,
}

module _ (env : Env) where
  pub clear_handle-Evolves : (k : Bytes) → Evolution (clear_handle k)
  unfolding clear_handle
  clear_handle-Evolves k m = record { moves = clear k stay; keyed = λ h. h }

  pub kill-Orderly : (k : Bytes) → Orderly (kill env k)
  unfolding kill
  kill-Orderly k = bind-Orderly _ _ stays (λ o.
      option-Orderly o _ _ stays
        λ h. then-Orderly _ _ (clear_handle-Evolves k) λ m. quietly (stop_handle-Still env h m))

  prepare-Orderly : (profile : Profile) (name ns : Bytes) → Orderly (prepare env profile name ns)
  unfolding prepare
  prepare-Orderly profile name ns = bind-Orderly _ _ stays λ existing. then-Orderly _ _ stays (
      bind-Orderly _ _ stays λ a. or_raise-Orderly a no_id _ λ id. bind-Orderly _ _ stays λ b.
        or_raise-Orderly b no_session _ λ session.
          bind-Orderly _ _ (λ m. quietly (resolve_fields-Calm env profile ns name id m))
            λ fields. stays)

  enroll-Evolves : (sb : Sandbox) (h : Handle) → Evolution (enroll env sb h)
  unfolding enroll
  enroll-Evolves sb h m = enlist-Evolves sb.namespace sb.name h m m _ (still _ _ refl refl) (
      Still-trans (allow-Still env sb.id sb.allow_urls _) (
        Still-trans (register_handle-Still env sb.id h _)
          (publish_status-Still env sb.namespace sb.name started _)))

  start-Orderly : (sb : Sandbox) → Orderly (start env sb)
  unfolding start
  start-Orderly sb =
      then-Orderly _ _
        (λ m.
          quietly
            (Still-trans (start_agent_bridge-Still env sb m) (start_tool_bridge-Still env sb _)))
        (bind-Orderly _ _ (λ m. quietly (launch-Still env _ m))
          λ launched.
            option-Orderly launched _ _
              (then-Orderly _ _
                (λ m. quietly (
                  Still-trans (stop_agent_bridge-Still env sb.id m)
                    (stop_tool_bridge-Still env sb.id _)))
                stays)
              (λ h.
                attempt-Orderly _ _ _ (save-Orderly env _)
                  (λ e. then-Orderly _ _ (λ m. quietly (stop_handle-Still env h m)) stays)
                  (then-Orderly _ _ (enroll-Evolves (capture_handle_info sb h) h) stays)))

  pub run-Orderly :
      (profile : Profile) (name namespace : Bytes) → Orderly (run env profile name namespace)
  unfolding run
  run-Orderly profile name namespace =
      bind-Orderly _ _ (prepare-Orderly profile name _) start-Orderly

  pub reload_profile-Orderly :
      (namespace name : Bytes) (sb : Sandbox) → Orderly (reload_profile env namespace name sb)
  unfolding reload_profile
  reload_profile-Orderly namespace name sb = bind-Orderly _ _ stays λ a.
      or_raise-Orderly (loaded_profile a) profile_failed _ λ profile.
        bind-Orderly _ _ (λ m. quietly (resolve_fields-Calm env profile namespace name sb.id m))
          λ fields. then-Orderly _ _ (λ m. quietly (stop_tool_bridge-Still env sb.id m)) stays

  rewatch-Evolves :
      (namespace name : Bytes) (sb : Sandbox) (h : Handle)
      → Evolution (rewatch env namespace name sb h)
  unfolding rewatch
  rewatch-Evolves namespace name sb h m =
      enlist-Evolves namespace name h m _ _
        (Still-trans (allow-Still env sb.id sb.allow_urls m) (register_handle-Still env sb.id h _))
        (publish_status-Still env namespace name restarted _)

  pub relaunch-Orderly :
      (namespace name : Bytes) (sb : Sandbox) → Orderly (relaunch env namespace name sb)
  unfolding relaunch
  relaunch-Orderly namespace name sb =
      bind-Orderly _ _ (λ m. quietly (launch-Still env _ m))
        λ launched. option-Orderly launched _ _ (save-Orderly env _) λ h.
          then-Orderly _ _ (save-Orderly env _) (
            rewatch-Evolves namespace name
              (record (capture_handle_info sb h) { state = SandboxState.running }) h)

  pub detach_client-Still : (k : Bytes) → Stillness (detach_client k)
  unfolding detach_client
  detach_client-Still k m = still _ _ refl refl

  pub restart-Orderly :
      (namespace name : Bytes) (from_profile : Bool)
      → Orderly (restart env namespace name from_profile)
  unfolding restart
  restart-Orderly namespace name from_profile = bind-Orderly _ _ stays λ found.
      or_raise-Orderly found not_found _ λ live.
        bind-Orderly _ _
          (if-Orderly from_profile (reload_profile env namespace name live) (pure live)
            (reload_profile-Orderly namespace name live) stays)
          λ sb.
            then-Orderly _ _ (λ m. quietly (detach_client-Still (key namespace name) m))
              (then-Orderly _ _ (kill-Orderly (key namespace name)) (
                then-Orderly _ _
                  (λ m. quietly (
                    if-Still from_profile (start_tool_bridge-Still env sb m) (still _ _ refl refl)))
                  (relaunch-Orderly namespace name sb)))

  pub stop_sandbox-Orderly : (namespace name : Bytes) → Orderly (stop_sandbox env namespace name)
  unfolding stop_sandbox release
  stop_sandbox-Orderly namespace name = bind-Orderly _ _ stays λ found.
      or_raise-Orderly found not_found _ λ sb.
        then-Orderly _ _
          (λ m. quietly (
            Still-trans (detach_client-Still (key namespace name) m) (
              Still-trans (stop_agent_bridge-Still env sb.id _)
                (stop_tool_bridge-Still env sb.id _))))
          (then-Orderly _ _ (save-Orderly env _) (
            then-Orderly _ _ (kill-Orderly (key namespace name))
              (λ m. quietly (publish_status-Still env namespace name halted m))))
