-- ===== src/Control/Kept.antt =====
-- internal/control/server.go: what the handlers do to the manager.
use muro.Base.{
  ◌≡◌, refl, ℕ, suc, Bool, true, false, [], Option, none, some, Bytes, bytes_eq, if◌then◌else◌,
  Bool-cases, inl, inr, arith,
}
use muro.Base
use muro.Config.Validate
use muro.Config.Extend
use muro.Config.Extend.{Loaded, load_profile}
use muro.State.Store.{Sandbox, get}
use muro.Sandbox.Manager.{Env, Manager, Result}
use muro.Sandbox.Manager.Run.{default_namespace}
use muro.Sandbox.Manager.Delete.{merge}
use muro.Sandbox.Manager.Reach.{
  Follows, at_once, followed, runs, updates, reloads, restarts, stops_sandbox, deletes,
  merges_worktree,
}
use muro.Control.Protocol.{
  Request, failure, no_mount_path, commit, Payload, Decoder, BrokerStatusResponse,
  SandboxRunRequest, type_status, type_sandbox_show, type_sandbox_run, type_sandbox_update,
  type_sandbox_reload, type_sandbox_restart, type_sandbox_stop, type_sandbox_delete,
  type_sandbox_merge, type_broker_status, type_daemon_shutdown,
}
use muro.Control.Handlers.{
  Handler, with_payload, checked, answer, show, run_loaded, with_agent, selector_of, delta_of,
  dispatch, handle_status, handle_sandbox_show, handle_sandbox_run, handle_sandbox_update,
  handle_sandbox_reload, handle_sandbox_restart, handle_sandbox_stop, handle_sandbox_delete,
  handle_sandbox_merge, handle_broker_status,
}

module _ (env : Env) where
  -- a handler that takes the manager from one state to another by its operations
  pub record Keeps (handle : Handler) : Type 0 where
    pub keeps : (m : Manager) → Follows env m (handle m).1

  with_payload-Keeps :
      {A : Type 0} (o : Option A) (handle : A → Handler)
      → ((a : A) → Keeps (handle a))
      → Keeps (with_payload o handle)
  unfolding with_payload
  with_payload-Keeps none handle h = record { keeps = λ m. at_once }
  with_payload-Keeps (some a) handle h = record { keeps = (h a).keeps }

  checked-Keeps : (c : Validate.Check) (handle : Handler) → Keeps handle → Keeps (checked c handle)
  unfolding checked
  checked-Keeps (Base.ok _) handle h = record { keeps = h.keeps }
  checked-Keeps (Base.err f) handle h = record { keeps = λ m. at_once }

  answer-Keeps :
      {A : Type 0} (view : Manager → A → Payload) (act : Manager → Result A × Manager)
      → ((m : Manager) → Follows env m (act m).1)
      → Keeps (answer view act)
  unfolding answer
  answer-Keeps view act h = record { keeps = h }

  if-Keeps : (c : Bool) (f g : Handler) → Keeps f → Keeps g → Keeps (if c then f else g)
  if-Keeps true f g h k = h
  if-Keeps false f g h k = k

  module _ (d : Decoder) (format_time : ℕ → Bytes) (broker : Option BrokerStatusResponse) where
    show-Keeps : (o : Option Sandbox) → Keeps (show d env format_time broker o)
    unfolding show
    show-Keeps none = record { keeps = λ m. at_once }
    show-Keeps (some sb) = record { keeps = λ m. at_once }

    handle_status-Keeps : (payload : Bytes) → Keeps (handle_status d env format_time broker payload)
    unfolding handle_status
    handle_status-Keeps payload =
        with_payload-Keeps (d.status payload) _ λ req. record { keeps = λ m. at_once }

    handle_sandbox_show-Keeps :
        (payload : Bytes) → Keeps (handle_sandbox_show d env format_time broker payload)
    unfolding handle_sandbox_show
    handle_sandbox_show-Keeps payload = with_payload-Keeps (d.show payload) _ λ req.
        checked-Keeps _ _ (record {
          keeps =
              λ m. (show-Keeps (get (default_namespace req.namespace) req.name m.store)).keeps m;
        })

    run_loaded-Keeps :
        (req : SandboxRunRequest) (p : Loaded) → Keeps (run_loaded d env format_time broker req p)
    unfolding run_loaded
    run_loaded-Keeps req (Extend.profile p) =
        answer-Keeps _ _ λ m. followed at_once (runs (with_agent req p) req.name req.namespace)
    run_loaded-Keeps req Extend.cycle = record { keeps = λ m. at_once }
    run_loaded-Keeps req Extend.unreadable = record { keeps = λ m. at_once }
    run_loaded-Keeps req Extend.out_of_fuel = record { keeps = λ m. at_once }

    handle_sandbox_run-Keeps :
        (payload : Bytes) → Keeps (handle_sandbox_run d env format_time broker payload)
    unfolding handle_sandbox_run
    handle_sandbox_run-Keeps payload = with_payload-Keeps (d.run payload) _ λ req.
        checked-Keeps _ _ (record {
          keeps = λ m.
              (run_loaded-Keeps req (
                  load_profile (env.read_profile m.trace) (suc env.profile_count)
                    req.profile)).keeps
                m;
        })

    handle_sandbox_update-Keeps :
        (payload : Bytes) → Keeps (handle_sandbox_update d env format_time broker payload)
    unfolding handle_sandbox_update
    handle_sandbox_update-Keeps payload = with_payload-Keeps (d.update payload) _ λ req.
        checked-Keeps _ _ (
          checked-Keeps _ _
            (answer-Keeps _ _ λ m. followed at_once (updates (selector_of req) (delta_of req))))

    handle_sandbox_reload-Keeps :
        (payload : Bytes) → Keeps (handle_sandbox_reload d env format_time broker payload)
    unfolding handle_sandbox_reload
    handle_sandbox_reload-Keeps payload = with_payload-Keeps (d.reload payload) _ λ req.
        checked-Keeps _ _ (
          answer-Keeps _ _
            λ m. followed at_once (reloads (default_namespace req.namespace) req.name))

    handle_sandbox_restart-Keeps :
        (payload : Bytes) → Keeps (handle_sandbox_restart d env format_time broker payload)
    unfolding handle_sandbox_restart
    handle_sandbox_restart-Keeps payload = with_payload-Keeps (d.restart payload) _ λ req.
        checked-Keeps _ _ (
          answer-Keeps _ _ λ m.
            followed at_once (restarts (default_namespace req.namespace) req.name req.from_profile))

    handle_sandbox_stop-Keeps :
        (payload : Bytes) → Keeps (handle_sandbox_stop d env format_time broker payload)
    unfolding handle_sandbox_stop
    handle_sandbox_stop-Keeps payload = with_payload-Keeps (d.show payload) _ λ req.
        checked-Keeps _ _ (
          answer-Keeps _ _
            λ m. followed at_once (stops_sandbox (default_namespace req.namespace) req.name))

    handle_sandbox_delete-Keeps :
        (payload : Bytes) → Keeps (handle_sandbox_delete d env format_time broker payload)
    unfolding handle_sandbox_delete
    handle_sandbox_delete-Keeps payload = with_payload-Keeps (d.delete payload) _ λ req.
        checked-Keeps _ _ (
          answer-Keeps _ _ λ m.
            followed at_once
              (deletes (default_namespace req.namespace) req.name req.discard_worktrees))

    handle_sandbox_merge-Keeps :
        (payload : Bytes) → Keeps (handle_sandbox_merge d env format_time broker payload)
    unfolding handle_sandbox_merge
    handle_sandbox_merge-Keeps payload = with_payload-Keeps (d.merge payload) _ λ req.
        checked-Keeps _ _ (
          if-Keeps (bytes_eq req.mount_path []) (λ m. (failure no_mount_path, m))
            (answer (λ _ c. commit c)
              (merge env (default_namespace req.namespace) req.name req.mount_path))
            (record { keeps = λ m. at_once })
            (answer-Keeps _ _ λ m.
              followed at_once
                (merges_worktree (default_namespace req.namespace) req.name req.mount_path)))

    broker_case :
        (b : Option BrokerStatusResponse) (m : Manager)
        → Follows env m (handle_broker_status d env format_time b m).1
    unfolding handle_broker_status
    broker_case none m = at_once
    broker_case (some s) m = at_once

    handle_broker_status-Keeps : Keeps (handle_broker_status d env format_time broker)
    unfolding handle_broker_status
    handle_broker_status-Keeps = record { keeps = λ m. broker_case broker m }

    -- Whatever a request asks for and however it ends, it takes the manager from one state to the next
    -- by the manager's own operations.
    pub dispatch-Keeps : (req : Request) → Keeps (dispatch d env format_time broker req)
    unfolding dispatch
    dispatch-Keeps req =
        let is = bytes_eq req.type_name in
        if-Keeps (is type_status) _ _ (handle_status-Keeps req.payload) (
          if-Keeps (is type_sandbox_show) _ _ (handle_sandbox_show-Keeps req.payload) (
            if-Keeps (is type_sandbox_run) _ _ (handle_sandbox_run-Keeps req.payload) (
              if-Keeps (is type_sandbox_update) _ _ (handle_sandbox_update-Keeps req.payload) (
                if-Keeps (is type_sandbox_reload) _ _ (handle_sandbox_reload-Keeps req.payload) (
                  if-Keeps (is type_sandbox_restart) _ _ (handle_sandbox_restart-Keeps req.payload)
                    (if-Keeps (is type_sandbox_stop) _ _ (handle_sandbox_stop-Keeps req.payload) (
                      if-Keeps (is type_sandbox_delete) _ _
                        (handle_sandbox_delete-Keeps req.payload)
                        (if-Keeps (is type_sandbox_merge) _ _
                          (handle_sandbox_merge-Keeps req.payload)
                          (if-Keeps (is type_broker_status) _ _ handle_broker_status-Keeps (
                            if-Keeps (is type_daemon_shutdown) _ _ (record { keeps = λ m. at_once })
                              (record { keeps = λ m. at_once })))))))))))
