-- ===== src/Control/Handlers.antt =====
-- internal/control/server.go: `dispatch` and the handlers, as functions of the manager.
use muro.Base.{
  ℕ, suc, Bool, true, false, not, List, [], ◌∷◌, Option, none, some, Bytes, codes, bytes_eq, map,
  if◌then◌else◌,
}
use muro.Base
use muro.Config.Validate
use muro.Config.Validate.{Profile, valid_sandbox_name}
use muro.Config.Extend
use muro.Config.Extend.{Loaded, load_profile}
use muro.State.Store.{
  Sandbox, SandboxState, WorktreeInfo, running, stopped, reload_pending, crashed, restarting,
  restart_exhausted, list, get,
}
use muro.Sandbox.Manager.{Env, Manager, Result, ok, err}
use muro.Sandbox.Manager.Run.{run, default_namespace}
use muro.Sandbox.Manager.Update.{Selector, ConfigDelta, update, reload}
use muro.Sandbox.Manager.Restart.{restart, stop_sandbox}
use muro.Sandbox.Manager.Delete.{delete_sandbox, merge}
use muro.Control.Protocol.{
  Request, Response, Payload, Decoder, WorktreeView, SandboxView, SandboxRunRequest,
  SandboxUpdateRequest, BrokerStatusResponse, okay, failure, sandboxes, sandbox, results, applied,
  commit, broker_status, done, bad_payload, bad_name, load_profile_failed, refused, not_found,
  no_mount_path, unknown_type, type_status, type_sandbox_show, type_sandbox_run,
  type_sandbox_update, type_sandbox_reload, type_sandbox_restart, type_sandbox_stop,
  type_sandbox_delete, type_sandbox_merge, type_broker_status, type_daemon_shutdown,
}

-- `validateNamespaceName`
unfoldable pub validate_namespace_name : Bytes → Bytes → Validate.Check
validate_namespace_name namespace name =
    Base.◌>>◌ (valid_sandbox_name name)
      (if bytes_eq namespace [] then Base.ok tt else valid_sandbox_name namespace)

-- the texts of `SandboxState`
unfoldable pub state_text : SandboxState → Bytes
state_text running = codes "running"
state_text stopped = codes "stopped"
state_text reload_pending = codes "reload-pending"
state_text crashed = codes "crashed"
state_text restarting = codes "restarting"
state_text restart_exhausted = codes "restart-exhausted"

-- what a request does: its response, and the manager after it
abbrev pub Handler : Type 0
Handler = Manager → Response × Manager

-- a payload that may not parse
unfoldable pub with_payload : {A : Type 0} → Option A → (A → Handler) → Handler
with_payload none handle m = (failure bad_payload, m)
with_payload (some a) handle m = handle a m

-- a name that may be refused
unfoldable pub checked : Validate.Check → Handler → Handler
checked (Base.ok _) handle m = handle m
checked (Base.err f) handle m = (failure (bad_name f), m)

abbrev pub respond : {A : Type 0} → (A → Payload) → Result A → Response
respond view (ok a) = okay (view a)
respond view (err e) = failure (refused e)

-- the response to the result of an operation, as the manager shows it after that
unfoldable pub answer :
    {A : Type 0} → (Manager → A → Payload) → (Manager → Result A × Manager) → Handler
answer view act m = let (r, m') = act m in (respond (view m') r, m')

-- the agent and its arguments, where the request names them
unfoldable pub with_agent : SandboxRunRequest → Profile → Profile
with_agent req p = record p {
  agent = if bytes_eq req.agent [] then p.agent else req.agent;
  agent_args = elim req.agent_args [ [] ↦ p.agent_args | a ∷ rest ↦ a ∷ rest ];
}

-- whether the registry no longer holds the sandbox as pending
abbrev pub was_applied : Option Sandbox → Bool
was_applied none = true
was_applied (some sb) = elim sb.state [ reload_pending ↦ false | _ ↦ true ]

-- the delta of `handleSandboxUpdate`
abbrev pub delta_of : SandboxUpdateRequest → ConfigDelta
delta_of req = record {
  add_mounts =
      map (λ v. record { host = v.host; sandbox_path = v.sandbox_path; mode = v.mode }) req.mounts;
  allow_urls = req.allow_urls;
  deny_urls = req.deny_urls;
}

-- the selector of `handleSandboxUpdate`
abbrev pub selector_of : SandboxUpdateRequest → Selector
selector_of req = record {
  name = req.selector.name;
  namespace = req.namespace;
  profile = req.selector.profile;
  all = req.selector.all;
}

-- `format_time` is Format(time.RFC3339); `broker` is what its Status says, if there is one
module _ (decode : Decoder) (env : Env) (format_time : ℕ → Bytes)
    (broker : Option BrokerStatusResponse) where
  -- a worktree in `toView`; a failed check shows as false
  unfoldable pub worktree_view : Manager → WorktreeInfo → WorktreeView
  worktree_view m wt = record {
    mount_path = wt.mount_path;
    host = wt.host;
    branch = wt.branch;
    base_branch = wt.base_branch;
    has_unmerged_commits = elim (env.has_unmerged m.trace wt) [ none ↦ false | some has ↦ has ];
  }

  -- `toView`
  unfoldable pub to_view : Manager → Sandbox → SandboxView
  unfolding state_text worktree_view
  to_view m sb = record {
    id = sb.id;
    name = sb.name;
    namespace = sb.namespace;
    profile = sb.profile;
    agent = sb.agent;
    pid = sb.pid;
    state = state_text sb.state;
    started_at = format_time sb.started_at;
    mounts =
        map (λ m. record { host = m.host; sandbox_path = m.sandbox_path; mode = m.mode }) sb.mounts;
    tools = map (λ t. record { host = t.host; as_name = t.as_name }) sb.tools;
    allow_urls = sb.allow_urls;
    restart_policy = sb.restart_policy;
    restart_count = sb.restart_count;
    worktrees = map (worktree_view m) sb.worktrees;
  }

  -- `handleStatus`
  unfoldable pub handle_status : Bytes → Handler
  unfolding to_view
  handle_status payload =
      with_payload (decode.status payload)
        λ req m. (okay (sandboxes (map (to_view m) (list env.sort req.namespace m.store))), m)

  -- the lookup of `handleSandboxShow`
  unfoldable pub show : Option Sandbox → Handler
  unfolding to_view
  show none m = (failure not_found, m)
  show (some sb) m = (okay (sandbox (to_view m sb)), m)

  -- `handleSandboxShow`
  unfoldable pub handle_sandbox_show : Bytes → Handler
  unfolding show
  handle_sandbox_show payload = with_payload (decode.show payload) λ req.
      checked (validate_namespace_name req.namespace req.name)
        λ m. show (get (default_namespace req.namespace) req.name m.store) m

  -- the part of `handleSandboxRun` after LoadProfile
  unfoldable pub run_loaded : SandboxRunRequest → Loaded → Handler
  run_loaded req (Extend.profile p) m =
      answer (λ m sb. sandbox (to_view m sb)) (run env (with_agent req p) req.name req.namespace) m
  run_loaded req failed m = (failure (load_profile_failed failed), m)

  -- `handleSandboxRun`
  unfoldable pub handle_sandbox_run : Bytes → Handler
  unfolding run_loaded
  handle_sandbox_run payload = with_payload (decode.run payload) λ req.
      checked (validate_namespace_name req.namespace req.name) λ m.
        run_loaded req (load_profile (env.read_profile m.trace) (suc env.profile_count) req.profile)
          m

  -- the names that `handleSandboxUpdate` checks where they are given
  unfoldable pub check_given : Bytes → Validate.Check
  check_given s = if bytes_eq s [] then Base.ok tt else valid_sandbox_name s

  -- `handleSandboxUpdate`
  unfoldable pub handle_sandbox_update : Bytes → Handler
  handle_sandbox_update payload = with_payload (decode.update payload) λ req.
      checked (check_given req.selector.name) (
        checked (check_given req.namespace)
          (answer (λ m rs. results rs) (update env (selector_of req) (delta_of req))))

  -- `handleSandboxReload`
  unfoldable pub handle_sandbox_reload : Bytes → Handler
  handle_sandbox_reload payload = with_payload (decode.reload payload) λ req.
      checked (validate_namespace_name req.namespace req.name) (
        answer
          (λ m _. applied (was_applied (get (default_namespace req.namespace) req.name m.store)))
          (reload env (default_namespace req.namespace) req.name))

  -- `handleSandboxRestart`
  unfoldable pub handle_sandbox_restart : Bytes → Handler
  handle_sandbox_restart payload = with_payload (decode.restart payload) λ req.
      checked (validate_namespace_name req.namespace req.name) (
        answer (λ _ _. done)
          (restart env (default_namespace req.namespace) req.name req.from_profile))

  -- `handleSandboxStop`
  unfoldable pub handle_sandbox_stop : Bytes → Handler
  handle_sandbox_stop payload = with_payload (decode.show payload) λ req.
      checked (validate_namespace_name req.namespace req.name)
        (answer (λ _ _. done) (stop_sandbox env (default_namespace req.namespace) req.name))

  -- `handleSandboxDelete`
  unfoldable pub handle_sandbox_delete : Bytes → Handler
  handle_sandbox_delete payload = with_payload (decode.delete payload) λ req.
      checked (validate_namespace_name req.namespace req.name) (
        answer (λ _ _. done)
          (delete_sandbox env (default_namespace req.namespace) req.name req.discard_worktrees))

  -- `handleSandboxMerge`
  unfoldable pub handle_sandbox_merge : Bytes → Handler
  handle_sandbox_merge payload = with_payload (decode.merge payload) λ req.
      checked (validate_namespace_name req.namespace req.name) (
        if bytes_eq req.mount_path []
        then (λ m. (failure no_mount_path, m))
        else answer (λ _ c. commit c)
            (merge env (default_namespace req.namespace) req.name req.mount_path))

  -- `handleBrokerStatus`
  unfoldable pub handle_broker_status : Handler
  handle_broker_status m = elim broker [
    | none ↦ (
      okay (
          broker_status (record {
            connected = false;
            address = [];
            last_error = codes "broker not configured";
          })),
      m,
    )
    | some status ↦ (okay (broker_status status), m)
  ]

  -- `dispatch`
  unfoldable pub dispatch : Request → Handler
  dispatch req =
      let is = bytes_eq req.type_name in
      if is type_status
      then handle_status req.payload
      else if is type_sandbox_show
      then handle_sandbox_show req.payload
      else if is type_sandbox_run
      then handle_sandbox_run req.payload
      else if is type_sandbox_update
      then handle_sandbox_update req.payload
      else if is type_sandbox_reload
      then handle_sandbox_reload req.payload
      else if is type_sandbox_restart
      then handle_sandbox_restart req.payload
      else if is type_sandbox_stop
      then handle_sandbox_stop req.payload
      else if is type_sandbox_delete
      then handle_sandbox_delete req.payload
      else if is type_sandbox_merge
      then handle_sandbox_merge req.payload
      else if is type_broker_status
      then handle_broker_status
      else if is type_daemon_shutdown
      then (λ m. (okay done, m))
      else (λ m. (failure (unknown_type req.type_name), m))
