-- ===== src/Sandbox/Sockets/Tests.antt =====
-- The sockets of a sandbox on one request each.
use muro.Base.{
  inl, Bool, true, false, [], ◌∷◌, ◌++◌, Option, some, Bytes, codes, bytes_eq, has_prefix, split,
  trim_prefix,
}
use muro.Config.{Mount, GitPolicy}
use muro.Config.Paths.{clean, parts, resolve, clean_step, is_abs, join, pop}
use muro.GitProxy.Policy.{
  validate, validate_command, check_args, check_none, contains_string, translate_cwd, best_mount,
  better, is_longer, lies_in, host_path, resolve_repo, first_repo,
}
use muro.GitProxy.Handle.{Git, handle, dispatch, run_command}
use muro.Sandbox.Sockets.{
  AgentPublishRequest, ToolExecRequest, agent_conn, tool_conn, read_line_limited_bytes,
}
use muro.Sandbox.Sockets.Within.{Answered, Requested, agent_conn_lem, tool_conn-Ran}

abbrev addressed : Bytes → Option AgentPublishRequest
addressed line = some (record { to = line; broadcast = []; message = codes "hi" })

agent_conn_lem_example :
    Answered true
      (λ p. true)
      (codes "dev")
      (agent_conn true (λ p. true) (codes "dev") addressed (codes "dev/box" ++ 10 ∷ []))
agent_conn_lem_example =
    agent_conn_lem true (λ p. true) (codes "dev") addressed (codes "dev/box" ++ 10 ∷ [])

abbrev equal : Bytes → Bytes → Option Bool
equal pattern s = some (bytes_eq pattern s)

abbrev app : Mount
app = record { host = codes "/app"; sandbox_path = codes "/w"; mode = codes "rw" }

abbrev policy : GitPolicy
policy = record {
  repos =
      record {
        host = codes "/app";
        allowed_branches = [];
        allowed_remotes = [];
        worktree = false;
        mount_path = [];
      }
      ∷ [];
}

abbrev quiet : Git
quiet before call = some ([], [], 0)

abbrev asked : Bytes → Option ToolExecRequest
asked line = some (record { tool = codes "git"; argv = line ∷ []; cwd = codes "/w" })

tool_conn-Ran_example :
    Requested asked equal quiet (app ∷ []) policy (codes "status" ∷ []) (codes "status" ++ 10 ∷ [])
unfolding tool_conn read_line_limited_bytes handle validate validate_command dispatch run_command
    check_args check_none contains_string translate_cwd best_mount better is_longer lies_in
    host_path resolve_repo first_repo clean parts resolve clean_step is_abs join pop bytes_eq
    has_prefix trim_prefix split
tool_conn-Ran_example =
    tool_conn-Ran asked equal quiet (app ∷ []) policy (codes "status" ∷ [])
      (codes "status" ++ 10 ∷ []) (inl tt)
