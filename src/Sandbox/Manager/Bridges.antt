-- ===== src/Sandbox/Manager/Bridges.antt =====
-- internal/sandbox/manager.go: the sockets that serve a sandbox, one for messages and one for git. A
-- listener that does not start is no error.
use muro.Base.{
  Bool, true, false, ◌&&◌, not, List, [], ◌∷◌, ◌++◌, none, some, Bytes, codes, bytes_eq, in_set,
  if◌then◌else◌,
}
use muro.Config.{GitRepoPolicy}
use muro.Config.Paths.{slash, clean}
use muro.State.Store.{Sandbox, key}
use muro.Sandbox.Manager.Actions.{at, without}
use muro.Sandbox.Manager.{Env, Manager, note, listen, close, subscribe}

-- filepath.Join of a directory and the parts below it
abbrev pub below : Bytes → List Bytes → Bytes
below dir [] = clean dir
below dir (p ∷ ps) = below (if bytes_eq dir [] then p else dir ++ (slash ++ p)) ps

-- `AgentSocketPath` and `ToolSocketPath` (bwrap.go)
abbrev pub agent_socket_path : Bytes → Bytes → Bytes
agent_socket_path state_dir id = below state_dir (codes "sandboxes" ∷ id ∷ codes "agent.sock" ∷ [])

abbrev pub tool_socket_path : Bytes → Bytes → Bytes
tool_socket_path state_dir id = below state_dir (codes "sandboxes" ∷ id ∷ codes "tool.sock" ∷ [])

unfoldable pub drop_key : Bytes → List Bytes → List Bytes
drop_key id [] = []
drop_key id (x ∷ xs) = let rest = drop_key id xs in if bytes_eq x id then rest else x ∷ rest

abbrev pub has_repos : List GitRepoPolicy → Bool
has_repos [] = false
has_repos (r ∷ rs) = true

abbrev pub has_key : {A : Type 0} → Bytes → List (Bytes × A) → Bool
has_key k m = elim (at k m) [ some a ↦ true | none ↦ false ]

module _ (env : Env) where
  -- `pubsubEnabled`
  abbrev pub pubsub_enabled : Bool
  pubsub_enabled = not (bytes_eq env.pub_state_dir [])

  -- the listener of `startAgentBridge`
  unfoldable pub start_agent_listener : Sandbox → Manager → Manager
  start_agent_listener sb m =
      let path = agent_socket_path env.pub_state_dir sb.id in
      let m' = note (listen path) m in
      if in_set sb.id m.agent_sockets
      then m
      else if env.listens m.trace path
      then record m' { agent_sockets = sb.id ∷ m.agent_sockets }
      else m'

  -- the subscription of `startAgentBridge`
  unfoldable pub subscribe_inbox : Sandbox → Manager → Manager
  subscribe_inbox sb m =
      let k = key sb.namespace sb.name in
      let m' = note (subscribe sb.namespace sb.name) m in
      if env.has_subscriber && not (in_set k m.inbox_subscribed)
      then if env.subscribes m.trace sb.namespace sb.name
        then record m' { inbox_subscribed = k ∷ m.inbox_subscribed }
        else m'
      else m

  -- `startAgentBridge`
  unfoldable pub start_agent_bridge : Sandbox → Manager → Manager
  unfolding start_agent_listener subscribe_inbox
  start_agent_bridge sb m =
      if pubsub_enabled then subscribe_inbox sb (start_agent_listener sb m) else m

  -- `stopAgentBridge`
  unfoldable pub stop_agent_bridge : Bytes → Manager → Manager
  unfolding drop_key
  stop_agent_bridge id m =
      let m' = note (close (agent_socket_path env.pub_state_dir id)) m in
      if in_set id m.agent_sockets
      then record m' { agent_sockets = drop_key id m.agent_sockets }
      else m

  -- `startToolBridge`
  unfoldable pub start_tool_bridge : Sandbox → Manager → Manager
  unfolding at
  start_tool_bridge sb m =
      let path = tool_socket_path env.state_dir sb.id in
      let m' = note (listen path) m in
      if has_repos sb.git_policy.repos && not (has_key sb.id m.tool_sockets)
      then if env.listens m.trace path
        then record m' { tool_sockets = (sb.id, (sb.mounts, sb.git_policy)) ∷ m.tool_sockets }
        else m'
      else m

  -- `stopToolBridge`
  unfoldable pub stop_tool_bridge : Bytes → Manager → Manager
  unfolding without at
  stop_tool_bridge id m =
      let m' = note (close (tool_socket_path env.state_dir id)) m in
      if has_key id m.tool_sockets
      then record m' { tool_sockets = without id m.tool_sockets }
      else m
