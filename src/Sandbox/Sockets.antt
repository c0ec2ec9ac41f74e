-- ===== src/Sandbox/Sockets.antt =====
-- internal/sandbox/agentsocket.go and toolsocket.go: the one request that a connection of a sandbox's
-- sockets makes. `decode` is json.Unmarshal; the input ends where the sandbox closes the connection or
-- the deadline passes. The topics are those that the adapter of cmd/murod/main.go builds.
mod Tests
pub mod Within
use muro.Base.{
  ℕ, ◌*◌, Bool, true, false, not, List, [], ◌∷◌, ◌++◌, Option, none, some, Bytes, codes, bytes_eq,
  cut, length, ltb, ◌==◌, if◌then◌else◌,
}
use muro.Base
use muro.Config.{Mount, GitPolicy}
use muro.Config.Validate
use muro.Config.Validate.{valid_sandbox_name}
use muro.GitProxy.Policy.{Request}
use muro.GitProxy.Handle.{Call, Git, Outcome, handle}
use muro.Pubsub.Topics.{inbox_topic, broadcast_topic}

-- `maxAgentRequestSize` and `maxToolRequestSize`
abbrev pub max_request_size : ℕ
max_request_size = 256 * 1024

-- `readLineLimitedBytes`; `none` is its error
unfoldable pub read_line_limited_bytes : ℕ → Bytes → Bytes → Option Bytes
read_line_limited_bytes most so_far [] = none
read_line_limited_bytes most so_far (b ∷ input) =
    let longer = so_far ++ b ∷ [] in
    let rest = read_line_limited_bytes most longer input in
    if b == 10 then some so_far else if ltb most (length longer) then none else rest

-- `AgentPublishRequest`
pub record AgentPublishRequest : Type 0 where
  pub to : Bytes
  pub broadcast : Bytes
  pub message : Bytes

-- a call of `PublishInbox` or `PublishBroadcast`
pub data Published : Type 0 where
  to_inbox : Bytes → Bytes → Bytes → Published
  to_all : Bytes → Bytes → Bytes → Published

-- the topic of such a call
abbrev pub topic_of : Bytes → Published → Bytes
topic_of root (to_inbox namespace name message) = inbox_topic root namespace name
topic_of root (to_all namespace topic message) = broadcast_topic root namespace topic

-- why a request is refused
pub data Refusal : Type 0 where
  unreadable : Refusal
  malformed : Refusal
  not_one_target : Refusal
  no_broker : Refusal
  other_namespace : Refusal
  bad_name : Validate.Fault → Refusal
  not_delivered : Refusal

-- `AgentPublishResponse`
pub data AgentPublishResponse : Type 0 where
  accepted : AgentPublishResponse
  rejected : Refusal → AgentPublishResponse

-- `splitToTarget`
unfoldable pub split_to_target : Bytes → Bytes × Bytes
split_to_target arg = elim (cut b'/' arg) [
  | none ↦ ([], arg)
  | some (namespace, name) ↦ (namespace, name)
]

-- `connected` says that there is a publisher, `delivers` whether it reports no error.
module _ (connected : Bool) (delivers : Published → Bool) (own : Bytes) where
  -- a call of the publisher and the response to it
  abbrev pub deliver : Published → AgentPublishResponse × Option Published
  deliver p = ((if delivers p then accepted else rejected not_delivered), some p)

  -- `publish` after the check of the name
  abbrev pub to_named : Validate.Check → Published → AgentPublishResponse × Option Published
  to_named (Base.err f) p = (rejected (bad_name f), none)
  to_named (Base.ok _) p = deliver p

  -- the end of `publish`, for an inbox
  unfoldable pub publish_inbox : Bytes → Bytes × Bytes → AgentPublishResponse × Option Published
  publish_inbox message (given, name) =
      let ns = if bytes_eq given [] then own else given in
      if not (bytes_eq ns own)
      then (rejected other_namespace, none)
      else to_named (valid_sandbox_name name) (to_inbox ns name message)

  -- `publish`
  unfoldable pub publish : AgentPublishRequest → AgentPublishResponse × Option Published
  publish req =
      let has_to = not (bytes_eq req.to []) in
      let has_broadcast = not (bytes_eq req.broadcast []) in
      if (if has_to then has_broadcast else not has_broadcast)
      then (rejected not_one_target, none)
      else if not connected
      then (rejected no_broker, none)
      else if has_broadcast
      then deliver (to_all own req.broadcast req.message)
      else publish_inbox req.message (split_to_target req.to)

  -- `handleConn` of the agent socket
  unfoldable pub agent_conn :
      (Bytes → Option AgentPublishRequest) → Bytes → AgentPublishResponse × Option Published
  agent_conn decode input = elim (read_line_limited_bytes max_request_size [] input) [
    | none ↦ (rejected unreadable, none)
    | some line ↦ elim (decode line) [ none ↦ (rejected malformed, none) | some req ↦ publish req ]
  ]

-- `ToolExecRequest`
pub record ToolExecRequest : Type 0 where
  pub tool : Bytes
  pub argv : List Bytes
  pub cwd : Bytes

-- `ToolExecResponse`: the result of `Handle`, or an error before it
pub data ToolExecResponse : Type 0 where
  result : Outcome → ToolExecResponse
  failed_read : ToolExecResponse
  failed_decode : ToolExecResponse
  unsupported_tool : ToolExecResponse

-- `handleConn` of the tool socket, with the runs of git
unfoldable pub tool_conn :
    (Bytes → Option ToolExecRequest)
    → (Bytes → Bytes → Option Bool)
    → Git
    → List Mount
    → GitPolicy
    → List Bytes
    → Bytes
    → ToolExecResponse × List Call
tool_conn decode glob git mounts policy daemon input =
    elim (read_line_limited_bytes max_request_size [] input) [
      | none ↦ (failed_read, [])
      | some line ↦ elim (decode line) [
        | none ↦ (failed_decode, [])
        | some req ↦
            if not (bytes_eq req.tool (codes "git"))
            then (unsupported_tool, [])
            else (let (out, calls) =
                  handle glob git (record { argv = req.argv; cwd = req.cwd }) mounts policy
                    daemon in
                (result out, calls))
      ]
    ]
