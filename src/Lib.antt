-- ===== src/Lib.antt =====
-- Models and theorems for muro, a daemon that runs coding agents in sandboxes.
--
-- The parts, and how they interact. A profile (internal/config) says what a sandbox gets: mounts, tools,
-- an allowlist of addresses and a git policy; it is validated before a sandbox is started. The daemon
-- keeps its sandboxes in a registry that it writes to a file (internal/state), together with a ring of the
-- network requests that were denied. A sandbox reaches the network only through the daemon's proxy
-- (internal/proxy), which reads the server name of a TLS connection and looks it up in the allowlist, and
-- it runs git only through a stub: the daemon checks the request against the policy, runs git on the host
-- and returns its output (internal/gitproxy). internal/sandbox holds the launching side: its manager runs,
-- updates, restarts, stops and deletes sandboxes, and one goroutine for each process watches for its exit;
-- a counter for each sandbox, its epoch, tells that goroutine whether its process is still the one that
-- counts. A sandbox may work in git worktrees of its own, which are merged or thrown away later
-- (internal/worktree). Clients drive the daemon over a socket, with one line of JSON for each request
-- (internal/control). Daemons that share a message broker claim the names of their sandboxes there
-- (internal/pubsub).
--
-- Which file models what:
--   Base      helpers: tests on numbers, lists, byte strings (a string is the list of its bytes), results
--   Config    the records of internal/config/profile.go and gitpolicy.go
--     Paths     path.Clean, ExpandHome and pathCoversOrEquals of internal/config/validate.go
--     Validate  ValidSandboxName and ValidateProfile of internal/config/validate.go
--     Extend    LoadProfile and mergeProfiles of internal/config/profile.go
--   State/Ring    Ring of internal/state/events.go: NewRing, Push, Last, Snapshot, LoadSnapshot
--   State/Store   internal/state/store.go, sandbox.go and reconcile.go: Put, Get, List, Delete,
--                 RecordDenied, Load, Reconcile; the store is passed along, with what its file holds
--   GitProxy/Policy     internal/gitproxy/policy.go: TranslateCwd, ResolveRepo, Validate
--   GitProxy/CapWriter  capWriter of internal/gitproxy/exec.go
--   GitProxy/Exec       ParsePushPorcelain, CheckPushPlan, CheckCurrentBranch of internal/gitproxy/exec.go
--   GitProxy/Handle     Handle of internal/gitproxy/orchestrate.go, with the runs of git that it makes
--   Proxy/Sni        ExtractSNI of internal/proxy/sni.go, in the stages of that function
--   Proxy/Allowlist  internal/proxy/allowlist.go: parseRule, Swap, AllowsHTTP, AllowsHost
--   Proxy/Server     internal/proxy/proxy.go: the server, its configuration, handleHTTP and handleCONNECT
--   Sandbox/Restart  internal/sandbox/restart.go
--   Sandbox/Attach   internal/sandbox/pty.go: the attach registry and the scanner for the detach keys
--   Sandbox/Urls     mergeMounts, cloneGitPolicy and applyURLDelta of internal/sandbox/mounts.go
--   Sandbox/Mounts   ResolveMounts of internal/sandbox/mounts.go
--   Sandbox/Bwrap    buildArgs of internal/sandbox/bwrap.go and gatewayProxyAddr of network.go
--   Sandbox/Sockets  handleConn and publish of internal/sandbox/agentsocket.go, handleConn of toolsocket.go
--   Sandbox/Addresses  outboundAddrAllocator of internal/sandbox/network.go
--   Sandbox/Manager  the types of internal/sandbox/manager.go and isolator.go, and the monad of its actions: an
--                    action takes the manager, with the effects it has had on the host, to a result and a manager
--     Actions, Bridges, Launch  the handles and epochs, the sockets, buildLaunchSpec and captureHandleInfo
--     Resolve                   resolveSandboxFieldsFromProfile, and the mounts of internal/sandbox/audio.go,
--                               privatedirs.go, instructions.go and worktree.go
--     Run, Reattach, Update, Restart, Delete, Attach   Run; Reattach and ReattachAll; Update and Reload; Restart
--                               and Stop; Delete and Merge; Attach
--     Watch                     watchLoop, in two turns, before and after its sleep
--     Reach                     one step of any operation or goroutine, and the states that steps lead to
--   Control/Protocol, Lines, Handlers, Session   internal/control/protocol.go and server.go: the messages,
--                    readLineLimited, dispatch and its handlers, handleConn
--   Control/Stream   handleAttach and handleLogs of internal/control/stream.go
--   Worktree/Git, Operations   internal/worktree/worktree.go, with what its functions run and write
--   Pubsub/Topics    internal/pubsub/topics.go
--   Pubsub/Claims    internal/pubsub/claims.go: ClaimSandbox, ReleaseClaim, currentRetained
--
-- Parameters. path.Match (`glob`), url.Parse (`url_parse`), the host's git (`git`), JSON (`marshal`,
-- `unmarshal`), sort.Slice (`sort`), LoadProfileRaw (`read`), the outcome of a disk write (`disk`), of a
-- signal (`signal`), of a subscription and of a published message are arguments. The manager's are the
-- fields of `Env`: its settings, and the answers of the isolator, the file system, the broker and git,
-- each a function of the effects so far, so that the same question can have another answer later. The
-- models of path.Clean, filepath.Base, filepath.Ext and net.SplitHostPort follow the standard library's
-- documentation.
--
-- The answers of the network are the fields of `Net`, those of a client's connection the fields of
-- `Conn`, those of git and of the files beside a worktree the fields of `Host`. A `Decoder` stands for
-- the JSON of the control API.
--
-- Bounds and fuel. The two loops of Proxy/Sni run on fuel: each round takes at least three bytes, and the
-- fuel is the length of the input. LoadProfile runs on fuel, and one more than there are profiles is
-- enough; `profile_count` is that number where the manager loads one. The loop of a client's connection
-- runs on fuel: each round takes a line, and the fuel is more than the bytes. Lengths in Proxy/Sni are
-- read from two or three bytes, so no sum wraps. The duration of a restart delay keeps its 64 bits. All
-- other loops are structural. Case folding and strings.TrimSpace are those of ASCII.
--
-- Not modelled: processes, listeners and terminals (the rest of internal/sandbox/bwrap.go and network.go,
-- shim.go, internal/ptyio), the relay of an open tunnel and the timeouts of internal/proxy, what an
-- attached terminal shows, the client of the control API, the command line and the terminal interface
-- (internal/cli, internal/tui), and the programs under cmd but for the topics that the daemon publishes
-- to. Locks are not modelled: every method runs whole, and so do every turn of a goroutine of watchLoop
-- and every request of a client, the session of an attached one included.
pub mod Base
pub mod State
pub mod Config
pub mod GitProxy
pub mod Proxy
pub mod Sandbox
pub mod Control
pub mod Worktree
pub mod Pubsub
