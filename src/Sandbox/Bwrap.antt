-- ===== src/Sandbox/Bwrap.antt =====
-- internal/sandbox/bwrap.go: the arguments that bwrap is run with. A map is a list in which the first entry
-- for a key counts; sort.Strings is the parameter `sort`.
use muro.Base.{
  ◌==◌, List, [], ◌∷◌, ◌++◌, Option, none, some, Bytes, codes, bytes_eq, bytes_eq_iff,
  if◌then◌else◌, ◌≡◌, refl, arith,
}
use muro.Config.{Mount}
use muro.Config.Paths.{slash}
use muro.Config.Validate.{tool_root}
use muro.Sandbox.Manager.{LaunchSpec}

abbrev Env : Type 0
Env = List (Bytes × Bytes)

-- the flags that `buildArgs` begins with
abbrev isolation_args : List Bytes
isolation_args =
    codes "--unshare-user"
    ∷ codes "--unshare-pid"
    ∷ codes "--unshare-ipc"
    ∷ codes "--unshare-uts"
    ∷ codes "--unshare-cgroup"
    ∷ codes "--unshare-net"
    ∷ codes "--uid"
    ∷ codes "0"
    ∷ codes "--gid"
    ∷ codes "0"
    ∷ codes "--proc"
    ∷ codes "/proc"
    ∷ codes "--dev"
    ∷ codes "/dev"
    ∷ codes "--tmpfs"
    ∷ codes "/tmp"
    ∷ []

-- a mount of the daemon's own, if there is something to mount
abbrev extra_mount : Bytes → Bytes → Bytes → List Mount
extra_mount [] path mode = []
extra_mount (c ∷ host) path mode = record { host = c ∷ host; sandbox_path = path; mode = mode } ∷ []

-- the mounts of `buildArgs`: the sockets and the git stub come after the sandbox's own; `stub` is
-- GitStubHostPath
unfoldable all_mounts : LaunchSpec → Bytes → List Mount
all_mounts spec stub =
    spec.mounts
    ++ (extra_mount spec.agent_socket_path (codes "/run/muro/agent.sock") (codes "rw")
        ++ (extra_mount spec.tool_socket_path (codes "/run/muro/tool.sock") (codes "rw")
            ++ extra_mount stub (tool_root ++ (slash ++ codes "git")) (codes "ro")))

-- the loop over the mounts
unfoldable bind_args : List Mount → List Bytes
bind_args [] = []
bind_args (m ∷ ms) =
    (if bytes_eq m.mode (codes "rw") then codes "--bind" else codes "--ro-bind")
    ∷ m.host
    ∷ m.sandbox_path
    ∷ bind_args ms

-- `splitHostPort` (network.go): the text around the last colon
unfoldable split_host_port : Bytes → Option (Bytes × Bytes)
split_host_port [] = none
split_host_port (c ∷ addr) = elim (split_host_port addr) [
  | some (host, port) ↦ some (c ∷ host, port)
  | none ↦ if c == b':' then some ([], addr) else none
]

-- `gatewayProxyAddr` (network.go)
unfoldable gateway_proxy_addr : Bytes → Bytes
unfolding split_host_port
gateway_proxy_addr addr = elim (split_host_port addr) [
  | none ↦ addr
  | some (host, port) ↦ codes "10.0.2.2" ++ (codes ":" ++ port)
]

-- env[k] = v, and a range over a map that does it
unfoldable set_env : Bytes → Bytes → Env → Env
set_env k v [] = (k, v) ∷ []
set_env k v ((j, w) ∷ e) =
    let rest = set_env k v e in if bytes_eq j k then (k, v) ∷ e else (j, w) ∷ rest

unfoldable set_all : Env → Env → Env
unfolding set_env
set_all [] e = e
set_all ((k, v) ∷ own) e = set_env k v (set_all own e)

abbrev set_some : Bytes → Bytes → Env → Env
set_some k [] e = e
set_some k (c ∷ v) e = set_env k (c ∷ v) e

-- the variables that the daemon sets
unfoldable default_env : LaunchSpec → Bytes → Env
unfolding set_env gateway_proxy_addr
default_env spec addr =
    let url = codes "http://" ++ gateway_proxy_addr addr in
    set_some (codes "MURO_SESSION_ID") spec.session_id (
      set_some (codes "XDG_RUNTIME_DIR") spec.audio_runtime_dir (
        (codes "HTTP_PROXY", url)
        ∷ (codes "HTTPS_PROXY", url)
        ∷ (codes "http_proxy", url)
        ∷ (codes "https_proxy", url)
        ∷ []))

-- the loop over the variables
unfoldable env_args : Env → List Bytes
env_args [] = []
env_args ((k, v) ∷ e) = codes "--setenv" ∷ k ∷ v ∷ env_args e

-- `buildArgs`
unfoldable build_args : (Env → Env) → Bytes → LaunchSpec → Bytes → List Bytes
unfolding all_mounts bind_args default_env set_all env_args
build_args sort addr spec stub =
    isolation_args
    ++ (bind_args (all_mounts spec stub)
        ++ (env_args (sort (set_all spec.env (default_env spec addr)))
            ++ (codes "--chdir"
                ∷ (if bytes_eq spec.work_dir [] then slash else spec.work_dir)
                ∷ codes "--"
                ∷ spec.cmd)))

unfoldable env_at : Bytes → Env → Option Bytes
env_at k [] = none
env_at k ((j, v) ∷ e) = if bytes_eq j k then some v else env_at k e

env_at-set_env :
    (i k v : Bytes) (e : Env)
    → env_at i (set_env k v e) ≡ (if bytes_eq k i then some v else env_at i e)
unfolding env_at set_env
env_at-set_env i k v [] = refl
env_at-set_env i k v ((j, w) ∷ e) =
    ground (arith, env_at-set_env i k v e, bytes_eq_iff j k, bytes_eq_iff j i, bytes_eq_iff k i)

-- A variable that the sandbox sets itself has its value in bwrap's environment, and any other has the
-- daemon's, if the daemon sets it.
env_at-set_all :
    (i : Bytes) (own e : Env)
    → env_at i (set_all own e) ≡ elim (env_at i own) [ some v ↦ some v | none ↦ env_at i e ]
unfolding env_at set_all
env_at-set_all i [] e = refl
env_at-set_all i ((k, v) ∷ own) e =
    ground (arith, env_at-set_env i k v (set_all own e), env_at-set_all i own e)
