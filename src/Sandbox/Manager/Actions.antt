-- ===== src/Sandbox/Manager/Actions.antt =====
-- internal/sandbox/manager.go: the small operations that the others are made of, and the calls of the
-- store, the proxy, the publisher and the isolator.
use muro.Base.{
  ℕ, ◌+◌, Bool, true, false, List, [], ◌∷◌, Option, none, some, Bytes, bytes_eq, if◌then◌else◌,
}
use muro.State.Store.{SandboxState, Sandbox, get, put}
use muro.Sandbox.Manager.{
  Env, Manager, Handle, LaunchSpec, Event, Action, ok, err, asks, note, not_saved, stop_failed,
  launch, stop, publish, set_allowlist, register_addr,
}

-- a lookup in a Go map and its removal
module _ {A : Type 0} where
  unfoldable pub at : Bytes → List (Bytes × A) → Option A
  at k [] = none
  at k ((j, a) ∷ m) = if bytes_eq j k then some a else at k m

  unfoldable pub without : Bytes → List (Bytes × A) → List (Bytes × A)
  without k [] = []
  without k ((j, a) ∷ m) = let rest = without k m in if bytes_eq j k then rest else (j, a) ∷ rest

-- m.epoch[key], 0 if it is missing
unfoldable pub epoch_of : Bytes → List (Bytes × ℕ) → ℕ
epoch_of k [] = 0
epoch_of k ((j, n) ∷ m) = if bytes_eq j k then n else epoch_of k m

-- `setHandle`, and the epoch it returns
unfoldable pub set_handle : Bytes → Handle → Manager → ℕ × Manager
set_handle k h m =
    let n = epoch_of k m.epoch + 1 in
    (n, record m { handles = (k, h) ∷ m.handles; epoch = (k, n) ∷ m.epoch })

-- `clearHandle`
unfoldable pub clear_handle : Bytes → Manager → Manager
clear_handle k m = record m {
  handles = without k m.handles;
  epoch = (k, epoch_of k m.epoch + 1) ∷ m.epoch;
}

-- `getHandle`
unfoldable pub get_handle : Bytes → Manager → Option Handle
unfolding at
get_handle k m = at k m.handles

-- go m.watchLoop(namespace, name, handle, epoch)
abbrev pub watch : Bytes → Bytes → Handle → ℕ → Manager → Manager
watch namespace name h n m = record m {
  watchers = record { namespace = namespace; name = name; handle = h; epoch = n } ∷ m.watchers;
}

-- `isActive`
abbrev pub is_active : SandboxState → Bool
is_active SandboxState.running = true
is_active SandboxState.reload_pending = true
is_active SandboxState.restarting = true
is_active _ = false

module _ (env : Env) where
  -- store.Get
  abbrev pub find_sandbox : Bytes → Bytes → Action (Option Sandbox)
  find_sandbox namespace name = asks λ m. get namespace name m.store

  -- store.Put
  unfoldable pub save : Sandbox → Action (Unit {0})
  save sb m =
      let (saved, s) = put (env.disk m.trace) sb m.store in
      ((if saved then ok tt else err not_saved), record m { store = s })

  -- publisher.PublishStatus, whose error is dropped
  unfoldable pub publish_status : Bytes → Bytes → Event → Manager → Manager
  publish_status namespace name event m =
      if env.has_publisher then note (publish namespace name event) m else m

  -- proxy.SetAllowlist
  unfoldable pub allow : Bytes → List Bytes → Manager → Manager
  allow id urls m = if env.has_proxy then note (set_allowlist id urls) m else m

  -- proxy.RegisterSandboxAddr, for an address that is not empty
  unfoldable pub register : Bytes → Bytes → Manager → Manager
  register id addr m =
      if bytes_eq addr [] then m else if env.has_proxy then note (register_addr id addr) m else m

  -- `registerHandleNetworkAddr`, by the address that the handle has
  unfoldable pub register_option : Bytes → Option Bytes → Manager → Manager
  unfolding register
  register_option id none m = m
  register_option id (some addr) m = register id addr m

  -- `registerHandleNetworkAddr`
  unfoldable pub register_handle_network_addr : Bytes → Handle → Manager → Manager
  unfolding register_option
  register_handle_network_addr id h = register_option id h.network_addr

  -- isolator.Stop
  unfoldable pub stop_handle : Handle → Action (Unit {0})
  stop_handle h m = ((if env.stops m.trace h then ok tt else err stop_failed), note (stop h) m)

  -- isolator.Launch
  unfoldable pub launch_sandbox : LaunchSpec → Action (Option Handle)
  launch_sandbox spec m = (ok (env.launches m.trace spec), note (launch spec) m)
