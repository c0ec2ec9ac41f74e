-- ===== src/Sandbox/Manager/Reach.antt =====
-- internal/sandbox/manager.go: the states that the manager comes to, whichever operations run in
-- whichever order, whatever the host answers.
use muro.Base.{◌≤◌, Bool, List, [], ◌∷◌, ◌++◌, Bytes, refl, ap, ◌≡◌, arith}
use muro.Sandbox.Manager.Actions.{epoch_of}
use muro.Config.Validate.{Profile}
use muro.State.Store.{Store, key}
use muro.State.Store.Laws.{IsKeyed}
use muro.Sandbox.Attach.{new_attach_registry}
use muro.Sandbox.Manager.{Env, Manager, Watcher, Sleeper}
use muro.Sandbox.Manager.Run.{run}
use muro.Sandbox.Manager.Reattach.{reattach_all}
use muro.Sandbox.Manager.Update.{Selector, ConfigDelta, update, reload}
use muro.Sandbox.Manager.Restart.{detach_client, restart, stop_sandbox}
use muro.Sandbox.Manager.Delete.{delete_sandbox, merge}
use muro.Sandbox.Manager.Attach.{attach}
use muro.Sandbox.Manager.Watch.{watch_exited, watch_wake}
use muro.Sandbox.Manager.Books.{books, Valid, Distinct, Moves-Valid, Moves-epoch, drop-Valid}
use muro.Sandbox.Manager.Frame.{after, Evolves, quietly}
use muro.Sandbox.Manager.Orderly.Lifecycle.{
  run-Orderly, restart-Orderly, stop_sandbox-Orderly, detach_client-Still,
}
use muro.Sandbox.Manager.Orderly.Changes.{
  update-Orderly, reload-Orderly, delete_sandbox-Orderly, merge-Orderly, attach-Orderly,
}
use muro.Sandbox.Manager.Orderly.Watches.{
  reattach_all-Evolves, watch_exited-Evolves, watch_wake-Evolves,
}

-- `NewManager`
abbrev pub new_manager : Store → Manager
new_manager store = record {
  store = store;
  handles = [];
  epoch = [];
  attach_reg = new_attach_registry;
  agent_sockets = [];
  tool_sockets = [];
  inbox_subscribed = [];
  watchers = [];
  sleepers = [];
  trace = [];
}

-- a watcher or a sleeper leaves its list when its turn comes
abbrev pub without_watcher : List Watcher → List Watcher → Manager → Manager
without_watcher before later m = record m { watchers = before ++ later }

abbrev pub without_sleeper : List Sleeper → List Sleeper → Manager → Manager
without_sleeper before later m = record m { sleepers = before ++ later }

-- one operation, one turn of a watcher or one of a sleeper
pub data Step (env : Env) (m : Manager) : Manager → Type 0 where
  runs :
      (profile : Profile) (name namespace : Bytes)
      → Step env m (after (run env profile name namespace) m)
  reattaches_all : Step env m (reattach_all env m).1
  updates : (sel : Selector) (delta : ConfigDelta) → Step env m (after (update env sel delta) m)
  reloads : (namespace name : Bytes) → Step env m (after (reload env namespace name) m)
  restarts :
      (namespace name : Bytes) (from_profile : Bool)
      → Step env m (after (restart env namespace name from_profile) m)
  stops_sandbox : (namespace name : Bytes) → Step env m (after (stop_sandbox env namespace name) m)
  deletes :
      (namespace name : Bytes) (accepted : List Bytes)
      → Step env m (after (delete_sandbox env namespace name accepted) m)
  merges_worktree :
      (namespace name path : Bytes) → Step env m (after (merge env namespace name path) m)
  attaches : (namespace name : Bytes) → Step env m (after (attach env namespace name) m)
  detaches : (namespace name : Bytes) → Step env m (detach_client (key namespace name) m)
  exits :
      (before : List Watcher) (w : Watcher) (later : List Watcher) (clean_exit : Bool)
      → m.watchers ≡ before ++ w ∷ later
      → Step env m (watch_exited env w clean_exit (without_watcher before later m))
  wakes :
      (before : List Sleeper) (s : Sleeper) (later : List Sleeper)
      → m.sleepers ≡ before ++ s ∷ later
      → Step env m (watch_wake env s (without_sleeper before later m))

pub data Follows (env : Env) (m : Manager) : Manager → Type 0 where
  at_once : Follows env m m
  followed : {n o : Manager} → Follows env m n → Step env n o → Follows env m o

abbrev pub Reachable : Env → Store → Manager → Type 0
Reachable env store = Follows env (new_manager store)

-- what holds in every state: the watchers are in order and the registry is keyed
abbrev pub Good : Manager → Type 0
Good m = Valid (books m) × IsKeyed m.store.sandboxes

-- the manager from which the operation of a step starts
pub record Trimmed (m n : Manager) : Type 0 where
  pub same_epoch : m.epoch ≡ n.epoch
  pub still_good : Good m → Good n

abbrev Part : Manager → Manager → Type 0
Part m o = (n : Manager) × Trimmed m n × Evolves n o

whole : {m o : Manager} → Evolves m o → Part m o
whole {m} p = (m, record { same_epoch = refl; still_good = λ h. h }, p)

Step-Part : (env : Env) {m o : Manager} → Step env m o → Part m o
Step-Part env {m} (runs profile name namespace) = whole (run-Orderly env profile name namespace m)
Step-Part env {m} reattaches_all = whole (reattach_all-Evolves env m)
Step-Part env {m} (updates sel delta) = whole (update-Orderly env sel delta m)
Step-Part env {m} (reloads namespace name) = whole (reload-Orderly env namespace name m)
Step-Part env {m} (restarts namespace name from_profile) =
    whole (restart-Orderly env namespace name from_profile m)
Step-Part env {m} (stops_sandbox namespace name) = whole (stop_sandbox-Orderly env namespace name m)
Step-Part env {m} (deletes namespace name accepted) =
    whole (delete_sandbox-Orderly env namespace name accepted m)
Step-Part env {m} (merges_worktree namespace name path) =
    whole (merge-Orderly env namespace name path m)
Step-Part env {m} (attaches namespace name) = whole (attach-Orderly env namespace name m)
Step-Part env {m} (detaches namespace name) =
    whole (quietly (detach_client-Still env (key namespace name) m))
Step-Part env {m} (exits before w later clean_exit e) = (
  without_watcher before later m,
  record { same_epoch = refl; still_good = λ (v, k). (drop-Valid (books m) before later w e v, k) },
  watch_exited-Evolves env w clean_exit (without_watcher before later m),
)
Step-Part env {m} (wakes before s later e) = (
  without_sleeper before later m,
  record { same_epoch = refl; still_good = λ h. h },
  watch_wake-Evolves env s (without_sleeper before later m),
)

Step-Good : (env : Env) {m o : Manager} → Step env m o → Good m → Good o
Step-Good env s h =
    let (n, t, p) = Step-Part env s in
    let (v, k) = t.still_good h in (Moves-Valid p.moves v, p.keyed k)

Step-epoch :
    (env : Env) {m o : Manager}
    → Step env m o
    → (k : Bytes) → epoch_of k m.epoch ≤ epoch_of k o.epoch
Step-epoch env s k =
    let (n, t, p) = Step-Part env s in
    let a = Moves-epoch p.moves k in let b = ap (epoch_of k) t.same_epoch in omega (arith, a, b)

-- The epoch of a sandbox never goes down, whatever operations follow.
pub Follows-epoch :
    (env : Env) {m o : Manager}
    → Follows env m o
    → (k : Bytes) → epoch_of k m.epoch ≤ epoch_of k o.epoch
Follows-epoch env at_once k = omega arith
Follows-epoch env (followed f s) k =
    let a = Follows-epoch env f k in let b = Step-epoch env s k in omega (arith, a, b)

-- If the registry of the store is keyed at first, then in every state that the operations, the watchers
-- and the sleepers lead to, in any order and with any answers of the host, it still is; no two watchers
-- of a sandbox have the same epoch, none has an epoch that was not given out, and a watcher whose epoch
-- is the current one watches the process that the manager holds.
pub Reachable-Good :
    (env : Env) (store : Store) {m : Manager}
    → IsKeyed store.sandboxes
    → Reachable env store m
    → Good m
unfolding Distinct
Reachable-Good env store k at_once = ((tt, tt), k)
Reachable-Good env store k (followed r s) = Step-Good env s (Reachable-Good env store k r)
