-- ===== src/Sandbox/Manager/Silence.antt =====
-- internal/sandbox/manager.go: `Stop` and `Restart` against the watchers of the processes that they end.
use muro.Base.{
  ℕ, ◌≤◌, ◌<◌, ◌==◌, Bool, true, false, if◌then◌else◌, List, [], ◌∷◌, ◌++◌, some, Bytes,
  bytes_eq_refl, ◌⊎◌, refl, sym, ap, subst, ◌≡◌, arith, inl, inr, All, Option-cases,
}
use muro.State.Store.{Sandbox, SandboxState, Store, key, get}
use muro.State.Store.Laws.{IsKeyed}
use muro.Sandbox.Manager.{Env, Manager, Watcher, not_found, halted, pure, ◌>>=◌, ◌>>◌}
use muro.Sandbox.Manager.Actions.{
  at, epoch_of, get_handle, clear_handle, save, publish_status, stop_handle,
}
use muro.Sandbox.Manager.Bridges.{start_tool_bridge}
use muro.Sandbox.Manager.Restart.{
  kill, stop_sandbox, release, restart, detach_client, relaunch, reload_profile,
}
use muro.Sandbox.Manager.Watch.{watch_exited}
use muro.Sandbox.Manager.Books.{books, InOrder, key_of, Moves-epoch, Moves-InOrder}
use muro.Sandbox.Manager.Frame.{
  after, Evolves, Still, Still-trans, publish_status-Still, stop_agent_bridge-Still,
  stop_tool_bridge-Still, quietly, save-Orderly, Evolves-trans, start_tool_bridge-Still,
}
use muro.Sandbox.Manager.Orderly.Lifecycle.{
  detach_client-Still, relaunch-Orderly, reload_profile-Orderly,
}
use muro.Sandbox.Manager.Reach.{Reachable, Follows, Follows-epoch, Reachable-Good}
use muro.Sandbox.Manager.Runs.{Ran, bind-Ran, then-Ran, or_raise-Ran, asks-Ran, modify-Ran}

ℕ-cases : (a b : ℕ) → a ≤ b → (a < b) ⊎ (a ≡ b)
ℕ-cases a b p = ground (arith, p)

-- a watcher whose process was given up
abbrev pub Behind : Watcher → Manager → Type 0
Behind w m = w.epoch < epoch_of (key_of w) m.epoch

Evolves-Behind : {m n : Manager} (w : Watcher) → Evolves m n → Behind w m → Behind w n
Evolves-Behind w p h = let q = Moves-epoch p.moves (key_of w) in omega (arith, q, h)

-- a watcher that is behind ends without a trace
Behind-watch_exited :
    (env : Env) (w : Watcher) (clean_exit : Bool) (m : Manager)
    → Behind w m
    → watch_exited env w clean_exit m ≡ m
unfolding watch_exited
Behind-watch_exited env w clean_exit m h =
    let e : (epoch_of (key_of w) m.epoch == w.epoch) ≡ false = ground (arith, h) in rw (e) refl

bumped-Behind : (k : Bytes) (m : Manager) → epoch_of k m.epoch < epoch_of k (clear_handle k m).epoch
unfolding clear_handle epoch_of
bumped-Behind k m = rw (bytes_eq_refl k) (omega arith)

kill-Behind :
    (env : Env) (m : Manager) (w : Watcher)
    → InOrder (books m) w
    → Behind w (after (kill env (key_of w)) m)
unfolding kill get_handle ◌>>=◌ ◌>>◌ stop_handle
kill-Behind env m w (p, q) = elim (Option-cases (at (key_of w) m.handles)) [
  | inl e ↦
      rw (e, after)
        (elim (ℕ-cases w.epoch (epoch_of (key_of w) m.epoch) p) [
          | inl l ↦ l
          | inr g ↦ absurd (cc (e, q (sym g)))
        ])
  | inr (h, e) ↦ rw (e, after) (let b = bumped-Behind (key_of w) m in omega (arith, b, p))
]

-- what a `Stop` without an error did, step by step
pub stop_sandbox-Ran :
    (env : Env) (namespace name : Bytes) (m n : Manager)
    → Ran (stop_sandbox env namespace name) m tt n
    → (sb : Sandbox) × (get namespace name m.store ≡ some sb)
      × (n
          ≡ publish_status env namespace name halted (
              after (kill env (key namespace name)) (
                after
                  (save env (record sb { state = SandboxState.stopped }))
                  (release env (key namespace name) sb.id m))))
unfolding stop_sandbox
stop_sandbox-Ran env namespace name m n h =
    let (sb, e, h₁) = or_raise-Ran _ not_found _ m tt n (asks-Ran _ _ m tt n h) in
    let (_, h₂) = then-Ran _ _ m tt n h₁ in
    let (_, h₃) = then-Ran _ _ _ tt n h₂ in
    let (_, h₄) = then-Ran _ _ _ tt n h₃ in
    (sb, e, modify-Ran (publish_status env namespace name halted) _ n h₄)

killed-Behind :
    (env : Env) {m n : Manager} (w : Watcher) (k : Bytes)
    → key_of w ≡ k
    → Evolves m n
    → InOrder (books m) w
    → Behind w (after (kill env k) n)
killed-Behind env {m} {n} w k e p h =
    subst (λ j. Behind w (after (kill env j) n)) e (kill-Behind env n w (Moves-InOrder p.moves w h))

stop_sandbox-Behind :
    (env : Env) (namespace name : Bytes) (m n : Manager) (w : Watcher)
    → key_of w ≡ key namespace name
    → InOrder (books m) w
    → Ran (stop_sandbox env namespace name) m tt n
    → Behind w n
unfolding release
stop_sandbox-Behind env namespace name m n w same p h =
    let (sb, e, q) = stop_sandbox-Ran env namespace name m n h in
    let k = key namespace name in
    let quiet : Still m (release env k sb.id m) =
      Still-trans (detach_client-Still env k m)
        (Still-trans (stop_agent_bridge-Still env sb.id _) (stop_tool_bridge-Still env sb.id _)) in
    let saved =
      save-Orderly env (record sb { state = SandboxState.stopped }) (release env k sb.id m) in
    let b = killed-Behind env w k same (Evolves-trans (quietly quiet) saved) p in
    subst (Behind w) (sym q)
      (Evolves-Behind w (quietly (publish_status-Still env namespace name halted _)) b)

-- what a `Restart` without an error did before its launch
restart-Ran :
    (env : Env) (namespace name : Bytes) (from_profile : Bool) (m n : Manager)
    → Ran (restart env namespace name from_profile) m tt n
    → (sb : Sandbox) × (live : Sandbox) × Ran
        (relaunch env namespace name sb)
        (if from_profile
          then start_tool_bridge env sb (
              after (kill env (key namespace name)) (
                detach_client
                  (key namespace name)
                  (after (reload_profile env namespace name live) m)))
          else after (kill env (key namespace name)) (detach_client (key namespace name) m))
        tt
        n
unfolding restart
restart-Ran env namespace name true m n h =
    let (live, e, h₁) = or_raise-Ran _ not_found _ m tt n (asks-Ran _ _ m tt n h) in
    let (sb, _, h₂) = bind-Ran (reload_profile env namespace name live) _ m tt n h₁ in
    let (_, h₃) = then-Ran _ _ _ tt n h₂ in
    let (_, h₄) = then-Ran _ _ _ tt n h₃ in let (_, h₅) = then-Ran _ _ _ tt n h₄ in (sb, live, h₅)
restart-Ran env namespace name false m n h =
    let (live, e, h₁) = or_raise-Ran _ not_found _ m tt n (asks-Ran _ _ m tt n h) in
    let (sb, _, h₂) = bind-Ran (pure live) _ m tt n h₁ in
    let (_, h₃) = then-Ran _ _ _ tt n h₂ in
    let (_, h₄) = then-Ran _ _ _ tt n h₃ in let (_, h₅) = then-Ran _ _ _ tt n h₄ in (sb, live, h₅)

restart-Behind :
    (env : Env) (namespace name : Bytes) (from_profile : Bool) (m n : Manager) (w : Watcher)
    → key_of w ≡ key namespace name
    → InOrder (books m) w
    → Ran (restart env namespace name from_profile) m tt n
    → Behind w n
restart-Behind env namespace name true m n w same p h =
    let (sb, live, h₁) = restart-Ran env namespace name true m n h in
    let k = key namespace name in
    let profile = reload_profile-Orderly env namespace name live m in
    let b =
      killed-Behind env w k same (Evolves-trans profile (quietly (detach_client-Still env k _)))
        p in
    subst (Behind w) (ap (λ r. r.1) h₁) (
      Evolves-Behind w
        (Evolves-trans (quietly (start_tool_bridge-Still env sb _))
          (relaunch-Orderly env namespace name sb _))
        b)
restart-Behind env namespace name false m n w same p h =
    let (sb, live, h₁) = restart-Ran env namespace name false m n h in
    let k = key namespace name in
    let b = killed-Behind env w k same (quietly (detach_client-Still env k m)) p in
    subst (Behind w) (ap (λ r. r.1) h₁)
      (Evolves-Behind w (relaunch-Orderly env namespace name sb _) b)

All-at :
    {A : Type 0} (P : A → Type 0) (xs : List A) (y : A) (ys : List A) → All P (xs ++ y ∷ ys) → P y
All-at P [] y ys (p, h) = p
All-at P (x ∷ xs) y ys (p, h) = All-at P xs y ys h

-- In a state that the manager comes to: after a `Stop` or a `Restart` of a sandbox without an error,
-- every watcher of that sandbox that waited before ends without any effect when its process exits, cleanly
-- or not, at once or after any later operations.
pub superseded :
    (env : Env) (store : Store) (namespace name : Bytes) {m n o : Manager}
    → IsKeyed store.sandboxes
    → Reachable env store m
    → (Ran (stop_sandbox env namespace name) m tt n)
      ⊎ ((from_profile : Bool) × Ran (restart env namespace name from_profile) m tt n)
    → (before : List Watcher) (w : Watcher) (later : List Watcher)
    → m.watchers ≡ before ++ w ∷ later
    → key_of w ≡ key namespace name
    → Follows env n o
    → (clean_exit : Bool) → watch_exited env w clean_exit o ≡ o
superseded env store namespace name {m} {n} {o} keyed r ended before w later e same f clean_exit =
    let ((orders, _), _) = Reachable-Good env store keyed r in
    let order =
      All-at (InOrder (books m)) before w later (subst (All (InOrder (books m))) e orders) in
    let b : Behind w n = elim ended [
      | inl h ↦ stop_sandbox-Behind env namespace name m n w same order h
      | inr (from_profile, h) ↦ restart-Behind env namespace name from_profile m n w same order h
    ] in
    let grown = Follows-epoch env f (key_of w) in
    Behind-watch_exited env w clean_exit o (omega (arith, b, grown))
