-- ===== src/Sandbox/Manager/Started.antt =====
-- internal/sandbox/manager.go: what `Run` brings about, on each of its paths.
use muro.Base.{some, Bytes, refl, sym, subst, ◌∙◌, ◌≡◌, ◌⊎◌, inl, inr, Option-cases, Bool-cases}
use muro.Config.Validate.{Profile}
use muro.State.Store.{Sandbox, SandboxState, key, get, put}
use muro.Sandbox.Manager.{
  Action, Fields, next, Env, Manager, Fault, Handle, Result, ok, err, ◌>>=◌, ◌>>◌, attempt, ignored,
  raise, modify, pure, started, launch_failed, not_saved, already_active, no_id, no_session,
}
use muro.Sandbox.Manager.Actions.{set_handle, save, launch_sandbox, stop_handle}
use muro.Sandbox.Manager.Bridges.{start_agent_bridge, start_tool_bridge}
use muro.Sandbox.Manager.Launch.{build_launch_spec, capture_handle_info}
use muro.Sandbox.Manager.Run.{
  default_namespace, active_already, new_sandbox, prepare, enroll, start, run,
}
use muro.Sandbox.Manager.Books.{books}
use muro.Sandbox.Manager.Frame.{
  after, Still-trans, publish_status-Still, allow-Still, register_handle-Still,
  start_agent_bridge-Still, start_tool_bridge-Still, stop_agent_bridge-Still,
  stop_tool_bridge-Still, launch-Still,
}
use muro.Sandbox.Manager.Resolve.{resolve_fields}
use muro.Sandbox.Manager.Orderly.Calm.{resolve_fields-Calm}
use muro.Sandbox.Manager.Stopped.{get-save}
use muro.Sandbox.Manager.Watched.{Alive, enlisted-Alive}

-- a sandbox that is to be launched under a name
abbrev pub Ready : Bytes → Bytes → Sandbox → Type 0
Ready namespace name sb =
    (sb.namespace ≡ namespace)
    × (sb.name ≡ name)
    × (sb.state ≡ SandboxState.running)
    × (sb.restart_count ≡ 0)

-- what the resolution of a profile ends with
resolve_cases :
    {A B : Type 0} (r : Result A) (n : Manager) (f : A → Action B)
    → ((e : Fault) × (next r f n ≡ (err e, n))) ⊎ ((a : A) × (next r f n ≡ f a n))
resolve_cases (ok a) n f = inr (a, refl)
resolve_cases (err e) n f = inl (e, refl)

prepare_lem :
    (env : Env) (profile : Profile) (name ns : Bytes) (m : Manager)
    → (n : Manager) × (books n ≡ books m)
      × (((e : Fault) × (prepare env profile name ns m ≡ (err e, n)))
          ⊎ ((sb : Sandbox) × (prepare env profile name ns m ≡ (ok sb, n)) × Ready ns name sb))
unfolding prepare new_sandbox ◌>>=◌ ◌>>◌
prepare_lem env profile name ns m = elim (Bool-cases (active_already (get ns name m.store))) [
  | inl a ↦ (m, refl, inl (already_active, rw (a) refl))
  | inr a ↦ elim (Option-cases (env.new_id m.trace)) [
    | inl i ↦ (m, refl, inl (no_id, rw (a, i) refl))
    | inr (id, i) ↦ elim (Option-cases (env.new_session m.trace)) [
      | inl s ↦ (m, refl, inl (no_session, rw (a, i, s) refl))
      | inr (session, s) ↦
          let r = resolve_fields env profile ns name id m in
          let calm = resolve_fields-Calm env profile ns name id m in
          let made : Fields → Action Sandbox =
            λ fields w. (ok (new_sandbox id session (env.now w.trace) profile fields name ns), w) in
          (
            r.1,
            sym calm.same_books,
            elim (resolve_cases r.0 r.1 made) [
              | inl (e, f) ↦ inl (e, rw (a, i, s) f)
              | inr (fields, f) ↦ inr (
                new_sandbox id session (env.now r.1.trace) profile fields name ns,
                rw (a, i, s) f,
                (refl, refl, refl, refl),
              )
            ],
          )
    ]
  ]
]

-- what a handle's information leaves as it was
abbrev Captured : Sandbox → Handle → Sandbox → Type 0
Captured sb h sb' =
    (sb'.namespace ≡ sb.namespace)
    × (sb'.name ≡ sb.name)
    × (sb'.state ≡ sb.state)
    × (sb'.pid ≡ h.pid)

capture-Captured : (sb : Sandbox) (h : Handle) → Captured sb h (capture_handle_info sb h)
unfolding capture_handle_info
capture-Captured sb h = elim (Option-cases h.network_addr) [
  | inl e ↦ elim (Option-cases h.shim) [
    | inl f ↦ rw (e, f) (refl, refl, refl, refl)
    | inr (_, f) ↦ rw (e, f) (refl, refl, refl, refl)
  ]
  | inr (_, e) ↦ elim (Option-cases h.shim) [
    | inl f ↦ rw (e, f) (refl, refl, refl, refl)
    | inr (_, f) ↦ rw (e, f) (refl, refl, refl, refl)
  ]
]

module _ (env : Env) where
  -- what a launch leaves: the process is under watch, or nothing of it is kept
  abbrev pub Started : Bytes → Bytes → Manager → Result Sandbox × Manager → Type 0
  Started namespace name m r =
      ((e : Fault) × (r.0 ≡ err e) × (books r.1 ≡ books m))
      ⊎ ((sb : Sandbox) × (h : Handle) × (r.0 ≡ ok sb)
          × (sb.state ≡ SandboxState.running)
          × (sb.pid ≡ h.pid)
          × Alive namespace name h sb r.1)

  Started-from :
      (namespace name : Bytes) (m n : Manager) (r : Result Sandbox × Manager)
      → books n ≡ books m
      → Started namespace name n r
      → Started namespace name m r
  Started-from namespace name m n r same (inl (e, p, q)) = inl (e, p, q ∙ same)
  Started-from namespace name m n r same (inr h) = inr h

  enroll-Alive :
      (sb : Sandbox) (h : Handle) (m : Manager)
      → get sb.namespace sb.name m.store ≡ some sb
      → Alive sb.namespace sb.name h sb (enroll env sb h m)
  unfolding enroll
  enroll-Alive sb h m e = enlisted-Alive sb.namespace sb.name h sb m _ e (
      Still-trans
        (allow-Still env sb.id sb.allow_urls (set_handle (key sb.namespace sb.name) h m).1)
        (Still-trans (register_handle-Still env sb.id h _)
          (publish_status-Still env sb.namespace sb.name started _)))

  -- the launch succeeded
  launched-Started :
      (sb : Sandbox) (h : Handle) (m n : Manager)
      → books n ≡ books m
      → sb.state ≡ SandboxState.running
      → sb.pid ≡ h.pid
      → Started sb.namespace sb.name m (
          attempt
            (save env sb)
            (λ e. do ignored (stop_handle env h); raise e)
            (do modify (enroll env sb h); pure sb)
            n)
  unfolding attempt save stop_handle ◌>>◌ ◌>>=◌
  launched-Started sb h m n same running pid =
      let got = get-save env sb.namespace sb.name sb n refl in
      elim (Bool-cases (put (env.disk n.trace) sb n.store).0) [
        | inl s ↦
            rw (s) (inr (sb, h, refl, running, pid, enroll-Alive sb h (after (save env sb) n) got))
        | inr s ↦ rw (s) (inl (not_saved, refl, same))
      ]

  start-Started :
      (sb : Sandbox) (m : Manager)
      → sb.state ≡ SandboxState.running
      → Started sb.namespace sb.name m (start env sb m)
  unfolding start launch_sandbox ◌>>=◌ ◌>>◌
  start-Started sb m running =
      let m₁ = start_tool_bridge env sb (start_agent_bridge env sb m) in
      let m₂ = (launch_sandbox env (build_launch_spec env sb) m₁).1 in
      let quiet = Still-trans (start_agent_bridge-Still env sb m) (
        Still-trans (start_tool_bridge-Still env sb _)
          (launch-Still env (build_launch_spec env sb) m₁)) in
      elim (Option-cases (env.launches m₁.trace (build_launch_spec env sb))) [
        | inl l ↦
            let closed = Still-trans quiet (
              Still-trans (stop_agent_bridge-Still env sb.id m₂)
                (stop_tool_bridge-Still env sb.id _)) in
            rw (l) (inl (launch_failed, refl, sym closed.same_books))
        | inr (h, l) ↦
            let sb' = capture_handle_info sb h in
            let (a, b, c, d) = capture-Captured sb h in
            let r = launched-Started sb' h m m₂ (sym quiet.same_books) (c ∙ running) d in
            let v =
              attempt (save env sb') (λ e. do ignored (stop_handle env h); raise e)
                (do modify (enroll env sb' h); pure sb') m₂ in
            rw (l)
              (subst (λ x. Started x sb.name m v) a (subst (λ y. Started sb'.namespace y m v) b r))
      ]

  -- A run of `Run` ends with an error, and the manager has the processes, epochs and watchers it had; or
  -- its sandbox runs, under its name and namespace, with the process id of the process that the manager
  -- holds, stored as the caller gets it, and the newest watcher watches it with the current epoch.
  pub run-Started :
      (profile : Profile) (name namespace : Bytes) (m : Manager)
      → Started (default_namespace namespace) name m (run env profile name namespace m)
  unfolding run ◌>>=◌
  run-Started profile name namespace m =
      let (n, same, cases) = prepare_lem env profile name (default_namespace namespace) m in
      elim cases [
        | inl (e, p) ↦ rw (p) (inl (e, refl, same))
        | inr (sb, p, (a, b, c, _)) ↦
            let r = start-Started sb n c in
            let s =
              subst (λ x. Started x name n (start env sb n)) a
                (subst (λ y. Started sb.namespace y n (start env sb n)) b r) in
            rw (p) (Started-from (default_namespace namespace) name m n (start env sb n) same s)
      ]
