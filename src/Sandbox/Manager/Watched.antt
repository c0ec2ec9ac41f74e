-- ===== src/Sandbox/Manager/Watched.antt =====
-- internal/sandbox/manager.go: what a new process, an exit and a wake bring about.
use muro.Base.{
  ℕ, suc, ◌==◌, Bool, true, List, ◌∷◌, none, some, Bytes, bytes_eq_refl, if◌then◌else◌, refl, sym,
  ap, ◌∙◌, ◌≡◌, ◌⊎◌, inl, inr, arith, Option-cases, Bool-cases,
}
use muro.State.Store.{Sandbox, SandboxState, key, get}
use muro.Sandbox.Manager.{Env, Manager, Watcher, Sleeper, Handle, restarted}
use muro.Sandbox.Manager.Actions.{
  at, epoch_of, set_handle, clear_handle, watch, save, launch_sandbox, register_handle_network_addr,
  publish_status,
}
use muro.Sandbox.Manager.Launch.{build_launch_spec, capture_handle_info}
use muro.Sandbox.Manager.Watch.{
  final_state, back_off, give_up, decide, watch_exited, take_over, watch_wake,
}
use muro.Sandbox.Manager.Frame.{
  after, Still, still, Still-trans, publish_status-Still, register_handle-Still,
}
use muro.Sandbox.Manager.Exits.{
  Ends, Restarts, final_state-Ends, is_run_again, is_run_again→Restarts, Restarts→is_run_again,
}
use muro.Sandbox.Manager.Stopped.{get-save, at-without_self}

==_refl : (i j : ℕ) → i ≡ j → (i == j) ≡ true
==_refl i j e = ground (arith, e)

-- the sandbox runs: it is stored so, the manager holds its process, and the newest watcher watches it with
-- the current epoch
pub record Alive (namespace name : Bytes) (h : Handle) (sb : Sandbox) (m : Manager) : Type 0 where
  pub stored : get namespace name m.store ≡ some sb
  pub held : at (key namespace name) m.handles ≡ some h
  pub watched :
      (ws : List Watcher) × (m.watchers
        ≡ record {
          namespace = namespace;
          name = name;
          handle = h;
          epoch = epoch_of (key namespace name) m.epoch;
        }
          ∷ ws)

pub enlisted-Alive :
    (namespace name : Bytes) (h : Handle) (sb : Sandbox) (m n : Manager)
    → get namespace name m.store ≡ some sb
    → Still (set_handle (key namespace name) h m).1 n
    → Alive namespace name h sb (watch namespace name h (set_handle (key namespace name) h m).0 n)
unfolding set_handle at epoch_of
enlisted-Alive namespace name h sb m n e p =
    let k = key namespace name in
    let q = sym p.same_books in
    record {
      stored = ap (get namespace name) (sym p.same_store) ∙ e;
      held = ap (λ b. at k b.handles) q ∙ ground (arith, bytes_eq_refl k);
      watched = (
        n.watchers,
        ap (λ i. record { namespace = namespace; name = name; handle = h; epoch = i } ∷ n.watchers)
            (sym (ap (λ b. epoch_of k b.epoch) q ∙ ground (arith, bytes_eq_refl k))),
      );
    }

module _ (env : Env) where
  -- a woken sleeper's copy of the sandbox, as its launch leaves it
  abbrev pub resumed : Sandbox → Handle → Sandbox
  resumed sb h = record (capture_handle_info sb h) { state = SandboxState.running }

  -- a sandbox that waits for its restart
  abbrev pub waiting : Sandbox → Sandbox
  waiting sb = record sb { restart_count = suc sb.restart_count; state = SandboxState.restarting }

  capture_key :
      (sb : Sandbox) (h : Handle)
      → key (resumed sb h).namespace (resumed sb h).name ≡ key sb.namespace sb.name
  unfolding capture_handle_info
  capture_key sb h = elim (Option-cases h.network_addr) [
    | inl e ↦ elim (Option-cases h.shim) [ inl f ↦ rw (e, f) refl | inr (_, f) ↦ rw (e, f) refl ]
    | inr (_, e) ↦ elim (Option-cases h.shim) [
      | inl f ↦ rw (e, f) refl
      | inr (_, f) ↦ rw (e, f) refl
    ]
  ]

  -- A sleeper that wakes and whose launch succeeds brings its sandbox to run, under watch, with the
  -- record it held while it slept: whatever was done to the sandbox in between, a stop or a delete too.
  pub watch_wake-Alive :
      (s : Sleeper) (h : Handle) (m : Manager)
      → key s.sandbox.namespace s.sandbox.name ≡ key s.namespace s.name
      → env.launches m.trace (build_launch_spec env s.sandbox) ≡ some h
      → Alive s.namespace s.name h (resumed s.sandbox h) (watch_wake env s m)
  unfolding watch_wake take_over
  watch_wake-Alive s h m e l =
      let sb = resumed s.sandbox h in
      let m₁ = (launch_sandbox env (build_launch_spec env s.sandbox) m).1 in
      let m₂ = register_handle_network_addr env s.sandbox.id h (after (save env sb) m₁) in
      let m₃ = publish_status env s.namespace s.name restarted m₂ in
      let quiet =
        Still-trans (register_handle-Still env s.sandbox.id h (after (save env sb) m₁))
          (publish_status-Still env s.namespace s.name restarted m₂) in
      let got = get-save env s.namespace s.name sb m₁ (capture_key s.sandbox h ∙ e) in
      rw (l, watch_wake)
        (enlisted-Alive s.namespace s.name h sb m₃ (set_handle (key s.namespace s.name) h m₃).1
          (ap (get s.namespace s.name) (sym quiet.same_store) ∙ got) (still _ _ refl refl))

  -- the watcher is the current one and its sandbox is stored
  abbrev pub Current : Watcher → Sandbox → Manager → Type 0
  Current w sb m =
      (epoch_of (key w.namespace w.name) m.epoch ≡ w.epoch)
      × (get w.namespace w.name m.store ≡ some sb)
      × (key sb.namespace sb.name ≡ key w.namespace w.name)

  watch_exited-Current :
      (w : Watcher) (clean_exit : Bool) (sb : Sandbox) (m : Manager)
      → Current w sb m
      → watch_exited env w clean_exit m ≡ (
          if is_run_again env sb clean_exit
          then back_off env w.namespace w.name sb m
          else give_up env w.namespace w.name sb clean_exit m)
  unfolding watch_exited decide
  watch_exited-Current w clean_exit sb m (c, e, own) =
      let eq = ==_refl (epoch_of (key w.namespace w.name) m.epoch) w.epoch c in rw (eq, e) refl

  back_off_lem :
      (namespace name : Bytes) (sb : Sandbox) (m : Manager)
      → key sb.namespace sb.name ≡ key namespace name
      → (get namespace name (back_off env namespace name sb m).store ≡ some (waiting sb))
        × ((back_off env namespace name sb m).sleepers
            ≡ record { namespace = namespace; name = name; sandbox = waiting sb } ∷ m.sleepers)
  unfolding back_off publish_status save
  back_off_lem namespace name sb m e =
      let got = get-save env namespace name (waiting sb) m e in
      elim (Bool-cases env.has_publisher) [
        | inl p ↦ rw (p) (got, refl)
        | inr p ↦ rw (p) (got, refl)
      ]

  give_up_lem :
      (namespace name : Bytes) (sb : Sandbox) (clean_exit : Bool) (m : Manager)
      → key sb.namespace sb.name ≡ key namespace name
      → (get namespace name (give_up env namespace name sb clean_exit m).store
          ≡ some (record sb { state = (final_state sb.restart_policy clean_exit).0 }))
        × (at (key namespace name) (give_up env namespace name sb clean_exit m).handles ≡ none)
  unfolding give_up publish_status clear_handle save
  give_up_lem namespace name sb clean_exit m e =
      let gone = at-without_self (key namespace name) m.handles in
      let got =
        get-save env namespace name
          (record sb { state = (final_state sb.restart_policy clean_exit).0 })
          (publish_status env namespace name (final_state sb.restart_policy clean_exit).1
            (clear_handle (key namespace name) m))
          e in
      elim (Bool-cases env.has_publisher) [
        | inl p ↦ (got, rw (p) gone)
        | inr p ↦ (got, rw (p) gone)
      ]

  -- When the process of the current watcher exits and its sandbox is stored: either the policy is "always",
  -- or it is "on-failure" after a failure with restarts left, and the sandbox is stored as restarting with
  -- one restart more, and a sleeper has that record; or neither holds, the manager holds no process of the
  -- sandbox, and it is stored as stopped after a clean exit, and after a failure as out of restarts where
  -- its policy is "on-failure" and as crashed where it is another.
  pub watch_exited_lem :
      (w : Watcher) (clean_exit : Bool) (sb : Sandbox) (m : Manager)
      → Current w sb m
      → (Restarts env sb clean_exit
          × (get w.namespace w.name (watch_exited env w clean_exit m).store ≡ some (waiting sb))
          × ((watch_exited env w clean_exit m).sleepers
              ≡ record { namespace = w.namespace; name = w.name; sandbox = waiting sb }
                ∷ m.sleepers))
        ⊎ (¬ Restarts env sb clean_exit
            × ((s : SandboxState) × Ends sb.restart_policy clean_exit s
                × (get w.namespace w.name (watch_exited env w clean_exit m).store
                    ≡ some (record sb { state = s })))
            × (at (key w.namespace w.name) (watch_exited env w clean_exit m).handles ≡ none))
  watch_exited_lem w clean_exit sb m (c, e, own) =
      let done = watch_exited-Current w clean_exit sb m (c, e, own) in
      elim (Bool-cases (is_run_again env sb clean_exit)) [
        | inl r ↦
            let (a, b) = back_off_lem w.namespace w.name sb m own in
            inl (is_run_again→Restarts env sb clean_exit r, rw (done, r) a, rw (done, r) b)
        | inr r ↦
            let (a, b) = give_up_lem w.namespace w.name sb clean_exit m own in
            let s = (final_state sb.restart_policy clean_exit).0 in
            inr (
              λ again. absurd (ground (arith, Restarts→is_run_again env sb clean_exit again, r)),
              (s, final_state-Ends sb.restart_policy clean_exit, rw (done, r) a),
              rw (done, r) b,
            )
      ]
