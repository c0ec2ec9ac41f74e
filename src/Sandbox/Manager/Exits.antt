-- ===== src/Sandbox/Manager/Exits.antt =====
-- internal/sandbox/manager.go: what the exit of a sandbox's process calls for.
use muro.Base.{
  Bool, true, false, Bytes, codes, bytes_eq, bytes_eq_iff, refl, ◌≡◌, ◌≢◌, ◌⊎◌, ◌<◌, inl, inr,
  arith, Bool-cases,
}
use muro.State.Store.{Sandbox, SandboxState}
use muro.Sandbox.Restart.{should_restart}
use muro.Sandbox.Manager.{Env}
use muro.Sandbox.Manager.Watch.{final_state}

-- the state of a sandbox that is not run again: its restarts are used up if its policy is to restart on
-- a failure and this was one; else it stopped if the exit was clean, and crashed if it was not
abbrev pub Ends : Bytes → Bool → SandboxState → Type 0
Ends policy true s = s ≡ SandboxState.stopped
Ends policy false s =
    (policy ≡ codes "on-failure" → s ≡ SandboxState.restart_exhausted)
    × (policy ≢ codes "on-failure" → s ≡ SandboxState.crashed)

pub final_state-Ends :
    (policy : Bytes) (clean_exit : Bool) → Ends policy clean_exit (final_state policy clean_exit).0
unfolding final_state
final_state-Ends policy true = elim (Bool-cases (bytes_eq policy (codes "on-failure"))) [
  | inl e ↦ rw (e) refl
  | inr e ↦ rw (e) refl
]
final_state-Ends policy false = (
  λ p. rw ((bytes_eq_iff policy (codes "on-failure")).1 p) refl,
  λ p. elim (Bool-cases (bytes_eq policy (codes "on-failure"))) [
    | inl e ↦ absurd (p ((bytes_eq_iff policy (codes "on-failure")).0 e))
    | inr e ↦ rw (e) refl
  ],
)

module _ (env : Env) where
  abbrev pub is_run_again : Sandbox → Bool → Bool
  is_run_again sb clean_exit =
      should_restart sb.restart_policy sb.restart_count env.max_restart_attempts clean_exit

  -- an exit after which the sandbox is to run again
  abbrev pub Restarts : Sandbox → Bool → Type 0
  Restarts sb clean_exit =
      (sb.restart_policy ≡ codes "always")
      ⊎ ((sb.restart_policy ≡ codes "on-failure")
          × (clean_exit ≡ false)
          × (sb.restart_count < env.max_restart_attempts))

  pub is_run_again→Restarts :
      (sb : Sandbox) (clean_exit : Bool)
      → is_run_again sb clean_exit ≡ true
      → Restarts sb clean_exit
  unfolding should_restart
  is_run_again→Restarts sb clean_exit h =
      elim (Bool-cases (bytes_eq sb.restart_policy (codes "always"))) [
        | inl e ↦ inl ((bytes_eq_iff _ _).0 e)
        | inr e ↦ elim (Bool-cases (bytes_eq sb.restart_policy (codes "on-failure"))) [
          | inr f ↦ absurd (ground arith)
          | inl f ↦ inr ((bytes_eq_iff _ _).0 f, ground arith, ground arith)
        ]
      ]

  pub Restarts→is_run_again :
      (sb : Sandbox) (clean_exit : Bool)
      → Restarts sb clean_exit
      → is_run_again sb clean_exit ≡ true
  unfolding should_restart
  Restarts→is_run_again sb clean_exit (inl p) = rw ((bytes_eq_iff _ _).1 p) refl
  Restarts→is_run_again sb clean_exit (inr (p, c, l)) =
      let e = (bytes_eq_iff sb.restart_policy (codes "on-failure")).1 p in ground arith
