-- ===== src/Sandbox/Manager/Outcomes.antt =====
-- internal/sandbox/manager.go: what `Run`, `Attach` and the watchers bring about.
use muro.Base.{
  ℕ, true, List, [], ◌∷◌, none, some, Bytes, bytes_eq, bytes_eq_refl, if◌then◌else◌, refl, ap,
  subst, ◌≡◌, ◌⊎◌, inl, inr, Option-cases, Bool-cases,
}
use muro.State.Store.{Sandbox, key, get}
use muro.Sandbox.Attach.{lookup, remove, try_attach, detach}
use muro.Sandbox.Manager.{
  Env, Manager, Fault, Handle, ok, err, ◌>>=◌, ◌>>◌, not_found, not_running, already_attached,
  no_process, no_pty,
}
use muro.Sandbox.Manager.Actions.{at, get_handle, is_active}
use muro.Sandbox.Manager.Attach.{take_slot, stdio_of, attach}
use muro.Sandbox.Manager.Restart.{detach_client}

pub remove_missing : (k : Bytes) (m : List (Bytes × ℕ)) → lookup k m ≡ none → remove k m ≡ m
unfolding lookup remove
remove_missing k [] h = refl
remove_missing k ((j, t) ∷ m) h = elim (Bool-cases (bytes_eq j k)) [
  | inl e ↦ absurd (cc (subst (λ b. (if b then some t else lookup k m) ≡ none) e h))
  | inr e ↦ rw (e) (
      ap (λ r. (j, t) ∷ r)
        (remove_missing k m (subst (λ b. (if b then some t else lookup k m) ≡ none) e h)))
]

-- a slot that is taken and given back
pub give_back :
    (k : Bytes) (t : ℕ) (m : List (Bytes × ℕ)) → lookup k m ≡ none → remove k ((k, t) ∷ m) ≡ m
unfolding remove
give_back k t m h = rw (bytes_eq_refl k) (remove_missing k m h)

-- A run of `Attach` is refused and leaves the manager as it was, so a slot that was taken is given back;
-- or the sandbox is stored and active, nobody held its slot, the terminal is the one of the process that the manager
-- holds, and of the manager only that slot changes, which is taken from now on.
pub attach_lem :
    (env : Env) (namespace name : Bytes) (m : Manager)
    → ((e : Fault) × (attach env namespace name m ≡ (err e, m)))
      ⊎ ((h : Handle) × (at (key namespace name) m.handles ≡ some h)
          × ((sb : Sandbox) × (get namespace name m.store ≡ some sb) × (is_active sb.state ≡ true))
          × (h.stdio ≡ true)
          × (lookup (key namespace name) m.attach_reg.attached ≡ none)
          × (attach env namespace name m ≡ (
            ok h,
            record m {
              attach_reg = record {
                attached = (key namespace name, env.now m.trace) ∷ m.attach_reg.attached;
              };
            },
          )))
unfolding attach take_slot stdio_of try_attach detach_client detach get_handle ◌>>=◌ ◌>>◌
attach_lem env namespace name m =
    let k = key namespace name in
    elim (Option-cases (get namespace name m.store)) [
      | inl e ↦ inl (not_found, rw (e) refl)
      | inr (sb, e) ↦ elim (Bool-cases (is_active sb.state)) [
        | inr a ↦ inl (not_running, rw (e, a) refl)
        | inl a ↦ elim (Option-cases (lookup k m.attach_reg.attached)) [
          | inr (since, l) ↦ inl (already_attached since, rw (e, a, l) refl)
          | inl l ↦ elim (Option-cases (at k m.handles)) [
            | inl p ↦ inl (
              no_process,
              rw (e, a, l, p, give_back k (env.now m.trace) m.attach_reg.attached l) refl,
            )
            | inr (h, p) ↦ elim (Bool-cases h.stdio) [
              | inl s ↦ inr (h, p, (sb, e, a), s, l, rw (e, a, l, p, s) refl)
              | inr s ↦ inl (
                no_pty,
                rw (e, a, l, p, s, give_back k (env.now m.trace) m.attach_reg.attached l) refl,
              )
            ]
          ]
        ]
      ]
    ]
