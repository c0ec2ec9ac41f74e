-- ===== src/Control/Stream/Slots.antt =====
-- internal/control/stream.go: what is left of an attached client and of a reader of logs.
use muro.Base.{
  ◌≡◌, refl, ◌∙◌, ap, Bool, true, false, List, [], ◌∷◌, Option, none, some, Bytes, Option-cases,
  inl, inr, arith,
}
use muro.Base
use muro.Config.Validate
use muro.State.Store.{key}
use muro.Sandbox.Attach.{detach}
use muro.Sandbox.Manager.{Env, Manager}
use muro.Sandbox.Manager.Run.{default_namespace}
use muro.Sandbox.Manager.Restart.{detach_client}
use muro.Sandbox.Manager.Attach.{attach}
use muro.Sandbox.Manager.Outcomes.{attach_lem, give_back}
use muro.Control.Protocol.{Decoder, SandboxShowRequest}
use muro.Control.Handlers.{validate_namespace_name}
use muro.Control.Stream.{attach_session, attach_checked, handle_attach}

module _ (d : Decoder) (env : Env) (greets : Bool) (accepts : Bytes → Bool)
    (chunks : List Bytes) where
  session-same :
      (namespace name : Bytes) (m : Manager)
      → (attach_session d env greets accepts chunks
          (key namespace name)
          (attach env namespace name m)).1
        ≡ m
  unfolding attach_session detach_client detach
  session-same namespace name m = elim (attach_lem env namespace name m) [
    | inl (e, q) ↦ rw q refl
    | inr (h, p, on, s, l, q) ↦ rw q (
        ap (λ r. record m { attach_reg = record { attached = r } })
          (give_back (key namespace name) (env.now m.trace) m.attach_reg.attached l))
  ]

  checked-same :
      (c : Validate.Check) (req : SandboxShowRequest) (m : Manager)
      → (attach_checked d env c greets accepts chunks req m).1 ≡ m
  unfolding attach_checked
  checked-same (Base.err f) req m = refl
  checked-same (Base.ok _) req m = session-same (default_namespace req.namespace) req.name m

  -- A request to attach, refused or granted, whatever the client types and however its session ends,
  -- leaves the manager as it was once it is over, if nothing else runs meanwhile: its slot is free again,
  -- or is still the one of the client that held it.
  pub handle_attach_lem :
      (payload : Bytes) (m : Manager) → (handle_attach d env greets accepts chunks payload m).1 ≡ m
  unfolding handle_attach
  handle_attach_lem payload m = elim (Option-cases (d.show payload)) [
    | inl e ↦ rw (e, handle_attach) refl
    | inr (req, e) ↦
        rw (e, handle_attach) (checked-same (validate_namespace_name req.namespace req.name) req m)
  ]
