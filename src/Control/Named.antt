-- ===== src/Control/Named.antt =====
-- internal/control/server.go: what the requests that name a sandbox have in common.
use muro.Base.{
  ◌≡◌, refl, ℕ, Bool, true, false, Option, none, some, Bytes, bytes_eq, if◌then◌else◌, arith,
}
use muro.Base
use muro.Config.Validate
use muro.Sandbox.Manager.{Env, Manager}
use muro.Control.Protocol.{
  Request, Decoder, BrokerStatusResponse, failure, bad_name, type_sandbox_show, type_sandbox_run,
  type_sandbox_reload, type_sandbox_restart, type_sandbox_stop, type_sandbox_delete,
  type_sandbox_merge,
}
use muro.Control.Handlers.{
  Handler, with_payload, checked, validate_namespace_name, dispatch, handle_sandbox_show,
  handle_sandbox_run, handle_sandbox_reload, handle_sandbox_restart, handle_sandbox_stop,
  handle_sandbox_delete, handle_sandbox_merge,
}

-- the types of the requests that name one sandbox
pub data Kind : Type 0 where
  show run reload restart stop delete merge : Kind

abbrev pub type_of : Kind → Bytes
type_of show = type_sandbox_show
type_of run = type_sandbox_run
type_of reload = type_sandbox_reload
type_of restart = type_sandbox_restart
type_of stop = type_sandbox_stop
type_of delete = type_sandbox_delete
type_of merge = type_sandbox_merge

abbrev names : {A : Type 0} → (A → Bytes × Bytes) → Option A → Option (Bytes × Bytes)
names f none = none
names f (some a) = some (f a)

-- the namespace and the name in a payload
abbrev pub addressed : Decoder → Kind → Bytes → Option (Bytes × Bytes)
addressed d show payload = names (λ r. (r.namespace, r.name)) (d.show payload)
addressed d run payload = names (λ r. (r.namespace, r.name)) (d.run payload)
addressed d reload payload = names (λ r. (r.namespace, r.name)) (d.reload payload)
addressed d restart payload = names (λ r. (r.namespace, r.name)) (d.restart payload)
addressed d stop payload = names (λ r. (r.namespace, r.name)) (d.show payload)
addressed d delete payload = names (λ r. (r.namespace, r.name)) (d.delete payload)
addressed d merge payload = names (λ r. (r.namespace, r.name)) (d.merge payload)

module _ {A : Type 0} (f : A → Bytes × Bytes) (handle : A → Handler) (m : Manager) where
  -- a handler that checks the names of its payload first
  checks_first :
      (o : Option A) (namespace name : Bytes) (fault : Validate.Fault)
      → names f o ≡ some (namespace, name)
      → validate_namespace_name namespace name ≡ Base.err fault
      → with_payload o (λ a. checked (validate_namespace_name (f a).0 (f a).1) (handle a)) m
        ≡ (failure (bad_name fault), m)
  unfolding with_payload checked
  checks_first none namespace name fault e v = absurd (ground arith)
  checks_first (some a) namespace name fault e v =
      let p : (f a).0 ≡ namespace = ground arith in
      let q : (f a).1 ≡ name = ground arith in rw (p, q, v, checked) refl

abbrev pub request : Kind → Bytes → Request
request kind payload = record { type_name = type_of kind; payload = payload }

module _ (d : Decoder) (env : Env) (format_time : ℕ → Bytes)
    (broker : Option BrokerStatusResponse) where
  -- For each of the seven requests that name a sandbox, whatever else its payload asks for: where the
  -- name or the namespace is refused, the response is that error, and the manager is left as it was, its
  -- store and its effects on the host included.
  pub bad_name_lem :
      (kind : Kind) (payload namespace name : Bytes) (fault : Validate.Fault) (m : Manager)
      → addressed d kind payload ≡ some (namespace, name)
      → validate_namespace_name namespace name ≡ Base.err fault
      → dispatch d env format_time broker (request kind payload) m ≡ (failure (bad_name fault), m)
  unfolding dispatch bytes_eq handle_sandbox_show handle_sandbox_run handle_sandbox_reload
      handle_sandbox_restart handle_sandbox_stop handle_sandbox_delete handle_sandbox_merge
  bad_name_lem show payload ns n fault m =
      checks_first (λ r. (r.namespace, r.name)) _ m (d.show payload) ns n fault
  bad_name_lem run payload ns n fault m =
      checks_first (λ r. (r.namespace, r.name)) _ m (d.run payload) ns n fault
  bad_name_lem reload payload ns n fault m =
      checks_first (λ r. (r.namespace, r.name)) _ m (d.reload payload) ns n fault
  bad_name_lem restart payload ns n fault m =
      checks_first (λ r. (r.namespace, r.name)) _ m (d.restart payload) ns n fault
  bad_name_lem stop payload ns n fault m =
      checks_first (λ r. (r.namespace, r.name)) _ m (d.show payload) ns n fault
  bad_name_lem delete payload ns n fault m =
      checks_first (λ r. (r.namespace, r.name)) _ m (d.delete payload) ns n fault
  bad_name_lem merge payload ns n fault m =
      checks_first (λ r. (r.namespace, r.name)) _ m (d.merge payload) ns n fault
