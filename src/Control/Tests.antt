-- ===== src/Control/Tests.antt =====
-- The control API with a decoder that knows a few requests.
use muro.Base.{
  ◌≡◌, ◌≢◌, refl, ℕ, Bool, true, false, List, [], ◌∷◌, ◌++◌, Option, none, some, Bytes, codes,
  contains, contains_byte, bytes_eq, has_prefix, if◌then◌else◌,
}
use muro.Base
use muro.Config.Validate
use muro.Config.Validate.{valid_sandbox_name}
use muro.State.Store.{new_store}
use muro.Sandbox.Attach.{detach_sequence}
use muro.Sandbox.Attach.Scan.{joined}
use muro.Sandbox.Manager.{Manager}
use muro.Sandbox.Manager.Host.{host, no_json}
use muro.Sandbox.Manager.Reach.{Follows, new_manager}
use muro.Control.Protocol.{
  Decoder, BrokerStatusResponse, SandboxShowRequest, failure, bad_name, type_sandbox_stop,
}
use muro.Control.Lines.{first_line, read_line_limited, read_line_limited_lem}
use muro.Control.Handlers.{dispatch, validate_namespace_name}
use muro.Control.Named.{stop, request, bad_name_lem}
use muro.Control.Stream.{missing, forward, detached, input_ended, handle_attach}
use muro.Control.Stream.Slots.{handle_attach_lem}
use muro.Control.Stream.Typed.{forward_lem}
use muro.Control.Session.{Conn, handle_conn, out_of_fuel}
use muro.Control.Session.Ends.{handle_conn_lem}

-- each payload is the name of a sandbox
abbrev shown : Bytes → Option SandboxShowRequest
shown payload = some (record { namespace = codes "default"; name = payload })

abbrev decoder : Decoder
decoder = record {
  request = λ text. some (record { type_name = type_sandbox_stop; payload = text });
  status = λ _. none;
  show = shown;
  run = λ _. none;
  update = λ _. none;
  reload = λ _. none;
  restart = λ _. none;
  delete = λ _. none;
  merge = λ _. none;
  logs = λ _. none;
}

abbrev no_format : ℕ → Bytes
no_format _ = []

abbrev no_broker : Option BrokerStatusResponse
no_broker = none

abbrev manager : Manager
manager = new_manager (new_store no_json none)

abbrev conn : Conn
conn = record {
  writes = λ _. true;
  pieces = λ rest. rest ∷ [];
  accepts = λ _. true;
  open_log = λ _. missing;
  later = [];
}

refused_name :
    validate_namespace_name (codes "default") (codes "../x") ≡ Base.err Validate.separator
unfolding validate_namespace_name valid_sandbox_name bytes_eq contains_byte
refused_name = refl

bad_name_lem_example :
    dispatch decoder host no_format no_broker (request stop (codes "../x")) manager
    ≡ (failure (bad_name Validate.separator), manager)
bad_name_lem_example =
    bad_name_lem decoder host no_format no_broker stop (codes "../x") (codes "default")
      (codes "../x") Validate.separator manager refl refused_name

read_line_limited_lem_example :
    read_line_limited 4 (97 ∷ 98 ∷ 10 ∷ 99 ∷ []) ≡ first_line 4 (97 ∷ 98 ∷ 10 ∷ 99 ∷ [])
read_line_limited_lem_example = read_line_limited_lem 4 (97 ∷ 98 ∷ 10 ∷ 99 ∷ [])

handle_attach_lem_example :
    (handle_attach decoder host true (λ _. true) (codes "ls" ∷ []) (codes "box") manager).1
    ≡ manager
handle_attach_lem_example =
    handle_attach_lem decoder host true (λ _. true) (codes "ls" ∷ []) (codes "box") manager

abbrev typed : List Bytes
typed = codes "ls" ∷ (16 ∷ []) ∷ (17 ∷ codes "more") ∷ []

forward_lem_example :
    (contains (joined (forward (λ _. true) 0 typed).0) detach_sequence ≡ false)
    × (contains (joined typed) detach_sequence ≡ true → (forward (λ _. true) 0 typed).1 ≡ detached)
    × (contains (joined typed) detach_sequence ≡ false
        → ((forward (λ _. true) 0 typed).1 ≡ input_ended)
          × (joined (forward (λ _. true) 0 typed).0 ≡ joined typed))
forward_lem_example = forward_lem (λ _. true) typed

handle_conn_lem_example :
    ((handle_conn decoder host no_format no_broker conn (codes "box" ++ 10 ∷ []) manager).closed
      ≢ out_of_fuel)
    × Follows host manager
        (handle_conn decoder host no_format no_broker conn (codes "box" ++ 10 ∷ []) manager).manager
handle_conn_lem_example =
    handle_conn_lem decoder host no_format no_broker conn (codes "box" ++ 10 ∷ []) manager
