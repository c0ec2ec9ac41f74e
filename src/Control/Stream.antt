-- ===== src/Control/Stream.antt =====
-- internal/control/stream.go: an attached client and a reader of logs. The scanner for the detach
-- sequence is a copy of that of internal/sandbox/pty.go, whose `feed` stands for it. What the sandbox
-- writes to an attached client is not modelled.
pub mod Slots
pub mod Typed
use muro.Base.{
  ℕ, zero, Bool, true, false, List, [], ◌∷◌, ◌++◌, Option, none, some, Bytes, bytes_eq,
  if◌then◌else◌,
}
use muro.Base
use muro.Config.Validate
use muro.State.Store.{Sandbox, key, get}
use muro.Sandbox.Attach.{feed}
use muro.Sandbox.Manager.{Env, Manager, Handle, Result, ok, err}
use muro.Sandbox.Manager.Run.{default_namespace}
use muro.Sandbox.Manager.Launch.{sandbox_log_path}
use muro.Sandbox.Manager.Restart.{detach_client}
use muro.Sandbox.Manager.Attach.{attach}
use muro.Control.Protocol.{
  Decoder, Response, SandboxShowRequest, LogsRequest, okay, failure, done, bad_payload, bad_name,
  refused, not_found, no_log_path, log_unreadable,
}
use muro.Control.Handlers.{validate_namespace_name}

-- How the loop over the client's input ends; `panicked` is an index out of range.
pub data Ending : Type 0 where
  detached : Ending
  write_failed : Ending
  input_ended : Ending
  panicked : Ending

abbrev pub push : Bytes → List Bytes × Ending → List Bytes × Ending
push chunk (chunks, end) = (chunk ∷ chunks, end)

-- The loop of `handleAttach`: the chunks handed to the pty, the last of which it may refuse, and how the
-- loop ends. A chunk is what a Read
-- yields; an error comes after the last.
unfoldable pub forward : (Bytes → Bool) → ℕ → List Bytes → List Bytes × Ending
forward accepts matched [] = ([], input_ended)
forward accepts matched (chunk ∷ chunks) = elim (bytes_eq chunk []) [
  | true ↦ forward accepts matched chunks
  | false ↦ elim (feed matched chunk) [
    | none ↦ ([], panicked)
    | some (true, _) ↦ ([], detached)
    | some (false, m) ↦ elim (accepts chunk) [
      | true ↦ push chunk (forward accepts m chunks)
      | false ↦ (chunk ∷ [], write_failed)
    ]
  ]
]

-- what an attached client leaves: the response, and what was written to the pty if it came to that
pub record Attached : Type 0 where
  pub response : Response
  pub typed : List Bytes

-- os.Open of a log file, with its content
pub data Opened : Type 0 where
  missing : Opened
  unreadable : Opened
  content : Bytes → Opened

-- what a reader of logs gets
pub record Logged : Type 0 where
  pub response : Response
  pub text : List Bytes

abbrev refuse_logs : Response → Logged
refuse_logs r = record { response = r; text = [] }

module _ (decode : Decoder) (env : Env) where
  -- what follows Attach in `handleAttach`; `greets` says whether the response was written
  unfoldable pub attach_session :
      Bool → (Bytes → Bool) → List Bytes → Bytes → Result Handle × Manager → Attached × Manager
  unfolding forward detach_client
  attach_session greets accepts chunks k (err e, m) =
      (record { response = failure (refused e); typed = [] }, m)
  attach_session greets accepts chunks k (ok h, m) =
      let typed : List Bytes = if greets then (forward accepts 0 chunks).0 else [] in
      (record { response = okay done; typed = typed }, detach_client k m)

  -- the check of the name in `handleAttach`
  unfoldable pub attach_checked :
      Validate.Check
      → Bool
      → (Bytes → Bool)
      → List Bytes
      → SandboxShowRequest
      → Manager
      → Attached × Manager
  unfolding attach_session
  attach_checked (Base.err f) greets accepts chunks req m =
      (record { response = failure (bad_name f); typed = [] }, m)
  attach_checked (Base.ok _) greets accepts chunks req m =
      let ns = default_namespace req.namespace in
      attach_session greets accepts chunks (key ns req.name) (attach env ns req.name m)

  -- `handleAttach`
  unfoldable pub handle_attach :
      Bool → (Bytes → Bool) → List Bytes → Bytes → Manager → Attached × Manager
  unfolding attach_checked
  handle_attach greets accepts chunks payload m = elim (decode.show payload) [
    | none ↦ (record { response = failure bad_payload; typed = [] }, m)
    | some req ↦
        attach_checked (validate_namespace_name req.namespace req.name) greets accepts chunks req m
  ]

  -- The file in `handleLogs`; `later` is what the file gets while a client follows it, also where it was
  -- missing at first.
  unfoldable pub read_log : Bool → Bool → List Bytes → Opened → Logged
  read_log greets follows later unreadable = refuse_logs (failure log_unreadable)
  read_log greets follows later missing = record {
    response = okay done;
    text = if greets then (if follows then later else []) else [];
  }
  read_log greets follows later (content text) =
      let rest : List Bytes = if follows then later else [] in
      record { response = okay done; text = if greets then text ∷ rest else [] }

  -- `handleLogs` after the check of the name
  unfoldable pub log_of :
      Bool → (Bytes → Opened) → List Bytes → LogsRequest → Option Sandbox → Option Bytes → Logged
  unfolding read_log
  log_of greets open_log later req none dir = refuse_logs (failure not_found)
  log_of greets open_log later req (some sb) none = refuse_logs (failure no_log_path)
  log_of greets open_log later req (some sb) (some dir) =
      read_log greets req.follow later
        (open_log (sandbox_log_path (some dir) (default_namespace req.namespace) req.name))

  unfoldable pub logs_checked :
      Validate.Check → Bool → (Bytes → Opened) → List Bytes → LogsRequest → Manager → Logged
  unfolding log_of
  logs_checked (Base.err f) greets open_log later req m = refuse_logs (failure (bad_name f))
  logs_checked (Base.ok _) greets open_log later req m =
      log_of greets open_log later req (get (default_namespace req.namespace) req.name m.store)
        env.daemon_state_dir

  -- `handleLogs`
  unfoldable pub handle_logs : Bool → (Bytes → Opened) → List Bytes → Bytes → Manager → Logged
  unfolding logs_checked
  handle_logs greets open_log later payload m = elim (decode.logs payload) [
    | none ↦ refuse_logs (failure bad_payload)
    | some req ↦
        logs_checked (validate_namespace_name req.namespace req.name) greets open_log later req m
  ]
