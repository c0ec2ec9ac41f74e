-- ===== src/Control/Session.antt =====
-- internal/control/server.go: `handleConn`. The client's bytes are given, up to where it closes the
-- connection or is silent for too long; the fuel bounds the lines, and is more than the bytes.
pub mod Ends
use muro.Base.{
  ℕ, zero, suc, ◌+◌, Bool, true, false, not, List, [], ◌∷◌, Option, none, some, Bytes, bytes_eq,
  length, ◌&&◌, if◌then◌else◌,
}
use muro.Sandbox.Manager.{Env, Manager}
use muro.Control.Protocol.{
  Request, Response, Decoder, BrokerStatusResponse, okay, failure, malformed_request,
  type_sandbox_attach, type_logs, type_daemon_shutdown,
}
use muro.Control.Lines.{Line, line, ended, too_long, max_request_line_size, read_line_limited}
use muro.Control.Handlers.{dispatch}
use muro.Control.Stream.{Attached, Opened, Logged, handle_attach, handle_logs}

-- The answers of the connection: whether the write of the n-th response succeeds, how Read cuts what is
-- left of the input, whether a terminal takes a chunk; and the files of logs.
pub record Conn : Type 0 where
  pub writes : ℕ → Bool
  pub pieces : Bytes → List Bytes
  pub accepts : Bytes → Bool
  pub open_log : Bytes → Opened
  pub later : List Bytes

-- how a connection ends; `out_of_fuel` is of the model only
pub data Closed : Type 0 where
  hung_up : Closed
  attached : Attached → Closed
  logged : Logged → Closed
  shut_down : Closed
  out_of_fuel : Closed

-- the responses to the requests that are no streams, how the connection ends, the manager after it
pub record Served : Type 0 where
  pub responses : List Response
  pub closed : Closed
  pub manager : Manager

abbrev pub respond_first : Response → Served → Served
respond_first r s = record s { responses = r ∷ s.responses }

abbrev pub is_okay : Response → Bool
is_okay (okay p) = true
is_okay (failure e) = false

module _ (decode : Decoder) (env : Env) (format_time : ℕ → Bytes)
    (broker : Option BrokerStatusResponse) (conn : Conn) where
  abbrev pub hang_up : Manager → Served
  hang_up m = record { responses = []; closed = hung_up; manager = m }

  -- the part of the loop after the response of `dispatch`; `rest` is the next round
  unfoldable pub after_dispatch : ℕ → Request → (Manager → Served) → Response × Manager → Served
  after_dispatch n req rest (resp, m) =
      if not (conn.writes n)
      then respond_first resp (hang_up m)
      else if bytes_eq req.type_name type_daemon_shutdown && is_okay resp
      then record { responses = resp ∷ []; closed = shut_down; manager = m }
      else respond_first resp (rest m)

  -- the part of the loop with a request
  unfoldable pub serve_request : ℕ → Request → Bytes → (Manager → Served) → Manager → Served
  unfolding after_dispatch
  serve_request n req rest next m =
      if bytes_eq req.type_name type_sandbox_attach
      then (let (a, m') =
            handle_attach decode env (conn.writes n) conn.accepts (conn.pieces rest) req.payload
              m in
          record { responses = []; closed = attached a; manager = m' })
      else if bytes_eq req.type_name type_logs
      then record {
        responses = [];
        closed =
            logged (handle_logs decode env (conn.writes n) conn.open_log conn.later req.payload m);
        manager = m;
      }
      else after_dispatch n req next (dispatch decode env format_time broker req m)

  -- the loop of `handleConn`; `n` counts the responses
  unfoldable pub serve : ℕ → ℕ → Bytes → Manager → Served
  unfolding serve_request
  serve zero n input m = record { responses = []; closed = out_of_fuel; manager = m }
  serve (suc fuel) n input m = elim (read_line_limited max_request_line_size input) [
    | ended _ ↦ hang_up m
    | too_long ↦ hang_up m
    | line text rest ↦ elim (decode.request text) [
      | none ↦ respond_first (failure malformed_request) (serve fuel (n + 1) rest m)
      | some req ↦ serve_request n req rest (serve fuel (n + 1) rest) m
    ]
  ]

  -- `handleConn`
  unfoldable pub handle_conn : Bytes → Manager → Served
  unfolding serve
  handle_conn input m = serve (suc (length input)) 0 input m
