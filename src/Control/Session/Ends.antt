-- ===== src/Control/Session/Ends.antt =====
-- internal/control/server.go: how a connection ends and what it does to the manager.
use muro.Base.{
  ◌≡◌, ◌≢◌, ◌⊎◌, refl, ap, sym, subst, ℕ, zero, suc, ◌+◌, ◌<◌, ◌&&◌, ◌∷◌, Option, Bytes, bytes_eq,
  cut, length, length-append, cut-eq_some, Bool-cases, Option-cases, inl, inr, arith,
}
use muro.Sandbox.Manager.{Env, Manager}
use muro.Sandbox.Manager.Reach.{Follows, at_once, followed}
use muro.Control.Protocol.{
  Request, Response, Decoder, BrokerStatusResponse, type_sandbox_attach, type_logs,
  type_daemon_shutdown,
}
use muro.Control.Lines.{
  Line, line, ended, too_long, max_request_line_size, read_line_limited, read_line_limited_lem,
}
use muro.Control.Handlers.{dispatch}
use muro.Control.Kept.{dispatch-Keeps}
use muro.Control.Stream.Slots.{handle_attach_lem}
use muro.Control.Session.{
  Conn, out_of_fuel, Served, is_okay, after_dispatch, serve_request, serve, handle_conn,
}

Follows-trans : {env : Env} {m n o : Manager} → Follows env m n → Follows env n o → Follows env m o
Follows-trans f at_once = f
Follows-trans f (followed g s) = followed (Follows-trans f g) s

Line-cases :
    (l : Line)
    → ((b : Bytes) × (l ≡ ended b))
      ⊎ (l ≡ too_long)
      ⊎ ((text : Bytes) × (rest : Bytes) × (l ≡ line text rest))
Line-cases (ended b) = inl (b, refl)
Line-cases too_long = inr (inl refl)
Line-cases (line text rest) = inr (inr (text, rest, refl))

-- a line that was read is not the whole of what comes after it
rest-lt :
    (most : ℕ) (input text rest : Bytes)
    → read_line_limited most input ≡ line text rest
    → length rest < length input
rest-lt most input text rest h =
    let e = sym (read_line_limited_lem most input) in
    elim (Option-cases (cut 10 input)) [
      | inl q ↦ absurd (ground arith)
      | inr ((a, b), q) ↦
          let (s, _) = cut-eq_some 10 input a b q in
          let n = length-append a (10 ∷ b) in
          let same : b ≡ rest = ground arith in ground (arith, ap (λ s. length s) s)
    ]

module _ (d : Decoder) (env : Env) (format_time : ℕ → Bytes) (broker : Option BrokerStatusResponse)
    (conn : Conn) where
  after_dispatch-Follows :
      (n : ℕ) (req : Request) (next : Manager → Served) (m : Manager) (r : Response × Manager)
      → ((o : Manager) → Follows env o (next o).manager)
      → Follows env m r.1
      → Follows env m (after_dispatch d env format_time broker conn n req next r).manager
  unfolding after_dispatch
  after_dispatch-Follows n req next m (resp, o) h f = elim (Bool-cases (conn.writes n)) [
    | inr w ↦ rw w f
    | inl w ↦
        rw w (elim (Bool-cases (bytes_eq req.type_name type_daemon_shutdown && is_okay resp)) [
          | inl s ↦ rw s f
          | inr s ↦ rw s (Follows-trans f (h o))
        ])
  ]

  serve_request-Follows :
      (n : ℕ) (req : Request) (rest : Bytes) (next : Manager → Served) (m : Manager)
      → ((o : Manager) → Follows env o (next o).manager)
      → Follows env m (serve_request d env format_time broker conn n req rest next m).manager
  unfolding serve_request
  serve_request-Follows n req rest next m h =
      elim (Bool-cases (bytes_eq req.type_name type_sandbox_attach)) [
        | inl a ↦ rw a (
            subst (Follows env m)
              (sym (
                handle_attach_lem d env (conn.writes n) conn.accepts (conn.pieces rest) req.payload
                  m))
              at_once)
        | inr a ↦ rw a (elim (Bool-cases (bytes_eq req.type_name type_logs)) [
          | inl l ↦ rw l at_once
          | inr l ↦ rw l (
              after_dispatch-Follows n req next m _ h
                ((dispatch-Keeps env d format_time broker req).keeps m))
        ])
      ]

  serve-Follows :
      (fuel n : ℕ) (input : Bytes) (m : Manager)
      → Follows env m (serve d env format_time broker conn fuel n input m).manager
  unfolding serve
  serve-Follows zero n input m = at_once
  serve-Follows (suc fuel) n input m =
      elim (Line-cases (read_line_limited max_request_line_size input)) [
        | inl (b, e) ↦ rw (e, serve) at_once
        | inr (inl e) ↦ rw (e, serve) at_once
        | inr (inr (text, rest, e)) ↦ elim (Option-cases (d.request text)) [
          | inl q ↦ rw (e, serve) (rw (q) (serve-Follows fuel (n + 1) rest m))
          | inr (req, q) ↦
              rw (e, serve)
                (rw q (
                  serve_request-Follows n req rest
                    (serve d env format_time broker conn fuel (n + 1) rest) m
                    (serve-Follows fuel (n + 1) rest)))
        ]
      ]

  serve_request-ends :
      (n : ℕ) (req : Request) (rest : Bytes) (next : Manager → Served) (m : Manager)
      → ((o : Manager) → (next o).closed ≢ out_of_fuel)
      → (serve_request d env format_time broker conn n req rest next m).closed ≢ out_of_fuel
  unfolding serve_request after_dispatch
  serve_request-ends n req rest next m h =
      let o = (dispatch d env format_time broker req m).1 in λ e. absurd (ground (arith, h o))

  serve-ends :
      (fuel n : ℕ) (input : Bytes) (m : Manager)
      → length input < fuel
      → (serve d env format_time broker conn fuel n input m).closed ≢ out_of_fuel
  unfolding serve
  serve-ends zero n input m h = absurd (omega arith)
  serve-ends (suc fuel) n input m h =
      elim (Line-cases (read_line_limited max_request_line_size input)) [
        | inl (b, e) ↦ rw (e, serve) (λ q. absurd (ground arith))
        | inr (inl e) ↦ rw (e, serve) (λ q. absurd (ground arith))
        | inr (inr (text, rest, e)) ↦
            let lt = rest-lt max_request_line_size input text rest e in
            let ih = λ (o : Manager). serve-ends fuel (n + 1) rest o (omega (arith, lt)) in
            elim (Option-cases (d.request text)) [
              | inl q ↦ rw (e, serve) (rw q (ih m))
              | inr (req, q) ↦
                  rw (e, serve)
                    (rw q (
                      serve_request-ends n req rest
                        (serve d env format_time broker conn fuel (n + 1) rest) m ih))
            ]
      ]

  -- Whatever bytes a client sends, in whichever requests, and if nothing else runs between them: the
  -- connection comes to an end, no request is left over for want of fuel, and the manager after it is
  -- one that its own operations lead to from the manager before.
  pub handle_conn_lem :
      (input : Bytes) (m : Manager)
      → ((handle_conn d env format_time broker conn input m).closed ≢ out_of_fuel)
        × Follows env m (handle_conn d env format_time broker conn input m).manager
  unfolding handle_conn
  handle_conn_lem input m = (
    serve-ends (suc (length input)) 0 input m (omega arith),
    serve-Follows (suc (length input)) 0 input m,
  )
