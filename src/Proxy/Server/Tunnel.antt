-- ===== src/Proxy/Server/Tunnel.antt =====
-- internal/proxy/proxy.go: what gets through a tunnel.
use muro.Base.{
  ◌≡◌, ◌≢◌, refl, subst, Bool, true, false, ◌*◌, List, [], ◌∷◌, ◌++◌, Option, some, Bytes, codes,
  inl, inr, Bool-cases, Option-cases, length, ltb, bytes_eq, if◌then◌else◌, arith,
}
use muro.Proxy.Sni
use muro.Proxy.Sni.{extract_sni, record_body, Parsed}
use muro.Proxy.Allowlist.{Url, Allowlist, allows_host}
use muro.Proxy.Server.{
  Request, Read, Net, Server, Peeked, denied, peeked, relayed, deny, key_or_empty,
  resolve_sandbox_key_by_addr, allowlist_for, target_port, forward_http, vet, peek, dial, tunnel,
  handle_http, handle_connect, handle,
}

module _ (url_parse : Bytes → Option Url) (canonical : Bytes → Bytes) where
  -- what bytes that parse to a server name have to fulfil
  abbrev pub Vetted : Allowlist → Bytes → Parsed Bytes → Type 0
  Vetted a target (Sni.ok host) =
      allows_host url_parse a (host ++ (codes ":" ++ target_port target)) ≡ true
  Vetted a target _ = Unit

  module _ (a : Allowlist) (target : Bytes) where
    -- what the loop returns
    abbrev Result : Peeked → Type 0
    Result (denied host) =
        allows_host url_parse a (host ++ (codes ":" ++ target_port target)) ≡ false
    Result (peeked buf) = Vetted a target (extract_sni buf)

    -- one read: the check of the bytes so far, or what follows it
    vet-Result :
        (after_read : Bytes → Peeked) (buf : Bytes) (p : Parsed Bytes)
        → extract_sni buf ≡ p
        → (Vetted a target (extract_sni buf) → Result (after_read buf))
        → Result (vet url_parse canonical a target after_read buf p)
    unfolding vet
    vet-Result after_read buf (Sni.ok host) e next =
        elim (Bool-cases (allows_host url_parse a (host ++ (codes ":" ++ target_port target)))) [
          | inl h ↦ rw h (rw e h)
          | inr h ↦ rw h h
        ]
    vet-Result after_read buf (Sni.err x) e next = next (rw e tt)
    vet-Result after_read buf Sni.panic e next = next (rw e tt)
    vet-Result after_read buf Sni.stuck e next = next (rw e tt)

    failed-Result :
        (failed : Bool) (buf : Bytes) (rest : Peeked)
        → Vetted a target (extract_sni buf)
        → Result rest
        → Result (if failed then peeked buf else rest)
    failed-Result true buf rest v h = v
    failed-Result false buf rest v h = h

    nothing-Vetted : Vetted a target (extract_sni [])
    unfolding extract_sni record_body
    nothing-Vetted = tt

    peek-Result :
        (buf : Bytes) (reads : List Read)
        → Vetted a target (extract_sni buf)
        → Result (peek url_parse canonical a target buf reads)
    unfolding peek
    peek-Result buf [] v = v
    peek-Result buf (r ∷ rs) v =
        let after_read =
          λ (b : Bytes). if r.failed then peeked b else peek url_parse canonical a target b rs in
        elim (Bool-cases (ltb (length buf) (16 * 1024))) [
          | inr full ↦ rw full v
          | inl room ↦ rw room (elim (Bool-cases (bytes_eq r.bytes [])) [
            | inl nothing ↦ rw nothing (failed-Result r.failed buf _ v (peek-Result buf rs v))
            | inr more ↦
                let b = buf ++ r.bytes in
                rw more (
                  vet-Result after_read b (extract_sni b) refl
                    (λ w. failed-Result r.failed b _ w (peek-Result b rs w)))
          ])
        ]

  dial-relayed :
      (net : Net) (key target : Bytes) (p : Peeked) (s : Server) {to first : Bytes}
      → (dial url_parse canonical net key target p s).0 ≡ relayed to first
      → (p ≡ peeked first) × (to ≡ target)
  unfolding dial
  dial-relayed net key target (denied host) s h = absurd (ground arith)
  dial-relayed net key target (peeked buf) s h = (ground arith, ground arith)

  tunnel-relayed :
      (net : Net) (a : Allowlist) (key target : Bytes) (s : Server) {to first : Bytes}
      → (tunnel url_parse canonical net a key target s).0 ≡ relayed to first
      → (peek url_parse canonical a target [] net.reads ≡ peeked first) × (to ≡ target)
  unfolding tunnel
  tunnel-relayed net a key target s {to} {first} h =
      let d =
        dial-relayed net key target (peek url_parse canonical a target [] net.reads) s {to = to}
          {first = first} in
      (ground (arith, d), ground (arith, d))

  -- the allowlist that lets a relay through
  pub record Through (s : Server) (r : Request) (to first : Bytes) : Type 0 where
    pub allowlist : Allowlist
    pub of_peer :
        allowlist_for url_parse canonical (resolve_sandbox_key_by_addr s r.remote_addr) s
        ≡ some allowlist
    pub allowed : allows_host url_parse allowlist r.host ≡ true
    pub to_target : to ≡ r.host
    pub vetted : Vetted allowlist r.host (extract_sni first)

  connect-Through :
      (net : Net) (r : Request) (s : Server) {to first : Bytes}
      → (handle_connect url_parse canonical net r s).0 ≡ relayed to first
      → Through s r to first
  unfolding handle_connect deny
  connect-Through net r s {to} {first} h =
      let key = resolve_sandbox_key_by_addr s r.remote_addr in
      elim (Option-cases (allowlist_for url_parse canonical key s)) [
        | inl n ↦ absurd (ground arith)
        | inr (a, n) ↦ elim (Bool-cases (allows_host url_parse a r.host)) [
          | inr p ↦ absurd (ground arith)
          | inl p ↦
              let through : (tunnel url_parse canonical net a (key_or_empty key) r.host s).0
                  ≡ relayed to first =
                ground arith in
              let (e, t) = tunnel-relayed net a (key_or_empty key) r.host s through in
              let v = peek-Result a r.host [] net.reads (nothing-Vetted a r.host) in
              record {
                allowlist = a;
                of_peer = n;
                allowed = p;
                to_target = t;
                vetted = subst (Result a r.host) e v;
              }
        ]
      ]

  handle_http-ne-relayed :
      (net : Net) (r : Request) (s : Server) {to first : Bytes}
      → (handle_http url_parse canonical net r s).0 ≢ relayed to first
  unfolding handle_http deny forward_http
  handle_http-ne-relayed net r s h = ground arith

  -- Whatever the client sends in whichever pieces: a connection is relayed only to the host that its
  -- request names, which the allowlist of the peer's sandbox allows; and if the bytes that go first are
  -- a TLS hello with a server name, that name at the target's port (443 if it has none) is allowed too.
  pub relayed_lem :
      (net : Net) (r : Request) (s : Server) {to first : Bytes}
      → (handle url_parse canonical net r s).0 ≡ relayed to first
      → Through s r to first
  unfolding handle
  relayed_lem net r s {to} {first} h = elim (Bool-cases (bytes_eq r.method (codes "CONNECT"))) [
    | inl m ↦
        let k : (handle_connect url_parse canonical net r s).0 ≡ relayed to first = ground arith in
        connect-Through net r s k
    | inr m ↦
        let k : (handle_http url_parse canonical net r s).0 ≡ relayed to first = ground arith in
        absurd (handle_http-ne-relayed net r s k)
  ]
