-- ===== src/Proxy/Server/Gate.antt =====
-- internal/proxy/proxy.go: who gets past the first check of a request, after any calls that
-- configured the server.
use muro.Base.{
  ◌≡◌, refl, subst, ◌≢◌, ◌↔◌, inl, inr, true, false, List, [], Option, some, Bytes, codes, Any,
  Bool-cases, Option-cases, bytes_eq, arith,
}
use muro.State.Store.{Store}
use muro.Proxy.Allowlist.{
  Url, Allowlist, allows_http, allows_host, connect_target, http_target, new_allowlist,
}
use muro.Proxy.Allowlist.Decide.{From, MatchesHost, MatchesHttp, allows_host_iff, allows_http_iff}
use muro.Proxy.Server.{
  Request, Net, Server, Peeked, denied, peeked, refused, deny, full_url, key_or_empty,
  resolve_sandbox_key_by_addr, out_request, forward_http, peek, dial, tunnel, handle_http,
  handle_connect, handle,
}
use muro.Proxy.Server.History.{Call, Granted, Granted-map, configured, found, passes, passes_iff}

-- one of the entries matches an address, whose target the rules look at
abbrev pub AnyHttp : (Bytes → Option Url) → Url → List Bytes → Type 0
AnyHttp url_parse u urls =
    (target : Bytes × Bytes) × (http_target u ≡ some target)
    × Any (From url_parse (MatchesHttp u target)) urls

module _ (url_parse : Bytes → Option Url) (canonical : Bytes → Bytes) where
  peek-refused :
      (net : Net) (key target : Bytes) (p : Peeked) (s : Server)
      → (dial url_parse canonical net key target p s).0 ≢ refused 403
  unfolding dial
  peek-refused net key target (denied host) s h = ground arith
  peek-refused net key target (peeked buf) s h = ground arith

  tunnel-ne-refused :
      (net : Net) (a : Allowlist) (key target : Bytes) (s : Server)
      → (tunnel url_parse canonical net a key target s).0 ≢ refused 403
  unfolding tunnel
  tunnel-ne-refused net a key target s h =
      ground (arith, peek-refused net key target (peek url_parse canonical a target [] net.reads) s)

  forward_http-ne-refused :
      (net : Net) (r : Request) → forward_http url_parse canonical net r ≢ refused 403
  unfolding forward_http
  forward_http-ne-refused net r h = ground arith

  connect_passes :
      (net : Net) (r : Request) (s : Server)
      → ((handle_connect url_parse canonical net r s).0 ≢ refused 403) ↔ (
          passes (λ a. allows_host url_parse a r.host) (found url_parse canonical r.remote_addr s)
          ≡ true)
  unfolding handle_connect deny
  connect_passes net r s =
      let key = key_or_empty (resolve_sandbox_key_by_addr s r.remote_addr) in
      elim (Option-cases (found url_parse canonical r.remote_addr s)) [
        | inl n ↦ rw (n, handle_connect) (λ h. absurd (h refl), λ e. absurd (ground arith))
        | inr (a, n) ↦ elim (Bool-cases (allows_host url_parse a r.host)) [
          | inl p ↦
              rw (n, handle_connect) (rw p (λ h. refl, λ e. tunnel-ne-refused net a key r.host s))
          | inr p ↦ rw (n, handle_connect) (rw p (λ h. absurd (h refl), λ e. absurd (ground arith)))
        ]
      ]

  http_passes :
      (net : Net) (r : Request) (s : Server)
      → ((handle_http url_parse canonical net r s).0 ≢ refused 403) ↔ (
          passes
            (λ a. allows_http url_parse a (full_url r))
            (found url_parse canonical r.remote_addr s)
          ≡ true)
  unfolding handle_http deny
  http_passes net r s = elim (Option-cases (found url_parse canonical r.remote_addr s)) [
    | inl n ↦ rw (n, handle_http) (λ h. absurd (h refl), λ e. absurd (ground arith))
    | inr (a, n) ↦ elim (Bool-cases (allows_http url_parse a (full_url r))) [
      | inl p ↦ rw (n, handle_http) (rw p (λ h. refl, λ e. forward_http-ne-refused net r))
      | inr p ↦ rw (n, handle_http) (rw p (λ h. absurd (h refl), λ e. absurd (ground arith)))
    ]
  ]

  -- After any calls that configured the proxy, a CONNECT request is answered with something else than
  -- the status 403 exactly when the peer's address was last registered for a key, entries were last set
  -- for that key, and one of them parses to a rule that matches the host and the port of the target.
  pub connect_gate :
      (net : Net) (r : Request) (store : Option Store) (calls : List Call)
      → bytes_eq r.method (codes "CONNECT") ≡ true
      → ((handle url_parse canonical net r (configured url_parse canonical store calls)).0
          ≢ refused 403)
        ↔ Granted (Any (From url_parse (MatchesHost (connect_target r.host)))) calls r.remote_addr
  unfolding handle
  connect_gate net r store calls m =
      let a = connect_passes net r (configured url_parse canonical store calls) in
      let test = λ (a : Allowlist). allows_host url_parse a r.host in
      let b = passes_iff url_parse canonical test store r.remote_addr calls in
      rw m (
        λ h.
            Granted-map _ _ calls r.remote_addr (λ urls. (allows_host_iff url_parse urls r.host).0)
              (b.0 (a.0 h)),
        λ g. a.1 (
            b.1 (
              Granted-map _ _ calls r.remote_addr
                (λ urls. (allows_host_iff url_parse urls r.host).1) g)),
      )

  allows_sent_iff :
      (urls : List Bytes) (full : Bytes) (u : Url)
      → url_parse full ≡ some u
      → (allows_http url_parse (new_allowlist url_parse urls) full ≡ true)
        ↔ AnyHttp url_parse u urls
  allows_sent_iff urls full u e = (
    λ h.
        let (v, target, p, n, m) = (allows_http_iff url_parse urls full).0 h in
        let q : v ≡ u = ground arith in
        (
          target,
          subst (λ w. http_target w ≡ some target) q n,
          subst (λ w. Any (From url_parse (MatchesHttp w target)) urls) q m,
        ),
    λ (target, n, m). (allows_http_iff url_parse urls full).1 (u, target, e, n, m),
  )

  -- After any calls that configured the proxy, a request that is not CONNECT, and whose full address
  -- parses to the one that it is sent to, is not refused with 403 by the proxy itself (a 403 that the
  -- destination answers is another matter) exactly when the peer's address was last registered for a
  -- key, entries were last set for that key, and one of them parses to a rule that matches the address to
  -- which the request is sent.
  pub http_gate :
      (net : Net) (r : Request) (store : Option Store) (calls : List Call)
      → bytes_eq r.method (codes "CONNECT") ≡ false
      → url_parse (full_url r) ≡ some (out_request url_parse canonical r).url
      → ((handle url_parse canonical net r (configured url_parse canonical store calls)).0
          ≢ refused 403)
        ↔ Granted (AnyHttp url_parse (out_request url_parse canonical r).url) calls r.remote_addr
  unfolding handle
  http_gate net r store calls m e =
      let u = (out_request url_parse canonical r).url in
      let a = http_passes net r (configured url_parse canonical store calls) in
      let b =
        passes_iff url_parse canonical (λ a. allows_http url_parse a (full_url r)) store
          r.remote_addr calls in
      let c = λ (urls : List Bytes). allows_sent_iff urls (full_url r) u e in
      rw m (
        λ h. Granted-map _ _ calls r.remote_addr (λ urls. (c urls).0) (b.0 (a.0 h)),
        λ g. a.1 (b.1 (Granted-map _ _ calls r.remote_addr (λ urls. (c urls).1) g)),
      )
