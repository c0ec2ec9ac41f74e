-- ===== src/Proxy/Server/Headers.antt =====
-- internal/proxy/proxy.go: the headers of a forwarded request and of its response.
use muro.Base.{
  ◌≡◌, ◌≢◌, refl, subst, List, [], ◌∷◌, Option, none, some, Bytes, map, in_set, inl, inr,
  Option-cases, bytes_eq, bytes_eq_iff, if◌then◌else◌, arith,
}
use muro.Proxy.Allowlist.{Url}
use muro.Proxy.Server.{
  Header, Request, Response, Net, Server, responded, lookup, hop_headers, del, del_all,
  strip_hop_headers, out_request, allowlist_for, resolve_sandbox_key_by_addr, forward_http, deny,
  peek, dial, Peeked, denied, peeked, key_or_empty, tunnel, handle_http, handle_connect, handle,
}

lookup-del :
    (k j : Bytes) (h : Header) → lookup k (del j h) ≡ (if bytes_eq j k then none else lookup k h)
unfolding lookup del
lookup-del k j [] = ground arith
lookup-del k j ((i, vs) ∷ h) =
    ground (arith, lookup-del k j h, bytes_eq_iff i j, bytes_eq_iff i k, bytes_eq_iff j k)

module _ (url_parse : Bytes → Option Url) (canonical : Bytes → Bytes) where
  lookup-del_all :
      (k : Bytes) (names : List Bytes) (h : Header)
      → lookup k (del_all url_parse canonical names h)
        ≡ (if in_set k (map canonical names) then none else lookup k h)
  unfolding del_all in_set
  lookup-del_all k [] h = refl
  lookup-del_all k (n ∷ ns) h = ground (
    arith,
    lookup-del_all k ns (del (canonical n) h),
    lookup-del k (canonical n) h,
    bytes_eq_iff k (canonical n),
    bytes_eq_iff (canonical n) k,
  )

  -- the names of one hop are gone and all others are as they were
  abbrev pub Cleaned : Header → Header → Type 0
  Cleaned before later =
      (k : Bytes)
      → lookup k later ≡ (if in_set k (map canonical hop_headers) then none else lookup k before)

  strip-Cleaned : (h : Header) → Cleaned h (strip_hop_headers url_parse canonical h)
  unfolding strip_hop_headers
  strip-Cleaned h k = lookup-del_all k hop_headers h

  -- the response of the destination, of which the client gets all but the headers of one hop
  pub record Relays (net : Net) (r q : Request) (resp : Response) : Type 0 where
    pub raw : Response
    pub sent : net.round_trip q ≡ some raw
    pub same_method : q.method ≡ r.method
    pub same_status : resp.status ≡ raw.status
    pub same_body : resp.body ≡ raw.body
    pub request_header : Cleaned r.header q.header
    pub response_header : Cleaned raw.header resp.header

  forward-Relays :
      (net : Net) (r : Request) {q : Request} {resp : Response}
      → forward_http url_parse canonical net r ≡ responded q resp
      → Relays net r q resp
  unfolding forward_http
  forward-Relays net r {q} {resp} h =
      elim (Option-cases (net.round_trip (out_request url_parse canonical r))) [
        | inl n ↦ absurd (ground arith)
        | inr (raw, e) ↦
            let a : out_request url_parse canonical r ≡ q = ground arith in
            let b : record raw { header = strip_hop_headers url_parse canonical raw.header }
                ≡ resp =
              ground arith in
            subst (λ q. Relays net r q resp) a
              (subst (λ resp. Relays net r (out_request url_parse canonical r) resp) b
                (record {
                  raw = raw;
                  sent = e;
                  same_method = unfold out_request in refl;
                  same_status = refl;
                  same_body = refl;
                  request_header = unfold out_request in strip-Cleaned r.header;
                  response_header = strip-Cleaned raw.header;
                }))
      ]

  dial-ne-responded :
      (net : Net) (key target : Bytes) (p : Peeked) (s : Server) {q : Request} {resp : Response}
      → (dial url_parse canonical net key target p s).0 ≢ responded q resp
  unfolding dial
  dial-ne-responded net key target (denied host) s h = ground arith
  dial-ne-responded net key target (peeked buf) s h = ground arith

  -- A response that the client gets is one that the destination gave to the request that was sent
  -- there, with its status and body; that request has the client's method; and from the headers of both
  -- exactly the hop-by-hop names of the code, in canonical form, are removed. The server is unchanged.
  pub responded_lem :
      (net : Net) (r : Request) (s : Server) {q : Request} {resp : Response}
      → (handle url_parse canonical net r s).0 ≡ responded q resp
      → Relays net r q resp × ((handle url_parse canonical net r s).1 ≡ s)
  unfolding handle handle_connect handle_http deny tunnel
  responded_lem net r s {q} {resp} h =
      let key = resolve_sandbox_key_by_addr s r.remote_addr in
      elim (Option-cases (allowlist_for url_parse canonical key s)) [
        | inl n ↦ absurd (ground arith)
        | inr (a, n) ↦
            let d =
              dial-ne-responded net (key_or_empty key) r.host
                (peek url_parse canonical a r.host [] net.reads) s {q = q} {resp = resp} in
            let f : forward_http url_parse canonical net r ≡ responded q resp = ground (arith, d) in
            (forward-Relays net r f, ground (arith, d))
      ]
