-- ===== src/Proxy/Server.antt =====
-- internal/proxy/proxy.go: the per-sandbox proxy. A map keeps its newest entry first, and nothing
-- ranges over it. The connections of net and net/http are answers of the surroundings: what a read
-- yields, whether a destination is reached, what it responds. Timeouts are reads that fail.
mod Tests
pub mod History
pub mod Gate
pub mod Tunnel
pub mod Refused
pub mod Headers
use muro.Base.{
  ℕ, ◌+◌, ◌*◌, Bool, true, false, not, List, [], ◌∷◌, ◌++◌, Option, none, some, Bytes, codes,
  length, bytes_eq, cut, ltb, if◌then◌else◌, ◌&&◌, ◌||◌,
}
use muro.State.Ring.{DeniedEvent}
use muro.State.Store.{Store, record_denied}
use muro.Proxy.Sni
use muro.Proxy.Sni.{Parsed, extract_sni}
use muro.Proxy.Allowlist.{
  Url, Allowlist, swap, new_allowlist, allows_http, allows_host, split_host_port,
}

unfoldable pub lookup : {A : Type 0} → Bytes → List (Bytes × A) → Option A
lookup k [] = none
lookup k ((j, a) ∷ m) = if bytes_eq j k then some a else lookup k m

-- an http.Header, by its canonical names
abbrev pub Header : Type 0
Header = List (Bytes × List Bytes)

-- what the code reads of an http.Request; `url_string` is r.URL.String()
pub record Request : Type 0 where
  pub method : Bytes
  pub host : Bytes
  pub url : Url
  pub url_string : Bytes
  pub request_uri : Bytes
  pub header : Header
  pub remote_addr : Bytes

pub record Response : Type 0 where
  pub status : ℕ
  pub header : Header
  pub body : Bytes

-- one conn.Read: its bytes and whether it returned an error
pub record Read : Type 0 where
  pub bytes : Bytes
  pub failed : Bool

-- the answers of the surroundings to one request; `reads` ends where the deadline passes
pub record Net : Type 0 where
  pub now : ℕ
  pub disk : Bool
  pub round_trip : Request → Option Response
  pub hijackable : Bool
  pub hijacked : Bool
  pub greeted : Bool
  pub reads : List Read
  pub dials : Bytes → Bool
  pub replays : Bytes → Bool

-- `Server`, with the default `SandboxKeyFunc` and without its timeouts
pub record Server : Type 0 where
  pub store : Option Store
  pub rules : List (Bytes × Allowlist)
  pub addr_index : List (Bytes × Bytes)

-- `NewServer`
abbrev pub new_server : Option Store → Server
new_server store = record { store = store; rules = []; addr_index = [] }

-- How a request ends: an error status, the response of the destination to the request that was sent
-- there, the client's connection closed, or a relay to a destination after its first bytes.
pub data Outcome : Type 0 where
  refused : ℕ → Outcome
  responded : Request → Response → Outcome
  closed : Outcome
  relayed : Bytes → Bytes → Outcome

-- `resolveSandboxKeyByAddr`
unfoldable pub resolve_sandbox_key_by_addr : Server → Bytes → Option Bytes
unfolding lookup
resolve_sandbox_key_by_addr s remote_addr = elim (split_host_port remote_addr) [
  | none ↦ lookup remote_addr s.addr_index
  | some (host, port) ↦ lookup host s.addr_index
]

-- `RegisterSandboxAddr`
unfoldable pub register_sandbox_addr : Bytes → Bytes → Server → Server
register_sandbox_addr sandbox_key addr s = record s {
  addr_index = (addr, sandbox_key) ∷ s.addr_index;
}

-- the key that the code goes on with where there is none
abbrev pub key_or_empty : Option Bytes → Bytes
key_or_empty none = []
key_or_empty (some k) = k

-- `splitKey`
unfoldable pub split_key : Bytes → Bytes × Bytes
split_key key = elim (cut b'/' key) [
  | none ↦ ([], key)
  | some (namespace, name) ↦ (namespace, name)
]

-- RecordDenied on the store of the server, where there is one; its error is ignored
unfoldable pub log_denied : Net → Bytes → Bytes → Bytes → Option Store → Option Store
log_denied net sandbox_key host url none = none
log_denied net sandbox_key host url (some store) =
    let (ns, n) = split_key sandbox_key in
    let ev : DeniedEvent = record {
      namespace = ns;
      name = n;
      host = host;
      url = url;
      timestamp = net.now;
    } in
    some (record_denied net.disk ev store).1

unfoldable pub record_denial : Net → Bytes → Bytes → Bytes → Server → Server
unfolding log_denied
record_denial net sandbox_key host url s = record s {
  store = log_denied net sandbox_key host url s.store;
}

-- `deny`
unfoldable pub deny : Net → Bytes → Bytes → Bytes → ℕ → Server → Outcome × Server
unfolding record_denial
deny net sandbox_key host url status s = (refused status, record_denial net sandbox_key host url s)

-- `fullURL` of `handleHTTP`
unfoldable pub full_url : Request → Bytes
full_url r =
    if bytes_eq r.url.scheme [] then codes "http://" ++ (r.host ++ r.request_uri) else r.url_string

-- `hopHeaders`
abbrev pub hop_headers : List Bytes
hop_headers =
    codes "Connection"
    ∷ codes "Proxy-Connection"
    ∷ codes "Keep-Alive"
    ∷ codes "Transfer-Encoding"
    ∷ codes "TE"
    ∷ codes "Trailer"
    ∷ codes "Upgrade"
    ∷ codes "Proxy-Authenticate"
    ∷ codes "Proxy-Authorization"
    ∷ []

-- the removal of one name in `Header.Del`
unfoldable pub del : Bytes → Header → Header
del k [] = []
del k ((j, vs) ∷ h) = let rest = del k h in if bytes_eq j k then rest else (j, vs) ∷ rest

-- `port` of the check of the server name
unfoldable pub target_port : Bytes → Bytes
target_port target = elim (split_host_port target) [ none ↦ codes "443" | some (host, port) ↦ port ]

-- `peekAndCrossCheckSNI`: the name that was denied, or the bytes read so far
pub data Peeked : Type 0 where
  denied : Bytes → Peeked
  peeked : Bytes → Peeked

-- `url_parse` is url.Parse; `canonical` is textproto.CanonicalMIMEHeaderKey.
module _ (url_parse : Bytes → Option Url) (canonical : Bytes → Bytes) where
  -- `SetAllowlist`
  unfoldable pub set_allowlist : Bytes → List Bytes → Server → Server
  unfolding lookup
  set_allowlist sandbox_key allow_urls s = elim (lookup sandbox_key s.rules) [
    | none ↦ record s { rules = (sandbox_key, new_allowlist url_parse allow_urls) ∷ s.rules }
    | some a ↦ record s { rules = (sandbox_key, swap url_parse a allow_urls) ∷ s.rules }
  ]

  -- the loop of `stripHopHeaders`
  unfoldable pub del_all : List Bytes → Header → Header
  unfolding del
  del_all [] h = h
  del_all (hh ∷ hhs) h = del_all hhs (del (canonical hh) h)

  -- `stripHopHeaders`
  unfoldable pub strip_hop_headers : Header → Header
  unfolding del_all
  strip_hop_headers h = del_all hop_headers h

  -- `outReq` of `forwardHTTP`
  unfoldable pub out_request : Request → Request
  unfolding strip_hop_headers
  out_request r =
      let scheme = if bytes_eq r.url.scheme [] then codes "http" else r.url.scheme in
      let host = if bytes_eq r.url.host [] then r.host else r.url.host in
      record r {
        request_uri = [];
        url = record { scheme = scheme; host = host; path = r.url.path };
        header = strip_hop_headers r.header;
      }

  -- `forwardHTTP`
  unfoldable pub forward_http : Net → Request → Outcome
  unfolding out_request
  forward_http net r = elim (net.round_trip (out_request r)) [
    | none ↦ refused 502
    | some resp ↦ responded (out_request r) (record resp { header = strip_hop_headers resp.header })
  ]

  -- `allowlistFor`, of the key where there is one
  unfoldable pub allowlist_for : Option Bytes → Server → Option Allowlist
  unfolding lookup
  allowlist_for none s = none
  allowlist_for (some k) s = lookup k s.rules

  -- `handleHTTP`
  unfoldable pub handle_http : Net → Request → Server → Outcome × Server
  handle_http net r s =
      let key = resolve_sandbox_key_by_addr s r.remote_addr in
      let refusal = deny net (key_or_empty key) r.host (full_url r) 403 s in
      elim (allowlist_for key s) [
        | none ↦ refusal
        | some a ↦ if allows_http url_parse a (full_url r) then (forward_http net r, s) else refusal
      ]

  -- the check of a server name in the bytes so far
  unfoldable pub vet : Allowlist → Bytes → (Bytes → Peeked) → Bytes → Parsed Bytes → Peeked
  vet a target after_read buf (Sni.ok host) =
      if allows_host url_parse a (host ++ (codes ":" ++ target_port target))
      then peeked buf
      else denied host
  vet a target after_read buf _ = after_read buf

  -- the loop of `peekAndCrossCheckSNI`
  unfoldable pub peek : Allowlist → Bytes → Bytes → List Read → Peeked
  unfolding vet
  peek a target buf [] = peeked buf
  peek a target buf (r ∷ rs) =
      let after_read = λ (b : Bytes). if r.failed then peeked b else peek a target b rs in
      if not (ltb (length buf) (16 * 1024))
      then peeked buf
      else if bytes_eq r.bytes []
      then after_read buf
      else vet a target after_read (buf ++ r.bytes) (extract_sni (buf ++ r.bytes))

  -- what follows the check of the server name in `handleCONNECT`
  unfoldable pub dial : Net → Bytes → Bytes → Peeked → Server → Outcome × Server
  dial net key target (denied host) s =
      (closed, record_denial net key host (codes "https://" ++ (host ++ codes "/")) s)
  dial net key target (peeked buf) s =
      if not (net.dials target)
      then (closed, s)
      else if not (bytes_eq buf []) && not (net.replays buf)
      then (closed, s)
      else (relayed target buf, s)

  -- `handleCONNECT` past its first check
  unfoldable pub tunnel : Net → Allowlist → Bytes → Bytes → Server → Outcome × Server
  unfolding peek dial
  tunnel net a key target s =
      if not net.hijackable
      then (refused 500, s)
      else if not net.hijacked || not net.greeted
      then (closed, s)
      else dial net key target (peek a target [] net.reads) s

  -- `handleCONNECT`
  unfoldable pub handle_connect : Net → Request → Server → Outcome × Server
  handle_connect net r s =
      let key = resolve_sandbox_key_by_addr s r.remote_addr in
      let refusal = deny net (key_or_empty key) r.host r.host 403 s in
      elim (allowlist_for key s) [
        | none ↦ refusal
        | some a ↦
            if allows_host url_parse a r.host
            then tunnel net a (key_or_empty key) r.host s
            else refusal
      ]

  -- `handle`
  unfoldable pub handle : Net → Request → Server → Outcome × Server
  unfolding handle_http handle_connect
  handle net r s =
      if bytes_eq r.method (codes "CONNECT") then handle_connect net r s else handle_http net r s
