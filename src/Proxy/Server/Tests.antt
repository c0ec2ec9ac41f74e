-- ===== src/Proxy/Server/Tests.antt =====
-- The proxy with one sandbox at one address.
use muro.Base.{
  ◌≡◌, ◌≢◌, ◌↔◌, refl, true, false, List, [], ◌∷◌, Option, none, some, Bytes, codes, Any, contains,
  contains_byte, bytes_eq, bytes_eq_refl, cut, has_prefix, to_lower, if◌then◌else◌, lower_byte,
}
use muro.State.Ring.Inv.{new_ring-IsValid}
use muro.State.Store.{new_store}
use muro.Sandbox.Manager.Host.{no_json}
use muro.Proxy.Sni.{extract_sni, record_body}
use muro.Proxy.Allowlist.{
  Url, any_rule, connect_target, host_rule, http_rule, http_target, parse_rule, parse_rules,
  split_host_port, split_host_port_maybe, swap, new_allowlist, allows_host, allows_http,
  default_port,
}
use muro.Proxy.Allowlist.Decide.{From, MatchesHost}
use muro.Proxy.Server.{
  Request, Response, Net, Server, refused, responded, relayed, handle, handle_connect, handle_http,
  lookup, resolve_sandbox_key_by_addr, register_sandbox_addr, set_allowlist, allowlist_for, peek,
  vet, dial, tunnel, key_or_empty, deny, full_url, out_request, forward_http, strip_hop_headers,
}
use muro.Proxy.Server.History.{Call, register, allow, configured, Granted}
use muro.Proxy.Server.Gate.{AnyHttp, connect_gate, http_gate}
use muro.Proxy.Server.Tunnel.{Through, relayed_lem}
use muro.Proxy.Server.Refused.{Parts, Ringed, event_of, Logged, refused_lem}
use muro.Proxy.Server.Headers.{Relays, responded_lem}

-- a parser of addresses that knows one, and canonical names of headers
abbrev page : Url
page = record { scheme = codes "http"; host = codes "a.com"; path = codes "/x" }

abbrev parse_one : Bytes → Option Url
parse_one s = if bytes_eq s (codes "http://a.com/x") then some page else none

abbrev keep : Bytes → Bytes
keep s = s

abbrev answer : Response
answer = record { status = 200; header = (codes "TE", [] ∷ []) ∷ []; body = codes "hi" }

abbrev net : Net
net = record {
  now = 5;
  disk = true;
  round_trip = λ q. some answer;
  hijackable = true;
  hijacked = true;
  greeted = true;
  reads = record { bytes = codes "hello"; failed = false } ∷ [];
  dials = λ target. true;
  replays = λ buf. true;
}

abbrev request : Bytes → Bytes → Request
request method host = record {
  method = method;
  host = host;
  url = record { scheme = []; host = []; path = codes "/x" };
  url_string = codes "/x";
  request_uri = codes "/x";
  header = (codes "Upgrade", codes "h2c" ∷ []) ∷ (codes "Accept", codes "*" ∷ []) ∷ [];
  remote_addr = codes "127.0.0.5:4000";
}

abbrev calls : List Call
calls = register (codes "id") (codes "127.0.0.5") ∷ allow (codes "id") (codes "a.com" ∷ []) ∷ []

abbrev connect : Bytes → Request
connect host = request (codes "CONNECT") host

abbrev fetch : Bytes → Request
fetch host = request (codes "GET") host

abbrev server : Server
server = configured parse_one keep none calls

connect_gate_example :
    ((handle parse_one keep net
        (connect (codes "A.com:443"))
        (configured parse_one keep none calls)).0
      ≢ refused 403)
    ↔ Granted
        (Any (From parse_one (MatchesHost (connect_target (codes "A.com:443")))))
        calls
        (codes "127.0.0.5:4000")
connect_gate_example =
    connect_gate parse_one keep net (connect (codes "A.com:443")) none calls
      (bytes_eq_refl (codes "CONNECT"))

plain : bytes_eq (codes "GET") (codes "CONNECT") ≡ false
unfolding bytes_eq
plain = refl

sent_page :
    parse_one (full_url (fetch (codes "a.com")))
    ≡ some (out_request parse_one keep (fetch (codes "a.com"))).url
unfolding full_url out_request bytes_eq
sent_page = refl

http_gate_example :
    ((handle parse_one keep net (fetch (codes "a.com")) (configured parse_one keep none calls)).0
      ≢ refused 403)
    ↔ Granted
        (AnyHttp parse_one (out_request parse_one keep (fetch (codes "a.com"))).url)
        calls
        (codes "127.0.0.5:4000")
http_gate_example = http_gate parse_one keep net (fetch (codes "a.com")) none calls plain sent_page

relays :
    (handle parse_one keep net (connect (codes "a.com:443")) server).0
    ≡ relayed (codes "a.com:443") (codes "hello")
unfolding handle handle_connect allowlist_for resolve_sandbox_key_by_addr lookup configured
    register_sandbox_addr set_allowlist split_host_port new_allowlist swap parse_rules parse_rule
    split_host_port_maybe contains contains_byte cut to_lower lower_byte any_rule bytes_eq
    has_prefix allows_host connect_target host_rule tunnel peek vet dial extract_sni record_body
relays = refl

relayed_lem_example :
    Through parse_one keep server (connect (codes "a.com:443")) (codes "a.com:443") (codes "hello")
relayed_lem_example = relayed_lem parse_one keep net (connect (codes "a.com:443")) server relays

-- the same proxy with a store
abbrev storing : Server
storing = configured parse_one keep (some (new_store no_json none)) calls

refuses : (handle parse_one keep net (connect (codes "b.com:443")) storing).0 ≡ refused 403
unfolding handle handle_connect deny allowlist_for resolve_sandbox_key_by_addr lookup configured
    register_sandbox_addr set_allowlist split_host_port new_allowlist swap parse_rules parse_rule
    split_host_port_maybe contains contains_byte cut to_lower lower_byte any_rule bytes_eq
    has_prefix allows_host connect_target host_rule
refuses = refl

storing-Ringed : Ringed storing.store
unfolding configured register_sandbox_addr set_allowlist
storing-Ringed = new_ring-IsValid 200

refused_lem_example :
    (namespace : Bytes) × (name : Bytes) × Parts
      (key_or_empty (resolve_sandbox_key_by_addr storing (codes "127.0.0.5:4000")))
      namespace
      name
    × Logged
        (event_of net namespace name (connect (codes "b.com:443")))
        storing.store
        (handle parse_one keep net (connect (codes "b.com:443")) storing).1.store
    × ((handle parse_one keep net (connect (codes "b.com:443")) storing).1.rules ≡ storing.rules)
    × ((handle parse_one keep net (connect (codes "b.com:443")) storing).1.addr_index
        ≡ storing.addr_index)
refused_lem_example =
    refused_lem parse_one keep net (connect (codes "b.com:443")) storing storing-Ringed refuses

responds :
    (handle parse_one keep net (fetch (codes "a.com")) server).0
    ≡ responded
        (out_request parse_one keep (fetch (codes "a.com")))
        (record answer { header = strip_hop_headers parse_one keep answer.header })
unfolding handle handle_http full_url allowlist_for resolve_sandbox_key_by_addr lookup configured
    register_sandbox_addr set_allowlist split_host_port new_allowlist swap parse_rules parse_rule
    split_host_port_maybe contains contains_byte cut to_lower lower_byte any_rule bytes_eq
    has_prefix allows_http http_target http_rule default_port forward_http strip_hop_headers
    out_request
responds = refl

responded_lem_example :
    Relays parse_one keep net
      (fetch (codes "a.com"))
      (out_request parse_one keep (fetch (codes "a.com")))
      (record answer { header = strip_hop_headers parse_one keep answer.header })
    × ((handle parse_one keep net (fetch (codes "a.com")) server).1 ≡ server)
responded_lem_example = responded_lem parse_one keep net (fetch (codes "a.com")) server responds
