-- ===== src/Proxy/Server/Refused.antt =====
-- internal/proxy/proxy.go: what a refusal leaves behind.
use muro.Base.{
  ◌≡◌, ◌≢◌, ◌⊎◌, ℕ, refl, false, [], ◌∷◌, ◌++◌, Option, none, some, Bytes, codes, inl, inr,
  Bool-cases, Option-cases, bytes_eq, if◌then◌else◌, arith, cut, cut-eq_some, contains_byte,
}
use muro.State.Ring.{DeniedEvent, snapshot}
use muro.State.Ring.Inv.{IsValid}
use muro.State.Ring.Refine.{keep, push_refines}
use muro.State.Store.{Store, record_denied, persist}
use muro.Proxy.Allowlist.{Url}
use muro.Proxy.Server.{
  Request, Net, Server, Peeked, denied, peeked, refused, deny, full_url, key_or_empty, split_key,
  resolve_sandbox_key_by_addr, allowlist_for, log_denied, record_denial, forward_http, peek, dial,
  tunnel, handle_http, handle_connect, handle,
}

-- what a request is denied for: the target of a CONNECT; else the address in its first line, if that has a
-- scheme; else "http://" with its host and what its first line asks for
abbrev pub asked_for : Request → Bytes
asked_for r =
    if bytes_eq r.method (codes "CONNECT")
    then r.host
    else if bytes_eq r.url.scheme []
    then codes "http://" ++ (r.host ++ r.request_uri)
    else r.url_string

-- a key's two parts: the text before its first slash and what follows that, or no namespace and the key
abbrev pub Parts : Bytes → Bytes → Bytes → Type 0
Parts key namespace name =
    ((key ≡ namespace ++ b'/' ∷ name) × (contains_byte namespace b'/' ≡ false))
    ⊎ ((contains_byte key b'/' ≡ false) × (namespace ≡ []) × (name ≡ key))

cut-none : (sep : ℕ) (s : Bytes) → cut sep s ≡ none → contains_byte s sep ≡ false
unfolding cut contains_byte
cut-none sep [] h = refl
cut-none sep (c ∷ s) h = elim (Option-cases (cut sep s)) [
  | inl e ↦ ground (arith, cut-none sep s e)
  | inr (p, e) ↦ ground arith
]

split_key-Parts : (key : Bytes) → Parts key (split_key key).0 (split_key key).1
unfolding split_key
split_key-Parts key = elim (Option-cases (cut b'/' key)) [
  | inl e ↦ rw (e, split_key) (inr (cut-none b'/' key e, refl, refl))
  | inr ((namespace, name), e) ↦ rw (e, split_key) (inl (cut-eq_some b'/' key namespace name e))
]

-- the ring of a store, where there is one, is well-formed
abbrev pub Ringed : Option Store → Type 0
Ringed none = Unit
Ringed (some st) = IsValid st.events

-- the event of a request that is refused
abbrev pub event_of : Net → Bytes → Bytes → Request → DeniedEvent
event_of net namespace name r = record {
  namespace = namespace;
  name = name;
  host = r.host;
  url = asked_for r;
  timestamp = net.now;
}

-- the events of the second store are those of the first with one more, less the oldest where the ring was
-- full; and the sandboxes are the same
abbrev pub Logged : DeniedEvent → Option Store → Option Store → Type 0
Logged ev none t = t ≡ none
Logged ev (some st) t =
    (st' : Store) × (t ≡ some st')
    × (snapshot st'.events ≡ keep st.events.cap (snapshot st.events ++ ev ∷ []))
    × (st'.sandboxes ≡ st.sandboxes)

log_denied-Logged :
    (net : Net) (key : Bytes) (r : Request) (store : Option Store)
    → Ringed store
    → Logged
        (event_of net (split_key key).0 (split_key key).1 r)
        store
        (log_denied net key r.host (asked_for r) store)
unfolding log_denied record_denied persist
log_denied-Logged net key r none v = refl
log_denied-Logged net key r (some st) v =
    let ev = event_of net (split_key key).0 (split_key key).1 r in
    elim (Bool-cases net.disk) [
      | inl d ↦ rw (d) (_, refl, push_refines ev v, refl)
      | inr d ↦ rw (d) (_, refl, push_refines ev v, refl)
    ]

module _ (url_parse : Bytes → Option Url) (canonical : Bytes → Bytes) where
  dial-ne-refused :
      (net : Net) (key target : Bytes) (p : Peeked) (s : Server)
      → (dial url_parse canonical net key target p s).0 ≢ refused 403
  unfolding dial
  dial-ne-refused net key target (denied host) s h = ground arith
  dial-ne-refused net key target (peeked buf) s h = ground arith

  refused-denial :
      (net : Net) (r : Request) (s : Server)
      → (handle url_parse canonical net r s).0 ≡ refused 403
      → (handle url_parse canonical net r s).1
        ≡ record_denial net
            (key_or_empty (resolve_sandbox_key_by_addr s r.remote_addr))
            r.host
            (asked_for r)
            s
  unfolding handle handle_connect handle_http deny tunnel forward_http full_url
  refused-denial net r s h =
      let key = resolve_sandbox_key_by_addr s r.remote_addr in
      elim (Option-cases (allowlist_for url_parse canonical key s)) [
        | inl n ↦ ground arith
        | inr (a, n) ↦
            let d =
              dial-ne-refused net (key_or_empty key) r.host
                (peek url_parse canonical a r.host [] net.reads) s in
            ground arith
      ]

  -- When the proxy itself refuses a request with 403, and the ring of its store, if it has one, is
  -- well-formed, the newest event of that ring is the refusal: the two parts of the key of the peer (of the
  -- empty one where the peer is unknown), the host, what was asked for and the time. No other event is lost
  -- but the oldest of a full ring, and the sandboxes, the rules and the addresses stay as they were.
  pub refused_lem :
      (net : Net) (r : Request) (s : Server)
      → Ringed s.store
      → (handle url_parse canonical net r s).0 ≡ refused 403
      → (namespace : Bytes) × (name : Bytes) × Parts
          (key_or_empty (resolve_sandbox_key_by_addr s r.remote_addr))
          namespace
          name
        × Logged
            (event_of net namespace name r)
            s.store
            (handle url_parse canonical net r s).1.store
        × ((handle url_parse canonical net r s).1.rules ≡ s.rules)
        × ((handle url_parse canonical net r s).1.addr_index ≡ s.addr_index)
  unfolding record_denial
  refused_lem net r s v h =
      let key = key_or_empty (resolve_sandbox_key_by_addr s r.remote_addr) in
      rw (refused-denial net r s h) (
        (split_key key).0,
        (split_key key).1,
        split_key-Parts key,
        log_denied-Logged net key r s.store v,
        refl,
        refl,
      )
