-- ===== src/Proxy/Allowlist.antt =====
-- internal/proxy/allowlist.go. `url_parse` is url.Parse of the standard library, of which the code
-- reads the scheme, the host and the path; `none` is its error. Case folding is that of ASCII.
pub mod Decide
use muro.Base.{
  ℕ, Bool, true, false, ◌&&◌, ◌||◌, not, List, [], ◌∷◌, ◌++◌, Option, none, some, Bytes, codes,
  bytes_eq, has_prefix, contains, contains_byte, cut, to_lower, ◌==◌, if◌then◌else◌, refl, ◌≡◌,
}

-- `Rule`
pub record Rule : Type 0 where
  pub scheme : Bytes
  pub host : Bytes
  pub port : Bytes
  pub path_prefix : Bytes

-- `Allowlist`; `none` is the nil pointer before the first `Swap`.
pub record Allowlist : Type 0 where
  pub rules : Option (List Rule)

-- what the code reads of a url.URL
pub record Url : Type 0 where
  pub scheme : Bytes
  pub host : Bytes
  pub path : Bytes

has_bracket : Bytes → Bool
has_bracket s = contains_byte s b'[' || contains_byte s b']'

-- the part of net.SplitHostPort after a bracketed host: it has to be a colon and the port
after_bracket : Bytes → Bytes → Option (Bytes × Bytes)
after_bracket host [] = none
after_bracket host (c ∷ port) =
    if not (c == b':') || (contains_byte port b':' || (contains_byte host b'[' || has_bracket port))
    then none
    else some (host, port)

after_host : Bytes → Bytes → Option (Bytes × Bytes)
after_host host port =
    if contains_byte port b':' || (has_bracket host || has_bracket port)
    then none
    else some (host, port)

-- net.SplitHostPort of the standard library
unfoldable pub split_host_port : Bytes → Option (Bytes × Bytes)
unfolding has_bracket after_bracket after_host
split_host_port [] = none
split_host_port (c ∷ s) =
    if c == b'['
    then elim (cut b']' s) [ none ↦ none | some (host, rest) ↦ after_bracket host rest ]
    else elim (cut b':' (c ∷ s)) [ none ↦ none | some (host, port) ↦ after_host host port ]

-- `splitHostPortMaybe`
unfoldable pub split_host_port_maybe : Bytes → Option (Bytes × Bytes)
unfolding split_host_port
split_host_port_maybe hostport =
    if contains_byte hostport b':' then split_host_port hostport else some (hostport, [])

-- `defaultPort`
unfoldable pub default_port : Bytes → Bytes
default_port scheme =
    if bytes_eq scheme (codes "https")
    then codes "443"
    else if bytes_eq scheme (codes "http")
    then codes "80"
    else []

abbrev pub or_port : Bytes → Bytes → Bytes
or_port port fallback = if bytes_eq port [] then fallback else port

abbrev pub push_rule : Option Rule → List Rule → List Rule
push_rule none rules = rules
push_rule (some r) rules = r ∷ rules

-- the body of the loop of `AllowsHTTP`: `true` is its `return true`, `false` its `continue`s
unfoldable pub http_rule : Url → Bytes → Bytes → Rule → Bool
http_rule u host port r =
    if not (bytes_eq r.scheme []) && not (bytes_eq r.scheme u.scheme)
    then false
    else if not (bytes_eq r.host host)
    then false
    else if not (bytes_eq r.port []) && not (bytes_eq r.port port)
    then false
    else if not (bytes_eq r.path_prefix []) && not (has_prefix u.path r.path_prefix)
    then false
    else true

unfoldable pub any_rule : (Rule → Bool) → List Rule → Bool
any_rule test [] = false
any_rule test (r ∷ rs) = test r || any_rule test rs

-- `host` and `port` of `AllowsHTTP`
unfoldable pub http_target : Url → Option (Bytes × Bytes)
http_target u = if bytes_eq u.host [] then none else elim (split_host_port_maybe u.host) [
  | none ↦ none
  | some (host, port) ↦
      some (to_lower host, or_port port (or_port (default_port u.scheme) (codes "80")))
]

http_rules : List Rule → Url → Option (Bytes × Bytes) → Bool
http_rules rs u none = false
http_rules rs u (some (host, port)) = any_rule (http_rule u host port) rs

-- `host` and `port` of `AllowsHost`
unfoldable pub connect_target : Bytes → Bytes × Bytes
connect_target hostport = elim (split_host_port_maybe hostport) [
  | none ↦ (to_lower hostport, codes "443")
  | some (host, port) ↦ (to_lower host, or_port port (codes "443"))
]

-- the body of the loop of `AllowsHost`
unfoldable pub host_rule : Bytes → Bytes → Rule → Bool
host_rule host port r =
    if not (bytes_eq r.host host)
    then false
    else if not (bytes_eq r.port []) && not (bytes_eq r.port port)
    then false
    else true

module _ (url_parse : Bytes → Option Url) where
  -- `parseRule`; `none` is its error
  unfoldable pub parse_rule : Bytes → Option Rule
  parse_rule raw =
      if not (contains raw (codes "://"))
      then elim (split_host_port_maybe raw) [
        | none ↦ none
        | some (host, port) ↦
            some (record { scheme = []; host = to_lower host; port = port; path_prefix = [] })
      ]
      else elim (url_parse raw) [
        | none ↦ none
        | some u ↦ if bytes_eq u.host [] then none else elim (split_host_port_maybe u.host) [
          | none ↦ none
          | some (host, port) ↦ some (record {
            scheme = u.scheme;
            host = to_lower host;
            port = or_port port (default_port u.scheme);
            path_prefix = u.path;
          })
        ]
      ]

  -- the loop of `Swap`: an entry that does not parse is skipped
  unfoldable pub parse_rules : List Bytes → List Rule
  parse_rules [] = []
  parse_rules (u ∷ us) = push_rule (parse_rule u) (parse_rules us)

  -- `Swap`
  unfoldable pub swap : Allowlist → List Bytes → Allowlist
  unfolding parse_rules
  swap a urls = record a { rules = some (parse_rules urls) }

  -- `NewAllowlist`
  unfoldable pub new_allowlist : List Bytes → Allowlist
  unfolding swap
  new_allowlist urls = swap (record { rules = none }) urls

  -- `AllowsHTTP`
  unfoldable pub allows_http : Allowlist → Bytes → Bool
  unfolding http_rules
  allows_http a full_url = elim a.rules [
    | none ↦ false
    | some rs ↦ elim (url_parse full_url) [
      | none ↦ false
      | some u ↦ http_rules rs u (http_target u)
    ]
  ]

  -- `AllowsHost`
  unfoldable pub allows_host : Allowlist → Bytes → Bool
  allows_host a hostport =
      let (host, port) = connect_target hostport in
      elim a.rules [ none ↦ false | some rs ↦ any_rule (host_rule host port) rs ]
