-- ===== src/Proxy/Allowlist/Decide.antt =====
-- What the allowlist lets through, in terms of the entries that it was built from.
use muro.Base.{
  ◌≡◌, ◌↔◌, refl, sym, ◌∙◌, ◌⊎◌, inl, inr, Bool, true, ◌||◌, List, [], ◌∷◌, Option, some, Bytes,
  bytes_eq, bytes_eq_iff, has_prefix, Any, arith, Bool-cases, Option-cases,
}
use muro.Proxy.Allowlist.{
  Rule, Url, parse_rule, push_rule, parse_rules, swap, new_allowlist, http_rule, any_rule,
  http_target, http_rules, allows_http, connect_target, host_rule, allows_host,
}

-- An empty field of a rule matches anything.
abbrev pub Fits : Bytes → Bytes → Type 0
Fits field value = (field ≡ []) ⊎ (field ≡ value)

abbrev pub MatchesHost : Bytes × Bytes → Rule → Type 0
MatchesHost (host, port) r = (r.host ≡ host) × Fits r.port port

abbrev pub MatchesHttp : Url → Bytes × Bytes → Rule → Type 0
MatchesHttp u (host, port) r =
    Fits r.scheme u.scheme
    × (r.host ≡ host)
    × Fits r.port port
    × ((r.path_prefix ≡ []) ⊎ (has_prefix u.path r.path_prefix ≡ true))

Fits-iff :
    (field value : Bytes) → ((bytes_eq field [] || bytes_eq field value) ≡ true) ↔ Fits field value
Fits-iff field value = (
  λ h. elim (Bool-cases (bytes_eq field [])) [
    | inl e ↦ inl ((bytes_eq_iff field []).0 e)
    | inr e ↦ inr ((bytes_eq_iff field value).0 (ground arith))
  ],
  λ h. ground (arith, bytes_eq_iff field [], bytes_eq_iff field value),
)

host_rule_iff :
    (host port : Bytes) (r : Rule) → (host_rule host port r ≡ true) ↔ MatchesHost (host, port) r
unfolding host_rule
host_rule_iff host port r = (
  λ h. ((bytes_eq_iff r.host host).0 (ground arith), (Fits-iff r.port port).0 (ground arith)),
  λ h. ground (arith, bytes_eq_iff r.host host, (Fits-iff r.port port).1 h.1),
)

http_rule_iff :
    (u : Url) (host port : Bytes) (r : Rule)
    → (http_rule u host port r ≡ true) ↔ MatchesHttp u (host, port) r
unfolding http_rule
http_rule_iff u host port r = (
  λ h. (
    (Fits-iff r.scheme u.scheme).0 (ground arith),
    (bytes_eq_iff r.host host).0 (ground arith),
    (Fits-iff r.port port).0 (ground arith),
    elim (Bool-cases (bytes_eq r.path_prefix [])) [
      | inl e ↦ inl ((bytes_eq_iff r.path_prefix []).0 e)
      | inr e ↦ inr (ground arith)
    ],
  ),
  λ h. ground (
    arith,
    (Fits-iff r.scheme u.scheme).1 h.0,
    bytes_eq_iff r.host host,
    (Fits-iff r.port port).1 h.2,
    bytes_eq_iff r.path_prefix [],
  ),
)

module _ (url_parse : Bytes → Option Url) where
  -- a rule that an entry parses to
  abbrev pub From : (Rule → Type 0) → Bytes → Type 0
  From P raw = (r : Rule) × (parse_rule url_parse raw ≡ some r) × P r

  module _ (P : Rule → Type 0) (test : Rule → Bool)
      (decides : (r : Rule) → (test r ≡ true) ↔ P r) where
    any_rule_iff :
        (urls : List Bytes)
        → (any_rule test (parse_rules url_parse urls) ≡ true) ↔ Any (From P) urls
    unfolding any_rule parse_rules
    any_rule_iff [] = (λ h. absurd (ground arith), λ h. absurd h)
    any_rule_iff (u ∷ urls) =
        let ih = any_rule_iff urls in
        elim (Option-cases (parse_rule url_parse u)) [
          | inl e ↦
              rw (e, push_rule)
                (
                  λ h. inr (ih.0 h),
                  λ k. elim k [ inl (r, q, _) ↦ absurd (ground arith) | inr a ↦ ih.1 a ],
                )
          | inr (r, e) ↦
              rw (e, push_rule)
                (
                  λ h. elim (Bool-cases (test r)) [
                    | inl t ↦ inl (r, refl, (decides r).0 t)
                    | inr f ↦ inr (ih.0 (ground arith))
                  ],
                  λ k. elim k [
                    | inl (r', q, p) ↦ ground (arith, (decides r').1 p)
                    | inr a ↦ ground (arith, ih.1 a)
                  ],
                )
        ]

  -- A CONNECT target is allowed exactly when one of the configured entries parses to a rule with the
  -- target's host (case folded) and, if the rule has a port, the target's port, which is 443 when the
  -- target names none.
  pub allows_host_iff :
      (urls : List Bytes) (hostport : Bytes)
      → (allows_host url_parse (new_allowlist url_parse urls) hostport ≡ true)
        ↔ Any (From (MatchesHost (connect_target hostport))) urls
  unfolding allows_host new_allowlist swap
  allows_host_iff urls hostport =
      let (host, port) = connect_target hostport in
      any_rule_iff (MatchesHost (host, port)) (host_rule host port) (host_rule_iff host port) urls

  -- the decision for an address with a target
  allows_http_of :
      (urls : List Bytes) (full_url : Bytes) (u : Url) (host port : Bytes)
      → url_parse full_url ≡ some u
      → http_target u ≡ some (host, port)
      → allows_http url_parse (new_allowlist url_parse urls) full_url
        ≡ any_rule (http_rule u host port) (parse_rules url_parse urls)
  unfolding allows_http new_allowlist swap http_rules
  allows_http_of urls full_url u host port e n = rw (e, n) refl

  -- A plain HTTP request is allowed exactly when its address parses, has a host, and one of the
  -- configured entries parses to a rule with that host (case folded) whose scheme, port and path
  -- prefix, each where it is not empty, are those of the request.
  pub allows_http_iff :
      (urls : List Bytes) (full_url : Bytes)
      → (allows_http url_parse (new_allowlist url_parse urls) full_url ≡ true) ↔ (
          (u : Url) × (target : Bytes × Bytes) × (url_parse full_url ≡ some u)
          × (http_target u ≡ some target)
          × Any (From (MatchesHttp u target)) urls)
  unfolding allows_http new_allowlist swap http_rules
  allows_http_iff urls full_url = (
    λ h. elim (Option-cases (url_parse full_url)) [
      | inl e ↦ absurd (ground arith)
      | inr (u, e) ↦ elim (Option-cases (http_target u)) [
        | inl n ↦ absurd (ground arith)
        | inr ((host, port), n) ↦ (
          u,
          (host, port),
          e,
          n,
          (decided u host port).0 (sym (allows_http_of urls full_url u host port e n) ∙ h),
        )
      ]
    ],
    λ (u, (host, port), e, n, a).
        allows_http_of urls full_url u host port e n ∙ (decided u host port).1 a,
  )
    where
      decided :
          (u : Url) (host port : Bytes)
          → (any_rule (http_rule u host port) (parse_rules url_parse urls) ≡ true)
            ↔ Any (From (MatchesHttp u (host, port))) urls
      decided u host port =
          any_rule_iff (MatchesHttp u (host, port)) (http_rule u host port)
            (http_rule_iff u host port) urls
