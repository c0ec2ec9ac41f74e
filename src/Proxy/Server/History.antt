-- ===== src/Proxy/Server/History.antt =====
-- internal/proxy/proxy.go: the calls that configure the server, and what they come to.
use muro.Base.{
  ◌≡◌, refl, ◌↔◌, inl, inr, Bool, true, false, List, [], ◌∷◌, Option, none, some, Bytes,
  Option-cases, bytes_eq, if◌then◌else◌, arith,
}
use muro.State.Store.{Store}
use muro.Proxy.Allowlist.{Url, Allowlist, split_host_port, new_allowlist, swap}
use muro.Proxy.Server.{
  Server, lookup, new_server, resolve_sandbox_key_by_addr, register_sandbox_addr, set_allowlist,
  allowlist_for,
}

-- a call that configures the server
pub data Call : Type 0 where
  register : Bytes → Bytes → Call
  allow : Bytes → List Bytes → Call

-- the key that an address was last registered for, the newest call first
unfoldable pub owner : Bytes → List Call → Option Bytes
owner addr [] = none
owner addr (register key a ∷ calls) = if bytes_eq a addr then some key else owner addr calls
owner addr (allow key urls ∷ calls) = owner addr calls

-- the entries that were last set for a key
unfoldable pub entries : Bytes → List Call → Option (List Bytes)
entries key [] = none
entries key (register k a ∷ calls) = entries key calls
entries key (allow k urls ∷ calls) = if bytes_eq k key then some urls else entries key calls

-- the address of a peer, without its port where it has one
abbrev pub peer : Bytes → Bytes
peer remote = elim (split_host_port remote) [ none ↦ remote | some (host, port) ↦ host ]

-- the entries of the sandbox that owns the peer, and what they have to fulfil
pub record Granted (P : List Bytes → Type 0) (calls : List Call) (remote : Bytes) : Type 0 where
  pub key : Bytes
  pub urls : List Bytes
  pub owns : owner (peer remote) calls ≡ some key
  pub has_entries : entries key calls ≡ some urls
  pub fulfils : P urls

pub Granted-map :
    (P Q : List Bytes → Type 0) (calls : List Call) (remote : Bytes)
    → ((urls : List Bytes) → P urls → Q urls)
    → Granted P calls remote
    → Granted Q calls remote
Granted-map P Q calls remote f g = record {
  key = g.key;
  urls = g.urls;
  owns = g.owns;
  has_entries = g.has_entries;
  fulfils = f g.urls g.fulfils;
}

-- the allowlist that a test reads, and whether it passes
abbrev pub passes : (Allowlist → Bool) → Option Allowlist → Bool
passes test none = false
passes test (some a) = test a

module _ (url_parse : Bytes → Option Url) (canonical : Bytes → Bytes) where
  unfoldable pub configured : Option Store → List Call → Server
  configured store [] = new_server store
  configured store (register key addr ∷ calls) =
      register_sandbox_addr key addr (configured store calls)
  configured store (allow key urls ∷ calls) =
      set_allowlist url_parse canonical key urls (configured store calls)

  abbrev pub allowlist_of : Option (List Bytes) → Option Allowlist
  allowlist_of none = none
  allowlist_of (some urls) = some (new_allowlist url_parse urls)

  set_allowlist_index :
      (key : Bytes) (urls : List Bytes) (s : Server)
      → (set_allowlist url_parse canonical key urls s).addr_index ≡ s.addr_index
  unfolding set_allowlist
  set_allowlist_index key urls s = ground arith

  lookup-owner :
      (store : Option Store) (addr : Bytes) (calls : List Call)
      → lookup addr (configured store calls).addr_index ≡ owner addr calls
  unfolding configured owner lookup register_sandbox_addr
  lookup-owner store addr [] = refl
  lookup-owner store addr (register key a ∷ calls) = ground (arith, lookup-owner store addr calls)
  lookup-owner store addr (allow key urls ∷ calls) =
      rw (set_allowlist_index key urls (configured store calls)) (lookup-owner store addr calls)

  -- the key of a connection is the owner of its peer
  pub resolve-owner :
      (store : Option Store) (remote : Bytes) (calls : List Call)
      → resolve_sandbox_key_by_addr (configured store calls) remote ≡ owner (peer remote) calls
  unfolding resolve_sandbox_key_by_addr
  resolve-owner store remote calls = elim (Option-cases (split_host_port remote)) [
    | inl e ↦ ground (arith, lookup-owner store remote calls)
    | inr ((host, port), e) ↦ ground (arith, lookup-owner store host calls)
  ]

  lookup-set_allowlist :
      (key k : Bytes) (urls : List Bytes) (s : Server)
      → lookup key (set_allowlist url_parse canonical k urls s).rules
        ≡ (if bytes_eq k key then some (new_allowlist url_parse urls) else lookup key s.rules)
  unfolding set_allowlist lookup new_allowlist swap
  lookup-set_allowlist key k urls s = ground arith

  pub lookup-entries :
      (store : Option Store) (key : Bytes) (calls : List Call)
      → lookup key (configured store calls).rules ≡ allowlist_of (entries key calls)
  unfolding configured entries lookup register_sandbox_addr
  lookup-entries store key [] = refl
  lookup-entries store key (register k a ∷ calls) = lookup-entries store key calls
  lookup-entries store key (allow k urls ∷ calls) =
      rw (lookup-set_allowlist key k urls (configured store calls))
        (ground (arith, lookup-entries store key calls))

  abbrev pub found : Bytes → Server → Option Allowlist
  found remote s = allowlist_for url_parse canonical (resolve_sandbox_key_by_addr s remote) s

  pub found_lem :
      (store : Option Store) (remote key : Bytes) (calls : List Call)
      → owner (peer remote) calls ≡ some key
      → found remote (configured store calls) ≡ allowlist_of (entries key calls)
  unfolding allowlist_for
  found_lem store remote key calls e =
      rw (resolve-owner store remote calls) (rw e (lookup-entries store key calls))

  pub passes_iff :
      (test : Allowlist → Bool) (store : Option Store) (remote : Bytes) (calls : List Call)
      → (passes test (found remote (configured store calls)) ≡ true)
        ↔ Granted (λ urls. test (new_allowlist url_parse urls) ≡ true) calls remote
  unfolding allowlist_for
  passes_iff test store remote calls = (
    λ h. elim (Option-cases (owner (peer remote) calls)) [
      | inl e ↦ let q = resolve-owner store remote calls in absurd (ground arith)
      | inr (key, e) ↦ elim (Option-cases (entries key calls)) [
        | inl n ↦ let q = found_lem store remote key calls e in absurd (ground arith)
        | inr (urls, n) ↦ record {
          key = key;
          urls = urls;
          owns = e;
          has_entries = n;
          fulfils = let q = found_lem store remote key calls e in ground arith;
        }
      ]
    ],
    λ g.
        let q = found_lem store remote g.key calls g.owns in
        ground (arith, g.has_entries, g.fulfils),
  )
