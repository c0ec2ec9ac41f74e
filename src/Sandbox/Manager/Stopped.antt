-- ===== src/Sandbox/Manager/Stopped.antt =====
-- internal/sandbox/manager.go: the state in which `Stop` leaves a sandbox.
use muro.Base.{
  ℕ, Bool, true, false, List, [], ◌∷◌, none, some, Bytes, bytes_eq, bytes_eq_iff, in_set,
  if◌then◌else◌, refl, sym, ap, subst, ◌∙◌, ◌≡◌, arith, inl, inr, Option-cases, Bool-cases,
}
use muro.State.Store.{Sandbox, SandboxState, Registry, key, find, get}
use muro.State.Store.Laws.{IsKeyed, find-assign, put_sandboxes}
use muro.Sandbox.Attach.{lookup, remove, detach}
use muro.Sandbox.Manager.{Env, Manager, Handle, Event, ◌>>=◌, ◌>>◌, halted}
use muro.Sandbox.Manager.Killed.{Killed, stopped-Killed}
use muro.Sandbox.Manager.Actions.{
  at, without, get_handle, clear_handle, save, publish_status, stop_handle,
}
use muro.Sandbox.Manager.Bridges.{drop_key, has_key, stop_agent_bridge, stop_tool_bridge}
use muro.Sandbox.Manager.Restart.{kill, release, detach_client, stop_sandbox}
use muro.Sandbox.Manager.Frame.{after, publish_status-Still}
use muro.Sandbox.Manager.Runs.{Ran}
use muro.Sandbox.Manager.Silence.{stop_sandbox-Ran}

pub at-without_self : {A : Type 0} (k : Bytes) (m : List (Bytes × A)) → at k (without k m) ≡ none
unfolding at without
at-without_self k [] = refl
at-without_self k ((j, a) ∷ m) = ground (arith, at-without_self k m)

in_set-drop_key : (k : Bytes) (ks : List Bytes) → in_set k (drop_key k ks) ≡ false
unfolding drop_key in_set
in_set-drop_key k [] = refl
in_set-drop_key k (j ∷ ks) =
    ground (arith, in_set-drop_key k ks, bytes_eq_iff j k, bytes_eq_iff k j)

lookup-remove : (k : Bytes) (m : List (Bytes × ℕ)) → lookup k (remove k m) ≡ none
unfolding lookup remove
lookup-remove k [] = refl
lookup-remove k ((j, t) ∷ m) = ground (arith, lookup-remove k m)

some-injective : {A : Type 0} {x y : A} → some x ≡ some y → x ≡ y
some-injective h = cc (h)

-- a record found under a key of a keyed registry has that key
pub find-key :
    (k : Bytes) (m : Registry) (sb : Sandbox)
    → IsKeyed m
    → find k m ≡ some sb
    → key sb.namespace sb.name ≡ k
unfolding find IsKeyed
find-key k [] sb h e = absurd (cc (e))
find-key k ((j, s) ∷ m) sb (p, _, h) e = elim (Bool-cases (bytes_eq j k)) [
  | inl q ↦
      let f = subst (λ b. (if b then some s else find k m) ≡ some sb) q e in
      let g = (bytes_eq_iff j k).0 q in
      subst (λ x. key x.namespace x.name ≡ k) (some-injective f) (sym p ∙ g)
  | inr q ↦ find-key k m sb h (subst (λ b. (if b then some s else find k m) ≡ some sb) q e)
]

-- nothing of a sandbox is open: no process, no client, no socket
pub record Closed (k id : Bytes) (m : Manager) : Type 0 where
  pub no_handle : at k m.handles ≡ none
  pub no_client : lookup k m.attach_reg.attached ≡ none
  pub no_agent_socket : in_set id m.agent_sockets ≡ false
  pub no_tool_socket : has_key id m.tool_sockets ≡ false

if-Closed :
    {k id : Bytes} {m n : Manager} (c : Bool)
    → Closed k id m
    → Closed k id n
    → Closed k id (if c then m else n)
if-Closed true p q = p
if-Closed false p q = q

module _ (env : Env) where
  publish_status-Closed :
      (k id namespace name : Bytes) (e : Event) (m : Manager)
      → Closed k id m
      → Closed k id (publish_status env namespace name e m)
  unfolding publish_status
  publish_status-Closed k id namespace name e m h =
      if-Closed env.has_publisher
        (record {
          no_handle = h.no_handle;
          no_client = h.no_client;
          no_agent_socket = h.no_agent_socket;
          no_tool_socket = h.no_tool_socket;
        })
        h

  -- the part of `Closed` that `release` brings about
  abbrev Released : Bytes → Bytes → Manager → Type 0
  Released k id m =
      (lookup k m.attach_reg.attached ≡ none)
      × (in_set id m.agent_sockets ≡ false)
      × (has_key id m.tool_sockets ≡ false)

  has_key-without :
      {A : Type 0} (k : Bytes) (m : List (Bytes × A)) → has_key k (without k m) ≡ false
  has_key-without k m = rw (at-without_self k m, has_key) refl

  stop_tool_bridge-Released :
      (k id : Bytes) (m : Manager)
      → lookup k m.attach_reg.attached ≡ none
      → in_set id m.agent_sockets ≡ false
      → Released k id (stop_tool_bridge env id m)
  unfolding stop_tool_bridge
  stop_tool_bridge-Released k id m p q = elim (Bool-cases (has_key id m.tool_sockets)) [
    | inl e ↦ rw (e) (p, q, has_key-without id m.tool_sockets)
    | inr e ↦ rw (e) (p, q, e)
  ]

  release-Released : (k id : Bytes) (m : Manager) → Released k id (release env k id m)
  unfolding release stop_agent_bridge detach_client detach
  release-Released k id m =
      let p = lookup-remove k m.attach_reg.attached in
      elim (Bool-cases (in_set id m.agent_sockets)) [
        | inl e ↦ rw (e) (stop_tool_bridge-Released k id _ p (in_set-drop_key id m.agent_sockets))
        | inr e ↦ rw (e) (stop_tool_bridge-Released k id _ p e)
      ]

  kill-Closed : (k id : Bytes) (m : Manager) → Released k id m → Closed k id (after (kill env k) m)
  unfolding kill get_handle clear_handle stop_handle ◌>>=◌ ◌>>◌
  kill-Closed k id m (p, q, r) = elim (Option-cases (at k m.handles)) [
    | inl e ↦
        rw (e, after)
          (record { no_handle = e; no_client = p; no_agent_socket = q; no_tool_socket = r })
    | inr (h, e) ↦
        rw (e, after)
          (record {
            no_handle = at-without_self k m.handles;
            no_client = p;
            no_agent_socket = q;
            no_tool_socket = r;
          })
  ]

  kill_store : (k : Bytes) (m : Manager) → (after (kill env k) m).store ≡ m.store
  unfolding kill get_handle clear_handle stop_handle ◌>>=◌ ◌>>◌
  kill_store k m = elim (Option-cases (at k m.handles)) [
    | inl e ↦ rw (e, after) refl
    | inr (h, e) ↦ rw (e, after) refl
  ]

  -- the record under a key after a `Put` of its own sandbox
  pub get-save :
      (namespace name : Bytes) (sb : Sandbox) (m : Manager)
      → key sb.namespace sb.name ≡ key namespace name
      → get namespace name (after (save env sb) m).store ≡ some sb
  unfolding get save
  get-save namespace name sb m e =
      ap (find (key namespace name)) (put_sandboxes (env.disk m.trace) sb m.store)
      ∙ find-assign (key namespace name) (key sb.namespace sb.name) sb m.store.sandboxes
      ∙ ap (λ b. if b then some sb else find (key namespace name) m.store.sandboxes)
          ((bytes_eq_iff (key sb.namespace sb.name) (key namespace name)).1 e)

  -- In a registry that is keyed: after a `Stop` without an error the sandbox is stored as stopped, with
  -- all else of its record as it was; the process that the manager held for it was stopped through the
  -- isolator; and the manager holds no process, no client that is attached and no socket of it.
  pub stop_sandbox-Closed :
      (namespace name : Bytes) (m n : Manager)
      → IsKeyed m.store.sandboxes
      → Ran (stop_sandbox env namespace name) m tt n
      → (sb : Sandbox) × (get namespace name m.store ≡ some sb)
        × (get namespace name n.store ≡ some (record sb { state = SandboxState.stopped }))
        × Closed (key namespace name) sb.id n
        × ((h : Handle) → at (key namespace name) m.handles ≡ some h → Killed h m n)
  unfolding find get save release
  stop_sandbox-Closed namespace name m n keyed h =
      let (sb, e, q) = stop_sandbox-Ran env namespace name m n h in
      let k = key namespace name in
      let stopped = record sb { state = SandboxState.stopped } in
      let own = find-key k m.store.sandboxes sb keyed e in
      let stored = get-save namespace name stopped (release env k sb.id m) own in
      let closed = publish_status-Closed k sb.id namespace name halted _ (
        kill-Closed k sb.id (after (save env stopped) (release env k sb.id m))
          (release-Released k sb.id m)) in
      let p = after (kill env k) (after (save env stopped) (release env k sb.id m)) in
      let same =
        sym (publish_status-Still env namespace name halted p).same_store
        ∙ kill_store k (after (save env stopped) (release env k sb.id m)) in
      (
        sb,
        e,
        subst (λ x. get namespace name x.store ≡ some stopped) (sym q)
            (ap (get namespace name) same ∙ stored),
        subst (Closed k sb.id) (sym q) closed,
        λ h held.
            subst (Killed h m) (sym q) (stopped-Killed env namespace name k sb.id stopped h m held),
      )
