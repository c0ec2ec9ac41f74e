-- ===== src/Sandbox/Manager/Frame.antt =====
-- internal/sandbox/manager.go: what each part of an operation leaves alone.
use muro.Base.{
  Bool, true, false, List, [], Option, none, some, Bytes, bytes_eq, in_set, ◌&&◌, not,
  if◌then◌else◌, refl, sym, ◌∙◌, ◌≡◌,
}
use muro.State.Store.{Sandbox, key}
use muro.State.Store.Laws.{IsKeyed, put-delete-IsKeyed}
use muro.Sandbox.Manager.{
  Env, Manager, Action, Event, Fault, Handle, LaunchSpec, Effect, Result, ok, err, next, ◌>>=◌,
  ◌>>◌, asks, note, some_or,
}
use muro.Sandbox.Manager.Actions.{
  save, allow, register, register_option, register_handle_network_addr, publish_status, stop_handle,
  launch_sandbox,
}
use muro.Sandbox.Manager.Bridges.{
  pubsub_enabled, has_key, has_repos, agent_socket_path, tool_socket_path, start_agent_listener,
  subscribe_inbox, start_agent_bridge, stop_agent_bridge, start_tool_bridge, stop_tool_bridge,
}
use muro.Sandbox.Manager.Books.{books, Moves, stay, Moves-trans}

-- the manager after an operation, whatever it returns
abbrev pub after : {A : Type 0} → Action A → Manager → Manager
after act m = (act m).1

-- a step that touches neither the books nor the store
pub record Still (m n : Manager) : Type 0 where
  pub same_books : books m ≡ books n
  pub same_store : m.store ≡ n.store

abbrev pub Stillness : (Manager → Manager) → Type 0
Stillness f = (m : Manager) → Still m (f m)

pub still : (m n : Manager) → books m ≡ books n → m.store ≡ n.store → Still m n
still m n a b = record { same_books = a; same_store = b }

pub Still-trans : {m n o : Manager} → Still m n → Still n o → Still m o
Still-trans p q = record {
  same_books = p.same_books ∙ q.same_books;
  same_store = p.same_store ∙ q.same_store;
}

pub if-Still : {m n o : Manager} (c : Bool) → Still m n → Still m o → Still m (if c then n else o)
if-Still true p q = p
if-Still false p q = q

pub note-Still : (e : Effect) → Stillness (note e)
note-Still e m = still _ _ refl refl

-- an evolution: the books move, and the registry stays keyed
pub record Evolves (m n : Manager) : Type 0 where
  pub moves : Moves (books m) (books n)
  pub keyed : IsKeyed m.store.sandboxes → IsKeyed n.store.sandboxes

abbrev pub Evolution : (Manager → Manager) → Type 0
Evolution f = (m : Manager) → Evolves m (f m)

pub unchanged : (m n : Manager) → books m ≡ books n → m.store ≡ n.store → Evolves m n
unchanged m n b s = record { moves = rw (sym b) (stay); keyed = λ h. rw (sym s) (h) }

pub Evolves-trans : {m n o : Manager} → Evolves m n → Evolves n o → Evolves m o
Evolves-trans p q = record { moves = Moves-trans p.moves q.moves; keyed = λ h. q.keyed (p.keyed h) }

pub stays : (m : Manager) → Evolves m m
stays m = unchanged m m refl refl

pub quietly : {m n : Manager} → Still m n → Evolves m n
quietly {m} {n} p = unchanged m n p.same_books p.same_store

-- an action of which every run is an evolution
abbrev pub Orderly : {A : Type 0} → Action A → Type 0
Orderly act = Evolution (after act)

next-Evolves :
    {A B : Type 0} (r : Result A) (m n : Manager) (f : A → Action B)
    → Evolves m n
    → ((a : A) → Orderly (f a))
    → Evolves m (next r f n).1
next-Evolves (ok a) m n f p q = Evolves-trans p (q a n)
next-Evolves (err e) m n f p q = p

pub bind-Orderly :
    {A B : Type 0} (act : Action A) (f : A → Action B)
    → Orderly act
    → ((a : A) → Orderly (f a))
    → Orderly (act >>= f)
unfolding ◌>>=◌
bind-Orderly act f p q m = next-Evolves (act m).0 m (act m).1 f (p m) q

pub then-Orderly :
    {A B : Type 0} (act : Action A) (k : Action B) → Orderly act → Orderly k → Orderly (act >> k)
unfolding ◌>>◌
then-Orderly act k p q = bind-Orderly act _ p (λ _. q)

pub asks-Orderly : {A : Type 0} (f : Manager → A) → Orderly (asks f)
asks-Orderly f m = stays m

pub same-Orderly : {A : Type 0} (r : Manager → Result A) → Orderly (λ m. (r m, m))
same-Orderly r m = stays m

pub some_or-Orderly : {A : Type 0} (o : Option A) (e : Fault) → Orderly (some_or o e)
some_or-Orderly none e m = stays m
some_or-Orderly (some a) e m = stays m

module _ (env : Env) where
  pub publish_status-Still :
      (ns name : Bytes) (e : Event) → Stillness (publish_status env ns name e)
  unfolding publish_status
  publish_status-Still ns name e m =
      if-Still env.has_publisher (still _ _ refl refl) (still _ _ refl refl)

  pub save-Orderly : (sb : Sandbox) → Orderly (save env sb)
  unfolding save
  save-Orderly sb m = record {
    moves = stay;
    keyed = λ h. (put-delete-IsKeyed (env.disk m.trace) sb [] [] m.store h).0;
  }

  pub allow-Still : (id : Bytes) (urls : List Bytes) → Stillness (allow env id urls)
  unfolding allow
  allow-Still id urls m = if-Still env.has_proxy (still _ _ refl refl) (still _ _ refl refl)

  pub register-Still : (id addr : Bytes) → Stillness (register env id addr)
  unfolding register
  register-Still id addr m =
      if-Still (bytes_eq addr []) (still _ _ refl refl)
        (if-Still env.has_proxy (still _ _ refl refl) (still _ _ refl refl))

  register_option-Still :
      (id : Bytes) (addr : Option Bytes) → Stillness (register_option env id addr)
  unfolding register_option
  register_option-Still id none m = still _ _ refl refl
  register_option-Still id (some addr) m = register-Still id addr m

  pub register_handle-Still :
      (id : Bytes) (h : Handle) → Stillness (register_handle_network_addr env id h)
  unfolding register_handle_network_addr
  register_handle-Still id h m = register_option-Still id h.network_addr m

  listener-Still : (sb : Sandbox) → Stillness (start_agent_listener env sb)
  unfolding start_agent_listener
  listener-Still sb m = if-Still (in_set sb.id m.agent_sockets) (still _ _ refl refl) (
      if-Still (env.listens m.trace (agent_socket_path env.pub_state_dir sb.id))
        (still _ _ refl refl) (still _ _ refl refl))

  inbox-Still : (sb : Sandbox) → Stillness (subscribe_inbox env sb)
  unfolding subscribe_inbox
  inbox-Still sb m =
      if-Still (env.has_subscriber && not (in_set (key sb.namespace sb.name) m.inbox_subscribed))
        (if-Still (env.subscribes m.trace sb.namespace sb.name) (still _ _ refl refl)
          (still _ _ refl refl))
        (still _ _ refl refl)

  pub start_agent_bridge-Still : (sb : Sandbox) → Stillness (start_agent_bridge env sb)
  unfolding start_agent_bridge
  start_agent_bridge-Still sb m =
      if-Still (pubsub_enabled env)
        (Still-trans (listener-Still sb m) (inbox-Still sb (start_agent_listener env sb m)))
        (still _ _ refl refl)

  pub stop_agent_bridge-Still : (id : Bytes) → Stillness (stop_agent_bridge env id)
  unfolding stop_agent_bridge
  stop_agent_bridge-Still id m =
      if-Still (in_set id m.agent_sockets) (still _ _ refl refl) (still _ _ refl refl)

  pub start_tool_bridge-Still : (sb : Sandbox) → Stillness (start_tool_bridge env sb)
  unfolding start_tool_bridge
  start_tool_bridge-Still sb m =
      if-Still (has_repos sb.git_policy.repos && not (has_key sb.id m.tool_sockets))
        (if-Still (env.listens m.trace (tool_socket_path env.state_dir sb.id)) (still _ _ refl refl)
          (still _ _ refl refl))
        (still _ _ refl refl)

  pub stop_tool_bridge-Still : (id : Bytes) → Stillness (stop_tool_bridge env id)
  unfolding stop_tool_bridge
  stop_tool_bridge-Still id m =
      if-Still (has_key id m.tool_sockets) (still _ _ refl refl) (still _ _ refl refl)

  pub stop_handle-Still : (h : Handle) → Stillness (after (stop_handle env h))
  unfolding stop_handle
  stop_handle-Still h m = still _ _ refl refl

  pub launch-Still : (spec : LaunchSpec) → Stillness (after (launch_sandbox env spec))
  unfolding launch_sandbox
  launch-Still spec m = still _ _ refl refl
