-- ===== src/Sandbox/Manager/Killed.antt =====
-- internal/sandbox/manager.go: what `Stop` asks of the isolator.
use muro.Base.{[], ◌∷◌, ◌++◌, some, Bytes, in_set, refl, ap, ◌∙◌, ◌≡◌, inl, inr, Bool-cases}
use muro.State.Store.{Sandbox}
use muro.Sandbox.Manager.{
  Env, Manager, Handle, Trace, Event, stop, close, publish, ◌>>=◌, ◌>>◌, halted,
}
use muro.Sandbox.Manager.Actions.{at, get_handle, clear_handle, save, publish_status, stop_handle}
use muro.Sandbox.Manager.Bridges.{
  agent_socket_path, tool_socket_path, has_key, stop_agent_bridge, stop_tool_bridge,
}
use muro.Sandbox.Manager.Restart.{kill, release, detach_client}
use muro.Sandbox.Manager.Frame.{after}

-- what was asked of the host between two managers, and that the process of a handle was to be stopped
abbrev pub Killed : Handle → Manager → Manager → Type 0
Killed h m n =
    (before : Trace) × (later : Trace) × (n.trace ≡ later ++ (stop h ∷ (before ++ m.trace)))

module _ (env : Env) where
  kill_trace :
      (k : Bytes) (h : Handle) (m : Manager)
      → at k m.handles ≡ some h
      → (after (kill env k) m).trace ≡ stop h ∷ m.trace
  unfolding kill get_handle clear_handle stop_handle ◌>>=◌ ◌>>◌
  kill_trace k h m e = rw (e, after) refl

  publish_status_trace :
      (namespace name : Bytes) (e : Event) (m : Manager)
      → (later : Trace) × ((publish_status env namespace name e m).trace ≡ later ++ m.trace)
  unfolding publish_status
  publish_status_trace namespace name e m = elim (Bool-cases env.has_publisher) [
    | inl p ↦ (publish namespace name e ∷ [], rw (p) refl)
    | inr p ↦ ([], rw (p) refl)
  ]

  release_trace :
      (k id : Bytes) (m : Manager)
      → (before : Trace) × ((release env k id m).trace ≡ before ++ m.trace)
  unfolding release stop_agent_bridge stop_tool_bridge detach_client
  release_trace k id m = elim (Bool-cases (in_set id m.agent_sockets)) [
    | inl a ↦ elim (Bool-cases (has_key id m.tool_sockets)) [
      | inl t ↦ (
        close (tool_socket_path env.state_dir id)
            ∷ close (agent_socket_path env.pub_state_dir id)
            ∷ [],
        rw (a, t) refl,
      )
      | inr t ↦ (close (agent_socket_path env.pub_state_dir id) ∷ [], rw (a, t) refl)
    ]
    | inr a ↦ elim (Bool-cases (has_key id m.tool_sockets)) [
      | inl t ↦ (close (tool_socket_path env.state_dir id) ∷ [], rw (a, t) refl)
      | inr t ↦ ([], rw (a, t) refl)
    ]
  ]

  release_handles : (k id : Bytes) (m : Manager) → (release env k id m).handles ≡ m.handles
  unfolding release stop_agent_bridge stop_tool_bridge detach_client
  release_handles k id m = elim (Bool-cases (in_set id m.agent_sockets)) [
    | inl a ↦ elim (Bool-cases (has_key id m.tool_sockets)) [
      | inl t ↦ rw (a, t) refl
      | inr t ↦ rw (a, t) refl
    ]
    | inr a ↦ elim (Bool-cases (has_key id m.tool_sockets)) [
      | inl t ↦ rw (a, t) refl
      | inr t ↦ rw (a, t) refl
    ]
  ]

  -- the process that a `Stop` finds under the key is stopped
  pub stopped-Killed :
      (namespace name k id : Bytes) (sb : Sandbox) (h : Handle) (m : Manager)
      → at k m.handles ≡ some h
      → Killed h m (
          publish_status env namespace name halted
            (after (kill env k) (after (save env sb) (release env k id m))))
  unfolding save
  stopped-Killed namespace name k id sb h m e =
      let saved = after (save env sb) (release env k id m) in
      let (later, a) = publish_status_trace namespace name halted (after (kill env k) saved) in
      let (before, b) = release_trace k id m in
      let held = ap (at k) (release_handles k id m) ∙ e in
      (before, later, a ∙ ap (λ t. later ++ t) (kill_trace k h saved held ∙ ap (λ t. stop h ∷ t) b))
