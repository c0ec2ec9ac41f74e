-- ===== src/Sandbox/Manager/Orderly.antt =====
-- internal/sandbox/manager.go: evolutions of the manager, action by action.
pub mod Calm
pub mod Lifecycle
pub mod Changes
pub mod Watches
use muro.Base.{
  ℕ, Bool, true, false, List, [], ◌∷◌, Option, none, some, Bytes, in_set, bytes_eq, if◌then◌else◌,
  refl, sym, ap, ◌∙◌, ◌≡◌,
}
use muro.Config.{Mount}
use muro.Config.Validate.{Profile}
use muro.State.Store.{Sandbox, SandboxState, WorktreeInfo, key, delete, get}
use muro.State.Store.Laws.{IsKeyed, put-delete-IsKeyed}
use muro.Sandbox.Manager.{
  Env, Manager, Watcher, Sleeper, Action, Event, Fault, Handle, Effect, Result, ok, err, next,
  ◌>>=◌, ◌>>◌, pure, raise, asks, modify, branch, attempt, ignored, note, raise_if, some_or,
  started, restarted, halted, not_found, launch_failed, profile_failed, no_id, no_session,
  already_active,
}
use muro.Sandbox.Manager.Actions.{
  is_active, find_sandbox, get_handle, set_handle, clear_handle, watch, save, allow, register,
  register_handle_network_addr, publish_status, stop_handle, launch_sandbox,
}
use muro.Sandbox.Manager.Bridges.{
  start_agent_bridge, stop_agent_bridge, start_tool_bridge, stop_tool_bridge,
}
use muro.Sandbox.Manager.Launch.{build_launch_spec, capture_handle_info}
use muro.Sandbox.Manager.Books.{
  Books, books, Moves, stay, enlist, clear, enlisted, cleared, Moves-trans,
}
use muro.Sandbox.Manager.Frame.{
  after, Still, Stillness, still, Still-trans, Evolves, Evolution, Evolves-trans, stays, quietly,
  Orderly, bind-Orderly, if-Still, then-Orderly, some_or-Orderly, publish_status-Still,
  save-Orderly, allow-Still, register-Still, register_handle-Still, start_agent_bridge-Still,
  stop_agent_bridge-Still, start_tool_bridge-Still, stop_tool_bridge-Still, stop_handle-Still,
  launch-Still, note-Still,
}
use muro.Sandbox.Manager.Run.{
  default_namespace, active_already, new_sandbox, prepare, enroll, start, run,
}
use muro.Sandbox.Manager.Restart.{
  detach_client, with_fields, reload_profile, kill, rewatch, relaunch, restart, release,
  stop_sandbox,
}

abbrev add_watcher : Watcher → Books → Books
add_watcher w b = record b { watchers = w ∷ b.watchers }

-- a process put under watch, with quiet steps before and after `set_handle`
pub enlist-Evolves :
    (namespace name : Bytes) (h : Handle) (m n p : Manager)
    → Still m n
    → Still (set_handle (key namespace name) h n).1 p
    → Evolves m (watch namespace name h (set_handle (key namespace name) h n).0 p)
unfolding set_handle
enlist-Evolves namespace name h m n p q r = record {
  moves =
      rw (sym (ap (enlisted namespace name h) q.same_books ∙ ap (add_watcher _) r.same_books))
        (enlist namespace name h stay);
  keyed = λ k. rw (sym r.same_store, sym q.same_store) (k);
}

-- an answer, and an action that depends on it
pub option-Orderly :
    {A B : Type 0} (o : Option A) (k : Action B) (f : A → Action B)
    → Orderly k
    → ((a : A) → Orderly (f a))
    → Orderly (elim o [ none ↦ k | some a ↦ f a ])
option-Orderly none k f p q = p
option-Orderly (some a) k f p q = q a

pub if-Orderly :
    {A : Type 0} (c : Bool) (p q : Action A) → Orderly p → Orderly q → Orderly (if c then p else q)
if-Orderly true p q h i = h
if-Orderly false p q h i = i

-- a value that is there or an error
pub or_raise-Orderly :
    {A B : Type 0} (o : Option A) (e : Fault) (f : A → Action B)
    → ((a : A) → Orderly (f a))
    → Orderly (some_or o e >>= f)
or_raise-Orderly o e f p = bind-Orderly _ _ (some_or-Orderly o e) p

pub branch-Orderly :
    {A B : Type 0} (r : Result A) (failed : Fault → Action B) (done : Action B)
    → ((e : Fault) → Orderly (failed e))
    → Orderly done
    → Orderly (branch r failed done)
branch-Orderly (ok a) failed done p q = q
branch-Orderly (err e) failed done p q = p e

pub attempt-Orderly :
    {A B : Type 0} (act : Action A) (failed : Fault → Action B) (done : Action B)
    → Orderly act
    → ((e : Fault) → Orderly (failed e))
    → Orderly done
    → Orderly (attempt act failed done)
unfolding attempt
attempt-Orderly act failed done p q r m =
    Evolves-trans (p m) (branch-Orderly (act m).0 failed done q r (act m).1)
