-- ===== src/Sandbox/Manager/Update.antt =====
-- internal/sandbox/manager.go: the choice of the sandboxes, `Update` and `Reload`.
use muro.Base.{
  Bool, true, false, ◌&&◌, not, List, [], ◌∷◌, none, some, Bytes, bytes_eq, if◌then◌else◌,
}
use muro.Config.{Mount}
use muro.State.Store.{Sandbox, SandboxState, key, list}
use muro.Sandbox.Urls.{merge_mounts, apply_url_delta}
use muro.Sandbox.Manager.{
  Env, Manager, Action, Handle, Result, ok, err, ◌>>=◌, ◌>>◌, pure, raise, asks, modify, emit,
  raise_if, some_or, not_found, no_selector, no_match, update_rejected, mounts_failed, no_process,
  update_mounts,
}
use muro.Sandbox.Manager.Actions.{find_sandbox, is_active, save, allow, get_handle}
use muro.Sandbox.Manager.Launch.{validate_sandbox_config, passes}
use muro.Sandbox.Manager.Run.{default_namespace}

-- `Selector`
pub record Selector : Type 0 where
  pub name : Bytes
  pub namespace : Bytes
  pub profile : Bytes
  pub all : Bool

-- `ConfigDelta`
pub record ConfigDelta : Type 0 where
  pub add_mounts : List Mount
  pub allow_urls : List Bytes
  pub deny_urls : List Bytes

-- `UpdateResult`
pub record UpdateResult : Type 0 where
  pub namespace : Bytes
  pub name : Bytes
  pub applied : Bool

abbrev pub is_nil : {A : Type 0} → List A → Bool
is_nil [] = true
is_nil (x ∷ xs) = false

unfoldable pub filter : (Sandbox → Bool) → List Sandbox → List Sandbox
filter p [] = []
filter p (sb ∷ sbs) = let rest = filter p sbs in if p sb then sb ∷ rest else rest

module _ (env : Env) where
  -- `runningSandboxes`
  unfoldable pub running_sandboxes : Bytes → Manager → List Sandbox
  unfolding filter
  running_sandboxes ns m = filter (λ sb. is_active sb.state) (list env.sort ns m.store)

  -- the loop of `matchSelector`
  unfoldable pub running_of_profile : Bytes → Bytes → Manager → List Sandbox
  unfolding running_sandboxes filter
  running_of_profile profile ns m =
      filter (λ sb. bytes_eq sb.profile profile) (running_sandboxes ns m)

  -- the first case of `matchSelector`
  unfoldable pub named : Bytes → Bytes → Action (List Sandbox)
  named ns name = do found ← find_sandbox env ns name; sb ← some_or found not_found; pure (sb ∷ [])

  -- `matchSelector`
  unfoldable pub match_selector : Selector → Action (List Sandbox)
  unfolding running_of_profile named
  match_selector sel =
      if not (bytes_eq sel.name [])
      then named (default_namespace sel.namespace) sel.name
      else if sel.all
      then asks (running_sandboxes sel.namespace)
      else if not (bytes_eq sel.profile [])
      then asks (running_of_profile sel.profile sel.namespace)
      else raise no_selector

  -- the candidate that `Update` makes of a target
  unfoldable pub candidate_of : ConfigDelta → Sandbox → Sandbox
  candidate_of delta sb = record sb {
    mounts = merge_mounts sb.mounts delta.add_mounts;
    allow_urls = apply_url_delta sb.allow_urls delta.allow_urls delta.deny_urls;
  }

  -- the first loop of `Update`
  unfoldable pub candidates : ConfigDelta → List Sandbox → Result (List Sandbox)
  unfolding candidate_of
  candidates delta [] = ok []
  candidates delta (sb ∷ sbs) =
      let rest = candidates delta sbs in
      if passes (validate_sandbox_config env (candidate_of delta sb))
      then elim rest [ ok cs ↦ ok (candidate_of delta sb ∷ cs) | err e ↦ err e ]
      else err update_rejected

  -- isolator.UpdateMounts
  unfoldable pub remount : Handle → List Mount → Action Bool
  remount h mounts = do
    answer ← asks λ m. env.remounts m.trace h mounts
    emit (update_mounts h mounts)
    some_or answer mounts_failed

  -- the mounts of a candidate, as far as the delta has any: whether they are applied
  unfoldable pub apply_mounts : ConfigDelta → Sandbox → Action Bool
  unfolding remount
  apply_mounts delta c = if is_nil delta.add_mounts then pure true else (do
    h ← asks λ m. get_handle (key c.namespace c.name) m
    elim h [ none ↦ pure false | some h ↦ remount h c.mounts ])

  -- the state of a candidate after `applied`
  unfoldable pub settled : Bool → Sandbox → Sandbox
  settled false c = record c { state = SandboxState.reload_pending }
  settled true c = elim c.state [
    | SandboxState.reload_pending ↦ record c { state = SandboxState.running }
    | _ ↦ c
  ]

  -- the second loop of `Update` at one candidate
  unfoldable pub apply_candidate : ConfigDelta → Sandbox → Action UpdateResult
  unfolding apply_mounts settled
  apply_candidate delta c = do
    applied ← apply_mounts delta c
    save env (settled applied c)
    modify λ m.
        if is_nil delta.allow_urls && is_nil delta.deny_urls
        then m
        else allow env c.id c.allow_urls m
    pure (record { namespace = c.namespace; name = c.name; applied = applied })

  unfoldable pub apply_all : ConfigDelta → List Sandbox → Action (List UpdateResult)
  unfolding apply_candidate
  apply_all delta [] = pure []
  apply_all delta (c ∷ cs) = do r ← apply_candidate delta c; rs ← apply_all delta cs; pure (r ∷ rs)

  -- `Update`
  unfoldable pub update : Selector → ConfigDelta → Action (List UpdateResult)
  unfolding match_selector candidates apply_all
  update sel delta = do
    targets ← match_selector sel
    raise_if (is_nil targets) no_match
    cs ← λ m. (candidates delta targets, m)
    apply_all delta cs

  -- `Reload` of a sandbox in a state
  unfoldable pub reload_in : SandboxState → Bytes → Bytes → Sandbox → Action (Unit {0})
  unfolding remount
  reload_in SandboxState.reload_pending namespace name sb = do
    handle ← asks λ m. get_handle (key namespace name) m
    h ← some_or handle no_process
    applied ← remount h sb.mounts
    save env (if applied then record sb { state = SandboxState.running } else sb)
  reload_in _ namespace name sb = pure tt

  -- `Reload`
  unfoldable pub reload : Bytes → Bytes → Action (Unit {0})
  unfolding reload_in
  reload namespace name = do
    found ← find_sandbox env namespace name
    sb ← some_or found not_found
    reload_in sb.state namespace name sb
