-- ===== src/Sandbox/Manager/Pending.antt =====
-- internal/sandbox/manager.go: `Update` of a sandbox without a process, and what follows from it.
use muro.Base.{
  Bool, true, false, ◌&&◌, [], ◌∷◌, none, some, bytes_eq, refl, sym, ap, ◌∙◌, ◌≡◌, inl, inr,
  Bool-cases,
}
use muro.Config.Validate.{Profile}
use muro.State.Store.{Sandbox, SandboxState, Store, key, get, put, persist}
use muro.Sandbox.Manager.{Env, Manager, ok, err, ◌>>=◌, ◌>>◌, already_active, no_process}
use muro.Sandbox.Manager.Actions.{at, get_handle, save, allow}
use muro.Sandbox.Manager.Launch.{validate_sandbox_config, passes}
use muro.Sandbox.Manager.Run.{default_namespace, run}
use muro.Sandbox.Manager.Update.{
  Selector, ConfigDelta, is_nil, named, match_selector, candidate_of, apply_mounts, settled,
  apply_candidate, apply_all, update, reload_in, reload,
}
use muro.Sandbox.Manager.Frame.{after}
use muro.Sandbox.Manager.Stopped.{get-save}
use muro.Sandbox.Manager.Errors.{all_valid, update_lem, run-active}

put_written : (disk : Bool) (sb : Sandbox) (s : Store) → disk ≡ true → (put disk sb s).0 ≡ true
unfolding put persist
put_written disk sb s d = rw (d) refl

module _ (env : Env) where
  -- a candidate whose mounts no process can take is stored as waiting for a reload
  unprocessed :
      (delta : ConfigDelta) (c : Sandbox) (m : Manager)
      → is_nil delta.add_mounts ≡ false
      → at (key c.namespace c.name) m.handles ≡ none
      → env.disk m.trace ≡ true
      → (get c.namespace c.name (after (apply_all env delta (c ∷ [])) m).store
          ≡ some (record c { state = SandboxState.reload_pending }))
        × ((after (apply_all env delta (c ∷ [])) m).handles ≡ m.handles)
  unfolding apply_all apply_candidate apply_mounts settled get_handle save allow ◌>>=◌ ◌>>◌
  unprocessed delta c m a h d =
      let c' = record c { state = SandboxState.reload_pending } in
      let got = get-save env c.namespace c.name c' m refl in
      let w = put_written (env.disk m.trace) c' m.store d in
      elim (Bool-cases (is_nil delta.allow_urls && is_nil delta.deny_urls)) [
        | inl u ↦ rw (a, h, w, u, after) (got, refl)
        | inr u ↦ elim (Bool-cases env.has_proxy) [
          | inl p ↦ rw (a, h, w, u, p, after) (got, refl)
          | inr p ↦ rw (a, h, w, u, p, after) (got, refl)
        ]
      ]

  -- An `Update` with mounts, of a sandbox that is named, is stored and has no process, stopped or crashed
  -- as it may be: when its record validates and is written, it is then stored as one that waits for a
  -- reload. So a `Run` of the name is refused as of an active sandbox, and a `Reload` of it too, as there
  -- is no process to reload.
  pub update-stuck :
      (sel : Selector) (delta : ConfigDelta) (profile : Profile) (sb : Sandbox) (m : Manager)
      → bytes_eq sel.name [] ≡ false
      → is_nil delta.add_mounts ≡ false
      → get (default_namespace sel.namespace) sel.name m.store ≡ some sb
      → (sb.namespace ≡ default_namespace sel.namespace) × (sb.name ≡ sel.name)
      → at (key sb.namespace sb.name) m.handles ≡ none
      → passes (validate_sandbox_config env (candidate_of env delta sb)) ≡ true
      → env.disk m.trace ≡ true
      → (n : Manager) × (n ≡ after (update env sel delta) m)
        × (get sb.namespace sb.name n.store
            ≡ some (record (candidate_of env delta sb) { state = SandboxState.reload_pending }))
        × (run env profile sel.name sel.namespace n ≡ (err already_active, n))
        × (reload env sb.namespace sb.name n ≡ (err no_process, n))
  unfolding match_selector named all_valid candidate_of reload reload_in get_handle ◌>>=◌
  update-stuck sel delta profile sb m s a e (ns, nm) h v d =
      let c = candidate_of env delta sb in
      let (stored, handles) = unprocessed delta c m a h d in
      let n = after (apply_all env delta (c ∷ [])) m in
      let chosen : (match_selector env sel m).0 ≡ ok (sb ∷ []) = rw (s, e) refl in
      let valid : all_valid env delta (sb ∷ []) ≡ true = rw (v) refl in
      let done = update_lem env sel delta m (sb ∷ []) chosen in
      let again : get (default_namespace sel.namespace) sel.name n.store ≡ some _ =
        ap (λ x. get x sel.name n.store) (sym ns)
        ∙ ap (λ x. get sb.namespace x n.store) (sym nm)
        ∙ stored in
      (
        n,
        rw (done, valid, after) refl,
        stored,
        run-active env profile sel.name sel.namespace n _ again refl,
        rw (stored, handles, h) refl,
      )
