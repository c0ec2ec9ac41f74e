-- ===== src/Sandbox/Manager/Errors.antt =====
-- internal/sandbox/manager.go: operations that refuse, and what they leave as it was.
use muro.Base.{
  Bool, true, false, ◌&&◌, List, [], ◌∷◌, ◌++◌, Option, none, some, Bytes, bytes_eq, in_set,
  if◌then◌else◌, refl, sym, ap, map, ◌∙◌, ◌≡◌, ◌⊎◌, inl, inr, All, Option-cases, Bool-cases,
}
use muro.Config.Validate.{Profile}
use muro.State.Store.{Sandbox, WorktreeInfo, get, delete}
use muro.State.Store.Laws.{get-delete_self}
use muro.Sandbox.Manager.{
  Env, Manager, Effect, note, discard, prune, remove_log, remove_private_dirs, Fault, ok, err,
  ◌>>=◌, ◌>>◌, already_active, still_active, not_found, no_match, unmerged, unmerged_unknown,
  update_rejected,
}
use muro.Sandbox.Manager.Actions.{is_active}
use muro.Sandbox.Manager.Launch.{validate_sandbox_config, passes}
use muro.Sandbox.Manager.Run.{default_namespace, prepare, run}
use muro.Sandbox.Manager.Update.{
  Selector, ConfigDelta, match_selector, named, candidate_of, candidates, apply_all, update, is_nil,
}
use muro.Sandbox.Manager.Delete.{
  refuse_unmerged, check_merged, drop_record, drop_log, drop_files, drop_worktrees, delete_sandbox,
}
use muro.Sandbox.Manager.Frame.{after, Still-trans}
use muro.Sandbox.Manager.Orderly.Changes.{drop_files-Still, drop_worktrees-Still}

-- `Run` of a name whose sandbox is active is refused and changes nothing.
pub run-active :
    (env : Env) (profile : Profile) (name namespace : Bytes) (m : Manager) (sb : Sandbox)
    → get (default_namespace namespace) name m.store ≡ some sb
    → is_active sb.state ≡ true
    → run env profile name namespace m ≡ (err already_active, m)
unfolding run prepare ◌>>=◌ ◌>>◌
run-active env profile name namespace m sb e a = rw (e, a) refl

-- every candidate of an update validates
unfoldable pub all_valid : Env → ConfigDelta → List Sandbox → Bool
all_valid env delta [] = true
all_valid env delta (sb ∷ sbs) =
    passes (validate_sandbox_config env (candidate_of env delta sb)) && all_valid env delta sbs

if-candidates :
    (env : Env) (delta : ConfigDelta) (sbs : List Sandbox)
    → candidates env delta sbs ≡ (
        if all_valid env delta sbs
        then ok (map (candidate_of env delta) sbs)
        else err update_rejected)
unfolding candidates all_valid
if-candidates env delta [] = refl
if-candidates env delta (sb ∷ sbs) =
    let ih = if-candidates env delta sbs in
    elim (Bool-cases (passes (validate_sandbox_config env (candidate_of env delta sb)))) [
      | inl e ↦ elim (Bool-cases (all_valid env delta sbs)) [
        | inl f ↦ rw (e, ih, f) refl
        | inr f ↦ rw (e, ih, f) refl
      ]
      | inr e ↦ rw (e) refl
    ]

match_selector_same : (env : Env) (sel : Selector) (m : Manager) → (match_selector env sel m).1 ≡ m
unfolding match_selector named ◌>>=◌
match_selector_same env sel m = elim (Bool-cases (bytes_eq sel.name [])) [
  | inl e ↦ elim (Bool-cases sel.all) [
    | inl f ↦ rw (e, f) refl
    | inr f ↦ elim (Bool-cases (bytes_eq sel.profile [])) [
      | inl g ↦ rw (e, f, g) refl
      | inr g ↦ rw (e, f, g) refl
    ]
  ]
  | inr e ↦ elim (Option-cases (get (default_namespace sel.namespace) sel.name m.store)) [
    | inl f ↦ rw (e, f) refl
    | inr (sb, f) ↦ rw (e, f) refl
  ]
]

-- `Update` is all or nothing up to its application: with the targets that the selector chooses, it goes
-- on with the candidates of all of them if there is a target and every candidate validates, and otherwise
-- returns an error and leaves the manager as it was.
pub update_lem :
    (env : Env) (sel : Selector) (delta : ConfigDelta) (m : Manager) (targets : List Sandbox)
    → (match_selector env sel m).0 ≡ ok targets
    → update env sel delta m ≡ (
        if is_nil targets
        then (err no_match, m)
        else if all_valid env delta targets
        then apply_all env delta (map (candidate_of env delta) targets) m
        else (err update_rejected, m))
unfolding update ◌>>=◌ ◌>>◌
update_lem env sel delta m [] e = rw (e, match_selector_same) refl
update_lem env sel delta m (sb ∷ sbs) e = elim (Bool-cases (all_valid env delta (sb ∷ sbs))) [
  | inl f ↦ rw (e, match_selector_same, if-candidates, f) refl
  | inr f ↦ rw (e, match_selector_same, if-candidates, f) refl
]

-- a worktree whose loss is accepted, or that has nothing to lose
abbrev pub Spendable : Env → Manager → List Bytes → WorktreeInfo → Type 0
Spendable env m accepted wt =
    (in_set wt.mount_path accepted ≡ true) ⊎ (env.has_unmerged m.trace wt ≡ some false)

-- what a run of the check leaves
abbrev Checked : Env → Manager → List Bytes → List WorktreeInfo → Type 0
Checked env m accepted wts =
    ((check_merged env accepted wts m ≡ (ok tt, m)) × All (Spendable env m accepted) wts)
    ⊎ ((e : Fault) × (check_merged env accepted wts m ≡ (err e, m)))

check_merged-Checked :
    (env : Env) (m : Manager) (accepted : List Bytes) (wts : List WorktreeInfo)
    → Checked env m accepted wts
unfolding check_merged refuse_unmerged ◌>>=◌ ◌>>◌
check_merged-Checked env m accepted [] = inl (refl, tt)
check_merged-Checked env m accepted (wt ∷ wts) =
    let ih = check_merged-Checked env m accepted wts in
    elim (Bool-cases (in_set wt.mount_path accepted)) [
      | inl a ↦ elim ih [ inl (e, h) ↦ inl (rw (a) e, (inl a, h)) | inr (f, e) ↦ inr (f, rw (a) e) ]
      | inr a ↦ elim (Option-cases (env.has_unmerged m.trace wt)) [
        | inl u ↦ inr (unmerged_unknown, rw (a, u) refl)
        | inr (has, u) ↦ elim (Bool-cases has) [
          | inl t ↦ inr (unmerged, rw (a, u, t) refl)
          | inr t ↦ elim ih [
            | inl (e, h) ↦ inl (rw (a, u, t) e, (inr (u ∙ ap some t), h))
            | inr (f, e) ↦ inr (f, rw (a, u, t) e)
          ]
        ]
      ]
    ]

-- an effect that throws away no worktree but an accepted one
abbrev pub Allowed : List Bytes → Effect → Type 0
Allowed accepted (discard wt) = in_set wt.mount_path accepted ≡ true
Allowed accepted _ = Unit

-- the effects between two managers, all of them allowed
abbrev pub Careful : List Bytes → Manager → Manager → Type 0
Careful accepted m n = (es : List Effect) × (n.trace ≡ es ++ m.trace) × All (Allowed accepted) es

note-Careful :
    (accepted : List Bytes) (e : Effect) (m n : Manager)
    → Allowed accepted e
    → Careful accepted m n
    → Careful accepted m (note e n)
note-Careful accepted e m n a (es, p, h) = (e ∷ es, ap (λ t. e ∷ t) p, (a, h))

drop_worktrees-Careful :
    (env : Env) (accepted : List Bytes) (wts : List WorktreeInfo) (m n : Manager)
    → Careful accepted m n
    → Careful accepted m (drop_worktrees env accepted wts n)
unfolding drop_worktrees
drop_worktrees-Careful env accepted [] m n h = h
drop_worktrees-Careful env accepted (wt ∷ wts) m n h =
    drop_worktrees-Careful env accepted wts m _ (elim (Bool-cases (in_set wt.mount_path accepted)) [
      | inl e ↦ rw (e) (note-Careful accepted (discard wt) m n e h)
      | inr e ↦ rw (e) (note-Careful accepted (prune wt) m n tt h)
    ])

drop_log-Careful :
    (accepted : List Bytes) (dir : Option Bytes) (namespace name : Bytes) (m n : Manager)
    → Careful accepted m n
    → Careful accepted m (drop_log dir namespace name n)
drop_log-Careful accepted none namespace name m n h = h
drop_log-Careful accepted (some dir) namespace name m n h =
    note-Careful accepted (remove_log namespace name) m n tt h

drop_files-Careful :
    (env : Env) (accepted : List Bytes) (namespace name : Bytes) (sb : Sandbox) (m n : Manager)
    → Careful accepted m n
    → Careful accepted m (drop_files env namespace name sb n)
unfolding drop_files
drop_files-Careful env accepted namespace name sb m n h =
    let l = drop_log-Careful accepted env.daemon_state_dir namespace name m n h in
    elim (Bool-cases (bytes_eq env.state_dir [])) [
      | inl e ↦ rw (e) l
      | inr e ↦ rw (e) (
          note-Careful accepted (remove_private_dirs sb.id) m
            (drop_log env.daemon_state_dir namespace name n) tt l)
    ]

-- what is true of the manager after `Delete` has taken the record out of the store
abbrev pub Deleted : Bytes → Bytes → List Bytes → Manager → Manager → Type 0
Deleted namespace name accepted m n = (get namespace name n.store ≡ none) × Careful accepted m n

drop-Deleted :
    (env : Env) (accepted : List Bytes) (namespace name : Bytes) (sb : Sandbox) (m n : Manager)
    → Deleted namespace name accepted m n
    → Deleted namespace name accepted m
        (drop_worktrees env accepted sb.worktrees (drop_files env namespace name sb n))
drop-Deleted env accepted namespace name sb m n (gone, h) =
    let p = drop_files-Still env namespace name sb n in
    let q = drop_worktrees-Still env accepted sb.worktrees (drop_files env namespace name sb n) in
    (
      ap (get namespace name) (sym (Still-trans p q).same_store) ∙ gone,
      drop_worktrees-Careful env accepted sb.worktrees m _
          (drop_files-Careful env accepted namespace name sb m n h),
    )

-- What a run of `Delete` does: it refuses and changes nothing; or it takes out a sandbox that was not
-- active, of which each worktree was accepted as lost or had nothing unmerged. Then, whether or not the
-- state file is written, the record is gone, and no worktree is thrown away but an accepted one.
pub delete_sandbox_lem :
    (env : Env) (namespace name : Bytes) (accepted : List Bytes) (m : Manager)
    → ((e : Fault) × (delete_sandbox env namespace name accepted m ≡ (err e, m)))
      ⊎ ((sb : Sandbox) × (get namespace name m.store ≡ some sb)
          × (is_active sb.state ≡ false)
          × All (Spendable env m accepted) sb.worktrees
          × Deleted namespace name accepted m
              (after (delete_sandbox env namespace name accepted) m))
unfolding delete_sandbox drop_record ◌>>=◌ ◌>>◌
delete_sandbox_lem env namespace name accepted m =
    elim (Option-cases (get namespace name m.store)) [
      | inl e ↦ inl (not_found, rw (e) refl)
      | inr (sb, e) ↦ elim (Bool-cases (is_active sb.state)) [
        | inl a ↦ inl (still_active, rw (e, a) refl)
        | inr a ↦ elim (check_merged-Checked env m accepted sb.worktrees) [
          | inr (f, c) ↦ inl (f, rw (e, a, c) refl)
          | inl (c, h) ↦
              let n = record m { store = (delete (env.disk m.trace) namespace name m.store).1 } in
              let gone : Deleted namespace name accepted m n =
                (get-delete_self (env.disk m.trace) namespace name m.store, ([], refl, tt)) in
              inr (
                sb,
                e,
                a,
                h,
                elim (Bool-cases (delete (env.disk m.trace) namespace name m.store).0) [
                  | inl d ↦
                      rw (e, after, a, c, d) (drop-Deleted env accepted namespace name sb m n gone)
                  | inr d ↦ rw (e, after, a, c, d) gone
                ],
              )
        ]
      ]
    ]
