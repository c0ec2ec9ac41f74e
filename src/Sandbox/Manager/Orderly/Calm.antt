-- ===== src/Sandbox/Manager/Orderly/Calm.antt =====
-- internal/sandbox/manager.go: actions that touch neither the store nor the processes, such as the
-- resolution of a profile.
use muro.Base.{
  Bool, true, false, ◌&&◌, List, [], ◌∷◌, Option, none, some, Bytes, bytes_eq, if◌then◌else◌, map,
  refl,
}
use muro.Config.{GitRepoPolicy}
use muro.Config.Paths.{expand_home}
use muro.Config.Validate.{Profile}
use muro.Sandbox.Mounts.{resolve_mounts}
use muro.Sandbox.Manager.{
  Env, Manager, Action, Fault, Result, ok, err, next, ◌>>=◌, ◌>>◌, pure, some_or, asks,
  bundle_failed, skill_failed, no_home, worktree_failed, mounts_invalid,
}
use muro.Sandbox.Manager.Launch.{value_of}
use muro.Sandbox.Manager.Resolve.{
  no_elements, audio_mounts, private_dir_mounts, bundle_docs_mounts, has_docs, docs_mounts,
  instructions_mount, skill_mounts, guidance_mounts, worktree_mounts, worktree_branch,
  resolve_fields,
}
use muro.Sandbox.Manager.Frame.{after, Still, Stillness, still, Still-trans, note-Still}

abbrev pub Calm : {A : Type 0} → Action A → Type 0
Calm act = Stillness (after act)

pub idle : (m : Manager) → Still m m
idle m = still m m refl refl

next-Still :
    {A B : Type 0} (r : Result A) (m n : Manager) (f : A → Action B)
    → Still m n
    → ((a : A) → Calm (f a))
    → Still m (next r f n).1
next-Still (ok a) m n f p q = Still-trans p (q a n)
next-Still (err e) m n f p q = p

pub bind-Calm :
    {A B : Type 0} (act : Action A) (f : A → Action B)
    → Calm act
    → ((a : A) → Calm (f a))
    → Calm (act >>= f)
unfolding ◌>>=◌
bind-Calm act f p q m = next-Still (act m).0 m (act m).1 f (p m) q

pub then-Calm : {A B : Type 0} (act : Action A) (k : Action B) → Calm act → Calm k → Calm (act >> k)
unfolding ◌>>◌
then-Calm act k p q = bind-Calm act _ p (λ _. q)

some_or-Calm : {A : Type 0} (o : Option A) (e : Fault) → Calm (some_or o e)
some_or-Calm none e m = idle m
some_or-Calm (some a) e m = idle m

pub or_raise-Calm :
    {A B : Type 0} (o : Option A) (e : Fault) (f : A → Action B)
    → ((a : A) → Calm (f a))
    → Calm (some_or o e >>= f)
or_raise-Calm o e f p = bind-Calm _ _ (some_or-Calm o e) p

if-Calm : {A : Type 0} (c : Bool) (p q : Action A) → Calm p → Calm q → Calm (if c then p else q)
if-Calm true p q h i = h
if-Calm false p q h i = i

option-Calm :
    {A B : Type 0} (o : Option A) (k : Action B) (f : A → Action B)
    → Calm k
    → ((a : A) → Calm (f a))
    → Calm (elim o [ none ↦ k | some a ↦ f a ])
option-Calm none k f p q = p
option-Calm (some a) k f p q = q a

module _ (env : Env) where
  audio_mounts-Calm : (dir : Bytes) → Calm (audio_mounts env dir)
  unfolding audio_mounts
  audio_mounts-Calm dir = then-Calm _ _ idle (bind-Calm _ _ idle λ mounts. then-Calm _ _ idle idle)

  private_dir_mounts-Calm :
      (id : Bytes) (paths : List Bytes) → Calm (private_dir_mounts env id paths)
  unfolding private_dir_mounts
  private_dir_mounts-Calm id [] = idle
  private_dir_mounts-Calm id (path ∷ paths) = bind-Calm _ _ idle λ made.
      then-Calm _ _ (note-Still _)
        (then-Calm _ _ idle (bind-Calm _ _ (private_dir_mounts-Calm id paths) λ rest. idle))

  bundle_docs_mounts-Calm : (name : Bytes) → Calm (bundle_docs_mounts env name)
  unfolding bundle_docs_mounts
  bundle_docs_mounts-Calm name = then-Calm _ _ idle (
      or_raise-Calm env.profiles_dir bundle_failed _ λ profiles. bind-Calm _ _ idle λ entries.
        option-Calm entries _ _ idle
          λ es. if-Calm (has_docs es) (asks (docs_mounts env _)) (pure []) idle idle)

  instructions_mount-Calm : (home path : Bytes) → Calm (instructions_mount env home path)
  unfolding instructions_mount
  instructions_mount-Calm home [] = idle
  instructions_mount-Calm home (c ∷ path) = bind-Calm _ _ idle λ kind. then-Calm _ _ idle idle

  skill_mounts-Calm : (home : Bytes) (paths : List Bytes) → Calm (skill_mounts env home paths)
  unfolding skill_mounts
  skill_mounts-Calm home [] = idle
  skill_mounts-Calm home (path ∷ paths) = bind-Calm _ _ idle λ kind.
      or_raise-Calm kind skill_failed _
        λ found. bind-Calm _ _ (skill_mounts-Calm home paths) λ rest. idle

  guidance_mounts-Calm : (p : Profile) → Calm (guidance_mounts env p)
  unfolding guidance_mounts
  guidance_mounts-Calm p = or_raise-Calm env.home no_home _ λ home.
      bind-Calm _ _ (instructions_mount-Calm home (expand_home env.home p.instructions))
        λ i. bind-Calm _ _ (skill_mounts-Calm home (map (expand_home env.home) p.skills)) λ s. idle

  worktree_mounts-Calm :
      (id branch : Bytes) (repos : List GitRepoPolicy) → Calm (worktree_mounts env id branch repos)
  unfolding worktree_mounts
  worktree_mounts-Calm id branch [] = idle
  worktree_mounts-Calm id branch (repo ∷ repos) =
      if-Calm repo.worktree _ _
        (bind-Calm _ _ idle λ created. then-Calm _ _ (note-Still _) (
          or_raise-Calm created worktree_failed _
            λ base_branch. bind-Calm _ _ (worktree_mounts-Calm id branch repos) λ rest. idle))
        (worktree_mounts-Calm id branch repos)

  pub resolve_fields-Calm :
      (p : Profile) (namespace name id : Bytes) → Calm (resolve_fields env p namespace name id)
  unfolding resolve_fields
  resolve_fields-Calm p namespace name id =
      or_raise-Calm (value_of (resolve_mounts env.home env.config_dir env.daemon_state_dir p))
        mounts_invalid _
        λ own. bind-Calm _ _ (bundle_docs_mounts-Calm p.name) λ docs.
          bind-Calm _ _
            (if-Calm p.audio (audio_mounts env env.runtime_dir) (pure [])
              (audio_mounts-Calm env.runtime_dir) idle)
            λ audio.
              bind-Calm _ _ (private_dir_mounts-Calm id (map (expand_home env.home) p.private_dirs))
                λ private.
                  bind-Calm _ _
                    (if-Calm (bytes_eq p.instructions [] && no_elements p.skills) (pure [])
                      (guidance_mounts env p) idle (guidance_mounts-Calm p))
                    λ guidance.
                      bind-Calm _ _
                        (worktree_mounts-Calm id (worktree_branch namespace name) p.git.repos)
                        λ trees. idle
