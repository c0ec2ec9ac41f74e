-- ===== src/Sandbox/Manager/Resolve.antt =====
-- internal/sandbox/manager.go: `resolveSandboxFieldsFromProfile`, with the mounts of audio.go,
-- privatedirs.go, instructions.go and worktree.go in internal/sandbox that it collects.
use muro.Base.{
  ◌==◌, Bool, true, false, ◌||◌, ◌&&◌, not, List, [], ◌∷◌, ◌++◌, Option, none, some, Bytes, codes,
  bytes_eq, if◌then◌else◌, map, split, trim_prefix,
}
use muro.Config.{Mount, GitRepoPolicy}
use muro.Config.Paths.{expand_home}
use muro.Config.Validate.{Profile, valid_sandbox_name}
use muro.State.Store.{WorktreeInfo}
use muro.Sandbox.Mounts.{resolve_mounts}
use muro.Sandbox.Urls.{clone_git_policy}
use muro.Sandbox.Manager.{
  Env, Manager, Action, Fields, FileKind, directory, socket, ◌>>=◌, ◌>>◌, pure, asks, emit,
  raise_if, some_or, make_dir, create_worktree, mounts_invalid, bundle_failed, audio_failed,
  private_failed, no_home, instructions_failed, skill_failed, worktree_failed,
}
use muro.Sandbox.Manager.Bridges.{below}
use muro.Sandbox.Manager.Launch.{passes, value_of}

-- filepath.Base
unfoldable pub last_part : Bytes → List Bytes → Bytes
last_part found [] = found
last_part found (p ∷ ps) = if bytes_eq p [] then last_part found ps else last_part p ps

abbrev pub base : Bytes → Bytes
base [] = codes "."
base (c ∷ path) = last_part (codes "/") (split b'/' (c ∷ path))

-- a name up to its last dot: strings.TrimSuffix of its filepath.Ext
unfoldable pub before_dot : Bytes → Option Bytes
before_dot [] = none
before_dot (c ∷ s) = elim (before_dot s) [
  | some t ↦ some (c ∷ t)
  | none ↦ if c == b'.' then some [] else none
]

abbrev pub without_ext : Bytes → Bytes
without_ext s = elim (before_dot s) [ some t ↦ t | none ↦ s ]

-- `privateDirsBase`
abbrev pub private_dirs_base : Bytes → Bytes → Bytes
private_dirs_base state_dir id = below state_dir (codes "sandboxes" ∷ id ∷ codes "private" ∷ [])

-- `worktreesBase` and `worktreeBranch`
abbrev pub worktrees_base : Bytes → Bytes → Bytes
worktrees_base state_dir id = below state_dir (codes "sandboxes" ∷ id ∷ codes "worktrees" ∷ [])

abbrev pub worktree_branch : Bytes → Bytes → Bytes
worktree_branch namespace name = codes "agent/" ++ (namespace ++ (codes "/" ++ name))

-- `effectiveRestartPolicy`
abbrev pub effective_restart_policy : Bytes → Bytes
effective_restart_policy policy = if bytes_eq policy [] then codes "never" else policy

abbrev pub is_directory : Option FileKind → Bool
is_directory (some directory) = true
is_directory _ = false

abbrev pub is_socket : Option FileKind → Bool
is_socket (some socket) = true
is_socket _ = false

abbrev pub is_file : Option FileKind → Bool
is_file none = false
is_file (some directory) = false
is_file (some _) = true

abbrev pub no_elements : {A : Type 0} → List A → Bool
no_elements [] = true
no_elements (x ∷ xs) = false

-- an entry of the bundle's directory other than profile.json
unfoldable pub has_docs : List Bytes → Bool
has_docs [] = false
has_docs (e ∷ es) = not (bytes_eq e (codes "profile.json")) || has_docs es

-- the results of `WorktreeMounts`
pub record Trees : Type 0 where
  pub mounts : List Mount
  pub repos : List GitRepoPolicy
  pub infos : List WorktreeInfo

abbrev pub rw_mount : Bytes → Bytes → Mount
rw_mount host path = record { host = host; sandbox_path = path; mode = codes "rw" }

abbrev pub ro_mount : Bytes → Bytes → Mount
ro_mount host path = record { host = host; sandbox_path = path; mode = codes "ro" }

-- what the loop of `WorktreeMounts` appends for a repository
unfoldable pub with_tree : Bytes → Bytes → Bytes → Bytes → GitRepoPolicy → Trees → Trees
with_tree branch base_branch repo_host tree repo rest = record {
  mounts = rw_mount tree repo.mount_path ∷ rest.mounts;
  repos =
      record {
        host = tree;
        allowed_branches = branch ∷ [];
        allowed_remotes = repo.allowed_remotes;
        worktree = false;
        mount_path = [];
      }
      ∷ rest.repos;
  infos =
      record {
        mount_path = repo.mount_path;
        host = tree;
        repo_host = repo_host;
        branch = branch;
        base_branch = base_branch;
      }
      ∷ rest.infos;
}

module _ (env : Env) where
  -- the loop of `AudioMounts`
  unfoldable pub sockets : List Bytes → Manager → List Mount
  sockets [] m = []
  sockets (path ∷ paths) m =
      let rest = sockets paths m in
      if is_socket (env.stat m.trace path) then rw_mount path path ∷ rest else rest

  -- `AudioMounts`
  unfoldable pub audio_mounts : Bytes → Action (List Mount)
  unfolding sockets
  audio_mounts dir = do
    raise_if (bytes_eq dir []) audio_failed
    mounts ← asks (
        sockets (
          below dir (codes "pipewire-0" ∷ [])
          ∷ below dir (codes "pulse" ∷ codes "native" ∷ [])
          ∷ []))
    raise_if (no_elements mounts) audio_failed
    pure mounts

  -- `PrivateDirMounts`
  unfoldable pub private_dir_mounts : Bytes → List Bytes → Action (List Mount)
  private_dir_mounts id [] = pure []
  private_dir_mounts id (path ∷ paths) = do
    let dir = below (private_dirs_base env.state_dir id) (trim_prefix path (codes "/") ∷ [])
    made ← asks λ m. env.makes_dir m.trace dir
    emit (make_dir dir)
    raise_if (not made) private_failed
    rest ← private_dir_mounts id paths
    pure (rw_mount dir path ∷ rest)

  -- `BundleDocsMounts` of a directory that was read
  unfoldable pub docs_mounts : Bytes → Manager → List Mount
  docs_mounts dir m =
      let entry = below dir (codes "AGENT.md" ∷ []) in
      rw_mount dir (codes "/agent")
      ∷ (if is_file (env.stat m.trace entry)
          then rw_mount entry (codes "/workspace/AGENTS.md") ∷ []
          else [])

  -- `BundleDocsMounts`, with `ProfileBundleDir` (internal/config/profile.go)
  unfoldable pub bundle_docs_mounts : Bytes → Action (List Mount)
  unfolding has_docs docs_mounts
  bundle_docs_mounts name = do
    raise_if (not (passes (valid_sandbox_name name))) bundle_failed
    profiles ← some_or env.profiles_dir bundle_failed
    let dir = below profiles (name ∷ [])
    entries ← asks λ m. env.read_dir m.trace dir
    elim entries [
      | none ↦ pure []
      | some es ↦ if has_docs es then asks (docs_mounts dir) else pure []
    ]

  -- `InstructionsMount`
  unfoldable pub instructions_mount : Bytes → Bytes → Action (List Mount)
  instructions_mount home [] = pure []
  instructions_mount home (c ∷ path) = do
    kind ← asks λ m. env.stat m.trace (c ∷ path)
    raise_if (not (is_file kind)) instructions_failed
    pure (ro_mount (c ∷ path) (below home (codes ".claude" ∷ codes "CLAUDE.md" ∷ [])) ∷ [])

  -- the body of the loop of `SkillMounts`, for a path that exists
  unfoldable pub skill_mount : Bytes → Bytes → Bool → Mount
  unfolding last_part before_dot
  skill_mount home path true =
      ro_mount path (below home (codes ".claude" ∷ codes "skills" ∷ base path ∷ []))
  skill_mount home path false = ro_mount path (
      below home
        (codes ".claude" ∷ codes "skills" ∷ without_ext (base path) ∷ codes "SKILL.md" ∷ []))

  -- `SkillMounts`
  unfoldable pub skill_mounts : Bytes → List Bytes → Action (List Mount)
  unfolding skill_mount
  skill_mounts home [] = pure []
  skill_mounts home (path ∷ paths) = do
    kind ← asks λ m. env.stat m.trace path
    found ← some_or kind skill_failed
    rest ← skill_mounts home paths
    pure (skill_mount home path (is_directory (some found)) ∷ rest)

  -- the part of the resolution for a profile with instructions or skills
  unfoldable pub guidance_mounts : Profile → Action (List Mount)
  unfolding instructions_mount skill_mounts
  guidance_mounts p = do
    home ← some_or env.home no_home
    instructions ← instructions_mount home (expand_home env.home p.instructions)
    skills ← skill_mounts home (map (expand_home env.home) p.skills)
    pure (instructions ++ skills)

  -- `WorktreeMounts`
  unfoldable pub worktree_mounts : Bytes → Bytes → List GitRepoPolicy → Action Trees
  unfolding with_tree last_part
  worktree_mounts id branch [] = pure (record { mounts = []; repos = []; infos = [] })
  worktree_mounts id branch (repo ∷ repos) =
      if repo.worktree
      then (do
        let repo_host = expand_home env.home repo.host
        let tree = below (worktrees_base env.state_dir id) (base repo.mount_path ∷ [])
        created ← asks λ m. env.creates_worktree m.trace repo_host tree branch
        emit (create_worktree repo_host tree branch)
        base_branch ← some_or created worktree_failed
        rest ← worktree_mounts id branch repos
        pure (with_tree branch base_branch repo_host tree repo rest))
      else worktree_mounts id branch repos

  -- the last part of the resolution
  unfoldable pub fields_of : Profile → List Mount → Trees → Fields
  fields_of p mounts trees = record {
    agent_args = p.agent_args;
    env = p.env;
    mounts = mounts ++ trees.mounts;
    tools = p.tools;
    allow_urls = p.allow_urls;
    restart_policy = effective_restart_policy p.restart_policy;
    git_policy = record { repos = (clone_git_policy env.home p.git).repos ++ trees.repos };
    audio = p.audio;
    private_dirs = p.private_dirs;
    worktrees = trees.infos;
    work_dir = p.work_dir;
    quiet_mode = p.quiet_mode;
  }

  -- `resolveSandboxFieldsFromProfile`
  unfoldable pub resolve_fields : Profile → Bytes → Bytes → Bytes → Action Fields
  unfolding bundle_docs_mounts audio_mounts private_dir_mounts guidance_mounts worktree_mounts
      fields_of
  resolve_fields p namespace name id = do
    own ←
        some_or (value_of (resolve_mounts env.home env.config_dir env.daemon_state_dir p))
          mounts_invalid
    docs ← bundle_docs_mounts p.name
    audio ← if p.audio then audio_mounts env.runtime_dir else pure []
    private ← private_dir_mounts id (map (expand_home env.home) p.private_dirs)
    guidance ←
        (if bytes_eq p.instructions [] && no_elements p.skills then pure [] else guidance_mounts p)
    trees ← worktree_mounts id (worktree_branch namespace name) p.git.repos
    pure (fields_of p (own ++ (docs ++ (audio ++ (private ++ guidance)))) trees)
