-- ===== src/Sandbox/Manager/TreeTests.antt =====
-- A profile with a worktree.
use muro.Base.{
  true, none, [], ◌∷◌, codes, refl, ◌⊎◌, All, Any, bytes_eq, has_prefix, trim_prefix, split, each,
  in_set, contains, contains_byte,
}
use muro.Config.{GitRepoPolicy}
use muro.Config.Paths.{
  clean, parts, is_abs, path_covers_or_equals, expand_home, resolve, clean_step, join, pop,
}
use muro.Config.Validate.{
  Profile, validate_profile, tool_targets, check_writable, check_mount, mounted_at, check_dirs,
  check_repo, check_worktrees, valid_policy, valid_sandbox_name,
}
use muro.Sandbox.Mounts.{resolve_mounts, tool_mounts}
use muro.Sandbox.Urls.{clone_repos, clone_git_policy}
use muro.Sandbox.Manager.{Manager, Fields, ◌>>=◌, ◌>>◌}
use muro.Sandbox.Manager.Resolve.{
  Trees, with_tree, worktree_branch, worktree_mounts, fields_of, resolve_fields, last_part,
  bundle_docs_mounts, private_dir_mounts,
}
use muro.Sandbox.Manager.Frame.{after}
use muro.Sandbox.Manager.Runs.{Ran}
use muro.Sandbox.Manager.Reach.{new_manager}
use muro.Sandbox.Manager.Host.{host, profile, no_json}
use muro.Sandbox.Manager.Owned.{Copied, Treed, resolve_fields-Owned}
use muro.State.Store.{new_store}

abbrev tree_repo : GitRepoPolicy
tree_repo = record {
  host = codes "/srv/r";
  allowed_branches = [];
  allowed_remotes = codes "origin" ∷ [];
  worktree = true;
  mount_path = codes "/w/r";
}

abbrev with_repo : Profile
with_repo = record profile { git = record { repos = tree_repo ∷ [] } }

abbrev quiet : Manager
quiet = new_manager (new_store no_json none)

abbrev trees : Trees
trees =
    with_tree (worktree_branch (codes "n") (codes "a")) (codes "main") (codes "/srv/r")
      (codes "sandboxes/id/worktrees/r") tree_repo (record { mounts = []; repos = []; infos = [] })

abbrev resolved : Fields
resolved = fields_of host with_repo [] trees

resolved_run :
    Ran
      (resolve_fields host with_repo (codes "n") (codes "a") (codes "id"))
      quiet
      resolved
      (after (resolve_fields host with_repo (codes "n") (codes "a") (codes "id")) quiet)
unfolding resolve_fields bundle_docs_mounts private_dir_mounts worktree_mounts fields_of with_tree
    ◌>>=◌ ◌>>◌ resolve_mounts tool_mounts validate_profile tool_targets check_writable check_mount
    mounted_at check_dirs check_repo check_worktrees valid_policy valid_sandbox_name
    path_covers_or_equals expand_home clean parts resolve clean_step is_abs join pop bytes_eq
    has_prefix trim_prefix split in_set each contains contains_byte last_part clone_git_policy
    clone_repos
resolved_run = refl

resolve_fields-Owned_example :
    All
      (λ r.
        Any (λ q. Copied host.home q r) (tree_repo ∷ [])
        ⊎ Treed (worktree_branch (codes "n") (codes "a")) resolved.mounts resolved.worktrees r)
      resolved.git_policy.repos
resolve_fields-Owned_example =
    resolve_fields-Owned host with_repo (codes "n") (codes "a") (codes "id") quiet resolved
      (after (resolve_fields host with_repo (codes "n") (codes "a") (codes "id")) quiet)
      resolved_run
