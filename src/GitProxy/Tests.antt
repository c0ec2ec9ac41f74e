-- ===== src/GitProxy/Tests.antt =====
-- The git tool-proxy on a sandbox with one mount and one repository.
use muro.Base.{
  Bool, true, false, List, [], ◌∷◌, Option, none, some, Bytes, codes, bytes_eq, has_prefix,
  trim_prefix, split, cut, contains_byte, refl, ◌≡◌, ◌↔◌, inl, inr, Any, ok,
}
use muro.Config.{Mount, GitRepoPolicy, GitPolicy}
use muro.Config.Paths.{clean, parts, resolve, clean_step, is_abs, join, pop, path_covers_or_equals}
use muro.GitProxy.Policy.{
  Request, lies_in, is_longer, better, best_mount, host_path, translate_cwd, first_repo,
  resolve_repo, contains_string, check_commit, check_args, check_push, push_dest_branch, is_flag,
  matches_any, validate_command, validate,
}
use muro.GitProxy.Policy.Cwd.{translate_cwd_inside}
use muro.GitProxy.Policy.Grammar.{Permitted, check_args_iff}
use muro.GitProxy.Policy.Repo.{Granted, validate_command_iff}
use muro.GitProxy.Exec.{RefUpdate, trim_space, trim_left, trim_right, is_space, check_branch}
use muro.GitProxy.Exec.Porcelain.{line_of, IsPlain}
use muro.GitProxy.Handle.{Git, branch_verdict, run_command, gated, handle_commit, dispatch, handle}
use muro.GitProxy.Handle.Cleared.{Ran, handle-Ran}

-- a matcher that knows no wildcards
abbrev equal : Bytes → Bytes → Option Bool
equal pattern s = some (bytes_eq pattern s)

abbrev app : Mount
app = record { host = codes "/home/u/app"; sandbox_path = codes "/workspace"; mode = codes "rw" }

abbrev app_repo : GitRepoPolicy
app_repo = record {
  host = codes "/home/u/app";
  allowed_branches = codes "agent/x" ∷ [];
  allowed_remotes = codes "origin" ∷ [];
  worktree = false;
  mount_path = [];
}

abbrev policy : GitPolicy
policy = record { repos = app_repo ∷ [] }

abbrev daemon : List Bytes
daemon = codes "commit" ∷ codes "push" ∷ []

abbrev commit : Request
commit = record {
  argv = codes "commit" ∷ codes "-m" ∷ codes "fix" ∷ [];
  cwd = codes "/workspace/src/..";
}

-- a git on the branch agent/x
abbrev on_branch : Git
on_branch before call = some (codes "agent/x", [], 0)

handle-Ran_example : Ran equal on_branch commit (app ∷ []) policy daemon
unfolding handle validate validate_command dispatch handle_commit gated run_command branch_verdict
    matches_any check_args check_commit contains_string translate_cwd best_mount better is_longer
    lies_in host_path resolve_repo first_repo clean parts resolve clean_step is_abs join pop
    bytes_eq has_prefix trim_prefix split trim_space trim_left trim_right is_space check_branch
handle-Ran_example = handle-Ran equal on_branch commit (app ∷ []) policy daemon (inr (inl tt))

validate_command_iff_example :
    (validate_command equal
        (app ∷ [])
        policy
        daemon
        (codes "/workspace")
        (codes "push")
        (codes "origin" ∷ codes "agent/x" ∷ [])
      ≡ ok (app_repo, codes "push"))
    ↔ (Granted equal
          (app ∷ [])
          policy
          daemon
          (codes "/workspace")
          (codes "push")
          (codes "origin" ∷ codes "agent/x" ∷ [])
          app_repo
        × (codes "push" ≡ codes "push"))
validate_command_iff_example =
    validate_command_iff equal (app ∷ []) policy daemon (codes "/workspace") (codes "push")
      (codes "origin" ∷ codes "agent/x" ∷ []) app_repo (codes "push")

-- a forced push to an allowed branch
forced_push :
    check_args equal app_repo (codes "push") (codes "origin" ∷ codes "+x:agent/x" ∷ []) ≡ none
unfolding check_args check_push push_dest_branch matches_any contains_string bytes_eq is_flag cut
    has_prefix trim_prefix
forced_push = refl

check_args_iff_example :
    (check_args equal app_repo (codes "push") (codes "origin" ∷ codes "agent/x" ∷ []) ≡ none)
    ↔ Permitted equal app_repo (codes "push") (codes "origin" ∷ codes "agent/x" ∷ [])
check_args_iff_example =
    check_args_iff equal app_repo (codes "push") (codes "origin" ∷ codes "agent/x" ∷ [])

translate_cwd_inside_example :
    Any (λ m. path_covers_or_equals m.host (codes "/home/u/app/src") ≡ true) (app ∷ [])
unfolding translate_cwd best_mount better is_longer lies_in host_path clean parts resolve clean_step
    is_abs join pop bytes_eq has_prefix trim_prefix split
translate_cwd_inside_example =
    translate_cwd_inside (app ∷ []) (codes "/workspace/x/../src") (codes "/home/u/app/src")
      ((refl, refl), tt) refl

abbrev update : RefUpdate
update = record {
  flag = codes " ";
  from = codes "refs/heads/a";
  to = codes "refs/heads/b";
  summary = codes "1..2";
}

update-IsPlain : IsPlain update
unfolding line_of contains_byte
update-IsPlain = record {
  mark = b' ';
  one_byte = refl;
  flag_tab = refl;
  from_tab = refl;
  from_colon = refl;
  to_tab = refl;
  no_newline = refl;
  no_return = refl;
}
