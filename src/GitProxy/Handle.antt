-- ===== src/GitProxy/Handle.antt =====
-- internal/gitproxy/orchestrate.go: what `Handle` runs for a request. `git` stands for the host's
-- git: what a run in a repository with an argv gives, `none` being a launch failure. It is given
-- the runs made before, so that no run has to give the same as an earlier one.
pub mod Verdicts
pub mod Cleared
use muro.Base.{
  ℕ, Bool, true, false, not, List, [], ◌∷◌, ◌++◌, Option, none, some, Bytes, codes, bytes_eq, ◌==◌,
  if◌then◌else◌, Result, ok, err,
}
use muro.Config.{Mount, GitRepoPolicy, GitPolicy}
use muro.GitProxy.Policy.{Rejection, Request, resolve_repo, validate}
use muro.GitProxy.Exec.{
  Failure, launch_failed, nonzero_exit, RefUpdate, parse_push_porcelain, push_args_with_dry_run,
  check_push_plan, check_branch,
}

-- A call of `RunGit`: a pre-flight run, or the run of the request itself.
pub data Call : Type 0 where
  probe : Bytes → List Bytes → Call
  command : Bytes → List Bytes → Call

-- stdout, stderr and exit code; a code is 0 or not, so -1 is any other number
abbrev pub Output : Type 0
Output = Bytes × Bytes × ℕ

abbrev pub Git : Type 0
Git = List Call → Call → Option Output

-- `Result`, with the reason in place of its message. `crash` is the nil dereference that would
-- follow a second `ResolveRepo` finding nothing.
pub data Outcome : Type 0 where
  done : Output → Outcome
  refused : Rejection → Outcome
  failed : Failure → Outcome
  crash : Outcome

-- `runResult`
unfoldable pub run_result : Option Output → Outcome
run_result none = failed launch_failed
run_result (some out) = done out

-- what a probe says: `none` is a go-ahead
abbrev pub Verdict : Type 0
Verdict = Option Failure

abbrev pub rev_parse : List Bytes
rev_parse = codes "rev-parse" ∷ codes "--abbrev-ref" ∷ codes "HEAD" ∷ []

module _ (glob : Bytes → Bytes → Option Bool) where
  -- `CheckCurrentBranch` after its run of git
  unfoldable pub branch_verdict : List Bytes → Option Output → Verdict
  branch_verdict allowed none = some launch_failed
  branch_verdict allowed (some (stdout, stderr, exit_code)) =
      if not (exit_code == 0) then some nonzero_exit else check_branch glob allowed stdout

  -- the push branch of `Handle` between the dry run and the push
  unfoldable pub plan_verdict : List Bytes → Option Output → Verdict
  plan_verdict allowed none = some launch_failed
  plan_verdict allowed (some (stdout, stderr, exit_code)) =
      if not (exit_code == 0) then some nonzero_exit else elim (parse_push_porcelain stdout) [
        | err e ↦ some e
        | ok updates ↦ check_push_plan glob allowed updates
      ]

  module _ (git : Git) where
    -- the run of the request, after the runs in `calls`
    unfoldable pub run_command : List Call → Bytes → List Bytes → Outcome × List Call
    run_command calls host_repo argv =
        (run_result (git calls (command host_repo argv)), calls ++ command host_repo argv ∷ [])

    unfoldable pub gated : Verdict → Call → Bytes → List Bytes → Outcome × List Call
    unfolding run_command
    gated none first host_repo argv = run_command (first ∷ []) host_repo argv
    gated (some e) first host_repo argv = (failed e, first ∷ [])

    unfoldable pub handle_commit : Option GitRepoPolicy → Bytes → List Bytes → Outcome × List Call
    handle_commit none host_repo argv = (crash, [])
    handle_commit (some repo) host_repo argv =
        let first = probe host_repo rev_parse in
        gated (branch_verdict repo.allowed_branches (git [] first)) first host_repo argv

    unfoldable pub handle_push : Option GitRepoPolicy → Bytes → List Bytes → Outcome × List Call
    handle_push none host_repo argv = (crash, [])
    handle_push (some repo) host_repo argv =
        let first = probe host_repo (push_args_with_dry_run argv) in
        gated (plan_verdict repo.allowed_branches (git [] first)) first host_repo argv

    -- the `switch` of `Handle`
    unfoldable pub dispatch : GitPolicy → List Bytes → Bytes → Bytes → Outcome × List Call
    unfolding run_command
    dispatch policy argv host_repo subcommand =
        if bytes_eq subcommand (codes "commit")
        then handle_commit (resolve_repo host_repo policy.repos) host_repo argv
        else if bytes_eq subcommand (codes "push")
        then handle_push (resolve_repo host_repo policy.repos) host_repo argv
        else run_command [] host_repo argv

    -- `Handle`
    unfoldable pub handle : Request → List Mount → GitPolicy → List Bytes → Outcome × List Call
    handle req mounts policy daemon = elim (validate glob req mounts policy daemon) [
      | err e ↦ (refused e, [])
      | ok (host_repo, subcommand) ↦ dispatch policy req.argv host_repo subcommand
    ]
