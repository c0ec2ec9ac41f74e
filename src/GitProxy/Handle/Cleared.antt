-- ===== src/GitProxy/Handle/Cleared.antt =====
-- The runs that `Handle` of internal/gitproxy/orchestrate.go makes, and the checks before them.
use muro.Base.{
  ◌≡◌, ◌≢◌, refl, sym, ap, ◌∙◌, ◌⊎◌, inl, inr, Bool, List, [], ◌∷◌, Option, none, some, Bytes,
  codes, bytes_eq, Result, ok, err, Any, arith,
}
use muro.Config.{Mount, GitRepoPolicy, GitPolicy}
use muro.GitProxy.Policy.{
  empty_invocation, Rejection, Request, resolve_repo, validate, validate_command,
}
use muro.GitProxy.Policy.Repo.{Granted, validate_command_iff, resolve_repo_stable}
use muro.GitProxy.Exec.{push_args_with_dry_run}
use muro.GitProxy.Handle.{
  Call, probe, command, Git, refused, crash, run_result, Verdict, rev_parse, branch_verdict,
  plan_verdict, run_command, gated, handle_commit, handle_push, dispatch, handle,
}
use muro.GitProxy.Handle.Verdicts.{PlanAllowed, BranchAllowed, plan_verdict→, branch_verdict→}

module _ (glob : Bytes → Bytes → Option Bool) where
  abbrev pub IsCommand : Call → Type 0
  IsCommand (probe host argv) = ⊥
  IsCommand (command host argv) = Unit

  module _ (git : Git) where
    gated→ :
        (v : Verdict) (host : Bytes) (argv rest : List Bytes)
        → Any IsCommand (gated glob git v (probe host argv) host rest).1
        → v ≡ none
    unfolding gated
    gated→ none host argv rest h = refl
    gated→ (some e) host argv rest (inl h) = absurd h
    gated→ (some e) host argv rest (inr h) = absurd h

    run_command_ne_crash :
        (calls : List Call) (host : Bytes) (argv : List Bytes)
        → (run_command glob git calls host argv).0 ≢ crash
    unfolding run_command run_result
    run_command_ne_crash calls host argv e = ground arith

    gated_ne_crash :
        (v : Verdict) (first : Call) (host : Bytes) (argv : List Bytes)
        → (gated glob git v first host argv).0 ≢ crash
    unfolding gated
    gated_ne_crash none first host argv e = run_command_ne_crash (first ∷ []) host argv e
    gated_ne_crash (some x) first host argv e = cc

    -- what the pre-flight checks of a subcommand have to show
    pub record Cleared (repo : GitRepoPolicy) (sub : Bytes) (argv : List Bytes) : Type 0 where
      pub on_commit :
          sub ≡ codes "commit"
          → BranchAllowed glob repo.allowed_branches (git [] (probe repo.host rev_parse))
      pub on_push :
          sub ≡ codes "push"
          → PlanAllowed glob repo.allowed_branches
              (git [] (probe repo.host (push_args_with_dry_run argv)))

    module _ (policy : GitPolicy) (repo : GitRepoPolicy) (argv : List Bytes)
        (found : resolve_repo repo.host policy.repos ≡ some repo) where
      commit_cleared :
          Any IsCommand (dispatch glob git policy argv repo.host (codes "commit")).1
          → BranchAllowed glob repo.allowed_branches (git [] (probe repo.host rev_parse))
      unfolding dispatch handle_commit bytes_eq
      commit_cleared h =
          branch_verdict→ glob repo.allowed_branches _
            (gated→ _ repo.host rev_parse argv (rw found at h))

      push_cleared :
          Any IsCommand (dispatch glob git policy argv repo.host (codes "push")).1
          → PlanAllowed glob repo.allowed_branches
              (git [] (probe repo.host (push_args_with_dry_run argv)))
      unfolding dispatch handle_push bytes_eq
      push_cleared h =
          plan_verdict→ glob repo.allowed_branches _
            (gated→ _ repo.host (push_args_with_dry_run argv) argv (rw found at h))

      dispatch→ :
          (sub : Bytes)
          → Any IsCommand (dispatch glob git policy argv repo.host sub).1
          → Cleared repo sub argv
      dispatch→ sub h = record {
        on_commit = λ e. commit_cleared (rw e at h);
        on_push = λ e. push_cleared (rw e at h);
      }

      -- the second look-up of the repository finds it, so there is no nil dereference
      no_crash : (sub : Bytes) → (dispatch glob git policy argv repo.host sub).0 ≢ crash
      unfolding dispatch handle_commit handle_push
      no_crash sub e = ground (
        arith,
        found,
        gated_ne_crash
            (branch_verdict glob repo.allowed_branches (git [] (probe repo.host rev_parse)))
            (probe repo.host rev_parse) repo.host argv,
        gated_ne_crash
            (plan_verdict glob repo.allowed_branches
              (git [] (probe repo.host (push_args_with_dry_run argv))))
            (probe repo.host (push_args_with_dry_run argv)) repo.host argv,
        run_command_ne_crash [] repo.host argv,
      )

    -- A request that ran, with the grant behind it.
    pub record Ran (req : Request) (mounts : List Mount) (policy : GitPolicy) (daemon : List Bytes)
        : Type 0 where
      pub repo : GitRepoPolicy
      pub sub : Bytes
      pub args : List Bytes
      pub split : req.argv ≡ sub ∷ args
      pub granted : Granted glob mounts policy daemon req.cwd sub args repo
      pub cleared : Cleared repo sub req.argv

    module _ (req : Request) (mounts : List Mount) (policy : GitPolicy) (daemon : List Bytes) where
      handle_ok :
          (sub : Bytes) (args : List Bytes) (repo : GitRepoPolicy) (out : Bytes)
          → req.argv ≡ sub ∷ args
          → validate_command glob mounts policy daemon req.cwd sub args ≡ ok (repo, out)
          → handle glob git req mounts policy daemon
            ≡ dispatch glob git policy req.argv repo.host out
      unfolding handle validate
      handle_ok sub args repo out e q = ground (arith, e, q)

      handle_err :
          (sub : Bytes) (args : List Bytes) (x : Rejection)
          → req.argv ≡ sub ∷ args
          → validate_command glob mounts policy daemon req.cwd sub args ≡ err x
          → handle glob git req mounts policy daemon ≡ (refused x, [])
      unfolding handle validate
      handle_err sub args x e q = ground (arith, e, q)

      handle_empty :
          req.argv ≡ [] → handle glob git req mounts policy daemon ≡ (refused empty_invocation, [])
      unfolding handle validate
      handle_empty e = ground (arith, e)

      -- a run that went through `Validate`, or a refusal that ran nothing
      handle-cases :
          ((x : Rejection) × (handle glob git req mounts policy daemon ≡ (refused x, [])))
          ⊎ ((sub : Bytes) × (args : List Bytes) × (repo : GitRepoPolicy) × (req.argv ≡ sub ∷ args)
              × Granted glob mounts policy daemon req.cwd sub args repo
              × (handle glob git req mounts policy daemon
                  ≡ dispatch glob git policy req.argv repo.host sub))
      handle-cases = by_argv req.argv refl
        where
          Split : Type 0
          Split =
              ((x : Rejection) × (handle glob git req mounts policy daemon ≡ (refused x, [])))
              ⊎ ((sub : Bytes) × (args : List Bytes) × (repo : GitRepoPolicy) × (req.argv
                    ≡ sub ∷ args)
                  × Granted glob mounts policy daemon req.cwd sub args repo
                  × (handle glob git req mounts policy daemon
                      ≡ dispatch glob git policy req.argv repo.host sub))

          by_result :
              (sub : Bytes) (args : List Bytes) (r : Result Rejection (GitRepoPolicy × Bytes))
              → req.argv ≡ sub ∷ args
              → validate_command glob mounts policy daemon req.cwd sub args ≡ r
              → Split
          by_result sub args (err x) e q = inl (x, handle_err sub args x e q)
          by_result sub args (ok (repo, out)) e q =
              let (g, same) =
                (validate_command_iff glob mounts policy daemon req.cwd sub args repo out).0 q in
              inr (
                sub,
                args,
                repo,
                e,
                g,
                handle_ok sub args repo out e q
                    ∙ ap (dispatch glob git policy req.argv repo.host) same,
              )

          by_argv : (argv : List Bytes) → req.argv ≡ argv → Split
          by_argv [] e = inl (empty_invocation, handle_empty e)
          by_argv (sub ∷ args) e =
              by_result sub args (validate_command glob mounts policy daemon req.cwd sub args) e
                refl

      -- When `Handle` has the host's git run a request, `Validate` let the request through, and its
      -- checks passed first: for a commit, that git reports an allowed current branch; for a push,
      -- that the dry run's plan updates allowed branches only, at least one and none rejected.
      pub handle-Ran :
          Any IsCommand (handle glob git req mounts policy daemon).1 → Ran req mounts policy daemon
      handle-Ran h = elim handle-cases [
        | inl (x, e) ↦ absurd (rw e at h)
        | inr (sub, args, repo, e, g, q) ↦ record {
          repo = repo;
          sub = sub;
          args = args;
          split = e;
          granted = g;
          cleared =
              dispatch→ policy repo req.argv
                (resolve_repo_stable g.host_cwd policy.repos repo g.configured) sub (rw q at h);
        }
      ]

      -- `Handle` dereferences no nil repository: its second `ResolveRepo` never comes up empty.
      pub handle-ne-crash : (handle glob git req mounts policy daemon).0 ≢ crash
      handle-ne-crash h = elim handle-cases [
        | inl (x, e) ↦ cc (ap (λ r. r.0) e)
        | inr (sub, args, repo, e, g, q) ↦
            no_crash policy repo req.argv
              (resolve_repo_stable g.host_cwd policy.repos repo g.configured) sub
              (ap (λ r. r.0) (sym q) ∙ h)
      ]
