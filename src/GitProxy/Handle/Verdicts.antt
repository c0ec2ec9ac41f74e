-- ===== src/GitProxy/Handle/Verdicts.antt =====
-- What a go-ahead of the pre-flight checks of internal/gitproxy/exec.go shows.
use muro.Base.{
  ◌≡◌, ◌≢◌, refl, ap, Bool, List, [], ◌∷◌, Option, none, some, Bytes, codes, bytes_eq_iff,
  trim_prefix, Result, ok, err, All, arith,
}
use muro.GitProxy.Policy.Grammar.{MatchesAny, matches_any_iff}
use muro.GitProxy.Exec.{
  Failure, RefUpdate, trim_space, parse_push_porcelain, check_updates, check_push_plan,
  check_branch,
}
use muro.GitProxy.Handle.{Output, branch_verdict, plan_verdict}

module _ (glob : Bytes → Bytes → Option Bool) where
  -- an update that git would make, to an allowed branch
  abbrev pub IsAllowed : List Bytes → RefUpdate → Type 0
  IsAllowed allowed u =
      (u.flag ≢ codes "!") × MatchesAny glob allowed (trim_prefix u.to (codes "refs/heads/"))

  check_updates→ :
      (allowed : List Bytes) (us : List RefUpdate)
      → check_updates glob allowed us ≡ none
      → All (IsAllowed allowed) us
  unfolding check_updates
  check_updates→ allowed [] h = tt
  check_updates→ allowed (u ∷ us) h = (
    (
      λ e. ground (arith, bytes_eq_iff u.flag (codes "!")),
      (matches_any_iff glob allowed (trim_prefix u.to (codes "refs/heads/"))).0 (ground arith),
    ),
    check_updates→ allowed us (ground arith),
  )

  -- A dry run that ended well, with a plan of allowed updates and at least one.
  pub record PlanAllowed (allowed : List Bytes) (out : Option Output) : Type 0 where
    pub stdout : Bytes
    pub stderr : Bytes
    pub ended_well : out ≡ some (stdout, stderr, 0)
    pub updates : List RefUpdate
    pub parsed : parse_push_porcelain stdout ≡ ok updates
    pub some_update : updates ≢ []
    pub all_allowed : All (IsAllowed allowed) updates

  pub plan_verdict→ :
      (allowed : List Bytes) (out : Option Output)
      → plan_verdict glob allowed out ≡ none
      → PlanAllowed allowed out
  unfolding plan_verdict
  plan_verdict→ allowed none h = absurd (ground arith)
  plan_verdict→ allowed (some (stdout, stderr, code)) h =
      parsed_as (parse_push_porcelain stdout) refl
    where
      plan :
          (us : List RefUpdate)
          → check_push_plan glob allowed us ≡ none
          → (us ≢ []) × All (IsAllowed allowed) us
      plan [] k = unfold check_push_plan in absurd (ground arith)
      plan (u ∷ us) k = (λ e. cc, check_updates→ allowed (u ∷ us) (unfold check_push_plan in k))

      parsed_as :
          (r : Result Failure (List RefUpdate))
          → parse_push_porcelain stdout ≡ r
          → PlanAllowed allowed (some (stdout, stderr, code))
      parsed_as (err e) q = absurd (ground arith)
      parsed_as (ok us) q =
          let z : code ≡ 0 = ground arith in
          let (ne, a) = plan us (ground arith) in
          record {
            stdout = stdout;
            stderr = stderr;
            ended_well = ap (λ c. some (stdout, stderr, c)) z;
            updates = us;
            parsed = q;
            some_update = ne;
            all_allowed = a;
          }

  -- The current branch, as git names it, is allowed.
  pub record BranchAllowed (allowed : List Bytes) (out : Option Output) : Type 0 where
    pub stdout : Bytes
    pub stderr : Bytes
    pub ended_well : out ≡ some (stdout, stderr, 0)
    pub not_empty : trim_space stdout ≢ []
    pub not_detached : trim_space stdout ≢ codes "HEAD"
    pub allowed_branch : MatchesAny glob allowed (trim_space stdout)

  branch→ :
      (allowed : List Bytes) (stdout : Bytes)
      → check_branch glob allowed stdout ≡ none
      → (trim_space stdout ≢ [])
        × (trim_space stdout ≢ codes "HEAD")
        × MatchesAny glob allowed (trim_space stdout)
  unfolding check_branch
  branch→ allowed stdout k = (
    λ e. ground (arith, bytes_eq_iff (trim_space stdout) []),
    λ e. ground (arith, bytes_eq_iff (trim_space stdout) (codes "HEAD")),
    (matches_any_iff glob allowed (trim_space stdout)).0 (ground arith),
  )

  pub branch_verdict→ :
      (allowed : List Bytes) (out : Option Output)
      → branch_verdict glob allowed out ≡ none
      → BranchAllowed allowed out
  unfolding branch_verdict
  branch_verdict→ allowed none h = absurd (ground arith)
  branch_verdict→ allowed (some (stdout, stderr, code)) h =
      let z : code ≡ 0 = ground arith in
      let (a, b, m) = branch→ allowed stdout (ground arith) in
      record {
        stdout = stdout;
        stderr = stderr;
        ended_well = ap (λ c. some (stdout, stderr, c)) z;
        not_empty = a;
        not_detached = b;
        allowed_branch = m;
      }
