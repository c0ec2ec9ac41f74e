-- ===== src/Worktree/Merge.antt =====
-- internal/worktree/worktree.go: how `SquashMerge` ends.
use muro.Base.{
  ◌≡◌, ◌≢◌, ◌⊎◌, inl, inr, refl, Bool, true, false, not, ◌||◌, [], ◌∷◌, none, Bytes, codes,
  bytes_eq, bytes_eq_iff, if◌then◌else◌, Bool-cases, arith, subst, sym,
}
use muro.GitProxy.Exec.{trim_space}
use muro.Worktree.Git.{
  ran, Trace, Host, Fault, launch_failed, git_failed, conflict, conflict_left, uncommitted,
  no_message, wrong_branch, detached_head, commit_failed, commit_left, Result, ok, err, Action,
  pure, ◌>>=◌, ◌>>◌, raise_if, head_args, status_args, reset_args, merge_args, commit_args,
  tip_args, run_git, succeeded, must,
}
use muro.Worktree.Runs.{Succeeds, Fails, Output-cases}
use muro.Worktree.Operations.{
  current_branch, is_clean, reset_hard, roll_back, attempted, squash_merge,
}

module _ (host : Host) (repo branch base message : Bytes) (t : Trace) where
  abbrev probed : Trace
  probed = ran repo status_args ∷ ran repo head_args ∷ t

  abbrev merging : Trace
  merging = ran repo (merge_args branch) ∷ probed

  abbrev committing : Trace
  committing = ran repo (commit_args message) ∷ merging

  -- the working tree was found clean, and there is a message
  pub record Clean : Type 0 where
    pub status : Bytes
    pub status_read : Succeeds (host.git (ran repo head_args ∷ t) repo status_args) status
    pub is_blank : trim_space status ≡ []
    pub has_message : message ≢ []

  -- what has to hold before the repository is touched
  pub record Ready : Type 0 where
    pub head : Bytes
    pub head_read : Succeeds (host.git t repo head_args) head
    pub on_base : trim_space head ≡ base
    pub tree : Clean

  abbrev pub IsError : Result Bytes → Type 0
  IsError r = (e : Fault) × (r ≡ err e)

  -- an error with nothing run but the two questions
  abbrev pub Untouched : Result Bytes × Trace → Type 0
  Untouched (r, t') = IsError r × ((t' ≡ ran repo head_args ∷ t) ⊎ (t' ≡ probed))

  -- an error for want of git, with nothing undone
  abbrev pub Abandoned : Result Bytes × Trace → Type 0
  Abandoned (r, t') =
      (r ≡ err launch_failed)
      × (((host.git probed repo (merge_args branch) ≡ none) × (t' ≡ merging))
          ⊎ ((host.git merging repo (commit_args message) ≡ none) × (t' ≡ committing)))

  -- an error of the merge or of the commit, after which the last run is the reset
  abbrev pub RolledBack : Result Bytes × Trace → Type 0
  RolledBack (r, t') =
      IsError r
      × ((Fails (host.git probed repo (merge_args branch)) × (t' ≡ ran repo reset_args ∷ merging))
          ⊎ (Fails (host.git merging repo (commit_args message))
              × (t' ≡ ran repo reset_args ∷ committing)))

  -- The commit was made. The result is its hash if the last run gives one.
  abbrev pub Committed : Result Bytes × Trace → Type 0
  Committed (r, t') =
      ((s : Bytes) × Succeeds (host.git probed repo (merge_args branch)) s)
      × ((s : Bytes) × Succeeds (host.git merging repo (commit_args message)) s)
      × (t' ≡ ran repo tip_args ∷ committing)
      × (((s : Bytes) × Succeeds (host.git committing repo tip_args) s × (r ≡ ok (trim_space s)))
          ⊎ IsError r)

  abbrev pub Finished : Result Bytes × Trace → Type 0
  Finished e = Abandoned e ⊎ (RolledBack e ⊎ Committed e)

  abbrev pub Ended : Result Bytes × Trace → Type 0
  Ended e = Untouched e ⊎ (Ready × Finished e)

  -- after the commit
  tip_end :
      (x : (s : Bytes) × Succeeds (host.git probed repo (merge_args branch)) s)
      (y : (s : Bytes) × Succeeds (host.git merging repo (commit_args message)) s)
      → Committed ((must host repo tip_args >>= λ s. pure (trim_space s)) committing)
  unfolding must run_git succeeded
  tip_end x y = elim (Output-cases (host.git committing repo tip_args)) [
    | inl n ↦ (x, y, rw (n, succeeded) refl, inr (launch_failed, rw (n, succeeded) refl))
    | inr (inl (s, p)) ↦ (
      x,
      y,
      rw (p.ran_git, succeeded) (rw p.exit_zero refl),
      inl (s, p, rw (p.ran_git, succeeded) (rw (p.exit_zero, p.its_stdout) refl)),
    )
    | inr (inr f) ↦ (
      x,
      y,
      rw (f.ran_git, succeeded) (rw f.exit_other refl),
      inr (git_failed, rw (f.ran_git, succeeded) (rw f.exit_other refl)),
    )
  ]

  either-IsError : (c : Bool) (a b : Fault) → IsError (if c then err a else err b)
  either-IsError true a b = (a, refl)
  either-IsError false a b = (b, refl)

  -- after the merge
  abbrev commit_part : Action Bytes
  commit_part = do
    commit ← run_git host repo (commit_args message)
    attempted host repo commit_failed commit_left commit
        do stdout ← must host repo tip_args; pure (trim_space stdout)

  commit_end :
      (s : Bytes) × Succeeds (host.git probed repo (merge_args branch)) s
      → Finished (commit_part merging)
  unfolding run_git attempted roll_back reset_hard
  commit_end x = elim (Output-cases (host.git merging repo (commit_args message))) [
    | inl n ↦ inl (rw (n, attempted) refl, inr (n, rw (n, attempted) refl))
    | inr (inl (s, p)) ↦
        let e : commit_part merging
            ≡ (must host repo tip_args >>= λ stdout. pure (trim_space stdout)) committing =
          rw (p.ran_git, attempted) (rw p.exit_zero refl) in
        inr (inr (subst Committed (sym e) (tip_end x (s, p))))
    | inr (inr f) ↦ inr (
        inl (
          rw (f.ran_git, attempted) (rw f.exit_other (either-IsError _ _ _)),
          inr (f, rw (f.ran_git, attempted) (rw f.exit_other refl)),
        ))
  ]

  abbrev merge_part : Action Bytes
  merge_part = do
    merge ← run_git host repo (merge_args branch)
    attempted host repo conflict conflict_left merge commit_part

  merge_end : Finished (merge_part probed)
  unfolding run_git attempted roll_back reset_hard
  merge_end = elim (Output-cases (host.git probed repo (merge_args branch))) [
    | inl n ↦ inl (rw (n, attempted) refl, inl (n, rw (n, attempted) refl))
    | inr (inl (s, p)) ↦
        let e : merge_part probed ≡ commit_part merging =
          rw (p.ran_git, attempted) (rw p.exit_zero refl) in
        subst Finished (sym e) (commit_end (s, p))
    | inr (inr f) ↦ inr (
        inl (
          rw (f.ran_git, attempted) (rw f.exit_other (either-IsError _ _ _)),
          inl (f, rw (f.ran_git, attempted) (rw f.exit_other refl)),
        ))
  ]

  -- the part before the merge
  abbrev rest_part : Action Bytes
  rest_part = do
    clean ← is_clean host repo
    raise_if (not clean) uncommitted
    raise_if (bytes_eq message []) no_message
    merge_part

  abbrev asked : Trace
  asked = ran repo head_args ∷ t

  unclean : (e : Fault) → rest_part asked ≡ (err e, probed) → Untouched (rest_part asked)
  unclean e q = rw q ((e, refl), inr refl)

  rest_end : Untouched (rest_part asked) ⊎ (Clean × Finished (rest_part asked))
  unfolding is_clean must run_git succeeded
  rest_end = elim (Output-cases (host.git asked repo status_args)) [
    | inl n ↦ inl (unclean launch_failed (rw (n, succeeded) refl))
    | inr (inr f) ↦ inl (unclean git_failed (rw (f.ran_git, succeeded) (rw f.exit_other refl)))
    | inr (inl (s, p)) ↦ elim (Bool-cases (bytes_eq (trim_space s) [])) [
      | inr d ↦ inl (
          unclean uncommitted
            (rw (p.ran_git, succeeded) (rw p.exit_zero (rw (p.its_stdout, d) refl))))
      | inl c ↦ elim (Bool-cases (bytes_eq message [])) [
        | inl m ↦ inl (
            unclean no_message
              (rw (p.ran_git, succeeded) (rw p.exit_zero (rw (p.its_stdout, c, m) refl))))
        | inr m ↦
            let e : rest_part asked ≡ merge_part probed =
              rw (p.ran_git, succeeded) (rw p.exit_zero (rw (p.its_stdout, c, m) refl)) in
            inr (
              record {
                status = s;
                status_read = p;
                is_blank = (bytes_eq_iff (trim_space s) []).0 c;
                has_message = λ q. absurd (ground (arith, bytes_eq_iff message []));
              },
              subst Finished (sym e) merge_end,
            )
      ]
    ]
  ]

  -- the branch that was read, before the two tests of it
  abbrev head_part : Bytes → Action Bytes
  head_part cur = do
    raise_if (bytes_eq cur [] || bytes_eq cur (codes "HEAD")) detached_head
    raise_if (not (bytes_eq cur base)) wrong_branch
    rest_part

  off_base : (e : Fault) (r : Result Bytes × Trace) → r ≡ (err e, asked) → Ended r
  off_base e r q = inl (rw q ((e, refl), inl refl))

  head_end :
      (s : Bytes) → Succeeds (host.git t repo head_args) s → Ended (head_part (trim_space s) asked)
  head_end s p =
      let cur = trim_space s in
      elim (Bool-cases (bytes_eq cur [] || bytes_eq cur (codes "HEAD"))) [
        | inl d ↦ off_base detached_head _ (rw d refl)
        | inr a ↦ elim (Bool-cases (bytes_eq cur base)) [
          | inr w ↦ off_base wrong_branch _ (rw (a, w) refl)
          | inl b ↦
              let e : head_part cur asked ≡ rest_part asked = rw (a, b) refl in
              subst Ended (sym e) (elim rest_end [
                | inl u ↦ inl u
                | inr (c, f) ↦ inr (
                  record {
                    head = s;
                    head_read = p;
                    on_base = (bytes_eq_iff cur base).0 b;
                    tree = c;
                  },
                  f,
                )
              ])
        ]
      ]

  -- Every squash merge ends in one of four ways. It is refused after nothing but its two questions. Or
  -- the repository stood on the base branch, its tree was clean and the message is not empty, and then:
  -- git could not be run for the merge or the commit, and nothing is undone; or one of these runs
  -- failed, and the last run of all is the reset; or both succeeded in that order, and the result is
  -- the hash that the last run gives, or an error if that run fails.
  pub squash_merge_lem : Ended (squash_merge host repo branch base message t)
  unfolding squash_merge current_branch must run_git succeeded
  squash_merge_lem = elim (Output-cases (host.git t repo head_args)) [
    | inl n ↦ off_base launch_failed _ (rw (n, succeeded) refl)
    | inr (inr f) ↦ off_base git_failed _ (rw (f.ran_git, succeeded) (rw f.exit_other refl))
    | inr (inl (s, p)) ↦
        let e : squash_merge host repo branch base message t ≡ head_part (trim_space s) asked =
          rw (p.ran_git, succeeded)
            (rw p.exit_zero (
              rw p.its_stdout
                (elim (Bool-cases
                  (bytes_eq (trim_space s) [] || bytes_eq (trim_space s) (codes "HEAD"))) [
                    | inl d ↦ rw d refl
                    | inr d ↦ rw d refl
                  ]))) in
        subst Ended (sym e) (head_end s p)
  ]
