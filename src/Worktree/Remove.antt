-- ===== src/Worktree/Remove.antt =====
-- internal/worktree/worktree.go: what `Prune` and `Discard` leave.
use muro.Base.{◌≡◌, ◌⊎◌, inl, inr, refl, Bool, ◌∷◌, none, subst, sym, Bytes}
use muro.Worktree.Git.{
  ran, removed, Trace, Host, Fault, launch_failed, git_failed, Result, ok, err, Action, ◌>>◌,
  base_branch_sidecar_path, remove_args, delete_args, run_git, succeeded, must,
}
use muro.Worktree.Operations.{remove}
use muro.Worktree.Runs.{Succeeds, Fails, Output-cases}

module _ (host : Host) (repo worktree branch : Bytes) (force : Bool) (t : Trace) where
  abbrev pub unlinked : Trace
  unlinked = ran repo (remove_args force worktree) ∷ t

  abbrev pub deleted : Trace
  deleted = ran repo (delete_args branch) ∷ unlinked

  -- the worktree could not be removed, and nothing else was tried
  abbrev pub Kept : Result (Unit {0}) × Trace → Type 0
  Kept (r, t') =
      ((e : Fault) × (r ≡ err e))
      × ((host.git t repo (remove_args force worktree) ≡ none)
          ⊎ Fails (host.git t repo (remove_args force worktree)))
      × (t' ≡ unlinked)

  -- the end of the branch and of the file
  abbrev delete_part : Action (Unit {0})
  delete_part = do
    must host repo (delete_args branch)
    λ t. (ok tt, removed (base_branch_sidecar_path worktree) ∷ t)

  -- the worktree is removed
  abbrev pub Gone : Result (Unit {0}) × Trace → Type 0
  Gone (r, t') =
      ((s : Bytes) × Succeeds (host.git t repo (remove_args force worktree)) s)
      × ((((e : Fault) × (r ≡ err e))
            × ((host.git unlinked repo (delete_args branch) ≡ none)
                ⊎ Fails (host.git unlinked repo (delete_args branch)))
            × (t' ≡ deleted))
          ⊎ ((r ≡ ok tt)
              × ((s : Bytes) × Succeeds (host.git unlinked repo (delete_args branch)) s)
              × (t' ≡ removed (base_branch_sidecar_path worktree) ∷ deleted)))

  delete_end :
      (s : Bytes) × Succeeds (host.git t repo (remove_args force worktree)) s
      → Gone (delete_part unlinked)
  unfolding must run_git succeeded
  delete_end x = elim (Output-cases (host.git unlinked repo (delete_args branch))) [
    | inl n ↦ (x, inl ((launch_failed, rw (n, succeeded) refl), inl n, rw (n, succeeded) refl))
    | inr (inr f) ↦ (
      x,
      inl (
        (git_failed, rw (f.ran_git, succeeded) (rw f.exit_other refl)),
        inr f,
        rw (f.ran_git, succeeded) (rw f.exit_other refl),
      ),
    )
    | inr (inl (s, p)) ↦ (
      x,
      inr (
        rw (p.ran_git, succeeded) (rw p.exit_zero refl),
        (s, p),
        rw (p.ran_git, succeeded) (rw p.exit_zero refl),
      ),
    )
  ]

  -- The branch of a worktree is deleted only after git removed the worktree, and the file beside it only
  -- after that, by force or not. A result without error means that all three are done; the first run
  -- that fails or cannot be made is the last, and gives an error.
  pub remove_lem :
      Kept (remove host repo worktree branch force t)
      ⊎ Gone (remove host repo worktree branch force t)
  unfolding remove must run_git succeeded
  remove_lem = elim (Output-cases (host.git t repo (remove_args force worktree))) [
    | inl n ↦ inl ((launch_failed, rw (n, succeeded) refl), inl n, rw (n, succeeded) refl)
    | inr (inr f) ↦ inl (
      (git_failed, rw (f.ran_git, succeeded) (rw f.exit_other refl)),
      inr f,
      rw (f.ran_git, succeeded) (rw f.exit_other refl),
    )
    | inr (inl (s, p)) ↦
        let e : remove host repo worktree branch force t ≡ delete_part unlinked =
          rw (p.ran_git, succeeded) (rw p.exit_zero refl) in
        inr (subst Gone (sym e) (delete_end (s, p)))
  ]
