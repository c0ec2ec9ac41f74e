-- ===== src/Worktree/Runs.antt =====
-- internal/worktree/worktree.go: how a run of git ends.
use muro.Base.{◌≡◌, ◌⊎◌, inl, inr, refl, true, false, Option, none, some, Bytes, ◌==◌, Bool-cases}
use muro.Worktree.Git.{Output}

-- the exit code of a run is 0, with this output
pub record Succeeds (o : Option Output) (stdout : Bytes) : Type 0 where
  pub output : Output
  pub ran_git : o ≡ some output
  pub exit_zero : (output.exit_code == 0) ≡ true
  pub its_stdout : output.stdout ≡ stdout

-- the run took place, and its exit code is another
pub record Fails (o : Option Output) : Type 0 where
  pub output : Output
  pub ran_git : o ≡ some output
  pub exit_other : (output.exit_code == 0) ≡ false

pub Output-cases : (o : Option Output) → (o ≡ none) ⊎ ((s : Bytes) × Succeeds o s) ⊎ Fails o
Output-cases none = inl refl
Output-cases (some out) = elim (Bool-cases (out.exit_code == 0)) [
  | inl z ↦
      inr (
        inl (out.stdout, record { output = out; ran_git = refl; exit_zero = z; its_stdout = refl }))
  | inr z ↦ inr (inr (record { output = out; ran_git = refl; exit_other = z }))
]
