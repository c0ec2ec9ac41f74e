-- ===== src/Worktree/Git.antt =====
-- internal/worktree/worktree.go: what its functions run and touch. A run of git is an effect, as are the
-- files written and removed; the host's answers are functions of the effects so far, the newest first.
use muro.Base.{
  ℕ, Bool, true, false, List, [], ◌∷◌, ◌++◌, Option, none, some, Bytes, codes, ◌==◌, if◌then◌else◌,
}

pub data Effect : Type 0 where
  ran : Bytes → List Bytes → Effect
  wrote : Bytes → Bytes → Effect
  removed : Bytes → Effect

abbrev pub Trace : Type 0
Trace = List Effect

-- what RunGit gives; an exit code is 0 or not
pub record Output : Type 0 where
  pub stdout : Bytes
  pub exit_code : ℕ

-- The host: RunGit, with `none` for its error, os.Stat, os.ReadFile, os.WriteFile, and strconv.Atoi with
-- the comparison with 0.
pub record Host : Type 0 where
  pub git : Trace → Bytes → List Bytes → Option Output
  pub exists : Trace → Bytes → Bool
  pub read_file : Trace → Bytes → Option Bytes
  pub writes : Trace → Bytes → Bool
  pub is_positive : Bytes → Option Bool

pub data Fault : Type 0 where
  launch_failed : Fault
  git_failed : Fault
  detached_head : Fault
  no_base_branch : Fault
  not_recorded : Fault
  bad_count : Fault
  wrong_branch : Fault
  uncommitted : Fault
  no_message : Fault
  conflict : Fault
  conflict_left : Fault
  commit_failed : Fault
  commit_left : Fault

pub data Result (A : Type 0) : Type 0 where
  ok : A → Result A
  err : Fault → Result A

abbrev pub Action : Type 0 → Type 0
Action A = Trace → Result A × Trace

abbrev pub pure : {A : Type 0} → A → Action A
pure a t = (ok a, t)

abbrev pub raise : {A : Type 0} → Fault → Action A
raise e t = (err e, t)

abbrev pub next : {A B : Type 0} → (A → Action B) → Result A × Trace → Result B × Trace
next f (ok a, t) = f a t
next f (err e, t) = (err e, t)

infixl 5 ◌>>=◌ ◌>>◌
abbrev pub ◌>>=◌ : {A B : Type 0} → Action A → (A → Action B) → Action B
◌>>=◌ act f t = next f (act t)

abbrev pub ◌>>◌ : {A B : Type 0} → Action A → Action B → Action B
act >> k = act >>= λ _. k

abbrev pub raise_if : Bool → Fault → Action (Unit {0})
raise_if true e t = (err e, t)
raise_if false e t = (ok tt, t)

-- `baseBranchSidecarPath`
abbrev pub base_branch_sidecar_path : Bytes → Bytes
base_branch_sidecar_path worktree_host = worktree_host ++ codes ".base-branch"

abbrev pub head_args : List Bytes
head_args = codes "rev-parse" ∷ codes "--abbrev-ref" ∷ codes "HEAD" ∷ []

abbrev pub status_args : List Bytes
status_args = codes "status" ∷ codes "--porcelain" ∷ []

abbrev pub reset_args : List Bytes
reset_args = codes "reset" ∷ codes "--hard" ∷ codes "HEAD" ∷ []

abbrev pub merge_args : Bytes → List Bytes
merge_args branch = codes "merge" ∷ codes "--squash" ∷ branch ∷ []

abbrev pub commit_args : Bytes → List Bytes
commit_args message = codes "commit" ∷ codes "-m" ∷ message ∷ []

abbrev pub tip_args : List Bytes
tip_args = codes "rev-parse" ∷ codes "HEAD" ∷ []

abbrev pub add_args : Bytes → Bytes → Bytes → List Bytes
add_args worktree_host branch base =
    codes "worktree" ∷ codes "add" ∷ worktree_host ∷ codes "-b" ∷ branch ∷ base ∷ []

abbrev pub count_args : Bytes → List Bytes
count_args base = codes "rev-list" ∷ codes "--count" ∷ (base ++ codes "..HEAD") ∷ []

abbrev pub remove_args : Bool → Bytes → List Bytes
remove_args force worktree_host =
    codes "worktree"
    ∷ codes "remove"
    ∷ (if force then codes "--force" ∷ worktree_host ∷ [] else worktree_host ∷ [])

abbrev pub delete_args : Bytes → List Bytes
delete_args branch = codes "branch" ∷ codes "-D" ∷ branch ∷ []

module _ (host : Host) where
  -- gitproxy.RunGit
  unfoldable pub run_git : Bytes → List Bytes → Action (Option Output)
  run_git repo args t = (ok (host.git t repo args), ran repo args ∷ t)

  -- the two tests after a run
  unfoldable pub succeeded : Option Output → Action Bytes
  succeeded none = raise launch_failed
  succeeded (some out) = if out.exit_code == 0 then pure out.stdout else raise git_failed

  -- a run that has to succeed, and its output
  unfoldable pub must : Bytes → List Bytes → Action Bytes
  unfolding run_git succeeded
  must repo args = run_git repo args >>= succeeded
