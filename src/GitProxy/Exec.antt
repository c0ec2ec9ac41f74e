-- ===== src/GitProxy/Exec.antt =====
-- internal/gitproxy/exec.go: the push plan that git prints, and its check.
pub mod Porcelain
use muro.Base.{
  ℕ, Bool, true, false, ◌&&◌, ◌||◌, not, List, [], ◌∷◌, ◌++◌, Option, none, some, Bytes, codes,
  bytes_eq, has_prefix, trim_prefix, cut, split, leb, ◌==◌, if◌then◌else◌, Result, ok, err, ◌>>=◌,
}
use muro.GitProxy.Policy.{matches_any}

-- `RefUpdate`
pub record RefUpdate : Type 0 where
  pub flag : Bytes
  pub from : Bytes
  pub to : Bytes
  pub summary : Bytes

pub data Failure : Type 0 where
  malformed_line malformed_ref_field : Failure
  no_updates rejected_by_git branch_not_permitted : Failure
  detached_head current_branch_not_permitted : Failure
  launch_failed nonzero_exit : Failure

-- strings.TrimRight(line, "\r")
unfoldable pub trim_cr : Bytes → Bytes
trim_cr [] = []
trim_cr (c ∷ s) = let rest = trim_cr s in if c == 13 && bytes_eq rest [] then [] else c ∷ rest

-- the split of `fromTo`
unfoldable pub ref_update : Bytes → Bytes → Bytes → Result Failure RefUpdate
ref_update flag from_to summary = elim (cut b':' from_to) [
  | none ↦ err malformed_ref_field
  | some (from, to) ↦ ok (record { flag = flag; from = from; to = to; summary = summary })
]

-- strings.SplitN(line, "\t", 3) and what the code does with its parts
unfoldable pub parse_line : Bytes → Result Failure RefUpdate
unfolding ref_update
parse_line line = elim (cut 9 line) [
  | none ↦ err malformed_line
  | some (flag, rest) ↦ elim (cut 9 rest) [
    | none ↦ ref_update flag rest []
    | some (from_to, summary) ↦ ref_update flag from_to summary
  ]
]

unfoldable pub is_informational : Bytes → Bool
is_informational line =
    bytes_eq line [] || (has_prefix line (codes "To ") || bytes_eq line (codes "Done"))

-- the loop of `ParsePushPorcelain` over the lines
unfoldable pub parse_lines : List Bytes → Result Failure (List RefUpdate)
unfolding is_informational
parse_lines [] = ok []
parse_lines (raw ∷ lines) =
    let line = trim_cr raw in
    let rest = parse_lines lines in
    if is_informational line
    then rest
    else do update ← parse_line line; updates ← rest; ok (update ∷ updates)

-- `ParsePushPorcelain`
unfoldable pub parse_push_porcelain : Bytes → Result Failure (List RefUpdate)
unfolding parse_lines
parse_push_porcelain output = parse_lines (split 10 output)

-- strings.TrimSpace, on ASCII
unfoldable pub is_space : ℕ → Bool
is_space c = c == b' ' || (leb 9 c && leb c 13)

unfoldable pub trim_left : Bytes → Bytes
unfolding is_space
trim_left [] = []
trim_left (c ∷ s) = let rest = trim_left s in if is_space c then rest else c ∷ s

unfoldable pub trim_right : Bytes → Bytes
unfolding is_space
trim_right [] = []
trim_right (c ∷ s) =
    let rest = trim_right s in if is_space c && bytes_eq rest [] then [] else c ∷ rest

unfoldable pub trim_space : Bytes → Bytes
unfolding trim_left trim_right
trim_space s = trim_right (trim_left s)

-- `pushArgsWithDryRun`; argv[0] of an empty argv would be out of range, and `Handle` has none.
unfoldable pub push_args_with_dry_run : List Bytes → List Bytes
push_args_with_dry_run [] = []
push_args_with_dry_run (a ∷ rest) = a ∷ codes "--dry-run" ∷ codes "--porcelain" ∷ rest

module _ (glob : Bytes → Bytes → Option Bool) where
  -- the loop of `CheckPushPlan`: `none` is no objection
  unfoldable pub check_updates : List Bytes → List RefUpdate → Option Failure
  check_updates allowed [] = none
  check_updates allowed (u ∷ us) =
      if bytes_eq u.flag (codes "!")
      then some rejected_by_git
      else if not (matches_any glob allowed (trim_prefix u.to (codes "refs/heads/")))
      then some branch_not_permitted
      else check_updates allowed us

  -- `CheckPushPlan`
  unfoldable pub check_push_plan : List Bytes → List RefUpdate → Option Failure
  unfolding check_updates
  check_push_plan allowed [] = some no_updates
  check_push_plan allowed (u ∷ us) = check_updates allowed (u ∷ us)

  -- the part of `CheckCurrentBranch` after the run of git
  unfoldable pub check_branch : List Bytes → Bytes → Option Failure
  check_branch allowed stdout =
      let branch = trim_space stdout in
      if bytes_eq branch [] || bytes_eq branch (codes "HEAD")
      then some detached_head
      else if matches_any glob allowed branch
      then none
      else some current_branch_not_permitted
