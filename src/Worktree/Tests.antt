-- ===== src/Worktree/Tests.antt =====
-- Worktrees on a host whose git does all that it is asked.
use muro.Base.{
  ◌≡◌, ◌⊎◌, refl, Bool, true, false, List, [], ◌∷◌, ◌++◌, Option, none, some, Bytes, codes,
  bytes_eq, if◌then◌else◌,
}
use muro.GitProxy.Exec.{trim_space, trim_left, trim_right, is_space}
use muro.Worktree.Git.{ran, wrote, removed, Trace, Host, ok, run_git, succeeded, must}
use muro.Worktree.Operations.{current_branch, create_new, create, remove, squash_merge}
use muro.Worktree.Create.{create_twice}
use muro.Worktree.Merge.{Ended, squash_merge_lem}
use muro.Worktree.Remove.{Kept, Gone, remove_lem}

abbrev is_asked : List Bytes → Bool
is_asked [] = false
is_asked (a ∷ args) = bytes_eq a (codes "rev-parse")

abbrev last_written : Trace → Option Bytes
last_written [] = none
last_written (ran d a ∷ t) = none
last_written (wrote p x ∷ t) = some x
last_written (removed p ∷ t) = none

abbrev is_begun : Trace → Bool
is_begun [] = false
is_begun (e ∷ t) = true

abbrev host : Host
host = record {
  git = λ t repo args.
      some
        (record { stdout = if is_asked args then codes "main" ++ 10 ∷ [] else []; exit_code = 0 });
  exists = λ t p. is_begun t;
  read_file = λ t p. last_written t;
  writes = λ t p. true;
  is_positive = λ s. some true;
}

abbrev repo : Bytes
repo = codes "/r"

abbrev tree : Bytes
tree = codes "/w"

abbrev topic : Bytes
topic = codes "muro/box"

made : (create host repo tree topic []).0 ≡ ok (codes "main")
unfolding create create_new current_branch must run_git succeeded trim_space trim_left trim_right
    is_space bytes_eq
made = refl

there : is_begun (create host repo tree topic []).1 ≡ true
unfolding create create_new current_branch must run_git succeeded trim_space trim_left trim_right
    is_space bytes_eq
there = refl

create_twice_example :
    create host repo tree topic (create host repo tree topic []).1
    ≡ (ok (codes "main"), (create host repo tree topic []).1)
create_twice_example =
    create_twice host repo tree topic [] (codes "main") (λ u p x. refl) refl made there

squash_merge_lem_example :
    Ended host repo topic
      (codes "main")
      (codes "done")
      []
      (squash_merge host repo topic (codes "main") (codes "done") [])
squash_merge_lem_example = squash_merge_lem host repo topic (codes "main") (codes "done") []

remove_lem_example :
    Kept host repo tree topic true [] (remove host repo tree topic true [])
    ⊎ Gone host repo tree topic true [] (remove host repo tree topic true [])
remove_lem_example = remove_lem host repo tree topic true []
