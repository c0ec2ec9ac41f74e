-- ===== src/GitProxy/Policy/Grammar.antt =====
-- The argument grammar of the git proxy, written as a relation, and the checks that decide it.
use muro.Base.{
  ◌≡◌, ◌≢◌, ◌↔◌, refl, sym, inl, inr, Bool, true, false, List, [], ◌∷◌, Option, none, some, Bytes,
  codes, bytes_eq, bytes_eq_iff, has_prefix, All, Any, Has, arith, Bool-cases,
}
use muro.Config.{GitRepoPolicy}
use muro.Config.Paths.{slash}
use muro.GitProxy.Policy.{
  is_match, is_flag, contains_string, push_dest_branch, check_none, check_diff, check_paths,
  check_add, check_commit, check_fetch, any_flag, bad_first, check_pull, matches_any, check_push,
  check_args,
}

pub contains_string_iff : (vs : List Bytes) (s : Bytes) → (contains_string vs s ≡ true) ↔ Has s vs
unfolding contains_string
contains_string_iff [] s = (λ h. absurd (ground arith), λ h. absurd h)
contains_string_iff (v ∷ vs) s = (
  λ h. elim (Bool-cases (bytes_eq v s)) [
    | inl e ↦ inl (sym ((bytes_eq_iff v s).0 e))
    | inr e ↦ inr ((contains_string_iff vs s).0 (ground arith))
  ],
  λ h. elim h [
    | inl e ↦ ground (arith, bytes_eq_iff v s)
    | inr k ↦ ground (arith, (contains_string_iff vs s).1 k)
  ],
)

-- a pathspec of `git add`
abbrev pub IsPathspec : Bytes → Type 0
IsPathspec a = (a ≢ []) × (is_flag a ≡ false) × (has_prefix a slash ≡ false)

is_match_iff : (o : Option Bool) → (is_match o ≡ true) ↔ (o ≡ some true)
is_match_iff none = ground arith
is_match_iff (some b) = ground arith

module _ (glob : Bytes → Bytes → Option Bool) where
  abbrev pub MatchesAny : List Bytes → Bytes → Type 0
  MatchesAny patterns s = Any (λ p. glob p s ≡ some true) patterns

  -- What the proxy lets through, given the repository's policy.
  pub data Permitted (repo : GitRepoPolicy) : Bytes → List Bytes → Type 0 where
    status : Permitted repo (codes "status") []
    show : Permitted repo (codes "show") []
    log : Permitted repo (codes "log") []
    diff : Permitted repo (codes "diff") []
    diff_staged : Permitted repo (codes "diff") (codes "--staged" ∷ [])
    add :
        (a : Bytes) (rest : List Bytes)
        → All IsPathspec (a ∷ rest)
        → Permitted repo (codes "add") (a ∷ rest)
    commit : (message : Bytes) → Permitted repo (codes "commit") (codes "-m" ∷ message ∷ [])
    push :
        (remote branchspec : Bytes)
        → is_flag remote ≡ false
        → is_flag branchspec ≡ false
        → Has remote repo.allowed_remotes
        → MatchesAny repo.allowed_branches (push_dest_branch branchspec)
        → Permitted repo (codes "push") (remote ∷ branchspec ∷ [])
    fetch : Permitted repo (codes "fetch") []
    fetch_from :
        (remote : Bytes)
        → is_flag remote ≡ false
        → Has remote repo.allowed_remotes
        → Permitted repo (codes "fetch") (remote ∷ [])
    pull : Permitted repo (codes "pull") []
    pull_from :
        (remote : Bytes)
        → is_flag remote ≡ false
        → Has remote repo.allowed_remotes
        → Permitted repo (codes "pull") (remote ∷ [])
    pull_branch :
        (remote branch : Bytes)
        → is_flag remote ≡ false
        → is_flag branch ≡ false
        → Has remote repo.allowed_remotes
        → Permitted repo (codes "pull") (remote ∷ branch ∷ [])

  pub matches_any_iff :
      (ps : List Bytes) (s : Bytes) → (matches_any glob ps s ≡ true) ↔ MatchesAny ps s
  unfolding matches_any
  matches_any_iff [] s = (λ h. absurd (ground arith), λ h. absurd h)
  matches_any_iff (p ∷ ps) s = (
    λ h. elim (Bool-cases (is_match (glob p s))) [
      | inl e ↦ inl ((is_match_iff (glob p s)).0 e)
      | inr e ↦ inr ((matches_any_iff ps s).0 (ground arith))
    ],
    λ h. elim h [ inl e ↦ rw e | inr k ↦ ground (arith, (matches_any_iff ps s).1 k) ],
  )

  check_none→ : (args : List Bytes) → check_none args ≡ none → args ≡ []
  unfolding check_none
  check_none→ [] h = refl
  check_none→ (a ∷ args) h = absurd (ground arith)

  check_paths_iff : (args : List Bytes) → (check_paths args ≡ none) ↔ All IsPathspec args
  unfolding check_paths
  check_paths_iff [] = (λ h. tt, λ h. refl)
  check_paths_iff (a ∷ rest) = (
    λ h. (
      (λ e. ground (arith, bytes_eq_iff a []), ground arith, ground arith),
      (check_paths_iff rest).0 (ground arith),
    ),
    λ h. ground (arith, bytes_eq_iff a [], (check_paths_iff rest).1 h.1),
  )

  module _ (repo : GitRepoPolicy) where
    diff→ : (args : List Bytes) → check_diff args ≡ none → Permitted repo (codes "diff") args
    unfolding check_diff
    diff→ [] h = diff
    diff→ (a ∷ []) h = rw ((bytes_eq_iff a (codes "--staged")).0 (ground arith)) diff_staged
    diff→ (a ∷ b ∷ rest) h = absurd (ground arith)

    add→ : (args : List Bytes) → check_add args ≡ none → Permitted repo (codes "add") args
    unfolding check_add
    add→ [] h = absurd (ground arith)
    add→ (a ∷ rest) h = add a rest ((check_paths_iff (a ∷ rest)).0 (ground (arith, h)))

    commit→ : (args : List Bytes) → check_commit args ≡ none → Permitted repo (codes "commit") args
    unfolding check_commit
    commit→ (a ∷ m ∷ []) h = rw ((bytes_eq_iff a (codes "-m")).0 (ground arith)) (commit m)
    commit→ [] h = absurd (ground arith)
    commit→ (a ∷ []) h = absurd (ground arith)
    commit→ (a ∷ m ∷ b ∷ rest) h = absurd (ground arith)

    push→ :
        (args : List Bytes) → check_push glob repo args ≡ none → Permitted repo (codes "push") args
    unfolding check_push
    push→ (r ∷ b ∷ []) h =
        push r b (ground arith) (ground arith)
          ((contains_string_iff repo.allowed_remotes r).0 (ground arith))
          ((matches_any_iff repo.allowed_branches (push_dest_branch b)).0 (ground arith))
    push→ [] h = absurd (ground arith)
    push→ (a ∷ []) h = absurd (ground arith)
    push→ (a ∷ m ∷ b ∷ rest) h = absurd (ground arith)

    fetch→ :
        (args : List Bytes) → check_fetch repo args ≡ none → Permitted repo (codes "fetch") args
    unfolding check_fetch
    fetch→ [] h = fetch
    fetch→ (a ∷ []) h =
        fetch_from a (ground arith) ((contains_string_iff repo.allowed_remotes a).0 (ground arith))
    fetch→ (a ∷ b ∷ rest) h = absurd (ground arith)

    pull→ : (args : List Bytes) → check_pull repo args ≡ none → Permitted repo (codes "pull") args
    unfolding check_pull any_flag bad_first
    pull→ [] h = pull
    pull→ (a ∷ []) h =
        pull_from a (ground arith) ((contains_string_iff repo.allowed_remotes a).0 (ground arith))
    pull→ (a ∷ b ∷ []) h =
        pull_branch a b (ground arith) (ground arith)
          ((contains_string_iff repo.allowed_remotes a).0 (ground arith))
    pull→ (a ∷ b ∷ c ∷ rest) h = absurd (ground arith)

    permitted→check :
        {sub : Bytes} {args : List Bytes}
        → Permitted repo sub args
        → check_args glob repo sub args ≡ none
    unfolding check_args check_none check_diff check_add check_commit check_push check_fetch
        check_pull any_flag bad_first bytes_eq
    permitted→check status = refl
    permitted→check show = refl
    permitted→check log = refl
    permitted→check diff = refl
    permitted→check diff_staged = refl
    permitted→check (add a rest h) = ground (arith, (check_paths_iff (a ∷ rest)).1 h)
    permitted→check (commit m) = refl
    permitted→check (push r b f g m n) = ground (
      arith,
      (contains_string_iff repo.allowed_remotes r).1 m,
      (matches_any_iff repo.allowed_branches (push_dest_branch b)).1 n,
    )
    permitted→check fetch = refl
    permitted→check (fetch_from r f m) =
        ground (arith, (contains_string_iff repo.allowed_remotes r).1 m)
    permitted→check pull = refl
    permitted→check (pull_from r f m) =
        ground (arith, (contains_string_iff repo.allowed_remotes r).1 m)
    permitted→check (pull_branch r b f g m) =
        ground (arith, (contains_string_iff repo.allowed_remotes r).1 m)

    by_word :
        {G : Type 0} (s w : Bytes) → (bytes_eq s w ≡ true → G) → (bytes_eq s w ≡ false → G) → G
    by_word s w f g = elim (Bool-cases (bytes_eq s w)) [ inl e ↦ f e | inr e ↦ g e ]

    named :
        {sub : Bytes} {args : List Bytes} (w : Bytes)
        → bytes_eq sub w ≡ true
        → Permitted repo w args
        → Permitted repo sub args
    named {sub} {args} w h p = rw ((bytes_eq_iff sub w).0 h) p

    check→permitted :
        (sub : Bytes) (args : List Bytes)
        → check_args glob repo sub args ≡ none
        → Permitted repo sub args
    unfolding check_args
    check→permitted sub args h =
        by_word sub (codes "status")
          (λ e. named (codes "status") e (rw (check_none→ args (ground arith)) status))
          λ n0.
            by_word sub (codes "show")
              (λ e. named (codes "show") e (rw (check_none→ args (ground arith)) show))
              λ n1.
                by_word sub (codes "diff") (λ e. named (codes "diff") e (diff→ args (ground arith)))
                  λ n2.
                    by_word sub (codes "log")
                      (λ e. named (codes "log") e (rw (check_none→ args (ground arith)) log))
                      λ n3.
                        by_word sub (codes "add")
                          (λ e. named (codes "add") e (add→ args (ground arith)))
                          λ n4.
                            by_word sub (codes "commit")
                              (λ e. named (codes "commit") e (commit→ args (ground arith)))
                              λ n5.
                                by_word sub (codes "push")
                                  (λ e. named (codes "push") e (push→ args (ground arith)))
                                  λ n6.
                                    by_word sub (codes "fetch")
                                      (λ e. named (codes "fetch") e (fetch→ args (ground arith)))
                                      λ n7.
                                        by_word sub (codes "pull")
                                          (λ e. named (codes "pull") e (pull→ args (ground arith)))
                                          λ n8. absurd (ground arith)

    -- The `switch` of `Validate` raises no objection exactly to the commands of the grammar. That compares the
    -- destination of a push with the allowed branches and does not look at its source: a "+" in front of
    -- `src:dst`, with which git forces the update, is let through.
    pub check_args_iff :
        (sub : Bytes) (args : List Bytes)
        → (check_args glob repo sub args ≡ none) ↔ Permitted repo sub args
    check_args_iff sub args = (check→permitted sub args, permitted→check)
