-- ===== src/Sandbox/Manager/Owned.antt =====
-- internal/sandbox/manager.go: the git policy and the worktrees that a profile resolves to.
use muro.Base.{
  true, false, List, [], ◌∷◌, ◌++◌, Option, Bytes, All, Any, Any-append_right, refl, sym, ap, subst,
  ◌≡◌, ◌⊎◌, inl, inr, Bool-cases,
}
use muro.Config.{Mount, GitRepoPolicy}
use muro.Config.Paths.{expand_home}
use muro.Config.Validate.{Profile}
use muro.State.Store.{WorktreeInfo}
use muro.Sandbox.Urls.{clone_repos, clone_git_policy}
use muro.Sandbox.Manager.{Env, Manager, Fields, ok, mounts_invalid, worktree_failed}
use muro.Sandbox.Manager.Bridges.{below}
use muro.Sandbox.Manager.Resolve.{
  Trees, with_tree, worktrees_base, base, worktree_branch, worktree_mounts, fields_of,
  resolve_fields,
}
use muro.Sandbox.Manager.Runs.{Ran, bind-Ran, then-Ran, or_raise-Ran, asks-Ran, pure-Ran, if-Ran}

-- a repository's policy as `cloneGitPolicy` makes it of one without a worktree
abbrev pub Copied : Option Bytes → GitRepoPolicy → GitRepoPolicy → Type 0
Copied home q r =
    (q.worktree ≡ false)
    × (r.host ≡ expand_home home q.host)
    × (r.allowed_branches ≡ q.allowed_branches)
    × (r.allowed_remotes ≡ q.allowed_remotes)

-- a repository's policy as a worktree has it: only the sandbox's branch, in a directory that is mounted
-- and recorded
abbrev pub Treed : Bytes → List Mount → List WorktreeInfo → GitRepoPolicy → Type 0
Treed branch mounts infos r =
    (r.allowed_branches ≡ branch ∷ [])
    × Any (λ m. m.host ≡ r.host) mounts
    × Any (λ w. (w.host ≡ r.host) × (w.branch ≡ branch)) infos

All-impl :
    {A : Type 0} (P Q : A → Type 0) (xs : List A) → ((a : A) → P a → Q a) → All P xs → All Q xs
All-impl P Q [] f h = tt
All-impl P Q (x ∷ xs) f (p, h) = (f x p, All-impl P Q xs f h)

All-append : {A : Type 0} (P : A → Type 0) (xs ys : List A) → All P xs → All P ys → All P (xs ++ ys)
All-append P [] ys h k = k
All-append P (x ∷ xs) ys (p, h) k = (p, All-append P xs ys h k)

skipped :
    (home : Option Bytes) (q : GitRepoPolicy) (repos : List GitRepoPolicy)
    → q.worktree ≡ true
    → clone_repos home (q ∷ repos) ≡ clone_repos home repos
unfolding clone_repos
skipped home q repos e = rw (e) refl

copied :
    (home : Option Bytes) (q : GitRepoPolicy) (repos : List GitRepoPolicy)
    → q.worktree ≡ false
    → clone_repos home (q ∷ repos)
      ≡ record {
        host = expand_home home q.host;
        allowed_branches = q.allowed_branches;
        allowed_remotes = q.allowed_remotes;
        worktree = false;
        mount_path = [];
      }
        ∷ clone_repos home repos
unfolding clone_repos
copied home q repos e = rw (e) refl

clone_repos-Copied :
    (home : Option Bytes) (repos : List GitRepoPolicy)
    → All (λ r. Any (λ q. Copied home q r) repos) (clone_repos home repos)
unfolding clone_repos
clone_repos-Copied home [] = tt
clone_repos-Copied home (q ∷ repos) =
    let ih =
      All-impl (λ r. Any (λ q. Copied home q r) repos) (λ r. Any (λ q. Copied home q r) (q ∷ repos))
        (clone_repos home repos) (λ r h. inr h) (clone_repos-Copied home repos) in
    let P : GitRepoPolicy → Type 0 = λ r. Any (λ x. Copied home x r) (q ∷ repos) in
    elim (Bool-cases q.worktree) [
      | inl e ↦ subst (All P) (sym (skipped home q repos e)) ih
      | inr e ↦ subst (All P) (sym (copied home q repos e)) (inl (e, refl, refl, refl), ih)
    ]

module _ (env : Env) where
  abbrev Owned : Bytes → Trees → Type 0
  Owned branch t = All (Treed branch t.mounts t.infos) t.repos

  with_tree-Owned :
      (branch base_branch repo_host tree : Bytes) (repo : GitRepoPolicy) (t : Trees)
      → Owned branch t
      → Owned branch (with_tree branch base_branch repo_host tree repo t)
  unfolding with_tree
  with_tree-Owned branch base_branch repo_host tree repo t h = (
    (refl, inl refl, inl (refl, refl)),
    All-impl (Treed branch t.mounts t.infos) _ t.repos (λ r (a, b, c). (a, inr b, inr c)) h,
  )

  -- what the fields' git policy may hold
  abbrev Policy : Profile → Bytes → Bytes → Fields → Type 0
  Policy p namespace name f =
      All
        (λ r.
          Any (λ q. Copied env.home q r) p.git.repos
          ⊎ Treed (worktree_branch namespace name) f.mounts f.worktrees r)
        f.git_policy.repos

  fields_of-Policy :
      (p : Profile) (namespace name : Bytes) (mounts : List Mount) (trees : Trees)
      → Owned (worktree_branch namespace name) trees
      → Policy p namespace name (fields_of env p mounts trees)
  unfolding fields_of clone_git_policy
  fields_of-Policy p namespace name mounts trees h =
      All-append _ (clone_repos env.home p.git.repos) trees.repos
        (All-impl _ _ (clone_repos env.home p.git.repos) (λ r k. inl k)
          (clone_repos-Copied env.home p.git.repos))
        (All-impl _ _ trees.repos
          (λ r (a, b, c). inr (a, Any-append_right _ mounts trees.mounts b, c)) h)

  worktree_mounts-Owned :
      (id branch : Bytes) (repos : List GitRepoPolicy) (m : Manager) (t : Trees)
      → (worktree_mounts env id branch repos m).0 ≡ ok t
      → Owned branch t
  unfolding worktree_mounts
  worktree_mounts-Owned id branch [] m t h =
      subst (Owned branch) (pure-Ran _ t m m (ap (λ r. (r, m)) h)) tt
  worktree_mounts-Owned id branch (repo ∷ repos) m t h =
      let n = (worktree_mounts env id branch (repo ∷ repos) m).1 in
      elim (if-Ran repo.worktree _ _ m t n (ap (λ r. (r, n)) h)) [
        | inr h₁ ↦ worktree_mounts-Owned id branch repos m t (ap (λ x. x.0) h₁)
        | inl h₁ ↦
            let (_, h₂) = then-Ran _ _ m t n (asks-Ran _ _ m t n h₁) in
            let (base_branch, _, h₃) = or_raise-Ran _ worktree_failed _ _ t n h₂ in
            let (rest, r, h₄) = bind-Ran (worktree_mounts env id branch repos) _ _ t n h₃ in
            subst (Owned branch) (pure-Ran _ t _ n h₄) (
              with_tree-Owned branch base_branch (expand_home env.home repo.host)
                (below (worktrees_base env.state_dir id) (base repo.mount_path ∷ [])) repo rest
                (worktree_mounts-Owned id branch repos _ rest r))
      ]

  -- A repository in the git policy that a profile resolves to is one of the profile's that wants no
  -- worktree, with "~" expanded; or it has a worktree: then the policy allows no branch but that of this
  -- sandbox, and the worktree's directory is mounted and recorded under that branch.
  pub resolve_fields-Owned :
      (p : Profile) (namespace name id : Bytes) (m : Manager) (f : Fields) (n : Manager)
      → Ran (resolve_fields env p namespace name id) m f n
      → All
          (λ r.
            Any (λ q. Copied env.home q r) p.git.repos
            ⊎ Treed (worktree_branch namespace name) f.mounts f.worktrees r)
          f.git_policy.repos
  unfolding resolve_fields
  resolve_fields-Owned p namespace name id m f n h =
      let (own, _, h₁) = or_raise-Ran _ mounts_invalid _ m f n h in
      let (docs, _, h₂) = bind-Ran _ _ m f n h₁ in
      let (audio, _, h₃) = bind-Ran _ _ _ f n h₂ in
      let (private, _, h₄) = bind-Ran _ _ _ f n h₃ in
      let (guidance, _, h₅) = bind-Ran _ _ _ f n h₄ in
      let (trees, r, h₆) =
        bind-Ran (worktree_mounts env id (worktree_branch namespace name) p.git.repos) _ _ f n h₅ in
      let owned = worktree_mounts-Owned id (worktree_branch namespace name) p.git.repos _ trees r in
      subst (Policy p namespace name) (pure-Ran _ f _ n h₆) (
        fields_of-Policy p namespace name (own ++ (docs ++ (audio ++ (private ++ guidance)))) trees
          owned)
