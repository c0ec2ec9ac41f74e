-- ===== src/Worktree/Create.antt =====
-- internal/worktree/worktree.go: `Create` of a worktree that is there already.
use muro.Base.{
  ◌≡◌, refl, ap, ◌∙◌, sym, subst, true, false, ◌||◌, ◌&&◌, [], ◌∷◌, some, Bytes, codes, bytes_eq,
  if◌then◌else◌, Bool-cases, inl, inr, arith,
}
use muro.GitProxy.Exec.{trim_space, trim_left, trim_right, is_space}
use muro.Worktree.Git.{
  ran, wrote, Trace, Host, Result, ok, err, next, not_recorded, detached_head,
  base_branch_sidecar_path, run_git, succeeded, must, head_args, add_args,
}
use muro.Worktree.Operations.{current_branch, create_new, recorded, create}
use muro.Worktree.Runs.{Output-cases}

trim_right_idem : (s : Bytes) → trim_right (trim_right s) ≡ trim_right s
unfolding trim_right
trim_right_idem [] = refl
trim_right_idem (c ∷ s) = elim (Bool-cases (is_space c && bytes_eq (trim_right s) [])) [
  | inl e ↦ rw e refl
  | inr e ↦ rw e (rw (trim_right_idem s) (rw e refl))
]

trim_left-trim_right : (s : Bytes) → trim_left (trim_right (trim_left s)) ≡ trim_right (trim_left s)
unfolding trim_left trim_right
trim_left-trim_right [] = refl
trim_left-trim_right (c ∷ s) = elim (Bool-cases (is_space c)) [
  | inl e ↦ rw e (trim_left-trim_right s)
  | inr e ↦ rw e (rw e (rw e refl))
]

trim_space_idem : (s : Bytes) → trim_space (trim_space s) ≡ trim_space s
unfolding trim_space
trim_space_idem s = ap (λ u. trim_right u) (trim_left-trim_right s) ∙ trim_right_idem (trim_left s)

module _ (host : Host) (repo worktree branch : Bytes) (t : Trace) where
  -- a first `Create` that succeeds ends with the record of the branch, which has no space around it
  record Made (e : Result Bytes × Trace) (base : Bytes) : Type 0 where
    earlier : Trace
    its_end : e ≡ (ok base, wrote (base_branch_sidecar_path worktree) base ∷ earlier)
    is_trimmed : trim_space base ≡ base

  abbrev add_part : Bytes → Result Bytes × Trace
  add_part base =
      next
        (λ _ u. (
          (if host.writes u (base_branch_sidecar_path worktree) then ok base else err not_recorded),
          wrote (base_branch_sidecar_path worktree) base ∷ u,
        ))
        (must host repo (add_args worktree branch base) (ran repo head_args ∷ t))

  add_end :
      (base found : Bytes)
      → trim_space base ≡ base
      → (add_part base).0 ≡ ok found
      → Made (add_part base) found
  unfolding must run_git succeeded
  add_end base found trimmed h =
      let u = ran repo head_args ∷ t in
      elim (Output-cases (host.git u repo (add_args worktree branch base))) [
        | inl n ↦ absurd (ground arith)
        | inr (inr f) ↦ let a = f.ran_git in let b = f.exit_other in absurd (ground arith)
        | inr (inl (s, p)) ↦
            let w = ran repo (add_args worktree branch base) ∷ u in
            let side = base_branch_sidecar_path worktree in
            let e : add_part base ≡ (
              (if host.writes w side then ok base else err not_recorded),
              wrote side base ∷ w,
            ) =
              rw (p.ran_git, succeeded) (rw p.exit_zero refl) in
            elim (Bool-cases (host.writes w side)) [
              | inr n ↦ absurd (ground arith)
              | inl y ↦
                  let same : base ≡ found = ground arith in
                  record {
                    earlier = w;
                    its_end = ground arith;
                    is_trimmed = subst (λ b. trim_space b ≡ b) same trimmed;
                  }
            ]
      ]

  create_new-Made :
      (base : Bytes)
      → (create_new host repo worktree branch t).0 ≡ ok base
      → Made (create_new host repo worktree branch t) base
  unfolding create_new current_branch must run_git succeeded
  create_new-Made base h = elim (Output-cases (host.git t repo head_args)) [
    | inl n ↦ absurd (ground arith)
    | inr (inr f) ↦ let a = f.ran_git in let b = f.exit_other in absurd (ground arith)
    | inr (inl (s, p)) ↦
        let cur = trim_space s in
        elim (Bool-cases (bytes_eq cur [] || bytes_eq cur (codes "HEAD"))) [
          | inl d ↦
              let e : (create_new host repo worktree branch t).0 ≡ err detached_head =
                rw (p.ran_git, succeeded) (rw p.exit_zero (rw (p.its_stdout) (rw d refl))) in
              absurd (ground arith)
          | inr d ↦
              let e : create_new host repo worktree branch t ≡ add_part cur =
                rw (p.ran_git, succeeded) (rw p.exit_zero (rw (p.its_stdout) (rw d refl))) in
              subst (λ r. Made r base) (sym e)
                (add_end cur base (trim_space_idem s)
                  (subst (λ (r : Result Bytes × Trace). r.0 ≡ ok base) e h))
        ]
  ]

  -- If a first `Create` where there was no worktree gives a base branch, the worktree is there
  -- afterwards, and a file that was written last reads back as written: then a second one gives the same
  -- branch, and it runs no git and writes nothing.
  pub create_twice :
      (base : Bytes)
      → ((u : Trace) (p x : Bytes) → host.read_file (wrote p x ∷ u) p ≡ some x)
      → host.exists t worktree ≡ false
      → (create host repo worktree branch t).0 ≡ ok base
      → host.exists (create host repo worktree branch t).1 worktree ≡ true
      → create host repo worktree branch (create host repo worktree branch t).1
        ≡ (ok base, (create host repo worktree branch t).1)
  unfolding create recorded
  create_twice base reads absent first there =
      let c = create host repo worktree branch t in
      let e : c ≡ create_new host repo worktree branch t = rw (absent, create) refl in
      let m = create_new-Made base (subst (λ (r : Result Bytes × Trace). r.0 ≡ ok base) e first) in
      let r : c.1 ≡ wrote (base_branch_sidecar_path worktree) base ∷ m.earlier =
        ap (λ (r : Result Bytes × Trace). r.1) (e ∙ m.its_end) in
      let x : host.read_file c.1 (base_branch_sidecar_path worktree) ≡ some base =
        subst (λ u. host.read_file u (base_branch_sidecar_path worktree) ≡ some base) (sym r)
          (reads m.earlier (base_branch_sidecar_path worktree) base) in
      let g =
        λ (u : Trace) (a : host.exists u worktree ≡ true)
            (b : host.read_file u (base_branch_sidecar_path worktree) ≡ some base).
          (let q : create host repo worktree branch u ≡ (ok base, u) =
              rw (a, create) (rw (b, recorded) (rw m.is_trimmed refl)) in
            q) in
      g c.1 there x
