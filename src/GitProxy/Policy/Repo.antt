-- ===== src/GitProxy/Policy/Repo.antt =====
-- The repository that a working directory belongs to, and what `Validate` returns.
use muro.Base.{
  ◌≡◌, ◌↔◌, ◌∙◌, ◌⊎◌, inl, inr, Bool, true, List, [], ◌∷◌, ◌++◌, append_assoc, Option, some, Bytes,
  bytes_eq, bytes_eq_iff, bytes_eq_refl, has_prefix→append, has_prefix-append, Has, arith,
  Bool-cases, Option-cases, ok,
}
use muro.Config.{Mount, GitRepoPolicy, GitPolicy}
use muro.Config.Paths.{clean, slash}
use muro.GitProxy.Policy.{
  lies_in, first_repo, resolve_repo, translate_cwd, contains_string, check_args, validate_command,
}
use muro.GitProxy.Policy.Grammar.{Permitted, check_args_iff, contains_string_iff}

pub lies_in_refl : (a : Bytes) → lies_in a a ≡ true
unfolding lies_in
lies_in_refl a = ground (arith, bytes_eq_refl a)

-- a path in a directory: the directory itself, or something after a slash
pub lies_in→ : (a b : Bytes) → lies_in a b ≡ true → (b ≡ a) ⊎ ((t : Bytes) × (b ≡ a ++ (b'/' ∷ t)))
unfolding lies_in
lies_in→ a b h = elim (Bool-cases (bytes_eq b a)) [
  | inl e ↦ inl ((bytes_eq_iff b a).0 e)
  | inr e ↦
      let (t, q) = has_prefix→append b (a ++ slash) (ground arith) in
      inr (t, q ∙ append_assoc a slash t)
]

lies_in-append : (a t : Bytes) → lies_in a (a ++ (b'/' ∷ t)) ≡ true
unfolding lies_in
lies_in-append a t = ground (arith, append_assoc a slash t, has_prefix-append (a ++ slash) t)

pub lies_in_trans : (a b c : Bytes) → lies_in a b ≡ true → lies_in b c ≡ true → lies_in a c ≡ true
lies_in_trans a b c h k = elim (lies_in→ b c k) [
  | inl e ↦ rw e h
  | inr (t, e) ↦ elim (lies_in→ a b h) [
    | inl q ↦ rw (e, q) (lies_in-append a t)
    | inr (s, q) ↦
        rw (e, q, append_assoc a (b'/' ∷ s) (b'/' ∷ t)) (lies_in-append a (s ++ (b'/' ∷ t)))
  ]
]

first_repo_stable :
    (p : Bytes) (rs : List GitRepoPolicy) (r : GitRepoPolicy)
    → first_repo p rs ≡ some r
    → (lies_in (clean r.host) p ≡ true) × (first_repo (clean r.host) rs ≡ some r)
unfolding first_repo
first_repo_stable p [] r h = cc
first_repo_stable p (x ∷ rs) r h = elim (Bool-cases (lies_in (clean x.host) p)) [
  | inl e ↦ let q : x ≡ r = ground arith in rw (← q) (e, rw (lies_in_refl (clean x.host)))
  | inr e ↦
      let (within, again) = first_repo_stable p rs r (ground arith) in
      (within, ground (arith, again, lies_in_trans (clean x.host) (clean r.host) p))
]

-- The repository found for a working directory is found again from its own `Host`, which is how
-- `Handle` looks it up a second time.
pub resolve_repo_stable :
    (host_cwd : Bytes) (repos : List GitRepoPolicy) (r : GitRepoPolicy)
    → resolve_repo host_cwd repos ≡ some r
    → resolve_repo r.host repos ≡ some r
unfolding resolve_repo
resolve_repo_stable host_cwd repos r h = (first_repo_stable (clean host_cwd) repos r h).1

module _ (glob : Bytes → Bytes → Option Bool) (mounts : List Mount) (policy : GitPolicy)
    (daemon : List Bytes) where
  -- What a granted command has behind it.
  pub record Granted (cwd sub : Bytes) (args : List Bytes) (repo : GitRepoPolicy) : Type 0 where
    pub by_daemon : Has sub daemon
    pub host_cwd : Bytes
    pub mounted : translate_cwd mounts cwd ≡ some host_cwd
    pub configured : resolve_repo host_cwd policy.repos ≡ some repo
    pub grammatical : Permitted glob repo sub args

  granted→ :
      (cwd sub : Bytes) (args : List Bytes) (repo : GitRepoPolicy) (out : Bytes)
      → validate_command glob mounts policy daemon cwd sub args ≡ ok (repo, out)
      → Granted cwd sub args repo × (out ≡ sub)
  unfolding validate_command
  granted→ cwd sub args repo out h = elim (Bool-cases (contains_string daemon sub)) [
    | inr e ↦ absurd (ground arith)
    | inl e ↦ elim (Option-cases (translate_cwd mounts cwd)) [
      | inl t ↦ absurd (ground arith)
      | inr (p, t) ↦ elim (Option-cases (resolve_repo p policy.repos)) [
        | inl q ↦ absurd (ground arith)
        | inr (r, q) ↦ elim (Option-cases (check_args glob r sub args)) [
          | inr (o, c) ↦ absurd (ground arith)
          | inl c ↦
              let same : r ≡ repo = ground arith in
              (
                record {
                  by_daemon = (contains_string_iff daemon sub).0 e;
                  host_cwd = p;
                  mounted = t;
                  configured = rw (← same) q;
                  grammatical = rw (← same) ((check_args_iff glob r sub args).0 c);
                },
                ground arith,
              )
        ]
      ]
    ]
  ]

  -- `Validate` lets a command through exactly when the daemon allows its subcommand, its working
  -- directory is mounted and lies in a configured repository, and its arguments are in the grammar
  -- for that repository, where a "+" in front of the `src:dst` of a push does not count; then it
  -- returns that repository and the subcommand.
  pub validate_command_iff :
      (cwd sub : Bytes) (args : List Bytes) (repo : GitRepoPolicy) (out : Bytes)
      → (validate_command glob mounts policy daemon cwd sub args ≡ ok (repo, out))
        ↔ (Granted cwd sub args repo × (out ≡ sub))
  unfolding validate_command
  validate_command_iff cwd sub args repo out = (
    granted→ cwd sub args repo out,
    λ g. ground (
      arith,
      (contains_string_iff daemon sub).1 g.0.by_daemon,
      g.0.mounted,
      g.0.configured,
      (check_args_iff glob repo sub args).1 g.0.grammatical,
    ),
  )
