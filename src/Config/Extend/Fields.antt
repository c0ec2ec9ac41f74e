-- ===== src/Config/Extend/Fields.antt =====
-- `LoadProfile` field by field: what a profile that extends another takes from it.
use muro.Base.{
  ℕ, zero, suc, Bool, true, false, ◌||◌, List, [], ◌∷◌, ◌++◌, Option, none, some, Bytes, codes,
  bytes_eq, bytes_eq_iff, in_set, if◌then◌else◌, refl, sym, ◌≡◌, ◌≢◌, ◌⊎◌, ◌↔◌, arith, inl, inr,
  Bool-cases, Option-cases,
}
use muro.Config.Validate.{Profile}
use muro.Config.Extend.{
  first_non_empty, merge_env, own_args, merge_profiles, Loaded, profile, cycle, unreadable,
  out_of_fuel, onto, load_profile_resolved, with_policy, load_profile,
}

onto-profile :
    (p : Profile) (l : Loaded) (q : Profile)
    → onto p l ≡ profile q
    → (b : Profile) × (l ≡ profile b) × (merge_profiles b p ≡ q)
onto-profile p (profile b) q h = (b, refl, cc (h))
onto-profile p cycle q h = absurd (cc)
onto-profile p unreadable q h = absurd (cc)
onto-profile p out_of_fuel q h = absurd (cc)

with_policy-profile :
    (l : Loaded) (q : Profile)
    → with_policy l ≡ profile q
    → (p : Profile) × (l ≡ profile p) × (with_policy (profile p) ≡ profile q)
with_policy-profile (profile p) q h = (p, refl, h)
with_policy-profile cycle q h = absurd (cc)
with_policy-profile unreadable q h = absurd (cc)
with_policy-profile out_of_fuel q h = absurd (cc)

profile_injective : {p q : Profile} → profile p ≡ profile q → p ≡ q
profile_injective h = cc (h)

with_policy_given :
    (p q : Profile) → p.restart_policy ≢ [] → with_policy (profile p) ≡ profile q → q ≡ p
with_policy_given p q given h = elim (Bool-cases (bytes_eq p.restart_policy [])) [
  | inl e ↦ absurd (given ((bytes_eq_iff p.restart_policy []).0 e))
  | inr e ↦ sym (profile_injective (rw e at h))
]

with_policy_none :
    (p q : Profile)
    → p.restart_policy ≡ []
    → with_policy (profile p) ≡ profile q
    → q ≡ record p { restart_policy = codes "never" }
with_policy_none p q missing h =
    sym (profile_injective (rw ((bytes_eq_iff p.restart_policy []).1 missing) at h))

-- the value of an environment's variable
unfoldable pub value_of : Bytes → List (Bytes × Bytes) → Option Bytes
value_of k [] = none
value_of k ((j, v) ∷ env) = if bytes_eq j k then some v else value_of k env

-- a text of its own stands, and a base's stands in for none
abbrev pub Own : Bytes → Bytes → Bytes → Type 0
Own own base out = (own ≢ [] → out ≡ own) × (own ≡ [] → out ≡ base)

-- What a profile takes from its base: its own name; each text and its list of arguments if it has one, and
-- else the base's; an environment in which its own variables hide the base's; lists in which its entries
-- follow the base's; a flag that either sets.
pub record Under (base own out : Profile) : Type 0 where
  pub named : out.name ≡ own.name
  pub no_base : out.extends ≡ []
  pub agent : Own own.agent base.agent out.agent
  pub restart_policy : Own own.restart_policy base.restart_policy out.restart_policy
  pub instructions : Own own.instructions base.instructions out.instructions
  pub work_dir : Own own.work_dir base.work_dir out.work_dir
  pub own_agent_args : own.agent_args ≢ [] → out.agent_args ≡ own.agent_args
  pub base_agent_args : own.agent_args ≡ [] → out.agent_args ≡ base.agent_args
  pub own_env : (k v : Bytes) → value_of k own.env ≡ some v → value_of k out.env ≡ some v
  pub base_env : (k : Bytes) → value_of k own.env ≡ none → value_of k out.env ≡ value_of k base.env
  pub mounts : out.mounts ≡ base.mounts ++ own.mounts
  pub tools : out.tools ≡ base.tools ++ own.tools
  pub allow_urls : out.allow_urls ≡ base.allow_urls ++ own.allow_urls
  pub deny_urls : out.deny_urls ≡ base.deny_urls ++ own.deny_urls
  pub repos : out.git.repos ≡ base.git.repos ++ own.git.repos
  pub private_dirs : out.private_dirs ≡ base.private_dirs ++ own.private_dirs
  pub skills : out.skills ≡ base.skills ++ own.skills
  pub audio : (out.audio ≡ true) ↔ ((base.audio ≡ true) ⊎ (own.audio ≡ true))
  pub quiet_mode : (out.quiet_mode ≡ true) ↔ ((base.quiet_mode ≡ true) ⊎ (own.quiet_mode ≡ true))

first_non_empty-Own : (own base : Bytes) → Own own base (first_non_empty own base)
unfolding bytes_eq
first_non_empty-Own [] base = (λ p. absurd (p refl), λ p. refl)
first_non_empty-Own (c ∷ own) base = (λ p. refl, λ p. absurd (cc (p)))

own_args_given : (own base : List Bytes) → own ≢ [] → own_args own base ≡ own
own_args_given [] base p = absurd (p refl)
own_args_given (a ∷ own) base p = refl

own_args_none : (own base : List Bytes) → own ≡ [] → own_args own base ≡ base
own_args_none [] base p = refl
own_args_none (a ∷ own) base p = absurd (cc (p))

value_of-own :
    (k v : Bytes) (own base : List (Bytes × Bytes))
    → value_of k own ≡ some v
    → value_of k (own ++ base) ≡ some v
unfolding value_of
value_of-own k v [] base h = absurd (cc (h))
value_of-own k v ((j, w) ∷ own) base h = ground (arith, value_of-own k v own base)

value_of-base :
    (k : Bytes) (own base : List (Bytes × Bytes))
    → value_of k own ≡ none
    → value_of k (own ++ base) ≡ value_of k base
unfolding value_of
value_of-base k [] base h = refl
value_of-base k ((j, w) ∷ own) base h = ground (arith, value_of-base k own base)

either : (a b : Bool) → ((a || b) ≡ true) ↔ ((a ≡ true) ⊎ (b ≡ true))
either true b = (λ p. inl refl, λ p. refl)
either false true = (λ p. inr refl, λ p. refl)
either false false = (λ p. inl p, λ p. elim p [ inl q ↦ q | inr q ↦ q ])

merge_profiles-Under : (base own : Profile) → Under base own (merge_profiles base own)
unfolding merge_profiles merge_env
merge_profiles-Under base own = record {
  named = refl;
  no_base = refl;
  agent = first_non_empty-Own own.agent base.agent;
  restart_policy = first_non_empty-Own own.restart_policy base.restart_policy;
  instructions = first_non_empty-Own own.instructions base.instructions;
  work_dir = first_non_empty-Own own.work_dir base.work_dir;
  own_agent_args = own_args_given own.agent_args base.agent_args;
  base_agent_args = own_args_none own.agent_args base.agent_args;
  own_env = λ k v. value_of-own k v own.env base.env;
  base_env = λ k. value_of-base k own.env base.env;
  mounts = refl;
  tools = refl;
  allow_urls = refl;
  deny_urls = refl;
  repos = refl;
  private_dirs = refl;
  skills = refl;
  audio = either base.audio own.audio;
  quiet_mode = either base.quiet_mode own.quiet_mode;
}

module _ (read : Bytes → Option Profile) where
  -- What a profile means: itself if it extends nothing, and else what lies over its base's meaning.
  pub data Means : Bytes → Profile → Type 0 where
    alone : {name : Bytes} {p : Profile} → read name ≡ some p → p.extends ≡ [] → Means name p
    above :
        {name : Bytes} {p base q : Profile}
        → read name ≡ some p
        → p.extends ≢ []
        → Means p.extends base
        → Under base p q
        → Means name q

  resolved-Means :
      (fuel : ℕ) (name : Bytes) (seen : List Bytes) (q : Profile)
      → load_profile_resolved read fuel name seen ≡ profile q
      → Means name q
  unfolding load_profile_resolved
  resolved-Means zero name seen q h = absurd (ground arith)
  resolved-Means (suc fuel) name seen q h = elim (Bool-cases (in_set name seen)) [
    | inl i ↦ absurd (ground arith)
    | inr i ↦ elim (Option-cases (read name)) [
      | inl r ↦ absurd (ground arith)
      | inr (p, r) ↦ elim (Bool-cases (bytes_eq p.extends [])) [
        | inl t ↦
            let same : p ≡ q = ground arith in
            rw (sym same) (alone r ((bytes_eq_iff p.extends []).0 t))
        | inr f ↦
            let (b, e, same) =
              onto-profile p (load_profile_resolved read fuel p.extends (name ∷ seen)) q
                (ground arith) in
            rw (sym same) (
              above r (λ z. absurd (ground (arith, (bytes_eq_iff p.extends []).1 z)))
                (resolved-Means fuel p.extends (name ∷ seen) b e) (merge_profiles-Under b p))
      ]
    ]
  ]

  -- What `LoadProfile` returns is what the chain of `extends` means: a profile that extends nothing is taken
  -- as it is, and one that extends another has its own name, its own agent, arguments, restart policy,
  -- instructions and working directory where these are not empty and the base's where they are, the base's
  -- environment under its own, the base's lists before its own, and a flag that either sets; with "never"
  -- for a restart policy that is empty in the end.
  pub load_profile-Means :
      (fuel : ℕ) (name : Bytes) (q : Profile)
      → load_profile read fuel name ≡ profile q
      → (p : Profile) × Means name p
        × (p.restart_policy ≢ [] → q ≡ p)
        × (p.restart_policy ≡ [] → q ≡ record p { restart_policy = codes "never" })
  unfolding load_profile
  load_profile-Means fuel name q h =
      let (p, e, w) = with_policy-profile (load_profile_resolved read fuel name []) q h in
      (
        p,
        resolved-Means fuel name [] p e,
        λ given. with_policy_given p q given w,
        λ missing. with_policy_none p q missing w,
      )
