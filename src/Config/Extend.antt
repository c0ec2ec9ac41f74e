-- ===== src/Config/Extend.antt =====
-- internal/config/profile.go: a profile that extends another. `read` is LoadProfileRaw, `none` its error:
-- the profiles' files do not change while one is loaded. A map is the list of its keys and values, of
-- which the first for a key counts.
pub mod Chain
pub mod Fields
use muro.Base.{
  ℕ, zero, suc, Bool, true, false, ◌||◌, List, [], ◌∷◌, ◌++◌, Option, none, some, Bytes, codes,
  bytes_eq, in_set, if◌then◌else◌,
}
use muro.Config.Validate.{Profile}

-- `firstNonEmpty`
abbrev pub first_non_empty : Bytes → Bytes → Bytes
first_non_empty a b = if bytes_eq a [] then b else a

-- `mergeEnv`
unfoldable pub merge_env : List (Bytes × Bytes) → List (Bytes × Bytes) → List (Bytes × Bytes)
merge_env base child = child ++ base

-- the arguments of the child, or else those of the base
abbrev pub own_args : List Bytes → List Bytes → List Bytes
own_args [] base = base
own_args (a ∷ as_given) base = a ∷ as_given

-- `mergeProfiles`
unfoldable pub merge_profiles : Profile → Profile → Profile
unfolding merge_env
merge_profiles base child = record {
  name = child.name;
  extends = [];
  agent = first_non_empty child.agent base.agent;
  agent_args = own_args child.agent_args base.agent_args;
  mounts = base.mounts ++ child.mounts;
  tools = base.tools ++ child.tools;
  allow_urls = base.allow_urls ++ child.allow_urls;
  deny_urls = base.deny_urls ++ child.deny_urls;
  env = merge_env base.env child.env;
  restart_policy = first_non_empty child.restart_policy base.restart_policy;
  git = record { repos = base.git.repos ++ child.git.repos };
  audio = base.audio || child.audio;
  private_dirs = base.private_dirs ++ child.private_dirs;
  instructions = first_non_empty child.instructions base.instructions;
  skills = base.skills ++ child.skills;
  work_dir = first_non_empty child.work_dir base.work_dir;
  quiet_mode = base.quiet_mode || child.quiet_mode;
}

-- What loading a profile gives: it, the error of a cycle, the error of reading one of the files, or,
-- in the model only, no result for want of fuel.
pub data Loaded : Type 0 where
  profile : Profile → Loaded
  cycle : Loaded
  unreadable : Loaded
  out_of_fuel : Loaded

-- the last step: `mergeProfiles` on the base, or its error
abbrev pub onto : Profile → Loaded → Loaded
onto p (profile base) = profile (merge_profiles base p)
onto p cycle = cycle
onto p unreadable = unreadable
onto p out_of_fuel = out_of_fuel

-- the default that `LoadProfile` fills in
abbrev pub with_policy : Loaded → Loaded
with_policy (profile p) = profile (record p {
  restart_policy = if bytes_eq p.restart_policy [] then codes "never" else p.restart_policy;
})
with_policy cycle = cycle
with_policy unreadable = unreadable
with_policy out_of_fuel = out_of_fuel

module _ (read : Bytes → Option Profile) where
  -- `loadProfileResolved`
  unfoldable pub load_profile_resolved : ℕ → Bytes → List Bytes → Loaded
  load_profile_resolved zero name seen = out_of_fuel
  load_profile_resolved (suc fuel) name seen = elim (in_set name seen) [
    | true ↦ cycle
    | false ↦ elim (read name) [
      | none ↦ unreadable
      | some p ↦ elim (bytes_eq p.extends []) [
        | true ↦ profile p
        | false ↦ onto p (load_profile_resolved fuel p.extends (name ∷ seen))
      ]
    ]
  ]

  -- `LoadProfile`
  unfoldable pub load_profile : ℕ → Bytes → Loaded
  unfolding load_profile_resolved
  load_profile fuel name = with_policy (load_profile_resolved fuel name [])
