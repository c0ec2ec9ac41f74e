-- ===== src/Config/Tests.antt =====
-- Paths and profiles on small examples.
use muro.Base.{
  true, false, [], ◌∷◌, none, some, Bytes, codes, refl, ◌≡◌, ◌≢◌, ◌++◌, Option, in_set,
  if◌then◌else◌, bytes_eq_iff, arith, All, bytes_eq, has_prefix, split, in_set, each,
}
use muro.Config.Extend.{load_profile_resolved, load_profile, merge_profiles, merge_env}
use muro.Config.Extend.Fields.{Means, load_profile-Means}
use muro.Config.Paths.{
  clean, parts, is_abs, path_covers_or_equals, expand_home, resolve, clean_step, join, pop,
}
use muro.Config.Paths.Clean.{IsNormal, clean-clean}
use muro.Config.Validate.{
  Profile, validate_profile, tool_targets, check_writable, check_mount, mounted_at, check_dirs,
  check_repo, check_worktrees, valid_policy,
}
use muro.Config.Validate.Sound.{Safe, validate_profile-Safe}

clean-clean_example :
    (clean (clean (codes "/a/../b/")) ≡ clean (codes "/a/../b/"))
    × All IsNormal (parts (clean (codes "/a/../b/")))
unfolding is_abs has_prefix
clean-clean_example = clean-clean (codes "/a/../b/") refl

abbrev app_profile : Profile
app_profile = record {
  name = codes "p";
  extends = [];
  agent = codes "agent";
  agent_args = [];
  mounts =
      record { host = codes "/srv/app"; sandbox_path = codes "/workspace"; mode = codes "rw" } ∷ [];
  tools = record { host = codes "/usr/bin/git"; as_name = codes "git" } ∷ [];
  allow_urls = [];
  deny_urls = [];
  env = [];
  restart_policy = [];
  git = record { repos = [] };
  audio = false;
  private_dirs = [];
  instructions = [];
  skills = [];
  work_dir = codes "/workspace";
  quiet_mode = false;
}

validate_profile-Safe_example :
    All (Safe (some (codes "/home/u")) none none app_profile.tools) app_profile.mounts
unfolding validate_profile tool_targets check_writable check_mount mounted_at check_dirs check_repo
    check_worktrees valid_policy path_covers_or_equals expand_home clean parts resolve clean_step
    is_abs join pop bytes_eq has_prefix split in_set each
validate_profile-Safe_example =
    validate_profile-Safe (some (codes "/home/u")) none none app_profile refl

-- a directory in which "a" extends "p"
abbrev read_two : Bytes → Option Profile
read_two name =
    if bytes_eq name (codes "p")
    then some app_profile
    else if bytes_eq name (codes "a")
    then some (record app_profile { name = codes "a"; extends = codes "p" })
    else none

read_two-listed :
    (n : Bytes) (p : Profile) → read_two n ≡ some p → in_set n (codes "p" ∷ codes "a" ∷ []) ≡ true
unfolding in_set
read_two-listed n p h = ground (
  arith,
  bytes_eq_iff n (codes "p"),
  bytes_eq_iff n (codes "a"),
  bytes_eq_iff (codes "p") n,
  bytes_eq_iff (codes "a") n,
)

-- what "a" comes to, over "p"
abbrev a_profile : Profile
a_profile = record app_profile {
  name = codes "a";
  mounts = app_profile.mounts ++ app_profile.mounts;
  tools = app_profile.tools ++ app_profile.tools;
  restart_policy = codes "never";
}

load_profile-Means_example :
    (p : Profile) × Means read_two (codes "a") p
    × (p.restart_policy ≢ [] → a_profile ≡ p)
    × (p.restart_policy ≡ [] → a_profile ≡ record p { restart_policy = codes "never" })
unfolding load_profile load_profile_resolved in_set bytes_eq merge_profiles merge_env
load_profile-Means_example = load_profile-Means read_two 3 (codes "a") a_profile refl
