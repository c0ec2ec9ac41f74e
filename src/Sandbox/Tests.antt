-- ===== src/Sandbox/Tests.antt =====
-- Restarts, attaches and allowlist edits on small examples.
use muro.Base.{Option, refl, ◌+◌, ◌%◌, false, [], ◌∷◌, none, some, Bytes, codes, in_set, ◌≡◌}
use muro.Base.{bytes_eq, has_prefix, trim_prefix, split, each, ok}
use muro.Config.{Mount}
use muro.Config.Paths.{
  clean, parts, is_abs, path_covers_or_equals, expand_home, resolve, clean_step, join, pop,
}
use muro.Config.Validate.{
  Profile, validate_profile, tool_targets, check_writable, check_mount, mounted_at, check_dirs,
  check_repo, check_worktrees, valid_policy,
}
use muro.Sandbox.Mounts.{resolve_mounts, tool_mounts}
use muro.Sandbox.Addresses.{allocate, allocated, allocate_lem}

-- the address of the first sandbox again
allocate_lem_example : (allocate (allocated 253)).0 ≡ 2 + 253 % 253
allocate_lem_example = allocate_lem 253

-- a profile with one mount
abbrev profile_of : Mount → Profile
profile_of m = record {
  name = codes "p";
  extends = [];
  agent = codes "agent";
  agent_args = [];
  mounts = m ∷ [];
  tools = [];
  allow_urls = [];
  deny_urls = [];
  env = [];
  restart_policy = [];
  git = record { repos = [] };
  audio = false;
  private_dirs = [];
  instructions = [];
  skills = [];
  work_dir = [];
  quiet_mode = false;
}

abbrev home : Option Bytes
home = some (codes "/home/u")

abbrev app : Mount
app = record { host = codes "~/app"; sandbox_path = codes "/workspace"; mode = codes "rw" }

abbrev app_mounted : Mount
app_mounted = record {
  host = codes "/home/u/app";
  sandbox_path = codes "/workspace";
  mode = codes "rw";
}

-- Validation reads a sandbox path before "~" is expanded: this one passes and becomes the sandbox's /tmp.
scaffold_by_tilde :
    resolve_mounts home none none (
      profile_of
        (record { host = codes "/srv/app"; sandbox_path = codes "~/../../tmp"; mode = codes "rw" }))
    ≡ ok (record { host = codes "/srv/app"; sandbox_path = codes "/tmp"; mode = codes "rw" } ∷ [])
unfolding resolve_mounts tool_mounts validate_profile tool_targets check_writable check_mount
    mounted_at check_dirs check_repo check_worktrees valid_policy path_covers_or_equals expand_home
    clean parts resolve clean_step is_abs join pop bytes_eq has_prefix trim_prefix split in_set each
scaffold_by_tilde = refl
