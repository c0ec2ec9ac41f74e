-- ===== src/Sandbox/Manager/Host.antt =====
-- A host that grants everything, for the tests.
use muro.Base.{true, false, [], none, some, codes}
use muro.Config.Validate.{Profile}
use muro.State.Store.{Json}
use muro.Sandbox.Manager.{Env, Handle}

-- an encoding that keeps nothing
abbrev pub no_json : Json
no_json = record { marshal = λ snap. []; unmarshal = λ bytes. none }

abbrev pub process : Handle
process = record { pid = 7; network_addr = none; shim = none; stdio = true }

-- a host on which everything succeeds
abbrev pub host : Env
host = record {
  has_proxy = true;
  has_publisher = true;
  has_subscriber = false;
  can_reattach = true;
  pub_state_dir = [];
  state_dir = [];
  max_restart_attempts = 5;
  profile_count = 0;
  home = none;
  config_dir = none;
  daemon_state_dir = none;
  runtime_dir = [];
  profiles_dir = some (codes "/p");
  now = λ t. 3;
  new_id = λ t. some (codes "id");
  new_session = λ t. some (codes "s");
  disk = λ t. true;
  sort = λ sbs. sbs;
  read_profile = λ t n. none;
  stat = λ t p. none;
  read_dir = λ t p. none;
  makes_dir = λ t p. true;
  creates_worktree = λ t r w b. some (codes "main");
  launches = λ t spec. some process;
  stops = λ t h. true;
  remounts = λ t h ms. some true;
  reattaches = λ t sb. some process;
  listens = λ t p. true;
  subscribes = λ t ns n. true;
  has_unmerged = λ t wt. some false;
  merges = λ t wt. none;
  prunes = λ t wt. true;
}

abbrev pub profile : Profile
profile = record {
  name = codes "p";
  extends = [];
  agent = [];
  agent_args = [];
  mounts = [];
  tools = [];
  allow_urls = [];
  deny_urls = [];
  env = [];
  restart_policy = [];
  git = record { repos = [] };
  audio = false;
  private_dirs = [];
  instructions = [];
  skills = [];
  work_dir = [];
  quiet_mode = false;
}
