-- ===== src/State/Tests.antt =====
-- The ring and the registry on small examples.
use muro.Base.{
  true, false, [], ◌∷◌, ◌++◌, none, some, Bytes, codes, refl, ◌≡◌, bytes_eq, if◌then◌else◌,
}
use muro.State.Ring.{zero_event, new_ring, push, snapshot, last}
use muro.State.Ring.Inv.{IsValid, new_ring-IsValid, push-IsValid}
use muro.State.Ring.Refine.{keep, push_refines}
use muro.State.Store.{
  running, Json, Sandbox, key, find, Store, new_store, put, get, load, is_running, is_alive,
  reconcile, snapshot_of, persist, assign, erase,
}
use muro.State.Store.Laws.{IsKeyed, FullSize, load-put}
use muro.State.Store.Stale.{reconcile_lem}

push_refines_example :
    snapshot (push (new_ring 1) zero_event)
    ≡ keep (new_ring 1).cap (snapshot (new_ring 1) ++ zero_event ∷ [])
push_refines_example = push_refines zero_event (new_ring-IsValid 1)

push-IsValid_example : IsValid (push (new_ring 3) zero_event)
push-IsValid_example = push-IsValid zero_event (new_ring-IsValid 3)

abbrev box : Sandbox
box = record {
  id = codes "sb_1";
  name = codes "a";
  namespace = codes "n";
  profile = codes "p";
  agent = codes "agent";
  agent_args = [];
  work_dir = [];
  quiet_mode = false;
  env = [];
  pid = 7;
  state = running;
  started_at = 0;
  mounts = [];
  tools = [];
  allow_urls = [];
  restart_policy = [];
  restart_count = 0;
  git_policy = record { repos = [] };
  audio = false;
  shim_socket = [];
  net_addr = [];
  slirp_pid = 0;
  inject_socket = [];
  session_id = [];
  private_dirs = [];
  worktrees = [];
}

-- an encoding that keeps nothing
abbrev no_json : Json
no_json = record { marshal = λ snap. []; unmarshal = λ bytes. none }

abbrev one_box : Store
one_box = record (new_store no_json none) { sandboxes = (codes "n/a", box) ∷ [] }

one_box-IsKeyed : IsKeyed one_box.sandboxes
unfolding IsKeyed key find
one_box-IsKeyed = (refl, refl, tt)

-- an encoding of the one snapshot that is written below
abbrev one_json : Json
one_json = record {
  marshal = λ snap. codes "one";
  unmarshal = λ bytes.
      if bytes_eq bytes (codes "one")
      then some (record { sandboxes = box ∷ []; denied_events = [] })
      else none;
}

abbrev encoded_box : Store
encoded_box = record (new_store one_json none) { sandboxes = (codes "n/a", box) ∷ [] }

decodes :
    one_json.unmarshal (one_json.marshal (snapshot_of (put true box encoded_box).1))
    ≡ some (snapshot_of (put true box encoded_box).1)
unfolding bytes_eq put persist assign erase key snapshot last new_ring
decodes = refl

encoded_box-FullSize : FullSize encoded_box.events
unfolding new_ring
encoded_box-FullSize = (new_ring-IsValid 200, refl)

load-put_example :
    ((load (new_store one_json (put true box encoded_box).1.file)).0 ≡ true)
    × (get (codes "n") (codes "a") (load (new_store one_json (put true box encoded_box).1.file)).1
        ≡ get (codes "n") (codes "a") (put true box encoded_box).1)
    × (snapshot (load (new_store one_json (put true box encoded_box).1.file)).1.events
        ≡ snapshot encoded_box.events)
load-put_example =
    load-put box encoded_box (codes "n") (codes "a") one_box-IsKeyed encoded_box-FullSize decodes

reconcile_lem_example :
    ((reconcile (λ pid. false) (λ sb. true) (λ sbs. sbs) one_box).0 ≡ true)
    × ((k : Bytes) (sb : Sandbox)
        → find k (reconcile (λ pid. false) (λ sb. true) (λ sbs. sbs) one_box).1.sandboxes ≡ some sb
        → is_running sb.state ≡ true
        → is_alive (λ pid. false) sb.pid ≡ true)
reconcile_lem_example =
    reconcile_lem (λ pid. false) (λ sb. true) (λ sbs. sbs) one_box (λ sb sbs h. h) (λ sb. refl)
      one_box-IsKeyed
