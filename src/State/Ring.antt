-- ===== src/State/Ring.antt =====
-- internal/state/events.go: the fixed-capacity ring of denied network requests. A method that
-- updates `*r` returns the new ring. The lock is not modelled: each method runs under it whole.
pub mod Window
pub mod Inv
pub mod Refine
use muro.Base.{
  ℕ, zero, suc, ◌+◌, ◌-◌, ◌%◌, List, [], ◌∷◌, map, Bytes, get_or, set, replicate, ltb, ◌==◌,
  if◌then◌else◌,
}

-- `DeniedEvent`. A time is a number of nanoseconds.
pub record DeniedEvent : Type 0 where
  pub namespace : Bytes
  pub name : Bytes
  pub host : Bytes
  pub url : Bytes
  pub timestamp : ℕ

-- `DeniedEvent{}`, the zero value
abbrev pub zero_event : DeniedEvent
zero_event = record { namespace = []; name = []; host = []; url = []; timestamp = 0 }

-- `Ring`
pub record Ring : Type 0 where
  pub buf : List DeniedEvent
  pub cap : ℕ
  pub next : ℕ
  pub size : ℕ

-- `NewRing`. A negative capacity takes the branch of 0.
unfoldable pub new_ring : ℕ → Ring
new_ring cap =
    let c = if cap == 0 then 1 else cap in
    record { buf = replicate c zero_event; cap = c; next = 0; size = 0 }

-- `Ring.Push`
unfoldable pub push : Ring → DeniedEvent → Ring
push r e = record r {
  buf = set r.buf r.next e;
  next = (r.next + 1) % r.cap;
  size = if ltb r.size r.cap then r.size + 1 else r.size;
}

-- The loop of `Last`: `out[i] = r.buf[(start+i)%r.cap]`, with the rounds that are left.
unfoldable pub read : List DeniedEvent → ℕ → ℕ → ℕ → ℕ → List DeniedEvent
read buf cap start i zero = []
read buf cap start i (suc k) =
    get_or buf ((start + i) % cap) zero_event ∷ read buf cap start (i + 1) k

-- `Ring.Last`. `(r.next - n + r.cap) % r.cap` is written so that the difference stays a number.
unfoldable pub last : Ring → ℕ → List DeniedEvent
last r n =
    let m = if ltb r.size n then r.size else n in
    if m == 0 then [] else read r.buf r.cap ((r.next + r.cap - m) % r.cap) 0 m

-- `Ring.Snapshot`
unfoldable pub snapshot : Ring → List DeniedEvent
unfolding last
snapshot r = last r r.size

-- The second loop of `LoadSnapshot`, whose body is that of `Push`.
unfoldable pub push_all : Ring → List DeniedEvent → Ring
push_all r [] = r
push_all r (e ∷ es) = push_all (push r e) es

-- The first loop of `LoadSnapshot` and the two resets above it.
unfoldable pub cleared : Ring → Ring
cleared r = record r { buf = map (λ _. zero_event) r.buf; next = 0; size = 0 }

-- `Ring.LoadSnapshot`
unfoldable pub load_snapshot : Ring → List DeniedEvent → Ring
unfolding cleared push_all
load_snapshot r events = push_all (cleared r) events
