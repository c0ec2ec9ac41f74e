-- ===== src/Sandbox/Manager/Books.antt =====
-- internal/sandbox/manager.go: the handles, epochs and watchers of the manager, and the moves that its
-- operations make on them.
use muro.Base.{
  ℕ, ◌+◌, ◌≤◌, false, List, [], ◌∷◌, ◌++◌, some, Bytes, bytes_eq, bytes_eq_iff, bytes_eq_refl, refl,
  sym, ap, ◌≡◌, ◌≢◌, inl, inr, arith, Bool-cases, All,
}
use muro.State.Store.{key}
use muro.Sandbox.Manager.{Manager, Watcher, Handle}
use muro.Sandbox.Manager.Actions.{at, without, epoch_of}

pub record Books : Type 0 where
  pub handles : List (Bytes × Handle)
  pub epoch : List (Bytes × ℕ)
  pub watchers : List Watcher

abbrev pub books : Manager → Books
books m = record { handles = m.handles; epoch = m.epoch; watchers = m.watchers }

abbrev pub key_of : Watcher → Bytes
key_of w = key w.namespace w.name

-- a new process with its watcher, and the end of one
abbrev pub enlisted : Bytes → Bytes → Handle → Books → Books
enlisted namespace name h b =
    let k = key namespace name in
    let n = epoch_of k b.epoch + 1 in
    record {
      handles = (k, h) ∷ b.handles;
      epoch = (k, n) ∷ b.epoch;
      watchers = record { namespace = namespace; name = name; handle = h; epoch = n } ∷ b.watchers;
    }

abbrev pub cleared : Bytes → Books → Books
cleared k b = record b {
  handles = without k b.handles;
  epoch = (k, epoch_of k b.epoch + 1) ∷ b.epoch;
}

pub data Moves (b : Books) : Books → Type 0 where
  stay : Moves b b
  enlist :
      {c : Books} (namespace name : Bytes) (h : Handle)
      → Moves b c
      → Moves b (enlisted namespace name h c)
  clear : {c : Books} (k : Bytes) → Moves b c → Moves b (cleared k c)

pub Moves-trans : {a b c : Books} → Moves a b → Moves b c → Moves a c
Moves-trans p stay = p
Moves-trans p (enlist namespace name h q) = enlist namespace name h (Moves-trans p q)
Moves-trans p (clear k q) = clear k (Moves-trans p q)

-- a watcher's epoch has been given out, and while it is the current one its process is the one that
-- the manager holds
abbrev pub InOrder : Books → Watcher → Type 0
InOrder b w =
    (w.epoch ≤ epoch_of (key_of w) b.epoch)
    × (epoch_of (key_of w) b.epoch ≡ w.epoch → at (key_of w) b.handles ≡ some w.handle)

abbrev pub Apart : Watcher → Watcher → Type 0
Apart v w = (key_of v ≡ key_of w) → (v.epoch ≢ w.epoch)

unfoldable pub Distinct : List Watcher → Type 0
Distinct [] = Unit
Distinct (w ∷ ws) = All (Apart w) ws × Distinct ws

abbrev pub Valid : Books → Type 0
Valid b = All (InOrder b) b.watchers × Distinct b.watchers

All-map :
    {A : Type 0} {P Q : A → Type 0} → ((a : A) → P a → Q a) → (xs : List A) → All P xs → All Q xs
All-map f [] h = tt
All-map f (x ∷ xs) (p, h) = (f x p, All-map f xs h)

-- a new epoch of one key puts every watcher of that key behind, and leaves the others alone
bumped-InOrder :
    (k : Bytes) (handles : List (Bytes × Handle)) (watchers : List Watcher) (b : Books)
    → ((j : Bytes) → bytes_eq k j ≡ false → at j handles ≡ at j b.handles)
    → (w : Watcher) → InOrder b w
    → InOrder
        (record {
          handles = handles;
          epoch = (k, epoch_of k b.epoch + 1) ∷ b.epoch;
          watchers = watchers;
        })
        w
unfolding epoch_of
bumped-InOrder k handles watchers b same w (p, q) = elim (Bool-cases (bytes_eq k (key_of w))) [
  | inl e ↦
      let f = (bytes_eq_iff k (key_of w)).0 e in
      let g = ap (λ j. epoch_of j b.epoch) f in
      rw (e, g) (omega (arith, p), λ h. absurd (omega (arith, p, h)))
  | inr e ↦ rw (e, same (key_of w) e) (p, q)
]

at-without :
    (k j : Bytes) (m : List (Bytes × Handle)) → bytes_eq k j ≡ false → at j (without k m) ≡ at j m
unfolding at without
at-without k j [] h = refl
at-without k j ((i, a) ∷ m) h =
    ground (arith, at-without k j m h, bytes_eq_iff i j, bytes_eq_iff i k, bytes_eq_iff k j)

-- a key bumped is a key whose watchers are all behind
bumped-Apart :
    (v : Watcher) (b : Books)
    → v.epoch ≡ epoch_of (key_of v) b.epoch + 1
    → (w : Watcher) → InOrder b w
    → Apart v w
bumped-Apart v b e w (p, q) same h =
    let g = ap (λ j. epoch_of j b.epoch) same in absurd (omega (arith, p, e, g, h))

pub Moves-Valid : {b c : Books} → Moves b c → Valid b → Valid c
unfolding Distinct at epoch_of
Moves-Valid stay h = h
Moves-Valid (enlist {c} namespace name h p) v =
    let (orders, distinct) = Moves-Valid p v in
    let k = key namespace name in
    let w : Watcher = record {
      namespace = namespace;
      name = name;
      handle = h;
      epoch = epoch_of k c.epoch + 1;
    } in
    let moved =
      bumped-InOrder k ((k, h) ∷ c.handles) (w ∷ c.watchers) c (λ j e. ground (arith, e)) in
    (
      (rw (bytes_eq_refl k) (omega arith, λ _. refl), All-map moved c.watchers orders),
      (All-map (bumped-Apart w c refl) c.watchers orders, distinct),
    )
Moves-Valid (clear {c} k p) v =
    let (orders, distinct) = Moves-Valid p v in
    (
      All-map
          (bumped-InOrder k (without k c.handles) c.watchers c (λ j e. at-without k j c.handles e))
          c.watchers orders,
      distinct,
    )

All-drop :
    {A : Type 0} (P : A → Type 0) (xs : List A) (y : A) (ys : List A)
    → All P (xs ++ y ∷ ys)
    → All P (xs ++ ys)
All-drop P [] y ys (p, h) = h
All-drop P (x ∷ xs) y ys (p, h) = (p, All-drop P xs y ys h)

Distinct-drop :
    (xs : List Watcher) (y : Watcher) (ys : List Watcher)
    → Distinct (xs ++ y ∷ ys)
    → Distinct (xs ++ ys)
unfolding Distinct
Distinct-drop [] y ys (p, h) = h
Distinct-drop (x ∷ xs) y ys (p, h) = (All-drop (Apart x) xs y ys p, Distinct-drop xs y ys h)

-- a watcher that ends
pub drop-Valid :
    (b : Books) (before after : List Watcher) (w : Watcher)
    → b.watchers ≡ before ++ w ∷ after
    → Valid b
    → Valid (record b { watchers = before ++ after })
drop-Valid b before after w e (orders, distinct) = (
  All-drop (InOrder b) before w after (rw (sym e) orders),
  Distinct-drop before w after (rw (sym e) distinct),
)

-- the epochs of a move only grow
pub Moves-epoch : {b c : Books} → Moves b c → (k : Bytes) → epoch_of k b.epoch ≤ epoch_of k c.epoch
unfolding epoch_of
Moves-epoch stay k = omega arith
Moves-epoch (enlist {c} namespace name h p) k =
    let j = key namespace name in let i = Moves-epoch p k in ground (arith, i, bytes_eq_iff j k)
Moves-epoch (clear {c} j p) k = let i = Moves-epoch p k in ground (arith, i, bytes_eq_iff j k)

pub Moves-InOrder : {b c : Books} → Moves b c → (w : Watcher) → InOrder b w → InOrder c w
unfolding at epoch_of
Moves-InOrder stay w h = h
Moves-InOrder (enlist {c} namespace name h p) w q =
    let k = key namespace name in
    bumped-InOrder k ((k, h) ∷ c.handles) c.watchers c (λ j e. ground (arith, e)) w
      (Moves-InOrder p w q)
Moves-InOrder (clear {c} k p) w q =
    bumped-InOrder k (without k c.handles) c.watchers c (λ j e. at-without k j c.handles e) w
      (Moves-InOrder p w q)
