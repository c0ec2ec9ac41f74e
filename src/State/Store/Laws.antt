-- ===== src/State/Store/Laws.antt =====
-- The registry of internal/state/store.go as a map from namespace and name, and its state file.
use muro.Base.{
  Bool, true, false, ◌&&◌, [], ◌∷◌, Option, none, some, Bytes, bytes_eq, bytes_eq_iff,
  bytes_eq_refl, if◌then◌else◌, refl, sym, ap, ap₂, ◌∙◌, ◌≡◌, arith, inl, inr, Bool-cases,
  contains_byte, cut, cut-append,
}
use muro.State.Ring.{Ring, new_ring, snapshot}
use muro.State.Ring.Inv.{IsValid, new_ring-IsValid}
use muro.State.Ring.Refine.{length-snapshot, keep_all, load_snapshot_lem}
use muro.State.Store.{
  Sandbox, key, Registry, find, erase, assign, Store, new_store, values, snapshot_of, persist, put,
  get, delete, load_all, load,
}

pub key_injective :
    (n m n' m' : Bytes)
    → contains_byte n b'/' ≡ false
    → contains_byte n' b'/' ≡ false
    → key n m ≡ key n' m'
    → (n ≡ n') × (m ≡ m')
unfolding key
key_injective n m n' m' p q h =
    let e : some (n, m) ≡ some (n', m') =
      sym (cut-append b'/' n m p) ∙ ap (cut b'/') h ∙ cut-append b'/' n' m' q in
    (cc (e), cc (e))

find-erase :
    (k j : Bytes) (m : Registry) → find k (erase j m) ≡ (if bytes_eq j k then none else find k m)
unfolding find erase
find-erase k j [] = ground arith
find-erase k j ((i, sb) ∷ m) =
    ground (arith, find-erase k j m, bytes_eq_iff i j, bytes_eq_iff i k, bytes_eq_iff j k)

pub find-assign :
    (k j : Bytes) (sb : Sandbox) (m : Registry)
    → find k (assign j sb m) ≡ (if bytes_eq j k then some sb else find k m)
unfolding assign find
find-assign k j sb m = ground (arith, find-erase k j m)

pub put_sandboxes :
    (disk : Bool) (sb : Sandbox) (s : Store)
    → (put disk sb s).1.sandboxes ≡ assign (key sb.namespace sb.name) sb s.sandboxes
unfolding put persist
put_sandboxes true sb s = refl
put_sandboxes false sb s = refl

delete_sandboxes :
    (disk : Bool) (n m : Bytes) (s : Store)
    → (delete disk n m s).1.sandboxes ≡ erase (key n m) s.sandboxes
unfolding delete persist
delete_sandboxes true n m s = refl
delete_sandboxes false n m s = refl

same_key :
    (n m n' m' : Bytes)
    → contains_byte n b'/' ≡ false
    → contains_byte n' b'/' ≡ false
    → bytes_eq (key n m) (key n' m') ≡ (bytes_eq n n' && bytes_eq m m')
same_key n m n' m' p q = elim (Bool-cases (bytes_eq (key n m) (key n' m'))) [
  | inl e ↦
      let (a, b) = key_injective n m n' m' p q ((bytes_eq_iff (key n m) (key n' m')).0 e) in
      ground (arith, bytes_eq_iff n n', bytes_eq_iff m m')
  | inr e ↦ elim (Bool-cases (bytes_eq n n' && bytes_eq m m')) [
    | inl f ↦
        let same =
          ap₂ key ((bytes_eq_iff n n').0 (ground arith)) ((bytes_eq_iff m m').0 (ground arith)) in
        absurd (ground (arith, (bytes_eq_iff (key n m) (key n' m')).1 same))
    | inr f ↦ e ∙ sym f
  ]
]

-- For namespaces without a slash: after a `Put` the record is found under its own namespace and
-- name and every other record is as it was, whether or not the state file was written.
pub put_lem :
    (disk : Bool) (sb : Sandbox) (s : Store) (namespace name : Bytes)
    → contains_byte sb.namespace b'/' ≡ false
    → contains_byte namespace b'/' ≡ false
    → get namespace name (put disk sb s).1 ≡ (
        if bytes_eq sb.namespace namespace && bytes_eq sb.name name
        then some sb
        else get namespace name s)
unfolding get
put_lem disk sb s namespace name p q =
    ap (find (key namespace name)) (put_sandboxes disk sb s)
    ∙ find-assign (key namespace name) (key sb.namespace sb.name) sb s.sandboxes
    ∙ ap (λ b. if b then some sb else find (key namespace name) s.sandboxes)
        (same_key sb.namespace sb.name namespace name p q)

-- For namespaces without a slash: after a `Delete` the record is gone and every other record is as
-- it was, whether or not the state file was written.
pub delete_lem :
    (disk : Bool) (n m : Bytes) (s : Store) (namespace name : Bytes)
    → contains_byte n b'/' ≡ false
    → contains_byte namespace b'/' ≡ false
    → get namespace name (delete disk n m s).1
      ≡ (if bytes_eq n namespace && bytes_eq m name then none else get namespace name s)
unfolding get
delete_lem disk n m s namespace name p q =
    ap (find (key namespace name)) (delete_sandboxes disk n m s)
    ∙ find-erase (key namespace name) (key n m) s.sandboxes
    ∙ ap (λ b. if b then none else find (key namespace name) s.sandboxes)
        (same_key n m namespace name p q)

pub get-delete_self : (disk : Bool) (n m : Bytes) (s : Store) → get n m (delete disk n m s).1 ≡ none
unfolding get
get-delete_self disk n m s =
    ap (find (key n m)) (delete_sandboxes disk n m s)
    ∙ find-erase (key n m) (key n m) s.sandboxes
    ∙ ap (λ b. if b then none else find (key n m) s.sandboxes) (bytes_eq_refl (key n m))

-- Every entry of the registry stands under the key of its own namespace and name, and once.
unfoldable pub IsKeyed : Registry → Type 0
IsKeyed [] = Unit
IsKeyed ((k, sb) ∷ m) = (k ≡ key sb.namespace sb.name) × (find k m ≡ none) × IsKeyed m

erase-IsKeyed : (j : Bytes) (m : Registry) → IsKeyed m → IsKeyed (erase j m)
unfolding IsKeyed erase
erase-IsKeyed j [] h = tt
erase-IsKeyed j ((k, sb) ∷ m) (e, n, h) = elim (Bool-cases (bytes_eq k j)) [
  | inl q ↦ rw (q) (erase-IsKeyed j m h)
  | inr q ↦ rw (q) (e, find-erase k j m ∙ ground arith, erase-IsKeyed j m h)
]

assign-IsKeyed :
    (sb : Sandbox) (m : Registry) → IsKeyed m → IsKeyed (assign (key sb.namespace sb.name) sb m)
unfolding IsKeyed assign
assign-IsKeyed sb m h =
    let k = key sb.namespace sb.name in
    (refl, find-erase k k m ∙ ground (arith, bytes_eq_refl k), erase-IsKeyed k m h)

-- `Put` and `Delete` keep every entry under its own key.
pub put-delete-IsKeyed :
    (disk : Bool) (sb : Sandbox) (n m : Bytes) (s : Store)
    → IsKeyed s.sandboxes
    → IsKeyed (put disk sb s).1.sandboxes × IsKeyed (delete disk n m s).1.sandboxes
put-delete-IsKeyed disk sb n m s h = (
  rw (put_sandboxes) (assign-IsKeyed sb s.sandboxes h),
  rw (delete_sandboxes) (erase-IsKeyed (key n m) s.sandboxes h),
)

find-load_all :
    (m acc : Registry) (k : Bytes)
    → IsKeyed m
    → find k (load_all (values m) acc) ≡ elim (find k m) [ some sb ↦ some sb | none ↦ find k acc ]
unfolding load_all find IsKeyed
find-load_all [] acc k h = refl
find-load_all ((j, sb) ∷ m) acc k (e, n, h) =
    find-load_all m (assign (key sb.namespace sb.name) sb acc) k h
    ∙ ground (arith, find-assign k j sb acc, bytes_eq_iff j k)

or_none : (o : Option Sandbox) → elim o [ some sb ↦ some sb | none ↦ none ] ≡ o
or_none none = refl
or_none (some sb) = refl

-- a ring of the capacity that every store has
abbrev pub FullSize : Ring → Type 0
FullSize r = IsValid r × (r.cap ≡ 200)

-- When every entry of a store stands under its own key, its ring is well-formed with 200 places, and the
-- decoder gives back the snapshot that a successful `Put` wrote: `Load` in a fresh store reads that file
-- without an error, every sandbox is found there as in the store that wrote it, and the denied events are
-- the same.
pub load-put :
    (sb : Sandbox) (s : Store) (namespace name : Bytes)
    → IsKeyed s.sandboxes
    → FullSize s.events
    → s.json.unmarshal (s.json.marshal (snapshot_of (put true sb s).1))
      ≡ some (snapshot_of (put true sb s).1)
    → ((load (new_store s.json (put true sb s).1.file)).0 ≡ true)
      × (get namespace name (load (new_store s.json (put true sb s).1.file)).1
          ≡ get namespace name (put true sb s).1)
      × (snapshot (load (new_store s.json (put true sb s).1.file)).1.events ≡ snapshot s.events)
unfolding get load put persist assign find new_ring
load-put sb s namespace name h (v, c) e =
    let m = assign (key sb.namespace sb.name) sb s.sandboxes in
    let k = key namespace name in
    let size = v.size_in in
    let all = keep_all 200 (snapshot s.events) (omega (arith, length-snapshot s.events, size, c)) in
    rw (e, load)
      (
        refl,
        find-load_all m [] k (assign-IsKeyed sb s.sandboxes h) ∙ or_none (find k m),
        load_snapshot_lem (snapshot s.events) (new_ring-IsValid 200) ∙ all,
      )
