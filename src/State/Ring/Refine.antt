-- ===== src/State/Ring/Refine.antt =====
-- The ring of internal/state/events.go as the list of the events that it holds, oldest first.
use native.Mathlib.Decide.{ℕ_discrete}
use muro.Base.{
  drop_at, drop-drop, append-nil, ltb→lt, ltb→le, drop-append_left, set, ap₂, ℕ, suc, ◌+◌, ◌-◌, ◌%◌,
  ◌≤◌, ◌<◌, ◌≡◌, List, [], ◌∷◌, ◌++◌, refl, sym, ap, ◌∙◌, length, drop, arith, ltb, if◌then◌else◌,
  append_assoc, length-append, length-drop, Bool-cases, inl, inr,
}
use native.Mathlib.Nat.{mod-mod, add-zero, mod-add-mod}
use muro.State.Ring.{
  DeniedEvent, Ring, push, read, last, snapshot, push_all, cleared, load_snapshot,
}
use muro.State.Ring.Inv.{IsValid, push-IsValid, cleared-IsValid}
use muro.State.Ring.Window.{
  window, window_congr, read-eq-window, drop-window, window-set, length-window,
}

-- The events held, as one run of slots that ends just before `next + cap`.
abbrev held : Ring → ℕ → List DeniedEvent
held r n = window r.buf r.cap (r.next + r.cap - n) n

read-eq-held : (r : Ring) (n : ℕ) → read r.buf r.cap ((r.next + r.cap - n) % r.cap) 0 n ≡ held r n
read-eq-held r n =
    read-eq-window r.buf r.cap ((r.next + r.cap - n) % r.cap) 0 n
    ∙ window_congr r.buf r.cap _ _ n (rw add-zero (mod-mod _ _))

pub snapshot-eq-held : (r : Ring) → snapshot r ≡ held r r.size
unfolding snapshot last
snapshot-eq-held r = ground (arith, read-eq-held r r.size)

-- what a bounded log does
abbrev pub keep : ℕ → List DeniedEvent → List DeniedEvent
keep cap es = drop (length es - cap) es

next_slot :
    {r : Ring} (e : DeniedEvent) (k : ℕ)
    → IsValid r
    → k < r.cap
    → held (push r e) (suc k) ≡ held r k ++ e ∷ []
unfolding push
next_slot {r} e k v h =
    window_congr (set r.buf r.next e) r.cap ((r.next + 1) % r.cap + r.cap - suc k) q (suc k) turn
    ∙ window-set r.buf r.cap r.next q k e v.storage v.next_in (omega arith) (omega arith)
  where
    q : ℕ
    q = r.next + r.cap - k

    turn : ((r.next + 1) % r.cap + r.cap - suc k) % r.cap ≡ q % r.cap
    turn =
        ap (λ t. t % r.cap) (omega arith)
        ∙ mod-add-mod (r.next + 1) r.cap (r.cap - suc k)
        ∙ ap (λ t. t % r.cap) (omega arith)

pub length-snapshot : (r : Ring) → length (snapshot r) ≡ r.size
length-snapshot r =
    rw (snapshot-eq-held r) (length-window r.buf r.cap (r.next + r.cap - r.size) r.size)

pub size-push :
    (r : Ring) (e : DeniedEvent)
    → (push r e).size ≡ (if ltb r.size r.cap then r.size + 1 else r.size)
unfolding push
size-push r e = refl

pub cap-push : (r : Ring) (e : DeniedEvent) → (push r e).cap ≡ r.cap
unfolding push
cap-push r e = refl

held-pred : {r : Ring} → IsValid r → r.size ≡ r.cap → held r (r.cap - 1) ≡ drop 1 (held r r.size)
held-pred {r} v e =
    ap₂ (window r.buf r.cap) (omega arith) (omega arith)
    ∙ sym (drop-window r.buf r.cap 1 (r.next + r.cap - r.size) r.size (omega arith))

pub keep_all : (m : ℕ) (es : List DeniedEvent) → length es ≤ m → keep m es ≡ es
keep_all m es h = drop_at (length es - m) 0 es (omega arith)

push-room :
    {r : Ring} (e : DeniedEvent)
    → IsValid r
    → r.size < r.cap
    → snapshot (push r e) ≡ snapshot r ++ e ∷ []
push-room {r} e v h =
    snapshot-eq-held (push r e)
    ∙ ap (held (push r e)) grown_size
    ∙ next_slot e r.size v h
    ∙ ap (λ s. s ++ e ∷ []) (sym (snapshot-eq-held r))
  where
    grown_size : (push r e).size ≡ suc r.size
    grown_size = ground (arith, size-push r e)

push-full :
    {r : Ring} (e : DeniedEvent)
    → IsValid r
    → r.size ≡ r.cap
    → snapshot (push r e) ≡ drop 1 (snapshot r) ++ e ∷ []
push-full {r} e v h =
    snapshot-eq-held (push r e)
    ∙ ap (held (push r e)) full_size
    ∙ next_slot e (r.cap - 1) v (omega arith)
    ∙ ap (λ s. s ++ e ∷ []) (held-pred v h ∙ ap (drop 1) (sym (snapshot-eq-held r)))
  where
    full_size : (push r e).size ≡ suc (r.cap - 1)
    full_size = ground (arith, size-push r e)

-- `Push` on a valid ring appends the event, and drops the oldest one exactly when the ring is full.
pub push_refines :
    {r : Ring} (e : DeniedEvent)
    → IsValid r
    → snapshot (push r e) ≡ keep r.cap (snapshot r ++ e ∷ [])
push_refines {r} e v = elim (Bool-cases (ltb r.size r.cap)) [
  | inl room ↦
      push-room e v (ground arith)
      ∙ sym (keep_all r.cap _ (omega (arith, grown, ltb→lt r.size r.cap room)))
  | inr full ↦
      push-full e v (ground arith)
      ∙ sym (
          drop_at (length (snapshot r ++ e ∷ []) - r.cap) 1 _
            (omega (arith, grown, ltb→le r.size r.cap full))
          ∙ drop-append_left 1 (snapshot r) (e ∷ [])
              (omega (arith, length-snapshot r, ltb→le r.size r.cap full)))
]
  where
    grown : length (snapshot r ++ e ∷ []) ≡ r.size + 1
    grown = omega (arith, length-append (snapshot r) (e ∷ []), length-snapshot r)

-- On a valid ring, `Last n` is the end of the snapshot: its latest `n` events, or all of them if
-- there are fewer.
pub last_lem : {r : Ring} (n : ℕ) → IsValid r → last r n ≡ drop (r.size - n) (snapshot r)
unfolding last
last_lem {r} n v = elim (Bool-cases (ltb r.size n)) [
  | inl more ↦
      ground (arith, read-eq-held r r.size, snapshot-eq-held r, dropped (r.size - n) (omega arith))
  | inr fits ↦ elim (ℕ_discrete n 0) [
    | yes z ↦ ground (arith, dropped r.size)
    | no nz ↦ ground (arith, read-eq-held r n, dropped (r.size - n))
  ]
]
  where
    dropped : (d : ℕ) → d ≤ r.size → held r (r.size - d) ≡ drop d (snapshot r)
    dropped d h =
        ap₂ (window r.buf r.cap) (omega arith) (omega arith)
        ∙ sym (drop-window r.buf r.cap d (r.next + r.cap - r.size) r.size h)
        ∙ ap (drop d) (sym (snapshot-eq-held r))

keep-keep : (m : ℕ) (xs ys : List DeniedEvent) → keep m (keep m xs ++ ys) ≡ keep m (xs ++ ys)
keep-keep m xs ys =
    ap (keep m) (sym (drop-append_left (length xs - m) xs ys (omega arith)))
    ∙ drop-drop _ (length xs - m) (xs ++ ys)
    ∙ drop_at (length xs - m + (length (drop (length xs - m) (xs ++ ys)) - m)) _ (xs ++ ys)
        (omega (arith, length-drop (length xs - m) (xs ++ ys), length-append xs ys))

push_all_refines :
    (r : Ring) (es : List DeniedEvent)
    → IsValid r
    → snapshot (push_all r es) ≡ keep r.cap (snapshot r ++ es)
unfolding push_all
push_all_refines r [] v =
    rw (append-nil, keep_all r.cap (snapshot r) (omega (arith, length-snapshot r)))
push_all_refines r (e ∷ es) v =
    push_all_refines (push r e) es (push-IsValid e v)
    ∙ ap (λ c. keep c (snapshot (push r e) ++ es)) (cap-push r e)
    ∙ ap (λ s. keep r.cap (s ++ es)) (push_refines e v)
    ∙ keep-keep r.cap (snapshot r ++ e ∷ []) es
    ∙ ap (keep r.cap) (append_assoc (snapshot r) (e ∷ []) es)

snapshot-cleared : (r : Ring) → snapshot (cleared r) ≡ []
unfolding snapshot last cleared
snapshot-cleared r = ground arith

cap-cleared : (r : Ring) → (cleared r).cap ≡ r.cap
unfolding cleared
cap-cleared r = refl

-- `LoadSnapshot` on a valid ring leaves it holding the latest `cap` of the events it is given,
-- whatever it held before.
pub load_snapshot_lem :
    {r : Ring} (es : List DeniedEvent) → IsValid r → snapshot (load_snapshot r es) ≡ keep r.cap es
unfolding load_snapshot
load_snapshot_lem {r} es v =
    push_all_refines (cleared r) es (cleared-IsValid v)
    ∙ ap (λ s. keep (cleared r).cap (s ++ es)) (snapshot-cleared r)
    ∙ ap (λ c. keep c es) (cap-cleared r)
