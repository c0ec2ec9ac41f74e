-- ===== src/State/Ring/Inv.antt =====
-- The representation invariant of `Ring`.
use muro.Base.{
  ℕ, ◌≤◌, ◌<◌, ◌≡◌, List, [], ◌∷◌, map, refl, ap, length, arith, length-set, length-replicate, suc,
}
use muro.State.Ring.{
  DeniedEvent, zero_event, Ring, new_ring, push, push_all, cleared, load_snapshot,
}

pub record IsValid (r : Ring) : Type 0 where
  pub storage : length r.buf ≡ r.cap
  pub next_in : r.next < r.cap
  pub size_in : r.size ≤ r.cap

pub new_ring-IsValid : (n : ℕ) → IsValid (new_ring n)
unfolding new_ring
new_ring-IsValid n = ground (arith, length-replicate n zero_event)

pub push-IsValid : {r : Ring} (e : DeniedEvent) → IsValid r → IsValid (push r e)
unfolding push
push-IsValid {r} e v = ground (arith, length-set r.buf r.next e)

pub push_all-IsValid : {r : Ring} (es : List DeniedEvent) → IsValid r → IsValid (push_all r es)
unfolding push_all
push_all-IsValid {r} [] v = v
push_all-IsValid {r} (e ∷ es) v = push_all-IsValid {r = push r e} es (push-IsValid e v)

length-zeroed : (xs : List DeniedEvent) → length (map (λ _. zero_event) xs) ≡ length xs
length-zeroed [] = refl
length-zeroed (x ∷ xs) = ap suc (length-zeroed xs)

pub cleared-IsValid : {r : Ring} → IsValid r → IsValid (cleared r)
unfolding cleared
cleared-IsValid {r} v = ground (arith, length-zeroed r.buf)

pub load_snapshot-IsValid :
    {r : Ring} (es : List DeniedEvent) → IsValid r → IsValid (load_snapshot r es)
unfolding load_snapshot
load_snapshot-IsValid es v = push_all-IsValid es (cleared-IsValid v)
