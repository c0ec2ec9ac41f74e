-- ===== src/State/Ring/Window.antt =====
-- Runs of slots of a circular buffer, counted without wrapping: slot `p` is `buf[p % cap]`.
use native.Mathlib.Nat.{add-mod_right, add-zero, sub-zero, suc-mod, mod-eq_of_lt, mod-eq-sub-mod}
use native.Mathlib.Decide.{dec_lt}
use muro.Base.{
  ℕ, zero, suc, ◌+◌, ◌-◌, ◌%◌, ◌≤◌, ◌<◌, ◌≡◌, ◌≢◌, refl, ap, ap₂, ◌∙◌, sym, List, [], ◌∷◌, ◌++◌,
  get_or, set, length, drop, arith, get_or-set_self, get_or-set_ne,
}
use muro.State.Ring.{DeniedEvent, zero_event, read}

suc-mod_congr : (a b m : ℕ) → a % m ≡ b % m → suc a % m ≡ suc b % m
suc-mod_congr a b m e = suc-mod a m ∙ ap (λ t. suc t % m) e ∙ sym (suc-mod b m)

module _ (buf : List DeniedEvent) (cap : ℕ) where
  abbrev pub window : ℕ → ℕ → List DeniedEvent
  window p zero = []
  window p (suc k) = get_or buf (p % cap) zero_event ∷ window (suc p) k

  pub length-window : (p k : ℕ) → length (window p k) ≡ k
  length-window p zero = refl
  length-window p (suc k) = ap suc (length-window (suc p) k)

  pub window_congr : (p q k : ℕ) → p % cap ≡ q % cap → window p k ≡ window q k
  window_congr p q zero e = refl
  window_congr p q (suc k) e =
      ap₂ ◌∷◌ (ap (λ j. get_or buf j zero_event) e)
        (window_congr (suc p) (suc q) k (suc-mod_congr p q cap e))

  pub read-eq-window : (start i k : ℕ) → read buf cap start i k ≡ window (start + i) k
  unfolding read
  read-eq-window start i zero = refl
  read-eq-window start i (suc k) =
      ap (λ t. get_or buf ((start + i) % cap) zero_event ∷ t)
        (read-eq-window start (i + 1) k ∙ ap (λ p. window p k) (omega arith))

  pub drop-window : (d p k : ℕ) → d ≤ k → drop d (window p k) ≡ window (p + d) (k - d)
  drop-window zero p k h = rw (add-zero, sub-zero)
  drop-window (suc d) p zero h = absurd (omega arith)
  drop-window (suc d) p (suc k) h =
      drop-window d (suc p) k (omega arith) ∙ ap₂ window (omega arith) (omega arith)

-- Fewer than `cap` steps past a slot do not come back to it.
slot_ne : (cap next q : ℕ) → next < cap → next < q → q < next + cap → next ≢ q % cap
slot_ne m next q h a b = elim (dec_lt q m) [
  | yes p ↦ omega (arith, mod-eq_of_lt p)
  | no p ↦ omega (
    arith,
    mod-eq-sub-mod {n = q} {m = m} (omega arith),
    mod-eq_of_lt {n = q - m} {m = m} (omega arith),
  )
]

-- Writing slot `next` extends the run of slots that ends just before its next turn.
pub window-set :
    (buf : List DeniedEvent) (cap next q k : ℕ) (e : DeniedEvent)
    → length buf ≡ cap
    → next < cap
    → next < q
    → q + k ≡ next + cap
    → window (set buf next e) cap q (suc k) ≡ window buf cap q k ++ e ∷ []
window-set buf m next q zero e hl hn hq hk =
    ap (λ x. x ∷ []) (rw turn (get_or-set_self buf next e zero_event (omega arith)))
  where
    turn : q % m ≡ next
    turn =
        ap (λ t. t % m) (let r : q ≡ next + m = omega arith in r)
        ∙ add-mod_right next m
        ∙ mod-eq_of_lt hn
window-set buf m next q (suc k) e hl hn hq hk =
    ap₂ ◌∷◌ (get_or-set_ne buf e zero_event (slot_ne m next q hn hq (omega arith)))
      (window-set buf m next (suc q) k e hl hn (omega arith) (omega arith))
