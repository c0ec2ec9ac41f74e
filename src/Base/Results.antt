-- ===== src/Base/Results.antt =====
-- Results with a component's own errors, for `do` blocks.
use mathlib.Core.Path.{◌≡◌, refl}
use mathlib.Core.Logic.{◌⊎◌, ◌↔◌, inl, inr}
use mathlib.Core.List.{List, [], ◌∷◌}
use muro.Base.Lists.{All}
use mathlib.Core.Bool.{Bool, true, false}
use mathlib.Core.Option.{Option, none, some}

pub data Result {ℓ κ} (E : Type ℓ) (A : Type κ) : Type (ℓ ⊔ κ) where
  ok : A → Result E A
  err : E → Result E A

infixl 5 ◌>>=◌ ◌>>◌
abbrev pub ◌>>=◌ {ℓ κ μ} :
    {E : Type ℓ} {A : Type κ} {B : Type μ} → Result E A → (A → Result E B) → Result E B
ok a >>= f = f a
err e >>= f = err e

abbrev pub ◌>>◌ {ℓ κ} : {E : Type ℓ} {B : Type κ} → Result E (Unit {0}) → Result E B → Result E B
m >> k = m >>= λ _. k

-- if c { return ..., e }
abbrev pub fail_if {ℓ} : {E : Type ℓ} → Bool → E → Result E (Unit {0})
fail_if true e = err e
fail_if false e = ok tt

-- v, ok := ...; if !ok { return ..., e }
abbrev pub or_fail {ℓ κ} : {E : Type ℓ} {A : Type κ} → E → Option A → Result E A
or_fail e none = err e
or_fail e (some a) = ok a

-- an objection, if there is one
abbrev pub objection {ℓ} : {E : Type ℓ} → Option E → Result E (Unit {0})
objection none = ok tt
objection (some e) = err e

pub Result-cases {ℓ κ} :
    {E : Type ℓ} {A : Type κ} (r : Result E A) → ((a : A) × (r ≡ ok a)) ⊎ ((e : E) × (r ≡ err e))
Result-cases (ok a) = inl (a, refl)
Result-cases (err e) = inr (e, refl)

-- a loop that returns the first error of its body
unfoldable pub each {ℓ κ} :
    {E : Type ℓ} {A : Type κ} → (A → Result E (Unit {0})) → List A → Result E (Unit {0})
each f [] = ok tt
each f (x ∷ xs) = f x >> each f xs

pub >>-iff {ℓ} :
    {E : Type ℓ} (m k : Result E (Unit {0})) → ((m >> k) ≡ ok tt) ↔ ((m ≡ ok tt) × (k ≡ ok tt))
>>-iff (ok tt) k = (λ h. (refl, h), λ h. h.1)
>>-iff (err e) k = (λ h. absurd (cc), λ h. absurd (cc))

pub fail_if_iff {ℓ} : {E : Type ℓ} (c : Bool) (e : E) → (fail_if c e ≡ ok tt) ↔ (c ≡ false)
fail_if_iff true e = (λ h. absurd (cc), λ h. absurd (cc))
fail_if_iff false e = (λ h. refl, λ h. refl)

pub each_iff {ℓ κ} :
    {E : Type ℓ} {A : Type κ} (f : A → Result E (Unit {0})) (xs : List A)
    → (each f xs ≡ ok tt) ↔ All (λ x. f x ≡ ok tt) xs
unfolding each
each_iff f [] = (λ h. tt, λ h. refl)
each_iff f (x ∷ xs) = (
  λ h. let (a, b) = (>>-iff (f x) (each f xs)).0 h in (a, (each_iff f xs).0 b),
  λ (a, b). (>>-iff (f x) (each f xs)).1 (a, (each_iff f xs).1 b),
)
