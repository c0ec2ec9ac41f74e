-- ===== src/Sandbox/Manager/Runs.antt =====
-- internal/sandbox/manager.go: what a run without an error tells of its parts.
use muro.Base.{
  ◌⊎◌, inl, inr, if◌then◌else◌, Bool, true, false, Option, none, some, refl, sym, ap, ◌≡◌,
}
use muro.Sandbox.Manager.{
  Manager, Action, Fault, Result, ok, err, next, ◌>>=◌, ◌>>◌, raise_if, some_or, asks, modify, pure,
}

-- the action ends without an error, with a value and a manager
abbrev pub Ran : {A : Type 0} → Action A → Manager → A → Manager → Type 0
Ran act m a n = act m ≡ (ok a, n)

next-Ran :
    {A B : Type 0} (r : Result A) (f : A → Action B) (n : Manager) (b : B) (o : Manager)
    → next r f n ≡ (ok b, o)
    → (a : A) × (r ≡ ok a) × Ran (f a) n b o
next-Ran (ok a) f n b o h = (a, refl, h)
next-Ran (err e) f n b o h = absurd (cc (h))

pub bind-Ran :
    {A B : Type 0} (act : Action A) (f : A → Action B) (m : Manager) (b : B) (o : Manager)
    → Ran (act >>= f) m b o
    → (a : A) × ((act m).0 ≡ ok a) × Ran (f a) (act m).1 b o
unfolding ◌>>=◌
bind-Ran act f m b o h = next-Ran (act m).0 f (act m).1 b o h

pub then-Ran :
    {A B : Type 0} (act : Action A) (k : Action B) (m : Manager) (b : B) (o : Manager)
    → Ran (act >> k) m b o
    → ((a : A) × ((act m).0 ≡ ok a)) × Ran k (act m).1 b o
unfolding ◌>>◌
then-Ran act k m b o h = let (a, e, g) = bind-Ran act (λ _. k) m b o h in ((a, e), g)

pub modify-Ran : (f : Manager → Manager) (m n : Manager) → Ran (modify f) m tt n → n ≡ f m
modify-Ran f m n h = sym (ap (λ r. r.1) h)

pub or_raise-Ran :
    {A B : Type 0} (x : Option A) (e : Fault) (f : A → Action B) (m : Manager) (b : B) (o : Manager)
    → Ran (some_or x e >>= f) m b o
    → (a : A) × (x ≡ some a) × Ran (f a) m b o
unfolding ◌>>=◌
or_raise-Ran none e f m b o h = absurd (cc (h))
or_raise-Ran (some a) e f m b o h = (a, refl, h)

pub raise_if-Ran :
    {B : Type 0} (c : Bool) (e : Fault) (k : Action B) (m : Manager) (b : B) (o : Manager)
    → Ran (raise_if c e >> k) m b o
    → (c ≡ false) × Ran k m b o
unfolding ◌>>◌ ◌>>=◌
raise_if-Ran true e k m b o h = absurd (cc (h))
raise_if-Ran false e k m b o h = (refl, h)

pub asks-Ran :
    {A B : Type 0} (g : Manager → A) (f : A → Action B) (m : Manager) (b : B) (o : Manager)
    → Ran (asks g >>= f) m b o
    → Ran (f (g m)) m b o
unfolding ◌>>=◌
asks-Ran g f m b o h = h

pub pure-Ran : {A : Type 0} (a b : A) (m n : Manager) → Ran (pure a) m b n → a ≡ b
pure-Ran a b m n h = cc (h)

pub if-Ran :
    {A : Type 0} (c : Bool) (p q : Action A) (m : Manager) (b : A) (o : Manager)
    → Ran (if c then p else q) m b o
    → Ran p m b o ⊎ Ran q m b o
if-Ran true p q m b o h = inl h
if-Ran false p q m b o h = inr h
