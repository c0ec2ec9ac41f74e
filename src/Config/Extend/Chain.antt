-- ===== src/Config/Extend/Chain.antt =====
-- `LoadProfile` and the chain of `extends`: the fuel of the model.
use muro.Base.{
  ℕ, zero, suc, ◌≤◌, ◌<◌, true, false, List, [], ◌∷◌, Option, some, Bytes, bytes_eq, bytes_eq_iff,
  in_set, length, if◌then◌else◌, refl, ap, ◌∙◌, ◌≡◌, ◌≢◌, arith, inl, inr, Bool-cases, Option-cases,
}
use muro.Config.Validate.{Profile}
use muro.Config.Extend.{
  Loaded, profile, cycle, unreadable, out_of_fuel, onto, load_profile_resolved, with_policy,
  load_profile,
}

-- the names that were not seen yet
unfoldable unseen : List Bytes → List Bytes → ℕ
unseen [] seen = 0
unseen (n ∷ names) seen = let rest = unseen names seen in if in_set n seen then rest else suc rest

unseen-le : (names seen : List Bytes) (x : Bytes) → unseen names (x ∷ seen) ≤ unseen names seen
unfolding unseen in_set
unseen-le [] seen x = omega arith
unseen-le (n ∷ names) seen x = let ih = unseen-le names seen x in ground arith

-- a new name makes them fewer
unseen-lt :
    (names seen : List Bytes) (x : Bytes)
    → in_set x names ≡ true
    → in_set x seen ≡ false
    → unseen names (x ∷ seen) < unseen names seen
unfolding unseen in_set
unseen-lt [] seen x h k = absurd (ground arith)
unseen-lt (n ∷ names) seen x h k = elim (Bool-cases (bytes_eq n x)) [
  | inl e ↦
      let same : in_set n seen ≡ false = ap (λ y. in_set y seen) ((bytes_eq_iff n x).0 e) ∙ k in
      ground (arith, bytes_eq_iff n x, bytes_eq_iff x n, unseen-le names seen x)
  | inr e ↦ let ih = unseen-lt names seen x (ground arith) k in ground arith
]

unseen-length : (names : List Bytes) → unseen names [] ≤ length names
unfolding unseen in_set
unseen-length [] = omega arith
unseen-length (n ∷ names) = let ih = unseen-length names in ground arith

onto-out_of_fuel : (p : Profile) (l : Loaded) → onto p l ≡ out_of_fuel → l ≡ out_of_fuel
onto-out_of_fuel p (profile b) h = absurd (cc)
onto-out_of_fuel p cycle h = absurd (cc)
onto-out_of_fuel p unreadable h = absurd (cc)
onto-out_of_fuel p out_of_fuel h = refl

with_policy-out_of_fuel : (l : Loaded) → with_policy l ≡ out_of_fuel → l ≡ out_of_fuel
with_policy-out_of_fuel (profile p) h = absurd (cc)
with_policy-out_of_fuel cycle h = absurd (cc)
with_policy-out_of_fuel unreadable h = absurd (cc)
with_policy-out_of_fuel out_of_fuel h = refl

module _ (read : Bytes → Option Profile) where
  module _ (names : List Bytes)
      (listed : (n : Bytes) (p : Profile) → read n ≡ some p → in_set n names ≡ true) where
    resolved-ne :
        (fuel : ℕ) (name : Bytes) (seen : List Bytes)
        → unseen names seen < fuel
        → load_profile_resolved read fuel name seen ≢ out_of_fuel
    unfolding load_profile_resolved
    resolved-ne zero name seen h e = absurd (omega arith)
    resolved-ne (suc fuel) name seen h e = elim (Bool-cases (in_set name seen)) [
      | inl i ↦ absurd (ground arith)
      | inr i ↦ elim (Option-cases (read name)) [
        | inl r ↦ absurd (ground arith)
        | inr (p, r) ↦ elim (Bool-cases (bytes_eq p.extends [])) [
          | inl t ↦ absurd (ground arith)
          | inr f ↦
              let fewer = unseen-lt names seen name (listed name p r) i in
              resolved-ne fuel p.extends (name ∷ seen) (omega arith) (
                onto-out_of_fuel p (load_profile_resolved read fuel p.extends (name ∷ seen))
                  (ground arith))
        ]
      ]
    ]

    -- When the readable profiles are among the names of a list, fuel for one more than its length
    -- is enough for `LoadProfile` to come to an end: with a profile, or with the error of a cycle
    -- or of a file.
    pub load_profile-ne : (name : Bytes) → load_profile read (suc (length names)) name ≢ out_of_fuel
    unfolding load_profile
    load_profile-ne name h =
        let few = unseen-length names in
        resolved-ne (suc (length names)) name [] (omega arith)
          (with_policy-out_of_fuel (load_profile_resolved read (suc (length names)) name []) h)
