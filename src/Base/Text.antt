-- ===== src/Base/Text.antt =====
-- Go strings as byte lists, with the functions of package strings that the program calls.
use Prim.Native.Nat.{ℕ, ◌+◌}
use Prim.Native.Char.{code}
use Prim.Native.String.{String}
use mathlib.Core.Path.{◌≡◌, refl, ap₂, sym}
use mathlib.Core.Logic.{◌↔◌, inl, inr}
use mathlib.Core.Bool.{Bool, true, false, ◌&&◌, ◌||◌}
use mathlib.Core.List.{List, [], ◌∷◌, ◌++◌, map}
use mathlib.Core.Option.{Option, none, some}
use native.Mathlib.Omega.{arith}
use muro.Base.Tests.{leb, ◌==◌, if◌then◌else◌, ==_iff, &&-iff, Bool-cases, Option-cases}
use muro.Base.Lists.{length, drop, drop-append, Has}

abbrev pub Bytes : Type 0
Bytes = List ℕ

-- The code points of a text: its bytes, if it is ASCII, as every literal of the program is.
abbrev pub codes : String → Bytes
codes String.[] = []
codes (String.◌∷◌ c s) = code c ∷ codes s

-- s == t
unfoldable pub bytes_eq : Bytes → Bytes → Bool
bytes_eq [] [] = true
bytes_eq [] (y ∷ ys) = false
bytes_eq (x ∷ xs) [] = false
bytes_eq (x ∷ xs) (y ∷ ys) = x == y && bytes_eq xs ys

bytes_eq→≡ : (s t : Bytes) → bytes_eq s t ≡ true → s ≡ t
unfolding bytes_eq
bytes_eq→≡ [] [] h = refl
bytes_eq→≡ [] (y ∷ ys) h = cc
bytes_eq→≡ (x ∷ xs) [] h = cc
bytes_eq→≡ (x ∷ xs) (y ∷ ys) h =
    let (e, r) = (&&-iff (x == y) (bytes_eq xs ys)).0 h in
    ap₂ ◌∷◌ ((==_iff x y).0 e) (bytes_eq→≡ xs ys r)

pub bytes_eq_refl : (s : Bytes) → bytes_eq s s ≡ true
unfolding bytes_eq
bytes_eq_refl [] = refl
bytes_eq_refl (x ∷ xs) = ground (arith, bytes_eq_refl xs)

pub bytes_eq_iff : (s t : Bytes) → (bytes_eq s t ≡ true) ↔ (s ≡ t)
bytes_eq_iff s t = (bytes_eq→≡ s t, λ e. rw e (bytes_eq_refl t))

-- strings.HasPrefix
unfoldable pub has_prefix : Bytes → Bytes → Bool
has_prefix s [] = true
has_prefix [] (p ∷ ps) = false
has_prefix (c ∷ s) (p ∷ ps) = c == p && has_prefix s ps

pub has_prefix→append : (s p : Bytes) → has_prefix s p ≡ true → (t : Bytes) × (s ≡ p ++ t)
unfolding has_prefix
has_prefix→append s [] h = (s, refl)
has_prefix→append [] (p ∷ ps) h = absurd (ground arith)
has_prefix→append (c ∷ s) (p ∷ ps) h =
    let (e, r) = (&&-iff (c == p) (has_prefix s ps)).0 h in
    let (t, q) = has_prefix→append s ps r in (t, ap₂ ◌∷◌ ((==_iff c p).0 e) q)

pub has_prefix-append : (p t : Bytes) → has_prefix (p ++ t) p ≡ true
unfolding has_prefix
has_prefix-append [] t = refl
has_prefix-append (c ∷ p) t = ground (arith, has_prefix-append p t)

-- strings.TrimPrefix
unfoldable pub trim_prefix : Bytes → Bytes → Bytes
trim_prefix s p = if has_prefix s p then drop (length p) s else s

pub trim_prefix-append : (p t : Bytes) → trim_prefix (p ++ t) p ≡ t
unfolding trim_prefix
trim_prefix-append p t = rw (has_prefix-append p t) (drop-append p t)

-- strings.Contains with a one-byte needle, strings.IndexByte
unfoldable pub contains_byte : Bytes → ℕ → Bool
contains_byte [] c = false
contains_byte (x ∷ s) c = x == c || contains_byte s c

pub contains_byte_iff : (s : Bytes) (c : ℕ) → (contains_byte s c ≡ true) ↔ Has c s
unfolding contains_byte
contains_byte_iff [] c = (λ h. absurd (ground arith), λ h. absurd h)
contains_byte_iff (x ∷ s) c = (
  λ h. elim (Bool-cases (x == c)) [
    | inl e ↦ inl (sym ((==_iff x c).0 e))
    | inr e ↦ inr ((contains_byte_iff s c).0 (ground arith))
  ],
  λ h. elim h [ inl e ↦ ground arith | inr k ↦ ground (arith, (contains_byte_iff s c).1 k) ],
)

-- strings.Contains
unfoldable pub contains : Bytes → Bytes → Bool
unfolding has_prefix
contains [] p = has_prefix [] p
contains (c ∷ s) p = has_prefix (c ∷ s) p || contains s p

-- strings.ToLower, on ASCII
unfoldable pub lower_byte : ℕ → ℕ
lower_byte c = if leb b'A' c && leb c b'Z' then c + 32 else c

unfoldable pub to_lower : Bytes → Bytes
unfolding lower_byte
to_lower = map lower_byte

-- strings.Cut with a one-byte separator: the text before its first occurrence and after it.
unfoldable pub cut : ℕ → Bytes → Option (Bytes × Bytes)
cut sep [] = none
cut sep (c ∷ s) =
    let rest = cut sep s in
    if c == sep then some ([], s) else elim rest [ none ↦ none | some (a, b) ↦ some (c ∷ a, b) ]

pub cut-append :
    (sep : ℕ) (a b : Bytes) → contains_byte a sep ≡ false → cut sep (a ++ sep ∷ b) ≡ some (a, b)
unfolding cut contains_byte
cut-append sep [] b h = ground arith
cut-append sep (c ∷ a) b h = ground (arith, cut-append sep a b)

pub cut-eq_none : (sep : ℕ) (a : Bytes) → contains_byte a sep ≡ false → cut sep a ≡ none
unfolding cut contains_byte
cut-eq_none sep [] h = refl
cut-eq_none sep (c ∷ a) h = ground (arith, cut-eq_none sep a)

pub cut-eq_some :
    (sep : ℕ) (s a b : Bytes)
    → cut sep s ≡ some (a, b)
    → (s ≡ a ++ sep ∷ b) × (contains_byte a sep ≡ false)
unfolding cut contains_byte
cut-eq_some sep [] a b h = cc
cut-eq_some sep (c ∷ s) a b h = elim (Bool-cases (c == sep)) [
  | inl e ↦ ground arith
  | inr e ↦ elim (Option-cases (cut sep s)) [
    | inl n ↦ ground arith
    | inr ((a', b'), q) ↦ ground (arith, cut-eq_some sep s a' b' q)
  ]
]

push_byte : ℕ → List Bytes → List Bytes
push_byte c [] = (c ∷ []) ∷ []
push_byte c (p ∷ ps) = (c ∷ p) ∷ ps

-- strings.Split with a one-byte separator: the pieces, of which there is always at least one.
unfoldable pub split : ℕ → Bytes → List Bytes
unfolding push_byte
split sep [] = [] ∷ []
split sep (c ∷ s) = let rest = split sep s in if c == sep then [] ∷ rest else push_byte c rest

pub split-cons :
    (sep : ℕ) (a b : Bytes)
    → contains_byte a sep ≡ false
    → split sep (a ++ sep ∷ b) ≡ a ∷ split sep b
unfolding split contains_byte
split-cons sep [] b h = ground arith
split-cons sep (c ∷ a) b h = ground (arith, split-cons sep a b)

pub split-one : (sep : ℕ) (a : Bytes) → contains_byte a sep ≡ false → split sep a ≡ a ∷ []
unfolding split contains_byte
split-one sep [] h = refl
split-one sep (c ∷ a) h = ground (arith, split-one sep a)

-- a lookup in a map[string]bool, here the list of its keys
unfoldable pub in_set : Bytes → List Bytes → Bool
in_set u [] = false
in_set u (x ∷ xs) = bytes_eq x u || in_set u xs
