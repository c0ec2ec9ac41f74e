-- ===== src/GitProxy/Policy/Cwd.antt =====
-- `TranslateCwd` of internal/gitproxy/policy.go: the mount it chooses and the path it returns.
use muro.Base.{
  ℕ, ◌≡◌, ◌≤◌, refl, sym, ap, ◌∙◌, ◌⊎◌, inl, inr, true, false, List, [], ◌∷◌, ◌++◌, append-nil,
  none, some, Bytes, trim_prefix, trim_prefix-append, split, Any, Any-map, All-Any, All, arith,
  Bool-cases, length,
}
use muro.Config.{Mount}
use muro.Config.Paths.{clean, is_abs, parts, path_covers_or_equals}
use muro.Config.Paths.Clean.{is_abs_of_clean, is_abs-clean, parts-clean}
use muro.Config.Paths.Cover.{names, parts-below, is_abs-append, covers_of_parts}
use muro.GitProxy.Policy.{Best, lies_in, is_longer, better, best_mount, host_path, translate_cwd}
use muro.GitProxy.Policy.Repo.{lies_in→}

-- `m` covers the cleaned working directory.
abbrev pub Covers : Bytes → Mount → Type 0
Covers cwd m = lies_in (clean m.sandbox_path) cwd ≡ true

abbrev pub size_of : Mount → ℕ
size_of m = length (clean m.sandbox_path)

is_longer-better :
    (cwd : Bytes) (best : Best) (m : Mount) (n : ℕ)
    → is_longer n (better cwd best m) ≡ true
    → is_longer n best ≡ true
unfolding better is_longer
is_longer-better cwd none m n h = refl
is_longer-better cwd (some (k, b)) m n h = ground arith

better-Covers :
    (cwd : Bytes) (best : Best) (m : Mount)
    → Covers cwd m
    → is_longer (size_of m) (better cwd best m) ≡ false
unfolding better is_longer
better-Covers cwd none m h = ground arith
better-Covers cwd (some (k, b)) m h = ground arith

better_from :
    (cwd : Bytes) (best : Best) (m : Mount)
    → (better cwd best m ≡ best) ⊎ ((better cwd best m ≡ some (size_of m, m)) × Covers cwd m)
unfolding better
better_from cwd best m = elim (Bool-cases (lies_in (clean m.sandbox_path) cwd)) [
  | inr e ↦ inl (rw e)
  | inl e ↦ elim (Bool-cases (is_longer (size_of m) best)) [
    | inl l ↦ inr (rw (e, l), e)
    | inr l ↦ inl (rw (e, l))
  ]
]

record Chosen (cwd : Bytes) (best : Best) (ms : List Mount) (r : Best) : Type 0 where
  grows : (n : ℕ) → is_longer n r ≡ true → is_longer n best ≡ true
  above : All (λ m. Covers cwd m → is_longer (size_of m) r ≡ false) ms
  from : (r ≡ best) ⊎ Any (λ m. (r ≡ some (size_of m, m)) × Covers cwd m) ms

best_mount-Chosen :
    (cwd : Bytes) (best : Best) (ms : List Mount) → Chosen cwd best ms (best_mount cwd best ms)
unfolding best_mount
best_mount-Chosen cwd best [] = record { grows = λ n h. h; above = tt; from = inl refl }
best_mount-Chosen cwd best (m ∷ ms) =
    let ih = best_mount-Chosen cwd (better cwd best m) ms in
    record {
      grows = λ n h. is_longer-better cwd best m n (ih.grows n h);
      above = (λ c. not_longer (size_of m) ih (better-Covers cwd best m c), ih.above);
      from = elim ih.from [
        | inr a ↦ inr (inr a)
        | inl e ↦ elim (better_from cwd best m) [
          | inl q ↦ inl (e ∙ q)
          | inr (q, c) ↦ inr (inl (e ∙ q, c))
        ]
      ];
    }
  where
    not_longer :
        (n : ℕ)
        → Chosen cwd (better cwd best m) ms (best_mount cwd (better cwd best m) ms)
        → is_longer n (better cwd best m) ≡ false
        → is_longer n (best_mount cwd (better cwd best m) ms) ≡ false
    not_longer n ih f = elim (Bool-cases (is_longer n (best_mount cwd (better cwd best m) ms))) [
      | inr e ↦ e
      | inl e ↦ absurd (cc (ih.grows n e))
    ]

All-map {ℓ} :
    {A : Type ℓ} (P Q : A → Type 0) (xs : List A) → ((x : A) → P x → Q x) → All P xs → All Q xs
All-map P Q [] f h = tt
All-map P Q (x ∷ xs) f h = (f x h.0, All-map P Q xs f h.1)

-- no mount is longer than the chosen one
abbrev pub IsBest : Bytes → List Mount → Mount → Type 0
IsBest cwd mounts m = All (λ x. Covers cwd x → size_of x ≤ size_of m) mounts

abbrev pub Translates : List Mount → Bytes → Bytes → Mount → Type 0
Translates mounts cwd h m =
    Covers (clean cwd) m × IsBest (clean cwd) mounts m × (h ≡ host_path (clean cwd) m)

not_longer-le : (k n : ℕ) (m : Mount) → is_longer k (some (n, m)) ≡ false → k ≤ n
unfolding is_longer
not_longer-le k n m h = ground arith

translate_cwd-some :
    (mounts : List Mount) (cwd h : Bytes)
    → translate_cwd mounts cwd ≡ some h
    → Any (Translates mounts cwd h) mounts
unfolding translate_cwd
translate_cwd-some mounts cwd h t = chosen (best_mount (clean cwd) none mounts) refl
  where
    best_of :
        {n : ℕ} {m : Mount} (x : Mount)
        → ◌≡◌ {A = Best} (some (n, m)) (some (size_of x, x))
        → All (λ y. Covers (clean cwd) y → is_longer (size_of y) (some (n, m)) ≡ false) mounts
        → IsBest (clean cwd) mounts x
    best_of x q a =
        All-map _ (λ y. Covers (clean cwd) y → size_of y ≤ size_of x) mounts
          (λ y g v. not_longer-le (size_of y) (size_of x) x (rw q at (g v))) a

    chosen :
        (r : Best) → best_mount (clean cwd) none mounts ≡ r → Any (Translates mounts cwd h) mounts
    chosen none e = absurd (ground arith)
    chosen (some (n, m)) e =
        let c : Chosen (clean cwd) none mounts (some (n, m)) =
          rw e at (best_mount-Chosen (clean cwd) none mounts) in
        elim c.from [
          | inl q ↦ absurd (cc q)
          | inr a ↦
              Any-map
                (λ x. (◌≡◌ {A = Best} (some (n, m)) (some (size_of x, x))) × Covers (clean cwd) x)
                (Translates mounts cwd h) mounts (λ x p. (p.1, best_of x p.0 c.above, ground arith))
                a
        ]

translate_cwd-none :
    (mounts : List Mount) (cwd : Bytes)
    → translate_cwd mounts cwd ≡ none
    → All (λ m. ¬ Covers (clean cwd) m) mounts
unfolding translate_cwd
translate_cwd-none mounts cwd t = chosen (best_mount (clean cwd) none mounts) refl
  where
    chosen :
        (r : Best)
        → best_mount (clean cwd) none mounts ≡ r
        → All (λ m. ¬ Covers (clean cwd) m) mounts
    chosen (some (n, m)) e = absurd (ground arith)
    chosen none e =
        All-map (λ m. Covers (clean cwd) m → is_longer (size_of m) none ≡ false)
          (λ m. ¬ Covers (clean cwd) m) mounts (λ m f v. unfold is_longer in cc (f v))
          (rw e at (best_mount-Chosen (clean cwd) none mounts)).above

-- The host path of a working directory, when there is one, goes through a mount that covers it and
-- is at least as specific as every other mount that does; there is none only if no mount covers it.
pub translate_cwd_lem :
    (mounts : List Mount) (cwd : Bytes)
    → ((h : Bytes) → translate_cwd mounts cwd ≡ some h → Any (Translates mounts cwd h) mounts)
      × (translate_cwd mounts cwd ≡ none → All (λ m. ¬ Covers (clean cwd) m) mounts)
translate_cwd_lem mounts cwd = (translate_cwd-some mounts cwd, translate_cwd-none mounts cwd)

-- the mounts that profiles resolve to have absolute paths
abbrev pub IsAbsolute : Mount → Type 0
IsAbsolute m = (is_abs m.host ≡ true) × (is_abs m.sandbox_path ≡ true)

trim_prefix_self : (s : Bytes) → trim_prefix s s ≡ []
trim_prefix_self s = ap (λ t. trim_prefix t s) (sym (append-nil s)) ∙ trim_prefix-append s []

inside_host :
    (host x : Bytes) (ds : List Bytes)
    → is_abs host ≡ true
    → is_abs x ≡ true
    → parts x ≡ parts host ++ ds
    → path_covers_or_equals host (clean x) ≡ true
inside_host host x ds a b e =
    covers_of_parts host (clean x) ds a (is_abs-clean x b) (parts-clean x b ∙ e)

host_path-inside :
    (cwd : Bytes) (m : Mount)
    → IsAbsolute m
    → Covers (clean cwd) m
    → path_covers_or_equals m.host (host_path (clean cwd) m) ≡ true
unfolding host_path
host_path-inside cwd m a c = elim (lies_in→ (clean m.sandbox_path) (clean cwd) c) [
  | inl e ↦
      rw (e, trim_prefix_self sp)
        (inside_host m.host (m.host ++ []) [] a.0 (is_abs-append m.host [] a.0)
          (ap parts (append-nil m.host) ∙ sym (append-nil (parts m.host))))
  | inr (t, e) ↦
      rw (e, trim_prefix-append sp (b'/' ∷ t))
        (inside_host m.host (m.host ++ (b'/' ∷ t)) (names (split b'/' t)) a.0
          (is_abs-append m.host (b'/' ∷ t) a.0) (parts-below cwd sp t (absolute t e) e m.host a.0))
]
  where
    sp : Bytes
    sp = clean m.sandbox_path

    absolute : (t : Bytes) → clean cwd ≡ clean m.sandbox_path ++ (b'/' ∷ t) → is_abs cwd ≡ true
    absolute t e =
        is_abs_of_clean cwd (rw e (is_abs-append sp (b'/' ∷ t) (is_abs-clean m.sandbox_path a.1)))

-- When both paths of every mount are absolute, the host path of a working directory, whatever
-- directory a request names, lies inside the host directory of some mount: no `..` in it leads
-- out.
pub translate_cwd_inside :
    (mounts : List Mount) (cwd h : Bytes)
    → All IsAbsolute mounts
    → translate_cwd mounts cwd ≡ some h
    → Any (λ m. path_covers_or_equals m.host h ≡ true) mounts
translate_cwd_inside mounts cwd h a t =
    Any-map (λ m. IsAbsolute m × Translates mounts cwd h m) _ mounts
      (λ m p. rw (p.1.2) (host_path-inside cwd m p.0 p.1.0))
      (All-Any IsAbsolute (Translates mounts cwd h) mounts a (translate_cwd-some mounts cwd h t))
