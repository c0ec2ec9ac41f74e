-- ===== src/Config/Paths/Clean.antt =====
-- The components of what path.Clean returns, for pathCoversOrEquals of internal/config/validate.go.
use muro.Base.{
  ◌≡◌, ◌≢◌, refl, sym, ap, ◌∙◌, inl, inr, Bool, true, false, ◌||◌, List, [], ◌∷◌, ◌++◌, append-nil,
  append_assoc, Bytes, All, arith, bytes_eq, bytes_eq_iff, contains_byte, has_prefix, split,
  split-cons, split-one, Bool-cases, ◌==◌,
}
use muro.Config.Paths.{
  slash, dot, dotdot, join, pop, clean_step, resolve, is_abs, parts, clean, or_dot,
}

-- a component as `clean` keeps it
abbrev pub IsName : Bytes → Type 0
IsName c = (c ≢ []) × (contains_byte c b'/' ≡ false)

abbrev pub IsNormal : Bytes → Type 0
IsNormal c = (c ≢ []) × (contains_byte c b'/' ≡ false) × (c ≢ dot) × (c ≢ dotdot)

abbrev NoSlash : Bytes → Type 0
NoSlash c = contains_byte c b'/' ≡ false

pub All-append {ℓ} :
    {A : Type ℓ} (P : A → Type 0) (xs ys : List A) → All P xs → All P ys → All P (xs ++ ys)
All-append P [] ys h k = k
All-append P (x ∷ xs) ys h k = (h.0, All-append P xs ys h.1 k)

split_shape : (s : Bytes) → (p : Bytes) × (ps : List Bytes) × (split b'/' s ≡ p ∷ ps)
unfolding split
split_shape [] = ([], [], refl)
split_shape (c ∷ s) =
    let (p, ps, e) = split_shape s in
    elim (Bool-cases (c == b'/')) [
      | inl h ↦ ([], p ∷ ps, ground arith)
      | inr h ↦ (c ∷ p, ps, ground arith)
    ]

pub split-append : (a b : Bytes) → split b'/' (a ++ (b'/' ∷ b)) ≡ split b'/' a ++ split b'/' b
unfolding split
split-append [] b = refl
split-append (c ∷ a) b = let (p, ps, e) = split_shape a in ground (arith, split-append a b)

split-NoSlash : (s : Bytes) → All NoSlash (split b'/' s)
unfolding split contains_byte
split-NoSlash [] = (refl, tt)
split-NoSlash (c ∷ s) =
    let (p, ps, e) = split_shape s in
    let ih : All NoSlash (p ∷ ps) = rw e at (split-NoSlash s) in
    elim (Bool-cases (c == b'/')) [
      | inl h ↦ rw (h, e) (refl, ih)
      | inr h ↦ rw (h, e) (ground arith, ih.1)
    ]

pop-IsNormal : (kept : List Bytes) → All IsNormal kept → All IsNormal (pop true kept)
unfolding pop
pop-IsNormal [] h = tt
pop-IsNormal (c ∷ []) h = elim (Bool-cases (bytes_eq c dotdot)) [
  | inl e ↦ absurd (h.0.3 ((bytes_eq_iff c dotdot).0 e))
  | inr e ↦ rw e tt
]
pop-IsNormal (c ∷ d ∷ cs) h = (h.0, pop-IsNormal (d ∷ cs) h.1)

kept_name :
    (c : Bytes)
    → NoSlash c
    → (bytes_eq c [] || bytes_eq c dot) ≡ false
    → bytes_eq c dotdot ≡ false
    → IsNormal c
kept_name c n h k = (
  λ e. ground (arith, bytes_eq_iff c []),
  n,
  λ e. ground (arith, bytes_eq_iff c dot),
  λ e. ground (arith, bytes_eq_iff c dotdot),
)

clean_step-IsNormal :
    (kept : List Bytes) (c : Bytes)
    → All IsNormal kept
    → NoSlash c
    → All IsNormal (clean_step true kept c)
unfolding clean_step
clean_step-IsNormal kept c h n = elim (Bool-cases (bytes_eq c [] || bytes_eq c dot)) [
  | inl skip ↦ rw skip h
  | inr some_name ↦ elim (Bool-cases (bytes_eq c dotdot)) [
    | inl up ↦ rw (some_name, up) (pop-IsNormal kept h)
    | inr name ↦
        rw (some_name, name)
          (All-append IsNormal kept (c ∷ []) h (kept_name c n some_name name, tt))
  ]
]

resolve-IsNormal :
    (kept cs : List Bytes)
    → All IsNormal kept
    → All NoSlash cs
    → All IsNormal (resolve true kept cs)
unfolding resolve
resolve-IsNormal kept [] h n = h
resolve-IsNormal kept (c ∷ cs) h n =
    resolve-IsNormal (clean_step true kept c) cs (clean_step-IsNormal kept c h n.0) n.1

-- Normal components are kept one after another; empty ones are dropped.
pub resolve-append :
    (rooted : Bool) (kept cs ds : List Bytes)
    → resolve rooted kept (cs ++ ds) ≡ resolve rooted (resolve rooted kept cs) ds
unfolding resolve
resolve-append rooted kept [] ds = refl
resolve-append rooted kept (c ∷ cs) ds = resolve-append rooted (clean_step rooted kept c) cs ds

pub clean_step_keep :
    (rooted : Bool) (kept : List Bytes) (c : Bytes)
    → IsNormal c
    → clean_step rooted kept c ≡ kept ++ c ∷ []
unfolding clean_step
clean_step_keep rooted kept c n =
    ground (arith, bytes_eq_iff c [], bytes_eq_iff c dot, bytes_eq_iff c dotdot)

pub resolve_keep :
    (rooted : Bool) (kept cs : List Bytes) → All IsNormal cs → resolve rooted kept cs ≡ kept ++ cs
unfolding resolve
resolve_keep rooted kept [] h = sym (append-nil kept)
resolve_keep rooted kept (c ∷ cs) h =
    rw (clean_step_keep rooted kept c h.0)
      (resolve_keep rooted (kept ++ c ∷ []) cs h.1 ∙ append_assoc kept (c ∷ []) cs)

pub split-join : (cs : List Bytes) → cs ≢ [] → All IsNormal cs → split b'/' (join cs) ≡ cs
unfolding join
split-join [] h n = absurd (h refl)
split-join (c ∷ []) h n = split-one b'/' c n.0.1
split-join (c ∷ d ∷ cs) h n =
    split-cons b'/' c (join (d ∷ cs)) n.0.1 ∙ ap (λ r. c ∷ r) (split-join (d ∷ cs) (λ e. cc) n.1)

pub parts-IsNormal : (s : Bytes) → is_abs s ≡ true → All IsNormal (parts s)
unfolding parts
parts-IsNormal s h = rw h (resolve-IsNormal [] (split b'/' s) tt (split-NoSlash s))

parts-slash : (s : Bytes) → parts (slash ++ s) ≡ resolve true [] (split b'/' s)
unfolding parts is_abs has_prefix split resolve clean_step bytes_eq
parts-slash s = refl

-- The components of an absolute path, joined again, are the components.
pub parts-join : (cs : List Bytes) → All IsNormal cs → parts (slash ++ join cs) ≡ cs
unfolding resolve clean_step split join bytes_eq
parts-join [] h = parts-slash []
parts-join (c ∷ cs) h =
    parts-slash (join (c ∷ cs))
    ∙ ap (resolve true []) (split-join (c ∷ cs) (λ e. cc) h)
    ∙ resolve_keep true [] (c ∷ cs) h

pub clean-abs : (s : Bytes) → is_abs s ≡ true → clean s ≡ slash ++ join (parts s)
unfolding clean
clean-abs s h = rw h

pub is_abs-join : (cs : List Bytes) → is_abs (slash ++ join cs) ≡ true
unfolding is_abs has_prefix
is_abs-join cs = refl

pub parts-clean : (s : Bytes) → is_abs s ≡ true → parts (clean s) ≡ parts s
parts-clean s h = ap parts (clean-abs s h) ∙ parts-join (parts s) (parts-IsNormal s h)

pub is_abs-clean : (s : Bytes) → is_abs s ≡ true → is_abs (clean s) ≡ true
is_abs-clean s h = ap is_abs (clean-abs s h) ∙ is_abs-join (parts s)

-- Cleaning an absolute path a second time changes nothing, and no `.` or `..` is left in it.
pub clean-clean :
    (s : Bytes) → is_abs s ≡ true → (clean (clean s) ≡ clean s) × All IsNormal (parts (clean s))
clean-clean s h = (
  clean-abs (clean s) (is_abs-clean s h)
      ∙ ap (λ cs. slash ++ join cs) (parts-clean s h)
      ∙ sym (clean-abs s h),
  rw (parts-clean s h) (parts-IsNormal s h),
)

pop-names : (rooted : Bool) (kept : List Bytes) → All IsName kept → All IsName (pop rooted kept)
unfolding pop contains_byte
pop-names true [] h = tt
pop-names false [] h = ((λ e. cc, refl), tt)
pop-names rooted (c ∷ []) h = elim (Bool-cases (bytes_eq c dotdot)) [
  | inl e ↦ rw e (h.0, ((λ q. cc, refl), tt))
  | inr e ↦ rw e tt
]
pop-names rooted (c ∷ d ∷ cs) h = (h.0, pop-names rooted (d ∷ cs) h.1)

clean_step-names :
    (rooted : Bool) (kept : List Bytes) (c : Bytes)
    → All IsName kept
    → NoSlash c
    → All IsName (clean_step rooted kept c)
unfolding clean_step
clean_step-names rooted kept c h n = elim (Bool-cases (bytes_eq c [] || bytes_eq c dot)) [
  | inl skip ↦ rw skip h
  | inr some_name ↦ elim (Bool-cases (bytes_eq c dotdot)) [
    | inl up ↦ rw (some_name, up) (pop-names rooted kept h)
    | inr name ↦
        rw (some_name, name)
          (All-append IsName kept (c ∷ []) h (((kept_name c n some_name name).0, n), tt))
  ]
]

resolve-names_only :
    (rooted : Bool) (kept cs : List Bytes)
    → All IsName kept
    → All NoSlash cs
    → All IsName (resolve rooted kept cs)
unfolding resolve
resolve-names_only rooted kept [] h n = h
resolve-names_only rooted kept (c ∷ cs) h n =
    resolve-names_only rooted (clean_step rooted kept c) cs (clean_step-names rooted kept c h n.0)
      n.1

or_dot-not_abs : (cs : List Bytes) → All IsName cs → is_abs (or_dot cs) ≡ false
unfolding or_dot join is_abs has_prefix contains_byte
or_dot-not_abs [] h = refl
or_dot-not_abs ([] ∷ cs) h = absurd (h.0.0 refl)
or_dot-not_abs ((x ∷ c) ∷ []) h = ground arith
or_dot-not_abs ((x ∷ c) ∷ d ∷ cs) h = ground arith

-- `clean` does not make a relative path absolute.
pub is_abs_of_clean : (s : Bytes) → is_abs (clean s) ≡ true → is_abs s ≡ true
unfolding clean
is_abs_of_clean s h = elim (Bool-cases (is_abs s)) [
  | inl e ↦ e
  | inr e ↦ absurd (ground (arith, or_dot-not_abs (parts s) (resolved e)))
]
  where
    resolved : is_abs s ≡ false → All IsName (parts s)
    resolved e =
        unfold parts in rw e (resolve-names_only false [] (split b'/' s) tt (split-NoSlash s))
