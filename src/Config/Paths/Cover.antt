-- ===== src/Config/Paths/Cover.antt =====
-- `pathCoversOrEquals` of internal/config/validate.go and the components of its two paths.
use muro.Base.{
  ◌≡◌, ◌↔◌, refl, sym, ap, ◌∙◌, ◌⊎◌, inl, inr, Bool, true, List, [], ◌∷◌, ◌++◌, append-nil,
  append_assoc, Bytes, All, arith, bytes_eq, bytes_eq_iff, bytes_eq_refl, has_prefix,
  has_prefix→append, has_prefix-append, split, if◌then◌else◌, Bool-cases,
}
use muro.Config.Paths.{
  slash, join, resolve, clean_step, is_abs, parts, clean, path_covers_or_equals,
}
use muro.Config.Paths.Clean.{
  IsNormal, split-append, resolve-append, clean-abs, parts-clean, is_abs-clean, parts-IsNormal,
  split-join, parts-join, clean_step_keep,
}

abbrev EmptyOrNormal : Bytes → Type 0
EmptyOrNormal c = (c ≡ []) ⊎ IsNormal c

-- the components that are not empty
pub names : List Bytes → List Bytes
names [] = []
names (c ∷ cs) = if bytes_eq c [] then names cs else c ∷ names cs

clean_step_empty : (rooted : Bool) (kept : List Bytes) → clean_step rooted kept [] ≡ kept
unfolding clean_step bytes_eq
clean_step_empty rooted kept = refl

resolve-names :
    (kept cs : List Bytes) → All EmptyOrNormal cs → resolve true kept cs ≡ kept ++ names cs
unfolding resolve names
resolve-names kept [] h = sym (append-nil kept)
resolve-names kept (c ∷ cs) (inl e, h) =
    rw (e, clean_step_empty) (rw (bytes_eq_refl []) (resolve-names kept cs h))
resolve-names kept (c ∷ cs) (inr n, h) = rw (clean_step_keep true kept c n) (
    resolve-names (kept ++ c ∷ []) cs h
    ∙ append_assoc kept (c ∷ []) (names cs)
    ∙ ap (λ r. kept ++ r) (ground (arith, bytes_eq_iff c [])))

All-append_right {ℓ} : {A : Type ℓ} (P : A → Type 0) (xs ys : List A) → All P (xs ++ ys) → All P ys
All-append_right P [] ys h = h
All-append_right P (x ∷ xs) ys h = All-append_right P xs ys h.1

All-normal : (cs : List Bytes) → All IsNormal cs → All EmptyOrNormal cs
All-normal [] h = tt
All-normal (c ∷ cs) h = (inr h.0, All-normal cs h.1)

split-slash : (s : Bytes) → split b'/' (slash ++ s) ≡ [] ∷ split b'/' s
unfolding split
split-slash s = refl

pieces : (cs : List Bytes) → All IsNormal cs → All EmptyOrNormal (split b'/' (slash ++ join cs))
pieces [] n = unfold split join in (inl refl, (inl refl, tt))
pieces (c ∷ cs) n =
    rw (split-slash (join (c ∷ cs)))
      (inl refl, rw (split-join (c ∷ cs) (λ e. cc) n) (All-normal (c ∷ cs) n))

-- The pieces of a cleaned absolute path.
split-clean : (s : Bytes) → is_abs s ≡ true → All EmptyOrNormal (split b'/' (clean s))
split-clean s h = rw (clean-abs s h) (pieces (parts s) (parts-IsNormal s h))

pub is_abs-append : (h t : Bytes) → is_abs h ≡ true → is_abs (h ++ t) ≡ true
unfolding is_abs has_prefix
is_abs-append [] t a = absurd (ground arith)
is_abs-append (c ∷ h) t a = a

module _ (s x t : Bytes) (absolute : is_abs s ≡ true) (cut_at : clean s ≡ x ++ (b'/' ∷ t)) where
  tail_pieces : All EmptyOrNormal (split b'/' t)
  tail_pieces =
      All-append_right EmptyOrNormal (split b'/' x) (split b'/' t)
        (rw (split-append x t) at (rw cut_at at (split-clean s absolute)))

  -- Below any absolute path, what follows a `/` in a cleaned path only adds components.
  pub parts-below :
      (h : Bytes) → is_abs h ≡ true → parts (h ++ (b'/' ∷ t)) ≡ parts h ++ names (split b'/' t)
  unfolding parts
  parts-below h a =
      rw (is_abs-append h (b'/' ∷ t) a, a, split-append h t)
        (resolve-append true [] (split b'/' h) (split b'/' t)
          ∙ resolve-names (resolve true [] (split b'/' h)) (split b'/' t) tail_pieces)

join-append :
    (c : Bytes) (cs : List Bytes) (d : Bytes) (ds : List Bytes)
    → join (c ∷ cs ++ d ∷ ds) ≡ join (c ∷ cs) ++ (slash ++ join (d ∷ ds))
unfolding join
join-append c [] d ds = refl
join-append c (b ∷ cs) d ds =
    ap (λ r. c ++ (slash ++ r)) (join-append b cs d ds)
    ∙ sym (append_assoc c (slash ++ join (b ∷ cs)) (slash ++ join (d ∷ ds)))

-- the comparison of the cleaned paths
abbrev cover_test : Bytes → Bytes → Bool
cover_test x y =
    if bytes_eq x slash then true else if bytes_eq x y then true else has_prefix y (x ++ slash)

cover_test-below :
    (cs ds : List Bytes) → cover_test (slash ++ join cs) (slash ++ join (cs ++ ds)) ≡ true
cover_test-below [] ds = unfold join in ground (arith, bytes_eq_refl slash)
cover_test-below (c ∷ cs) [] =
    rw (append-nil, bytes_eq_refl (slash ++ join (c ∷ cs))) (ground arith)
cover_test-below (c ∷ cs) (d ∷ ds) = rw (join-append c cs d ds) (
    ground (
      arith,
      append_assoc (slash ++ join (c ∷ cs)) slash (join (d ∷ ds)),
      has_prefix-append ((slash ++ join (c ∷ cs)) ++ slash) (join (d ∷ ds)),
    ))

pub covers_of_parts :
    (outer inner : Bytes) (ds : List Bytes)
    → is_abs outer ≡ true
    → is_abs inner ≡ true
    → parts inner ≡ parts outer ++ ds
    → path_covers_or_equals outer inner ≡ true
unfolding path_covers_or_equals
covers_of_parts outer inner ds a b e =
    rw (a, b, clean-abs outer a, clean-abs inner b, e) (cover_test-below (parts outer) ds)

parts-root : parts slash ≡ []
unfolding join
parts-root = parts-join [] tt

-- the text below a prefix that ends at a slash
pub below_prefix :
    (x y : Bytes) → has_prefix y (x ++ slash) ≡ true → (t : Bytes) × (y ≡ x ++ (b'/' ∷ t))
below_prefix x y h =
    let (t, e) = has_prefix→append y (x ++ slash) h in (t, e ∙ append_assoc x slash t)

parts_of_prefix :
    (outer inner : Bytes)
    → is_abs outer ≡ true
    → is_abs inner ≡ true
    → has_prefix (clean inner) (clean outer ++ slash) ≡ true
    → (ds : List Bytes) × (parts inner ≡ parts outer ++ ds)
parts_of_prefix outer inner a b h =
    let (t, e) = below_prefix (clean outer) (clean inner) h in
    (
      names (split b'/' t),
      sym (parts-clean inner b)
          ∙ ap parts e
          ∙ parts-below inner (clean outer) t b e (clean outer) (is_abs-clean outer a)
          ∙ ap (λ r. r ++ names (split b'/' t)) (parts-clean outer a),
    )

-- what the components of a covered path are
parts_of_test :
    (outer inner : Bytes)
    → is_abs outer ≡ true
    → is_abs inner ≡ true
    → cover_test (clean outer) (clean inner) ≡ true
    → (ds : List Bytes) × (parts inner ≡ parts outer ++ ds)
parts_of_test outer inner a b h = elim (Bool-cases (bytes_eq (clean outer) slash)) [
  | inl root ↦ (
    parts inner,
    ap (λ r. r ++ parts inner)
        (sym parts-root ∙ ap parts (sym ((bytes_eq_iff _ _).0 root)) ∙ parts-clean outer a),
  )
  | inr not_root ↦ elim (Bool-cases (bytes_eq (clean outer) (clean inner))) [
    | inl same ↦ (
      [],
      sym (parts-clean inner b)
          ∙ ap parts (sym ((bytes_eq_iff _ _).0 same))
          ∙ parts-clean outer a
          ∙ sym (append-nil (parts outer)),
    )
    | inr apart ↦ parts_of_prefix outer inner a b (ground arith)
  ]
]

-- `pathCoversOrEquals` holds exactly when both paths are absolute and the components of `outer`,
-- after cleaning, are the first components of `inner`.
pub path_covers_iff :
    (outer inner : Bytes)
    → (path_covers_or_equals outer inner ≡ true) ↔ (
        (is_abs outer ≡ true)
        × (is_abs inner ≡ true)
        × ((ds : List Bytes) × (parts inner ≡ parts outer ++ ds)))
unfolding path_covers_or_equals
path_covers_iff outer inner = (
  λ h. (
    ground arith,
    ground arith,
    parts_of_test outer inner (ground arith) (ground arith) (ground arith),
  ),
  λ k. covers_of_parts outer inner k.2.0 k.0 k.1 k.2.1,
)
