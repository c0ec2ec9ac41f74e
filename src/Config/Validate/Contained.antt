-- ===== src/Config/Validate/Contained.antt =====
-- What the checks of one mount in `ValidateProfile` say of its two paths.
use muro.Base.{
  Bool, true, false, ◌||◌, List, [], ◌∷◌, ◌++◌, Option, some, Bytes, codes, has_prefix, refl, subst,
  bytes_eq, bytes_eq_iff, ok, fail_if, each, each_iff, fail_if_iff, >>-iff, All, ◌≡◌, ◌≢◌, arith,
  inl, inr, Bool-cases,
}
use muro.Config.{Mount}
use muro.Config.Paths.{is_abs, parts, expand_home, path_covers_or_equals}
use muro.Config.Paths.Cover.{covers_of_parts}
use muro.Config.Validate.{
  Fault, dangerous_mount, broad_mount, dangerous_host_roots, dangerous_host_roots_exact_only,
  sandbox_scaffold_paths, found_dir, check_writable,
}

pub All-map {ℓ} :
    {A : Type ℓ} (P Q : A → Type 0) (xs : List A) → ((x : A) → P x → Q x) → All P xs → All Q xs
All-map P Q [] f h = tt
All-map P Q (x ∷ xs) f (a, h) = (f x a, All-map P Q xs f h)

-- a loop of tests that all came out false
pub each-fail_if {ℓ} :
    {A : Type ℓ} (test : A → Bool) (e : Fault) (xs : List A)
    → each (λ x. fail_if (test x) e) xs ≡ ok tt
    → All (λ x. test x ≡ false) xs
each-fail_if test e xs h =
    All-map (λ x. fail_if (test x) e ≡ ok tt) (λ x. test x ≡ false) xs
      (λ x. (fail_if_iff (test x) e).0) ((each_iff (λ x. fail_if (test x) e) xs).0 h)

-- the components of `inner`, after cleaning, do not begin with all those of `outer`: no directory above it
-- and not the same
abbrev pub NotBelow : Bytes → Bytes → Type 0
NotBelow inner outer = (ds : List Bytes) → parts inner ≢ parts outer ++ ds

pub bytes_eq_ne : (a b : Bytes) → a ≢ b → bytes_eq a b ≡ false
bytes_eq_ne a b p = elim (Bool-cases (bytes_eq a b)) [
  | inl e ↦ absurd (p ((bytes_eq_iff a b).0 e))
  | inr e ↦ e
]

All-parts {ℓ} :
    {A : Type ℓ} (P : A → Type 0) (xs ys : List A) → All P (xs ++ ys) → All P xs × All P ys
All-parts P [] ys h = (tt, h)
All-parts P (x ∷ xs) ys (a, h) = let (b, c) = All-parts P xs ys h in ((a, b), c)

-- neither path is, or lies in, the other
abbrev pub Apart : Bytes → Bytes → Type 0
Apart x y = NotBelow x y × NotBelow y x

-- the directories of the host system that no sandbox may write to
abbrev pub system_dirs : List Bytes
system_dirs =
    codes "/etc"
    ∷ codes "/usr"
    ∷ codes "/bin"
    ∷ codes "/lib"
    ∷ codes "/proc"
    ∷ codes "/sys"
    ∷ codes "/dev"
    ∷ []

not_covered :
    (outer inner : Bytes)
    → is_abs outer ≡ true
    → is_abs inner ≡ true
    → path_covers_or_equals outer inner ≡ false
    → NotBelow inner outer
not_covered outer inner a b h ds e =
    let c = covers_of_parts outer inner ds a b e in absurd (ground (arith, c, h))

is_found : (d : Bytes) (P : Bytes → Type 0) → is_abs d ≡ true → All P (found_dir (some d)) → P d
unfolding is_abs has_prefix
is_found [] P a h = absurd (ground arith)
is_found (c ∷ d) P a h = (rw (bytes_eq_ne (c ∷ d) [] (λ e. cc)) at h).0

module _ (home config_dir state_dir : Option Bytes) where
  -- what a read-write mount of an absolute host path exposes: it is apart from every system directory and
  -- from muro's own directories, and neither "/" nor the home directory is or lies in it
  pub record Contained (host : Bytes) : Type 0 where
    pub no_system_dir : All (Apart host) system_dirs
    pub no_config : (d : Bytes) → config_dir ≡ some d → is_abs d ≡ true → Apart host d
    pub no_state : (d : Bytes) → state_dir ≡ some d → is_abs d ≡ true → Apart host d
    pub no_root : NotBelow (codes "/") host
    pub no_home : (d : Bytes) → home ≡ some d → is_abs d ≡ true → NotBelow d host

  -- what the test of the dangerous roots says of one
  apart :
      (host d : Bytes)
      → is_abs host ≡ true
      → is_abs d ≡ true
      → (path_covers_or_equals host d || path_covers_or_equals d host) ≡ false
      → Apart host d
  apart host d a b h =
      (not_covered d host b a (ground arith), not_covered host d a b (ground arith))

  abbrev Kept : Bytes → Bytes → Type 0
  Kept host d = (path_covers_or_equals host d || path_covers_or_equals d host) ≡ false

  own_dirs :
      (host : Bytes) (dir : Option Bytes)
      → is_abs host ≡ true
      → All (Kept host) (found_dir dir)
      → (d : Bytes) → dir ≡ some d
      → is_abs d ≡ true
      → Apart host d
  own_dirs host dir a h d e b =
      apart host d a b (is_found d (Kept host) b (subst (λ o. All (Kept host) (found_dir o)) e h))

  system_dirs-Apart :
      (host : Bytes)
      → is_abs host ≡ true
      → All (Kept host) system_dirs
      → All (Apart host) system_dirs
  unfolding is_abs has_prefix
  system_dirs-Apart host a (p, (q, (r, (s, (t, (u, (v, _))))))) = (
    apart host (codes "/etc") a refl p,
    (
      apart host (codes "/usr") a refl q,
      (
        apart host (codes "/bin") a refl r,
        (
          apart host (codes "/lib") a refl s,
          (
            apart host (codes "/proc") a refl t,
            (apart host (codes "/sys") a refl u, (apart host (codes "/dev") a refl v, tt)),
          ),
        ),
      ),
    ),
  )

  pub check_writable-Contained :
      (m : Mount)
      → is_abs (expand_home home m.host) ≡ true
      → check_writable home config_dir state_dir m ≡ ok tt
      → Contained (expand_home home m.host)
  unfolding check_writable
  check_writable-Contained m abs h =
      let host = expand_home home m.host in
      let overlaps : Bytes → Bool =
        λ d. path_covers_or_equals host d || path_covers_or_equals d host in
      let covers : Bytes → Bool = λ d. path_covers_or_equals host d in
      let roots = dangerous_host_roots config_dir state_dir in
      let exact = dangerous_host_roots_exact_only home in
      let (a, b) =
        (>>-iff (each (λ d. fail_if (overlaps d) dangerous_mount) roots)
            (each (λ d. fail_if (covers d) broad_mount) exact)).0
          h in
      let kept : All (Kept host) roots = each-fail_if overlaps dangerous_mount roots a in
      let broad : All (λ d. covers d ≡ false) exact = each-fail_if covers broad_mount exact b in
      let (system, own) = All-parts (Kept host) system_dirs _ kept in
      let (config, state) =
        All-parts (Kept host) (found_dir config_dir) (found_dir state_dir) own in
      record {
        no_system_dir = system_dirs-Apart host abs system;
        no_config = own_dirs host config_dir abs config;
        no_state = own_dirs host state_dir abs state;
        no_root = not_covered host (codes "/") abs (unfold is_abs has_prefix in refl) broad.0;
        no_home = λ d e q. not_covered host d abs q (
            is_found d (λ x. covers x ≡ false) q
              (subst (λ o. All (λ x. covers x ≡ false) (found_dir o)) e broad.1));
      }

  pub scaffold-NotBelow :
      (path : Bytes)
      → is_abs path ≡ true
      → All (λ d. path_covers_or_equals path d ≡ false) sandbox_scaffold_paths
      → All (λ d. NotBelow d path) (codes "/proc" ∷ codes "/dev" ∷ codes "/tmp" ∷ [])
  unfolding is_abs has_prefix
  scaffold-NotBelow path a (p, (q, (r, _))) = (
    not_covered path (codes "/proc") a refl p,
    (not_covered path (codes "/dev") a refl q, (not_covered path (codes "/tmp") a refl r, tt)),
  )
