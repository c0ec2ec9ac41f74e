-- ===== src/Sandbox/Mounts.antt =====
-- internal/sandbox/mounts.go: the mounts that a sandbox is started with.
use muro.Base.{
  List, [], ◌∷◌, ◌++◌, Option, Bytes, codes, bytes_eq, bytes_eq_iff, if◌then◌else◌, Result, ok, err,
  map, All, Any, Any-map, refl, sym, ap, ◌≡◌, ◌≢◌, arith, inl, inr, Bool-cases, Result-cases, ◌⊎◌,
}
use muro.Config.{Mount, Tool}
use muro.Config.Paths.{slash, expand_home}
use muro.Config.Validate.{Profile, Fault, tool_root, validate_profile}
use muro.Config.Validate.Contained.{All-map}
use muro.Config.Validate.Sound.{Safe, validate_profile-Safe}

-- the mount of a tool; a tool without a name has none
unfoldable pub tool_mount : Option Bytes → Tool → List Mount
tool_mount home t =
    if bytes_eq t.as_name []
    then []
    else if bytes_eq t.as_name (codes "*")
    then record { host = expand_home home t.host; sandbox_path = tool_root; mode = codes "ro" } ∷ []
    else record {
      host = expand_home home t.host;
      sandbox_path = tool_root ++ (slash ++ t.as_name);
      mode = codes "ro";
    }
      ∷ []

-- the loop over the tools
unfoldable pub tool_mounts : Option Bytes → List Tool → List Mount
tool_mounts home [] = []
tool_mounts home (t ∷ ts) = tool_mount home t ++ tool_mounts home ts

-- the body of the last loop
abbrev pub expand_mount : Option Bytes → Mount → Mount
expand_mount home m = record m {
  host = expand_home home m.host;
  sandbox_path = expand_home home m.sandbox_path;
}

-- `ResolveMounts`
unfoldable pub resolve_mounts :
    Option Bytes → Option Bytes → Option Bytes → Profile → Result Fault (List Mount)
resolve_mounts home config_dir state_dir p = elim (validate_profile home config_dir state_dir p) [
  | err e ↦ err e
  | ok _ ↦ ok (map (expand_mount home) (p.mounts ++ tool_mounts home p.tools))
]

-- A mount of the result: one of the profile's, which validation found safe, or a tool's, read-only.
abbrev pub Origin : Option Bytes → Option Bytes → Option Bytes → Profile → Mount → Type 0
Origin home config_dir state_dir p m =
    Any (λ x. (m ≡ expand_mount home x) × Safe home config_dir state_dir p.tools x) p.mounts
    ⊎ ((m.mode ≡ codes "ro")
        × Any (λ t. (t.as_name ≢ []) × (m.host ≡ expand_home home (expand_home home t.host)))
            p.tools)

All-join {ℓ} :
    {A : Type ℓ} (P : A → Type 0) (xs ys : List A) → All P xs → All P ys → All P (xs ++ ys)
All-join P [] ys h k = k
All-join P (x ∷ xs) ys (a, h) k = (a, All-join P xs ys h k)

All-image :
    (P : Mount → Type 0) (f : Mount → Mount) (xs : List Mount)
    → All (λ x. P (f x)) xs
    → All P (map f xs)
All-image P f [] h = tt
All-image P f (x ∷ xs) (a, h) = (a, All-image P f xs h)

-- every element, with what holds of it, is in the list
All-Any_self {ℓ} :
    {A : Type ℓ} (P : A → Type 0) (Q : A → A → Type 0) (xs : List A)
    → ((x : A) → Q x x)
    → All P xs
    → All (λ x. Any (λ y. Q x y × P y) xs) xs
All-Any_self P Q [] r h = tt
All-Any_self P Q (x ∷ xs) r (a, h) = (inl (r x, a), All-weaken xs (All-Any_self P Q xs r h))
  where
    All-weaken :
        (ys : List _)
        → All (λ y. Any (λ z. Q y z × P z) xs) ys
        → All (λ y. Any (λ z. Q y z × P z) (x ∷ xs)) ys
    All-weaken [] k = tt
    All-weaken (y ∷ ys) (b, k) = (inr b, All-weaken ys k)

-- a read-only mount of a tool's program
abbrev pub OfTool : Option Bytes → List Tool → Mount → Type 0
OfTool home ts m =
    (m.mode ≡ codes "ro") × Any (λ t. (t.as_name ≢ []) × (m.host ≡ expand_home home t.host)) ts

tool_mount-OfTool :
    (home : Option Bytes) (t : Tool) (ts : List Tool)
    → All (OfTool home (t ∷ ts)) (tool_mount home t)
unfolding tool_mount
tool_mount-OfTool home t ts = elim (Bool-cases (bytes_eq t.as_name [])) [
  | inl e ↦ rw (e) tt
  | inr e ↦
      let named : t.as_name ≢ [] = λ z. absurd (ground (arith, (bytes_eq_iff t.as_name []).1 z)) in
      elim (Bool-cases (bytes_eq t.as_name (codes "*"))) [
        | inl f ↦ rw (e, f) ((refl, inl (named, refl)), tt)
        | inr f ↦ rw (e, f) ((refl, inl (named, refl)), tt)
      ]
]

tool_mounts-OfTool :
    (home : Option Bytes) (ts : List Tool) → All (OfTool home ts) (tool_mounts home ts)
unfolding tool_mounts
tool_mounts-OfTool home [] = tt
tool_mounts-OfTool home (t ∷ ts) =
    All-join (OfTool home (t ∷ ts)) (tool_mount home t) (tool_mounts home ts)
      (tool_mount-OfTool home t ts)
      (All-map (OfTool home ts) (OfTool home (t ∷ ts)) (tool_mounts home ts)
        (λ m (mode, from). (mode, inr from)) (tool_mounts-OfTool home ts))

-- Every mount that a sandbox is started with is a mount of its profile with "~" expanded, one that
-- validation found safe before the expansion, or the read-only mount of one of the profile's tools.
pub resolve_mounts-Origin :
    (home config_dir state_dir : Option Bytes) (p : Profile) (ms : List Mount)
    → resolve_mounts home config_dir state_dir p ≡ ok ms
    → All (Origin home config_dir state_dir p) ms
unfolding resolve_mounts
resolve_mounts-Origin home config_dir state_dir p ms h =
    elim (Result-cases (validate_profile home config_dir state_dir p)) [
      | inr (e, v) ↦ absurd (ground arith)
      | inl (_, v) ↦
          let P = Origin home config_dir state_dir p in
          let all = p.mounts ++ tool_mounts home p.tools in
          let same : map (expand_mount home) all ≡ ms = ground arith in
          rw (sym same) (
            All-image P (expand_mount home) all (
              All-join (λ m. P (expand_mount home m)) p.mounts (tool_mounts home p.tools)
                (All-map
                  (λ m.
                    Any
                      (λ x.
                        (expand_mount home m ≡ expand_mount home x)
                        × Safe home config_dir state_dir p.tools x)
                      p.mounts)
                  (λ m. P (expand_mount home m)) p.mounts (λ m a. inl a)
                  (All-Any_self (Safe home config_dir state_dir p.tools)
                    (λ m x. expand_mount home m ≡ expand_mount home x) p.mounts (λ x. refl)
                    (validate_profile-Safe home config_dir state_dir p v)))
                (All-map (OfTool home p.tools) (λ m. P (expand_mount home m))
                  (tool_mounts home p.tools)
                  (λ m (mode, from).
                    inr (mode, Any-map _ _ p.tools (λ t (n, q). (n, ap (expand_home home) q)) from))
                  (tool_mounts-OfTool home p.tools))))
    ]
