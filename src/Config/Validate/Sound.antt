-- ===== src/Config/Validate/Sound.antt =====
-- What a profile that passes `ValidateProfile` grants.
use muro.Base.{
  Bool, true, false, List, [], ◌∷◌, ◌++◌, Option, Bytes, codes, bytes_eq, bytes_eq_iff,
  bytes_eq_refl, in_set, if◌then◌else◌, ok, ◌>>◌, fail_if, each, each_iff, fail_if_iff, >>-iff,
  Result-cases, All, ◌≡◌, ◌≢◌, sym, ap, ◌∙◌, arith, inl, inr, Bool-cases,
}
use muro.Config.{Mount, Tool}
use muro.Config.Paths.{is_abs, expand_home, path_covers_or_equals}
use muro.Config.Validate.Contained.{
  All-map, each-fail_if, NotBelow, bytes_eq_ne, Contained, check_writable-Contained,
  scaffold-NotBelow,
}
use muro.Config.Validate.{
  Profile, mount_on_tool, scaffold_mount, Check, sandbox_scaffold_paths, tool_target, is_named,
  tool_targets, check_writable, check_mount, validate_profile,
}

tool_targets-in :
    (seen : List Bytes) (ts : List Tool) (targets : List Bytes)
    → tool_targets seen ts ≡ ok targets
    → All (λ t. is_named t ≡ true → in_set (tool_target t) targets ≡ true) ts
      × ((x : Bytes) → in_set x seen ≡ true → in_set x targets ≡ true)
unfolding tool_targets in_set
tool_targets-in seen [] targets h =
    (tt, λ x s. (let e : seen ≡ targets = cc in ap (in_set x) (sym e) ∙ s))
tool_targets-in seen (t ∷ ts) targets h = elim (Bool-cases (is_named t)) [
  | inr n ↦
      let (a, b) = tool_targets-in seen ts targets (ground arith) in
      ((λ m. absurd (ground arith), a), b)
  | inl n ↦ elim (Bool-cases (in_set (tool_target t) seen)) [
    | inl i ↦ absurd (ground arith)
    | inr i ↦
        let (a, b) = tool_targets-in (tool_target t ∷ seen) ts targets (ground arith) in
        (
          (λ m. b (tool_target t) (ground (arith, bytes_eq_refl (tool_target t))), a),
          λ x s. b x (ground arith),
        )
  ]
]

named_tool : (t : Tool) → t.as_name ≢ [] → t.as_name ≢ codes "*" → is_named t ≡ true
named_tool t p q =
    let a : bytes_eq t.as_name [] ≡ false = bytes_eq_ne t.as_name [] p in
    let b : bytes_eq t.as_name (codes "*") ≡ false = bytes_eq_ne t.as_name (codes "*") q in
    ground (arith, a, b)

module _ (home config_dir state_dir : Option Bytes) where
  -- the mount is contained, covers none of the scaffolding, and is not at the path of a named tool
  abbrev pub Safe : List Tool → Mount → Type 0
  Safe tools m =
      ((m.mode ≡ codes "rw")
        → is_abs (expand_home home m.host) ≡ true
        → Contained home config_dir state_dir (expand_home home m.host))
      × (is_abs m.sandbox_path ≡ true
          → All (λ d. NotBelow d m.sandbox_path) (codes "/proc" ∷ codes "/dev" ∷ codes "/tmp" ∷ []))
      × All
          (λ t.
            t.as_name ≢ []
            → t.as_name ≢ codes "*"
            → m.sandbox_path ≢ codes "/usr/local/bin/" ++ t.as_name)
          tools

  check_mount-Safe :
      (tools : List Tool) (targets : List Bytes) (m : Mount)
      → tool_targets [] tools ≡ ok targets
      → check_mount home config_dir state_dir targets m ≡ ok tt
      → Safe tools m
  unfolding check_mount
  check_mount-Safe tools targets m q h =
      let f : Check = fail_if (in_set m.sandbox_path targets) mount_on_tool in
      let w : Check =
        if bytes_eq m.mode (codes "rw")
        then check_writable home config_dir state_dir m
        else ok tt in
      let covers : Bytes → Bool = λ d. path_covers_or_equals m.sandbox_path d in
      let e : Check = each (λ d. fail_if (covers d) scaffold_mount) sandbox_scaffold_paths in
      let (front, scaffold) = (>>-iff (f >> w) e).0 h in
      let (free, writable) = (>>-iff f w).0 front in
      let mode : m.mode ≡ codes "rw" → check_writable home config_dir state_dir m ≡ ok tt =
        λ rw_mode. ground (arith, (bytes_eq_iff m.mode (codes "rw")).1 rw_mode) in
      (
        λ rw_mode abs. check_writable-Contained home config_dir state_dir m abs (mode rw_mode),
        λ abs.
            scaffold-NotBelow home config_dir state_dir m.sandbox_path abs
              (each-fail_if covers scaffold_mount sandbox_scaffold_paths scaffold),
        All-map (λ t. is_named t ≡ true → in_set (tool_target t) targets ≡ true)
            (λ t.
              t.as_name ≢ []
              → t.as_name ≢ codes "*"
              → m.sandbox_path ≢ codes "/usr/local/bin/" ++ t.as_name)
            tools
            (λ t inside named starred same.
              let n : is_named t ≡ true = named_tool t named starred in
              let e : true ≡ false =
                sym (inside n)
                ∙ ap (λ x. in_set x targets) (sym same)
                ∙ (fail_if_iff (in_set m.sandbox_path targets) mount_on_tool).0 free in
              absurd (ground arith))
            (tool_targets-in [] tools targets q).0,
      )

  -- In a profile that passes `ValidateProfile`: a read-write mount whose host path is absolute, once a "~"
  -- at its front is expanded, is not, does not lie in and does not contain any of /etc, /usr, /bin, /lib,
  -- /proc, /sys and /dev, or muro's own configuration or state directory where that is found and absolute,
  -- and neither "/" nor an absolute home directory is it or lies in it. For any mount: where its sandbox
  -- path is absolute as it is written in the profile, none of /proc, /dev and /tmp is it or lies in it; and
  -- it is not the path of a named tool.
  pub validate_profile-Safe :
      (p : Profile)
      → validate_profile home config_dir state_dir p ≡ ok tt
      → All (Safe p.tools) p.mounts
  unfolding validate_profile
  validate_profile-Safe p h = elim (Result-cases (tool_targets [] p.tools)) [
    | inr (e, q) ↦ absurd (ground arith)
    | inl (targets, q) ↦
        elim (Result-cases (each (check_mount home config_dir state_dir targets) p.mounts)) [
          | inr (e, w) ↦ absurd (ground arith)
          | inl (_, w) ↦
              All-map (λ m. check_mount home config_dir state_dir targets m ≡ ok tt) (Safe p.tools)
                p.mounts (λ m. check_mount-Safe p.tools targets m q)
                ((each_iff (check_mount home config_dir state_dir targets) p.mounts).0 w)
        ]
  ]
