-- ===== src/Sandbox/Attach/Scan.antt =====
-- internal/sandbox/pty.go on whole inputs and on histories of calls.
use muro.Base.{
  ℕ, zero, suc, ◌≤◌, ◌==◌, Bool, true, false, List, [], ◌∷◌, ◌++◌, Option, none, some, Bytes,
  bytes_eq, bytes_eq_iff, contains, has_prefix, if◌then◌else◌, refl, sym, ap, ◌∙◌, ◌≡◌, arith,
  Bool-cases, append_assoc, Option-cases, inl, inr, ◌≢◌,
}
use muro.Sandbox.Attach.{
  detach_sequence, byte_at, feed_byte, feed, feed_all, Registry, lookup, remove,
  new_attach_registry, try_attach, detach,
}

-- the input that a value of `matched` stands for
abbrev pub pending : ℕ → Bytes
pending zero = []
pending (suc m) = 16 ∷ []

-- A scan that started with `matched` at most 1 ended: `matched` is at most 1 again, and the scan
-- reported whether the sequence stands in the input, or else left the input's end in `matched`.
abbrev pub Scanned : ℕ → Bytes → Option (Bool × ℕ) → Type 0
Scanned m buf o =
    (m' : ℕ) × (o ≡ some (contains (pending m ++ buf) detach_sequence, m'))
    × (m' ≤ 1)
    × ((contains (pending m ++ buf) detach_sequence ≡ false)
        → (rest : Bytes)
        → contains (pending m ++ (buf ++ rest)) detach_sequence
          ≡ contains (pending m' ++ rest) detach_sequence)

feed-Scanned : (m : ℕ) (buf : Bytes) → m ≤ 1 → Scanned m buf (feed m buf)
unfolding feed feed_byte byte_at contains has_prefix
feed-Scanned zero [] h = (0, refl, omega arith, λ z rest. refl)
feed-Scanned (suc zero) [] h = (1, refl, omega arith, λ z rest. refl)
feed-Scanned (suc (suc m)) buf h = absurd (omega arith)
feed-Scanned zero (b ∷ buf) h = elim (Bool-cases (b == 16)) [
  | inl e ↦
      let (m', q, l, r) = feed-Scanned 1 buf (omega arith) in
      (m', ground arith, l, λ z rest. ground (arith, r (ground arith) rest))
  | inr e ↦
      let (m', q, l, r) = feed-Scanned 0 buf (omega arith) in
      (m', ground arith, l, λ z rest. ground (arith, r (ground arith) rest))
]
feed-Scanned (suc zero) (b ∷ buf) h = elim (Bool-cases (b == 17)) [
  | inl e ↦ (0, ground arith, omega arith, λ z rest. absurd (ground arith))
  | inr e ↦ elim (Bool-cases (b == 16)) [
    | inl f ↦
        let (m', q, l, r) = feed-Scanned 1 buf (omega arith) in
        (m', ground arith, l, λ z rest. ground (arith, r (ground arith) rest))
    | inr f ↦
        let (m', q, l, r) = feed-Scanned 0 buf (omega arith) in
        (m', ground arith, l, λ z rest. ground (arith, r (ground arith) rest))
  ]
]

has_prefix-extend : (s t p : Bytes) → has_prefix s p ≡ true → has_prefix (s ++ t) p ≡ true
unfolding has_prefix
has_prefix-extend s t [] h = refl
has_prefix-extend [] t (c ∷ p) h = absurd (ground arith)
has_prefix-extend (b ∷ s) t (c ∷ p) h = ground (arith, has_prefix-extend s t p (ground arith))

contains-extend : (s t p : Bytes) → p ≢ [] → contains s p ≡ true → contains (s ++ t) p ≡ true
unfolding contains
contains-extend [] t p n h = absurd (ground arith)
contains-extend (b ∷ s) t p n h = elim (Bool-cases (has_prefix (b ∷ s) p)) [
  | inl e ↦ ground (arith, has_prefix-extend (b ∷ s) t p e)
  | inr e ↦ ground (arith, contains-extend s t p n (ground arith))
]

-- the input of a sequence of chunks
abbrev pub joined : List Bytes → Bytes
joined [] = []
joined (buf ∷ bufs) = buf ++ joined bufs

cons≢nil : detach_sequence ≢ []
cons≢nil h = absurd (ground arith)

-- no sequence stands in what is pending
quiet : (m : ℕ) → m ≤ 1 → contains (pending m ++ []) detach_sequence ≡ false
unfolding contains has_prefix
quiet zero h = refl
quiet (suc m) h = refl

feed_all_of :
    (m : ℕ) (bufs : List Bytes)
    → m ≤ 1
    → (m' : ℕ) × (feed_all m bufs ≡ some (contains (pending m ++ joined bufs) detach_sequence, m'))
unfolding feed_all
feed_all_of m [] h = (m, ap (λ b. some (b, m)) (sym (quiet m h)))
feed_all_of m (buf ∷ bufs) h =
    let (m₁, q, l, r) = feed-Scanned m buf h in
    let (m', ih) = feed_all_of m₁ bufs l in
    elim (Bool-cases (contains (pending m ++ buf) detach_sequence)) [
      | inl e ↦ (
        m₁,
        ground (
          arith,
          contains-extend (pending m ++ buf) (joined bufs) detach_sequence cons≢nil e,
          append_assoc (pending m) buf (joined bufs),
        ),
      )
      | inr e ↦ (m', ground (arith, r e (joined bufs)))
    ]

-- The scanner, started afresh and fed one chunk after the other, never indexes past the sequence, and
-- it reports a detach exactly when the sequence stands somewhere in the whole input, however the
-- input is cut into chunks.
pub feed_all_lem :
    (bufs : List Bytes)
    → (m : ℕ) × (feed_all 0 bufs ≡ some (contains (joined bufs) detach_sequence, m))
feed_all_lem bufs = feed_all_of 0 bufs (omega arith)

-- a call of the registry
pub data Call : Type 0 where
  attach : Bytes → ℕ → Call
  release : Bytes → Call

-- the registry after some calls, the newest first
unfoldable pub run : List Call → Registry
run [] = new_attach_registry
run (attach key now ∷ before) = (try_attach key now (run before)).1
run (release key ∷ before) = detach key (run before)

-- since when a sandbox's terminal is taken: the first attach after the last release
unfoldable pub holder : Bytes → List Call → Option ℕ
holder key [] = none
holder key (attach k now ∷ before) = elim (holder key before) [
  | some t ↦ some t
  | none ↦ if bytes_eq k key then some now else none
]
holder key (release k ∷ before) = if bytes_eq k key then none else holder key before

lookup-remove :
    (key k : Bytes) (m : List (Bytes × ℕ))
    → lookup key (remove k m) ≡ (if bytes_eq k key then none else lookup key m)
unfolding lookup remove
lookup-remove key k [] = ground arith
lookup-remove key k ((j, t) ∷ m) =
    ground (arith, lookup-remove key k m, bytes_eq_iff j k, bytes_eq_iff j key, bytes_eq_iff k key)

lookup-run : (key : Bytes) (calls : List Call) → lookup key (run calls).attached ≡ holder key calls
unfolding run holder try_attach detach lookup
lookup-run key [] = refl
lookup-run key (attach k now ∷ before) =
    let same : bytes_eq k key ≡ true
        → lookup k (run before).attached ≡ lookup key (run before).attached =
      λ h. ap (λ j. lookup j (run before).attached) ((bytes_eq_iff k key).0 h) in
    elim (Option-cases (lookup k (run before).attached)) [
      | inl e ↦ ground (arith, lookup-run key before, same)
      | inr (t, e) ↦ ground (arith, lookup-run key before, same)
    ]
lookup-run key (release k ∷ before) =
    lookup-remove key k (run before).attached ∙ ground (arith, lookup-run key before)

-- After any sequence of attach and detach calls, an attach is refused exactly while an earlier attach
-- to the same sandbox has not been released, with the time of that attach; other sandboxes' calls do
-- not matter.
pub try_attach_lem :
    (calls : List Call) (key : Bytes) (now : ℕ)
    → (try_attach key now (run calls)).0
      ≡ elim (holder key calls) [ some since ↦ (true, since) | none ↦ (false, 0) ]
unfolding try_attach
try_attach_lem calls key now =
    rw (sym (lookup-run key calls)) (elim (Option-cases (lookup key (run calls).attached)) [
      | inl e ↦ ground arith
      | inr (t, e) ↦ ground arith
    ])
