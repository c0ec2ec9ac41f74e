-- ===== src/Sandbox/Attach.antt =====
-- internal/sandbox/pty.go: who is attached to a sandbox's terminal, and the scanner for the key
-- sequence that detaches.
pub mod Scan
use muro.Base.{
  ℕ, zero, suc, ◌+◌, ◌≤◌, ◌==◌, Bool, true, false, ◌&&◌, ◌||◌, not, List, [], ◌∷◌, ◌++◌, Option,
  none, some, length, Bytes, bytes_eq, bytes_eq_iff, bytes_eq_refl, contains, has_prefix,
  if◌then◌else◌, refl, sym, ap, ◌∙◌, ◌≡◌, arith, Bool-cases,
}

-- `DetachSequence`, "\x10\x11"
abbrev pub detach_sequence : Bytes
detach_sequence = 16 ∷ 17 ∷ []

-- s[i], which panics out of range
unfoldable pub byte_at : Bytes → ℕ → Option ℕ
byte_at [] i = none
byte_at (c ∷ s) zero = some c
byte_at (c ∷ s) (suc i) = byte_at s i

-- the switch of `Feed` at one byte: whether it returns true, and the new `matched`
unfoldable pub feed_byte : ℕ → ℕ → Option (Bool × ℕ)
unfolding byte_at
feed_byte matched b = elim (byte_at detach_sequence matched) [
  | none ↦ none
  | some c ↦
      if b == c
      then if (matched + 1) == length detach_sequence
        then some (true, 0)
        else some (false, matched + 1)
      else if b == 16
      then some (false, 1)
      else some (false, 0)
]

-- `Feed`; `none` is a panic.
unfoldable pub feed : ℕ → Bytes → Option (Bool × ℕ)
feed matched [] = some (false, matched)
feed matched (b ∷ buf) = elim (feed_byte matched b) [
  | none ↦ none
  | some (true, m) ↦ some (true, m)
  | some (false, m) ↦ feed m buf
]

-- the calls of `Feed` for one chunk of input after the other, up to the one that returns true
unfoldable pub feed_all : ℕ → List Bytes → Option (Bool × ℕ)
feed_all matched [] = some (false, matched)
feed_all matched (buf ∷ bufs) = elim (feed matched buf) [
  | none ↦ none
  | some (true, m) ↦ some (true, m)
  | some (false, m) ↦ feed_all m bufs
]

-- `attachRegistry`: the keys attached, each with the time of its attach
pub record Registry : Type 0 where
  pub attached : List (Bytes × ℕ)

unfoldable pub lookup : Bytes → List (Bytes × ℕ) → Option ℕ
lookup key [] = none
lookup key ((k, t) ∷ m) = if bytes_eq k key then some t else lookup key m

unfoldable pub remove : Bytes → List (Bytes × ℕ) → List (Bytes × ℕ)
remove key [] = []
remove key ((k, t) ∷ m) = let rest = remove key m in if bytes_eq k key then rest else (k, t) ∷ rest

-- `newAttachRegistry`
abbrev pub new_attach_registry : Registry
new_attach_registry = record { attached = [] }

-- `TryAttach` at the time `now`: `already`, `since` and the registry after it
unfoldable pub try_attach : Bytes → ℕ → Registry → (Bool × ℕ) × Registry
unfolding lookup
try_attach key now r = elim (lookup key r.attached) [
  | some t ↦ ((true, t), r)
  | none ↦ ((false, 0), record r { attached = (key, now) ∷ r.attached })
]

-- `Detach`
unfoldable pub detach : Bytes → Registry → Registry
unfolding remove
detach key r = record r { attached = remove key r.attached }
