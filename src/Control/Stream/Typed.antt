-- ===== src/Control/Stream/Typed.antt =====
-- internal/control/stream.go: what an attached client's input comes to.
use muro.Base.{
  ◌≡◌, refl, ap, ℕ, Bool, true, false, List, [], ◌∷◌, ◌++◌, some, Bytes, contains, bytes_eq,
  Bool-cases, Option-cases, inl, inr, arith,
}
use muro.Sandbox.Attach.{detach_sequence, feed, feed_all}
use muro.Sandbox.Attach.Scan.{joined, feed_all_lem}
use muro.Control.Stream.{detached, input_ended, forward}

-- what was written is not the detach sequence so far
forward-feed_all :
    (accepts : Bytes → Bool) (matched : ℕ) (chunks : List Bytes)
    → (m : ℕ) × (feed_all matched (forward accepts matched chunks).0 ≡ some (false, m))
unfolding forward feed_all
forward-feed_all accepts matched [] = (matched, refl)
forward-feed_all accepts matched (chunk ∷ chunks) = elim (Bool-cases (bytes_eq chunk [])) [
  | inl e ↦ let (m, h) = forward-feed_all accepts matched chunks in (m, rw (e, forward) h)
  | inr e ↦ elim (Option-cases (feed matched chunk)) [
    | inl n ↦ (matched, rw (e, forward) (rw (n) refl))
    | inr ((true, m), n) ↦ (matched, rw (e, forward) (rw (n) refl))
    | inr ((false, m), n) ↦
        let (m', h) = forward-feed_all accepts m chunks in
        elim (Bool-cases (accepts chunk)) [ inl a ↦ (m', ground arith) | inr a ↦ (m, ground arith) ]
  ]
]

-- where the terminal takes each chunk, the loop is the scanner's
forward-ends :
    (matched : ℕ) (chunks : List Bytes) (found : Bool) (m : ℕ)
    → feed_all matched chunks ≡ some (found, m)
    → (found ≡ true → (forward (λ _. true) matched chunks).1 ≡ detached)
      × (found ≡ false
          → ((forward (λ _. true) matched chunks).1 ≡ input_ended)
            × (joined (forward (λ _. true) matched chunks).0 ≡ joined chunks))
unfolding forward feed_all feed bytes_eq
forward-ends matched [] found m h = (λ e. absurd (ground arith), λ e. (refl, refl))
forward-ends matched ([] ∷ chunks) found m h = forward-ends matched chunks found m h
forward-ends matched ((c ∷ cs) ∷ chunks) found m h = elim (Option-cases (feed matched (c ∷ cs))) [
  | inl n ↦ absurd (ground arith)
  | inr ((true, m'), n) ↦ (λ f. rw (n, forward) refl, λ f. absurd (ground arith))
  | inr ((false, m'), n) ↦
      let ih = forward-ends m' chunks found m (ground arith) in
      (
        λ f. rw (n, forward) (ih.0 f),
        λ f. rw (n, forward) ((ih.1 f).0, ap (λ r. (c ∷ cs) ++ r) (ih.1 f).1),
      )
]

-- However the client's input is cut into chunks, and whether or not the terminal takes them: what is
-- written to the terminal never has the detach sequence in it. Where the terminal takes every chunk, the
-- session ends as detached if the sequence stands anywhere in the input, and otherwise the whole input
-- is written, in order, and the session ends with the input.
pub forward_lem :
    (accepts : Bytes → Bool) (chunks : List Bytes)
    → (contains (joined (forward accepts 0 chunks).0) detach_sequence ≡ false)
      × (contains (joined chunks) detach_sequence ≡ true
          → (forward (λ _. true) 0 chunks).1 ≡ detached)
      × (contains (joined chunks) detach_sequence ≡ false
          → ((forward (λ _. true) 0 chunks).1 ≡ input_ended)
            × (joined (forward (λ _. true) 0 chunks).0 ≡ joined chunks))
forward_lem accepts chunks =
    let (m, h) = forward-feed_all accepts 0 chunks in
    let (k, s) = feed_all_lem (forward accepts 0 chunks).0 in
    let (n, e) = feed_all_lem chunks in
    let ends = forward-ends 0 chunks _ n e in (ground arith, ends.0, ends.1)
