-- ===== src/GitProxy/CapWriter.antt =====
-- internal/gitproxy/exec.go: `capWriter`, which bounds the output kept of a subprocess.
use native.Mathlib.Decide.{dec_le}
use muro.Base.{
  take-append_ge, ℕ, ◌-◌, ◌≤◌, ◌<◌, ◌≡◌, ◌⊎◌, refl, sym, ap, ◌∙◌, inl, inr, List, [], ◌∷◌, ◌++◌,
  append-nil, append_assoc, Bytes, codes, length, take, leb, ltb, if◌then◌else◌, arith,
  length-append, length-take, take_of_le, take-append_le,
}

abbrev pub note : Bytes
note = 10 ∷ codes "...[truncated]"

module _ (limit : ℕ) where
  -- `capWriter.Write`: the buffer after it. The reported count is always len(p).
  unfoldable pub write : Bytes → Bytes → Bytes
  write buf p =
      if leb limit (length buf)
      then buf
      else let remaining = limit - length buf in
        if ltb remaining (length p) then (buf ++ take remaining p) ++ note else buf ++ p

  -- the writes of a subprocess, in order
  unfoldable pub write_all : Bytes → List Bytes → Bytes
  write_all buf [] = buf
  write_all buf (p ∷ ps) = write_all (write buf p) ps

  abbrev pub written : List Bytes → Bytes
  written [] = []
  written (p ∷ ps) = p ++ written ps

  -- The buffer holds all of `s`, or its first `limit` bytes, with the note or without it.
  abbrev pub Kept : Bytes → Bytes → Type 0
  Kept s buf =
      ((length s ≤ limit) × (buf ≡ s))
      ⊎ ((limit < length s) × ((buf ≡ take limit s) ⊎ (buf ≡ take limit s ++ note)))

  write-full : (buf p : Bytes) → limit ≤ length buf → write buf p ≡ buf
  unfolding write
  write-full buf p h = ground arith

  write-fits : (s p : Bytes) → length s < limit → length p ≤ limit - length s → write s p ≡ s ++ p
  unfolding write
  write-fits s p h k = ground arith

  write-over :
      (s p : Bytes)
      → length s < limit
      → limit - length s < length p
      → write s p ≡ (s ++ take (limit - length s) p) ++ note
  unfolding write
  write-over s p h k = ground arith

  nothing : (s p : Bytes) → limit ≤ length s → length (s ++ p) ≤ limit → s ≡ s ++ p
  nothing s [] h k = sym (append-nil s)
  nothing s (c ∷ p) h k = absurd (omega (arith, length-append s (c ∷ p)))

  write-Kept : (s buf p : Bytes) → Kept s buf → Kept (s ++ p) (write buf p)
  write-Kept s buf p (inl (h, e)) = rw e (elim (dec_le limit (length s)) [
    | yes full ↦ rw (write-full s p full) (elim (dec_le (length (s ++ p)) limit) [
      | yes fits ↦ inl (fits, nothing s p full fits)
      | no over ↦
          inr (omega arith, inl (sym (take-append_le limit s p full ∙ take_of_le limit s h)))
    ])
    | no room ↦ elim (dec_le (length (s ++ p)) limit) [
      | yes fits ↦ inl (fits, write-fits s p (omega arith) (omega (arith, length-append s p)))
      | no over ↦ inr (
        omega arith,
        inr (
            write-over s p (omega arith) (omega (arith, length-append s p))
            ∙ ap (λ t. t ++ note) (sym (take-append_ge limit s p h))),
      )
    ]
  ])
  write-Kept s buf p (inr (h, inl e)) =
      rw (write-full buf p (rw e (omega (arith, length-take limit s))), e)
        (inr (omega (arith, length-append s p), inl (sym (take-append_le limit s p (omega arith)))))
  write-Kept s buf p (inr (h, inr e)) =
      rw
        (
          write-full buf p
              (rw e (omega (arith, length-append (take limit s) note, length-take limit s))),
          e,
        )
        (inr (
          omega (arith, length-append s p),
          inr (ap (λ t. t ++ note) (sym (take-append_le limit s p (omega arith)))),
        ))

  write_all-Kept :
      (s buf : Bytes) (ps : List Bytes) → Kept s buf → Kept (s ++ written ps) (write_all buf ps)
  unfolding write_all
  write_all-Kept s buf [] k = rw append-nil k
  write_all-Kept s buf (p ∷ ps) k =
      rw (← append_assoc s p (written ps))
        (write_all-Kept (s ++ p) (write buf p) ps (write-Kept s buf p k))

  -- However its input is split into writes, the writer keeps the whole of it if it fits the limit,
  -- and else exactly its first `limit` bytes, with nothing after them but the note.
  pub write_all_lem : (ps : List Bytes) → Kept (written ps) (write_all [] ps)
  write_all_lem ps = write_all-Kept [] [] ps (inl (omega arith, refl))

  first : (s : Bytes) → length s ≡ limit → write [] s ≡ s
  unfolding write
  first s h = elim (dec_le limit 0) [ yes z ↦ empty s (omega arith) | no z ↦ ground arith ]
    where
      empty : (s : Bytes) → length s ≡ 0 → write [] s ≡ s
      empty [] h = ground arith
      empty (c ∷ s) h = absurd (omega arith)

  stays : (s : Bytes) (ps : List Bytes) → limit ≤ length s → write_all s ps ≡ s
  unfolding write_all
  stays s [] h = refl
  stays s (p ∷ ps) h = rw (write-full s p h) (stays s ps h)

  -- Input that fills the buffer exactly and goes on in later writes is cut with no note.
  pub write_all-silent :
      (s : Bytes) (ps : List Bytes) → length s ≡ limit → write_all [] (s ∷ ps) ≡ s
  unfolding write_all
  write_all-silent s ps h = rw (first s h) (stays s ps (omega arith))
