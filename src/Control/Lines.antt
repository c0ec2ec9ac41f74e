-- ===== src/Control/Lines.antt =====
-- internal/control/server.go: `readLineLimited`, on the bytes that the client sends until it is silent,
-- closes the connection or breaks it.
use muro.Base.{
  ◌≡◌, ℕ, ◌+◌, ◌≤◌, ◌*◌, [], ◌∷◌, ◌++◌, none, some, Bytes, length, ltb, leb, ◌==◌, cut,
  if◌then◌else◌, arith, Bool-cases, Option-cases, inl, inr, append_assoc, append-nil, length-append,
  ◌∙◌,
}

-- A line with what follows it; the input that ended before one; or a line that is too long.
pub data Line : Type 0 where
  line : Bytes → Bytes → Line
  ended : Bytes → Line
  too_long : Line

-- `maxRequestLineSize`
abbrev pub max_request_line_size : ℕ
max_request_line_size = 4 * 1048576

-- the loop of `readLineLimited`
unfoldable pub read_from : ℕ → Bytes → Bytes → Line
read_from most so_far [] = ended so_far
read_from most so_far (b ∷ input) =
    let longer = so_far ++ b ∷ [] in
    let rest = read_from most longer input in
    if b == 10 then line longer input else if ltb most (length longer) then too_long else rest

-- `readLineLimited`
unfoldable pub read_line_limited : ℕ → Bytes → Line
unfolding read_from
read_line_limited most input = read_from most [] input

-- what the reader is for: the bytes up to the first newline, unless they are more than the limit
abbrev pub first_line : ℕ → Bytes → Line
first_line most input = elim (cut 10 input) [
  | none ↦ if leb (length input) most then ended input else too_long
  | some (text, rest) ↦ if leb (length text) most then line (text ++ 10 ∷ []) rest else too_long
]

-- the same after some bytes that were read
abbrev first_from : ℕ → Bytes → Bytes → Line
first_from most so_far input = elim (cut 10 input) [
  | none ↦ if leb (length so_far + length input) most then ended (so_far ++ input) else too_long
  | some (text, rest) ↦
      if leb (length so_far + length text) most
      then line (so_far ++ (text ++ 10 ∷ [])) rest
      else too_long
]

read_from_lem :
    (most : ℕ) (so_far input : Bytes)
    → length so_far ≤ most
    → read_from most so_far input ≡ first_from most so_far input
unfolding read_from cut
read_from_lem most so_far [] h = rw (append-nil so_far) (ground arith)
read_from_lem most so_far (b ∷ input) h =
    let n = length-append so_far (b ∷ []) in
    elim (Bool-cases (b == 10)) [
      | inl e ↦ ground arith
      | inr e ↦ elim (Bool-cases (ltb most (length (so_far ++ b ∷ [])))) [
        | inl big ↦ elim (Option-cases (cut 10 input)) [
          | inl q ↦ ground arith
          | inr ((text, rest), q) ↦ ground arith
        ]
        | inr small ↦
            let ih = read_from_lem most (so_far ++ b ∷ []) input (ground arith) in
            elim (Option-cases (cut 10 input)) [
              | inl q ↦ let a = append_assoc so_far (b ∷ []) input in ground arith
              | inr ((text, rest), q) ↦
                  let a = append_assoc so_far (b ∷ []) (text ++ 10 ∷ []) in ground arith
            ]
      ]
    ]

first_from-nil : (most : ℕ) (input : Bytes) → first_from most [] input ≡ first_line most input
first_from-nil most input = elim (Option-cases (cut 10 input)) [
  | inl q ↦ ground arith
  | inr ((text, rest), q) ↦ ground arith
]

-- The reader takes exactly the bytes up to the first newline, that newline included, and leaves what
-- follows; it refuses a line as too long exactly when more bytes than the limit come before the newline or,
-- where there is none, before the end; and with no newline within the limit it reports the end.
pub read_line_limited_lem :
    (most : ℕ) (input : Bytes) → read_line_limited most input ≡ first_line most input
unfolding read_line_limited
read_line_limited_lem most input =
    read_from_lem most [] input (omega arith) ∙ first_from-nil most input
