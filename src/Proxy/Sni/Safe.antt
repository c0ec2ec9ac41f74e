-- ===== src/Proxy/Sni/Safe.antt =====
-- How a run of the parser of internal/proxy/sni.go ends.
use muro.Base.{
  ◌≡◌, refl, ℕ, zero, suc, ◌+◌, ◌*◌, ◌-◌, ◌≤◌, ◌<◌, Bool, true, false, Bytes, length, drop, take,
  arith, length-drop, length-take, get_or,
}
use muro.Proxy.Sni.{
  short_session_length, short_session, short_compressions_length, short_compressions, Error, Parsed,
  ok, err, panic, stuck, ◌>>=◌, ◌>>◌, reject, index, slice_from, slice_to, uint16, skip_short,
  record_body, hello_body, skip_version_random, skip_session, skip_ciphers, skip_compressions,
  extensions_block, scan_names, parse_server_name_extension, scan_extensions, extract_sni,
}

-- The run ended with an error of the code, or with a value of which `P` holds.
abbrev pub Ensures {ℓ} : {A : Type ℓ} → (A → Type 0) → Parsed A → Type 0
Ensures P (ok a) = P a
Ensures P (err e) = Unit
Ensures P panic = ⊥
Ensures P stuck = ⊥

Ensures-bind {ℓ κ} :
    {A : Type ℓ} {B : Type κ} (P : A → Type 0) (Q : B → Type 0) (m : Parsed A) (f : A → Parsed B)
    → Ensures P m
    → ((a : A) → P a → Ensures Q (f a))
    → Ensures Q (m >>= f)
Ensures-bind P Q (ok a) f h k = k a h
Ensures-bind P Q (err e) f h k = tt
Ensures-bind P Q panic f h k = h
Ensures-bind P Q stuck f h k = h

Ensures-reject {ℓ} :
    {B : Type ℓ} (Q : B → Type 0) (c : Bool) (e : Error) (k : Parsed B)
    → (c ≡ false → Ensures Q k)
    → Ensures Q (reject c e >> k)
Ensures-reject Q true e k h = tt
Ensures-reject Q false e k h = h refl

index-Ensures : (p : Bytes) (i : ℕ) → i < length p → Ensures (λ _. Unit) (index p i)
unfolding index
index-Ensures p i h = ground arith

uint16-Ensures : (p : Bytes) (i : ℕ) → i + 2 ≤ length p → Ensures (λ _. Unit) (uint16 p i)
unfolding uint16 index
uint16-Ensures p i h = ground arith

slice_from-Ensures :
    (p : Bytes) (n : ℕ) → n ≤ length p → Ensures (λ q. length q ≡ length p - n) (slice_from p n)
unfolding slice_from
slice_from-Ensures p n h = ground (arith, length-drop n p)

slice_to-Ensures : (p : Bytes) (n : ℕ) → n ≤ length p → Ensures (λ q. length q ≡ n) (slice_to p n)
unfolding slice_to
slice_to-Ensures p n h = ground (arith, length-take n p)

record_body-Ensures : (b : Bytes) → Ensures (λ _. Unit) (record_body b)
unfolding record_body
record_body-Ensures b = ground (arith, length-drop 5 b)

hello_body-Ensures : (b : Bytes) → Ensures (λ _. Unit) (hello_body b)
unfolding hello_body
hello_body-Ensures b = ground (arith, length-drop 4 b)

skip_version_random-Ensures : (b : Bytes) → Ensures (λ _. Unit) (skip_version_random b)
unfolding skip_version_random
skip_version_random-Ensures b = ground arith

skip_short-Ensures : (d e : Error) (p : Bytes) → Ensures (λ _. Unit) (skip_short d e p)
unfolding skip_short
skip_short-Ensures d e p = ground (arith, length-drop 1 p)

skip_ciphers-Ensures : (p : Bytes) → Ensures (λ _. Unit) (skip_ciphers p)
unfolding skip_ciphers
skip_ciphers-Ensures p = ground (arith, length-drop 2 p)

extensions_block-Ensures : (p : Bytes) → Ensures (λ _. Unit) (extensions_block p)
unfolding extensions_block
extensions_block-Ensures p = ground (arith, length-drop 2 p)

-- what a round of `scan_names` leaves, and of `scan_extensions`
abbrev after_name : Bytes → Bytes
after_name list = drop (get_or list 1 0 * 256 + get_or list 2 0) (drop 3 list)

abbrev after_extension : Bytes → Bytes
after_extension p = drop (get_or p 2 0 * 256 + get_or p 3 0) (drop 4 p)

scan_names-Ensures :
    (fuel : ℕ) (list : Bytes) → length list < fuel → Ensures (λ _. Unit) (scan_names fuel list)
unfolding scan_names
scan_names-Ensures zero list h = absurd (omega arith)
scan_names-Ensures (suc fuel) list h = ground (
  arith,
  scan_names-Ensures fuel (after_name list),
  length-drop 3 list,
  length-drop (get_or list 1 0 * 256 + get_or list 2 0) (drop 3 list),
)

parse_server_name_extension-Ensures :
    (d : Bytes) → Ensures (λ _. Unit) (parse_server_name_extension d)
unfolding parse_server_name_extension
parse_server_name_extension-Ensures d = ground (
  arith,
  length-drop 2 d,
  length-take (get_or d 0 0 * 256 + get_or d 1 0) (drop 2 d),
  scan_names-Ensures (suc (length (take (get_or d 0 0 * 256 + get_or d 1 0) (drop 2 d))))
      (take (get_or d 0 0 * 256 + get_or d 1 0) (drop 2 d)),
)

scan_extensions-Ensures :
    (fuel : ℕ) (p : Bytes) → length p < fuel → Ensures (λ _. Unit) (scan_extensions fuel p)
unfolding scan_extensions
scan_extensions-Ensures zero p h = absurd (omega arith)
scan_extensions-Ensures (suc fuel) p h = ground (
  arith,
  scan_extensions-Ensures fuel (after_extension p),
  parse_server_name_extension-Ensures (take (get_or p 2 0 * 256 + get_or p 3 0) (drop 4 p)),
  length-drop 4 p,
  length-drop (get_or p 2 0 * 256 + get_or p 3 0) (drop 4 p),
)

-- On every input `ExtractSNI` ends with a name or with one of its errors: no index or slice is out
-- of range, and neither loop runs past the length of what it scans.
pub extract_sni-Ensures : (client_hello : Bytes) → Ensures (λ _. Unit) (extract_sni client_hello)
unfolding extract_sni skip_session skip_compressions
extract_sni-Ensures b =
    Ensures-bind (λ _. Unit) (λ _. Unit) (record_body b) _ (record_body-Ensures b)
      λ b1 _.
        Ensures-bind (λ _. Unit) (λ _. Unit) (hello_body b1) _ (hello_body-Ensures b1)
          λ b2 _.
            Ensures-bind (λ _. Unit) (λ _. Unit) (skip_version_random b2) _
              (skip_version_random-Ensures b2)
              λ b3 _.
                Ensures-bind (λ _. Unit) (λ _. Unit)
                  (skip_short short_session_length short_session b3) _ (skip_short-Ensures _ _ b3)
                  λ b4 _.
                    Ensures-bind (λ _. Unit) (λ _. Unit) (skip_ciphers b4) _
                      (skip_ciphers-Ensures b4)
                      λ b5 _.
                        Ensures-bind (λ _. Unit) (λ _. Unit)
                          (skip_short short_compressions_length short_compressions b5) _
                          (skip_short-Ensures _ _ b5)
                          λ b6 _.
                            Ensures-bind (λ _. Unit) (λ _. Unit) (extensions_block b6) _
                              (extensions_block-Ensures b6)
                              λ b7 _. scan_extensions-Ensures (suc (length b7)) b7 (omega arith)
