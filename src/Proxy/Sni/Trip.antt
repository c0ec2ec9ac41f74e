-- ===== src/Proxy/Sni/Trip.antt =====
-- The parser of internal/proxy/sni.go on encoded ClientHello messages.
use muro.Base.{
  ℕ, zero, suc, ◌<◌, ◌≡◌, ◌≢◌, refl, ap, ◌∙◌, List, [], ◌∷◌, ◌++◌, Bytes, length, All, ◌==◌,
  if◌then◌else◌, arith, length-append, drop-append, take-append, take-length,
}
use muro.Proxy.Sni.{
  Error, Parsed, ok, err, no_sni, ◌>>=◌, slice_from, slice_to, skip_short, record_body, hello_body,
  skip_version_random, skip_session, skip_ciphers, skip_compressions, extensions_block, scan_names,
  parse_server_name_extension, scan_extensions, extract_sni,
}
use muro.Proxy.Sni.Hello.{
  be16, be24, ServerName, Extension, ClientHello, encode_names, server_name, encode_extensions,
  encode_body, encode_handshake, encode, NameFits, Fits, first_host,
}

slice_from-append : (xs ys : Bytes) → slice_from (xs ++ ys) (length xs) ≡ ok ys
unfolding slice_from
slice_from-append xs ys = ground (arith, length-append xs ys, drop-append xs ys)

slice_to-append : (xs ys : Bytes) → slice_to (xs ++ ys) (length xs) ≡ ok xs
unfolding slice_to
slice_to-append xs ys = ground (arith, length-append xs ys, take-append xs ys)

skip_version_random-append :
    (v rest : Bytes) → length v ≡ 34 → skip_version_random (v ++ rest) ≡ ok rest
unfolding skip_version_random
skip_version_random-append v rest h = ground (arith, length-append v rest, drop-append v rest)

skip_short-append :
    (d e : Error) (s rest : Bytes) → skip_short d e (length s ∷ (s ++ rest)) ≡ ok rest
unfolding skip_short
skip_short-append d e s rest = ground (arith, length-append s rest, drop-append s rest)

skip_ciphers-append : (s rest : Bytes) → skip_ciphers (be16 (length s) ++ (s ++ rest)) ≡ ok rest
unfolding skip_ciphers be16
skip_ciphers-append s rest = ground (arith, length-append s rest, drop-append s rest)

extensions_block-append : (s : Bytes) → extensions_block (be16 (length s) ++ s) ≡ ok s
unfolding extensions_block be16
extensions_block-append s = ground (arith, take-length s)

hello_body-append :
    (s : Bytes) → length s < 65536 → hello_body (0x01 ∷ (be24 (length s) ++ s)) ≡ ok s
unfolding hello_body be24
hello_body-append s h = ground (arith, take-length s)

record_body-append :
    (a b : ℕ) (s rest : Bytes)
    → record_body (0x16 ∷ a ∷ b ∷ (be16 (length s) ++ (s ++ rest))) ≡ ok s
unfolding record_body be16
record_body-append a b s rest = ground (arith, length-append s rest, take-append s rest)

scan_names-encode :
    (fuel : ℕ) (ns : List ServerName)
    → All NameFits ns
    → length (encode_names ns) < fuel
    → scan_names fuel (encode_names ns) ≡ first_host ns
unfolding scan_names encode_names
scan_names-encode zero ns f h = absurd (omega arith)
scan_names-encode (suc fuel) [] f h = refl
scan_names-encode (suc fuel) (n ∷ ns) f h = ground (
  arith,
  scan_names-encode fuel ns f.1,
  length-append n.name (encode_names ns),
  take-append n.name (encode_names ns),
  drop-append n.name (encode_names ns),
)

parse_server_name-encode :
    (ns : List ServerName)
    → All NameFits ns
    → parse_server_name_extension (server_name ns).body ≡ first_host ns
unfolding parse_server_name_extension server_name be16
parse_server_name-encode ns f =
    ground (
      arith,
      take-length (encode_names ns),
      scan_names-encode (suc (length (encode_names ns))) ns f,
    )

-- the extension that the loop stops at
abbrev first_server_name : List Extension → Parsed Bytes
first_server_name [] = err no_sni
first_server_name (e ∷ es) =
    if e.kind == 0 then parse_server_name_extension e.body else first_server_name es

scan_extensions-cons :
    (fuel kind : ℕ) (body tail : Bytes)
    → scan_extensions (suc fuel) (be16 kind ++ (be16 (length body) ++ (body ++ tail)))
      ≡ (if kind == 0 then parse_server_name_extension body else scan_extensions fuel tail)
unfolding scan_extensions be16
scan_extensions-cons fuel kind body tail =
    ground (arith, length-append body tail, take-append body tail, drop-append body tail)

scan_extensions-encode :
    (fuel : ℕ) (es : List Extension)
    → length (encode_extensions es) < fuel
    → scan_extensions fuel (encode_extensions es) ≡ first_server_name es
unfolding scan_extensions encode_extensions
scan_extensions-encode zero es h = absurd (omega arith)
scan_extensions-encode (suc fuel) [] h = refl
scan_extensions-encode (suc fuel) (e ∷ es) h =
    scan_extensions-cons fuel e.kind e.body (encode_extensions es)
    ∙ ap (λ r. if e.kind == 0 then parse_server_name_extension e.body else r)
        (scan_extensions-encode fuel es
          (omega (arith, length-append e.body (encode_extensions es))))

first_server_name-append :
    (before after : List Extension) (ns : List ServerName)
    → All (λ e. e.kind ≢ 0) before
    → All NameFits ns
    → first_server_name (before ++ server_name ns ∷ after) ≡ first_host ns
unfolding server_name
first_server_name-append [] after ns h f = parse_server_name-encode ns f
first_server_name-append (e ∷ es) after ns h f =
    ground (arith, first_server_name-append es after ns h.1 f)

-- the stages of `ExtractSNI` that run on the body, before a continuation
encode_body-stages :
    (h : ClientHello) (k : Bytes → Parsed Bytes)
    → length h.version_random ≡ 34
    → (do
      p ← skip_version_random (encode_body h)
      p ← skip_session p
      p ← skip_ciphers p
      p ← skip_compressions p
      p ← extensions_block p
      k p)
      ≡ k (encode_extensions h.extensions)
unfolding encode_body skip_session skip_compressions
encode_body-stages h k e = rw (skip_version_random-append h.version_random _ e) (
    rw skip_short-append (
      rw (skip_ciphers-append h.ciphers _)
        (rw skip_short-append (rw (extensions_block-append (encode_extensions h.extensions))))))

hello_body-encode :
    (h : ClientHello) → Fits h → hello_body (encode_handshake h) ≡ ok (encode_body h)
unfolding encode_handshake be24
hello_body-encode h f = hello_body-append (encode_body h) (omega (arith, f.handshake_size))

record_body-encode :
    (h : ClientHello) (rest : Bytes) → record_body (encode h ++ rest) ≡ ok (encode_handshake h)
unfolding encode be16
record_body-encode h rest =
    record_body-append h.legacy_version.0 h.legacy_version.1 (encode_handshake h) rest

extract_sni-encode :
    (h : ClientHello) (rest : Bytes)
    → Fits h
    → extract_sni (encode h ++ rest) ≡ first_server_name h.extensions
unfolding extract_sni
extract_sni-encode h rest f = rw (record_body-encode h rest) (
    rw (hello_body-encode h f) (
      encode_body-stages h (λ p. scan_extensions (suc (length p)) p) f.version_random_size
      ∙ scan_extensions-encode (suc (length (encode_extensions h.extensions))) h.extensions
          (omega arith)))

-- On an encoded ClientHello whose lengths fit their fields, with whatever bytes after the record,
-- `ExtractSNI` returns the first host_name of its first server_name extension, and the missing-SNI
-- error if that has none.
pub extract_sni_lem :
    (h : ClientHello) (before after : List Extension) (ns : List ServerName) (rest : Bytes)
    → Fits h
    → h.extensions ≡ before ++ server_name ns ∷ after
    → All (λ e. e.kind ≢ 0) before
    → All NameFits ns
    → extract_sni (encode h ++ rest) ≡ first_host ns
extract_sni_lem h before after ns rest f e others names =
    extract_sni-encode h rest f
    ∙ ap first_server_name e
    ∙ first_server_name-append before after ns others names

first_server_name-none :
    (es : List Extension) → All (λ e. e.kind ≢ 0) es → first_server_name es ≡ err no_sni
first_server_name-none [] h = refl
first_server_name-none (e ∷ es) h = ground (arith, first_server_name-none es h.1)

-- An encoded ClientHello whose lengths fit their fields and which has no server_name extension
-- gives the missing-SNI error, with whatever bytes after the record.
pub extract_sni-no_sni :
    (h : ClientHello) (rest : Bytes)
    → Fits h
    → All (λ e. e.kind ≢ 0) h.extensions
    → extract_sni (encode h ++ rest) ≡ err no_sni
extract_sni-no_sni h rest f others =
    extract_sni-encode h rest f ∙ first_server_name-none h.extensions others
