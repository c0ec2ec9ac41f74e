-- ===== src/Proxy/Sni.antt =====
-- internal/proxy/sni.go: the server name in a TLS ClientHello. `ExtractSNI` is one long function:
-- its stages are functions here, composed in its order. An index or slice out of range is `panic`,
-- and `stuck` is a loop that runs out of the model's fuel. (Go would let a slice expression reach
-- past a slice's length up to its capacity: here that is a `panic` too.)
pub mod Safe
pub mod Hello
pub mod Trip
use muro.Base.{
  ℕ, zero, suc, ◌+◌, ◌*◌, List, [], ◌∷◌, Bool, true, false, not, Bytes, length, get_or, drop, take,
  ltb, leb, ◌==◌, if◌then◌else◌,
}

-- the errors, in the order of the code
pub data Error : Type 0 where
  short_record_header not_handshake truncated_record : Error
  short_handshake_header not_client_hello truncated_body : Error
  short_version_random short_session_length short_session : Error
  short_ciphers_length short_ciphers short_compressions_length short_compressions : Error
  short_extensions_length short_extensions short_extension_data : Error
  short_sni short_sni_list short_host_name no_sni : Error

pub data Parsed {ℓ} (A : Type ℓ) : Type ℓ where
  ok : A → Parsed A
  err : Error → Parsed A
  panic : Parsed A
  stuck : Parsed A

infixl 5 ◌>>=◌ ◌>>◌
abbrev pub ◌>>=◌ {ℓ κ} : {A : Type ℓ} {B : Type κ} → Parsed A → (A → Parsed B) → Parsed B
ok a >>= f = f a
err e >>= f = err e
panic >>= f = panic
stuck >>= f = stuck

abbrev pub ◌>>◌ {ℓ} : {B : Type ℓ} → Parsed (Unit {0}) → Parsed B → Parsed B
m >> k = m >>= λ _. k

-- if c { return "", e }
abbrev pub reject : Bool → Error → Parsed (Unit {0})
reject c e = if c then err e else ok tt

-- p[i]
unfoldable pub index : Bytes → ℕ → Parsed ℕ
index p i = if ltb i (length p) then ok (get_or p i 0) else panic

-- p[n:]
unfoldable pub slice_from : Bytes → ℕ → Parsed Bytes
slice_from p n = if leb n (length p) then ok (drop n p) else panic

-- p[:n]
unfoldable pub slice_to : Bytes → ℕ → Parsed Bytes
slice_to p n = if leb n (length p) then ok (take n p) else panic

-- binary.BigEndian.Uint16(p[i : i+2])
unfoldable pub uint16 : Bytes → ℕ → Parsed ℕ
unfolding index
uint16 p i = do hi ← index p i; lo ← index p (i + 1); ok (hi * 256 + lo)

-- A length field of one byte, then that many bytes, which are skipped.
unfoldable pub skip_short : Error → Error → Bytes → Parsed Bytes
unfolding index slice_from
skip_short no_length no_bytes p = do
  reject (ltb (length p) 1) no_length
  n ← index p 0
  q ← slice_from p 1
  reject (ltb (length q) n) no_bytes
  slice_from q n

-- The TLS record header: its body.
unfoldable pub record_body : Bytes → Parsed Bytes
unfolding index slice_from slice_to uint16
record_body client_hello = do
  reject (ltb (length client_hello) 5) short_record_header
  kind ← index client_hello 0
  reject (not (kind == 0x16)) not_handshake
  rec_len ← uint16 client_hello 3
  body ← slice_from client_hello 5
  reject (ltb (length body) rec_len) truncated_record
  slice_to body rec_len

-- The handshake header: the body of the ClientHello.
unfoldable pub hello_body : Bytes → Parsed Bytes
unfolding index slice_from slice_to
hello_body body = do
  reject (ltb (length body) 4) short_handshake_header
  kind ← index body 0
  reject (not (kind == 0x01)) not_client_hello
  a ← index body 1
  b ← index body 2
  c ← index body 3
  hello ← slice_from body 4
  let hs_len = a * 65536 + b * 256 + c
  reject (ltb (length hello) hs_len) truncated_body
  slice_to hello hs_len

-- client_version and random
unfoldable pub skip_version_random : Bytes → Parsed Bytes
unfolding slice_from
skip_version_random hello = do
  reject (ltb (length hello) 34) short_version_random
  slice_from hello 34

-- session_id
unfoldable pub skip_session : Bytes → Parsed Bytes
unfolding skip_short
skip_session = skip_short short_session_length short_session

-- cipher_suites
unfoldable pub skip_ciphers : Bytes → Parsed Bytes
unfolding slice_from uint16
skip_ciphers p = do
  reject (ltb (length p) 2) short_ciphers_length
  cs_len ← uint16 p 0
  q ← slice_from p 2
  reject (ltb (length q) cs_len) short_ciphers
  slice_from q cs_len

-- compression_methods
unfoldable pub skip_compressions : Bytes → Parsed Bytes
unfolding skip_short
skip_compressions = skip_short short_compressions_length short_compressions

-- The extensions' block, or no SNI if nothing is left.
unfoldable pub extensions_block : Bytes → Parsed Bytes
unfolding slice_from slice_to uint16
extensions_block p = do
  reject (length p == 0) no_sni
  reject (ltb (length p) 2) short_extensions_length
  ext_len ← uint16 p 0
  q ← slice_from p 2
  reject (ltb (length q) ext_len) short_extensions
  slice_to q ext_len

-- The loop of `parseServerNameExtension`; a round takes three bytes at least.
unfoldable pub scan_names : ℕ → Bytes → Parsed Bytes
unfolding index slice_from slice_to uint16
scan_names zero list = stuck
scan_names (suc fuel) list = if ltb (length list) 3 then err no_sni else do
  name_type ← index list 0
  name_len ← uint16 list 1
  list ← slice_from list 3
  reject (ltb (length list) name_len) short_host_name
  name ← slice_to list name_len
  list ← slice_from list name_len
  let next = scan_names fuel list in if name_type == 0x00 then ok name else next

-- `parseServerNameExtension`
unfoldable pub parse_server_name_extension : Bytes → Parsed Bytes
unfolding slice_from slice_to uint16
parse_server_name_extension ext_data = do
  reject (ltb (length ext_data) 2) short_sni
  list_len ← uint16 ext_data 0
  list ← slice_from ext_data 2
  reject (ltb (length list) list_len) short_sni_list
  list ← slice_to list list_len
  scan_names (suc (length list)) list

-- The loop over the extensions; a round takes four bytes at least.
unfoldable pub scan_extensions : ℕ → Bytes → Parsed Bytes
unfolding slice_from slice_to uint16
scan_extensions zero p = stuck
scan_extensions (suc fuel) p = if ltb (length p) 4 then err no_sni else do
  ext_type ← uint16 p 0
  ext_data_len ← uint16 p 2
  p ← slice_from p 4
  reject (ltb (length p) ext_data_len) short_extension_data
  ext_data ← slice_to p ext_data_len
  p ← slice_from p ext_data_len
  let next = scan_extensions fuel p in
      if not (ext_type == 0x0000) then next else parse_server_name_extension ext_data

-- `ExtractSNI`
unfoldable pub extract_sni : Bytes → Parsed Bytes
extract_sni client_hello = do
  body ← record_body client_hello
  hello ← hello_body body
  p ← skip_version_random hello
  p ← skip_session p
  p ← skip_ciphers p
  p ← skip_compressions p
  p ← extensions_block p
  scan_extensions (suc (length p)) p
