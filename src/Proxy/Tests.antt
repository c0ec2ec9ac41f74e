-- ===== src/Proxy/Tests.antt =====
-- The TLS parser and the allowlist on one message and one entry.
use muro.Base.{
  if◌then◌else◌, List, [], ◌∷◌, ◌++◌, Option, none, some, Bytes, codes, bytes_eq, refl, ◌≡◌,
  replicate, arith,
}
use muro.Proxy.Sni.{ok, extract_sni}
use muro.Proxy.Sni.Hello.{
  ServerName, Extension, ClientHello, be16, be24, encode_names, server_name, encode_extensions,
  encode_body, encode_handshake, encode, Fits,
}
use muro.Proxy.Sni.Safe.{Ensures, extract_sni-Ensures}
use muro.Proxy.Sni.Trip.{extract_sni_lem}
use muro.Proxy.Allowlist.{Url}

abbrev host_name : ServerName
host_name = record { name_type = 0; name = codes "example.com" }

abbrev padding : Extension
padding = record { kind = 21; body = [] }

abbrev hello : List Extension → ClientHello
hello es = record {
  legacy_version = (3, 1);
  version_random = replicate 34 7;
  session = [];
  ciphers = 19 ∷ 1 ∷ [];
  compressions = 0 ∷ [];
  extensions = es;
}

fits : Fits (hello (padding ∷ server_name (host_name ∷ []) ∷ []))
unfolding be16 be24 encode_names server_name encode_extensions encode_body encode_handshake
fits = record {
  version_random_size = refl;
  session_size = omega arith;
  ciphers_size = omega arith;
  compressions_size = omega arith;
  each_extension = ((omega arith, omega arith), ((omega arith, omega arith), tt));
  extensions_size = omega arith;
  handshake_size = omega arith;
}

plain-Fits : Fits (hello (padding ∷ []))
unfolding be16 be24 encode_extensions encode_body encode_handshake
plain-Fits = record {
  version_random_size = refl;
  session_size = omega arith;
  ciphers_size = omega arith;
  compressions_size = omega arith;
  each_extension = ((omega arith, omega arith), tt);
  extensions_size = omega arith;
  handshake_size = omega arith;
}

extract_sni_lem_example :
    extract_sni (encode (hello (padding ∷ server_name (host_name ∷ []) ∷ [])) ++ codes "more")
    ≡ ok (codes "example.com")
extract_sni_lem_example =
    extract_sni_lem (hello (padding ∷ server_name (host_name ∷ []) ∷ [])) (padding ∷ []) []
      (host_name ∷ []) (codes "more") fits refl ((λ e. absurd (ground arith)), tt) (omega arith, tt)

extract_sni-Ensures_example : Ensures (λ _. Unit) (extract_sni (0x16 ∷ 3 ∷ 1 ∷ 0 ∷ 9 ∷ 1 ∷ []))
extract_sni-Ensures_example = extract_sni-Ensures (0x16 ∷ 3 ∷ 1 ∷ 0 ∷ 9 ∷ 1 ∷ [])

-- a parser of addresses that knows one
abbrev parse_one : Bytes → Option Url
parse_one s =
    if bytes_eq s (codes "http://example.com/a")
    then some (record { scheme = codes "http"; host = codes "example.com"; path = codes "/a" })
    else none
