-- ===== src/Proxy/Sni/Hello.antt =====
-- ClientHello messages as RFC 8446 and RFC 6066 write them: what the parser of sni.go should read.
use muro.Base.{ℕ, ◌/◌, ◌%◌, ◌<◌, ◌≡◌, List, [], ◌∷◌, ◌++◌, Bytes, length, All, ◌==◌, if◌then◌else◌}
use muro.Proxy.Sni.{Parsed, ok, err, no_sni}

unfoldable pub be16 : ℕ → Bytes
be16 n = n / 256 ∷ n % 256 ∷ []

unfoldable pub be24 : ℕ → Bytes
be24 n = n / 65536 ∷ n / 256 % 256 ∷ n % 256 ∷ []

pub record ServerName : Type 0 where
  pub name_type : ℕ
  pub name : Bytes

pub record Extension : Type 0 where
  pub kind : ℕ
  pub body : Bytes

pub record ClientHello : Type 0 where
  pub legacy_version : ℕ × ℕ
  pub version_random : Bytes
  pub session : Bytes
  pub ciphers : Bytes
  pub compressions : Bytes
  pub extensions : List Extension

unfoldable pub encode_names : List ServerName → Bytes
unfolding be16
encode_names [] = []
encode_names (n ∷ ns) = n.name_type ∷ (be16 (length n.name) ++ (n.name ++ encode_names ns))

-- the server_name extension
unfoldable pub server_name : List ServerName → Extension
unfolding encode_names
server_name ns = record { kind = 0; body = be16 (length (encode_names ns)) ++ encode_names ns }

unfoldable pub encode_extensions : List Extension → Bytes
unfolding be16
encode_extensions [] = []
encode_extensions (e ∷ es) =
    be16 e.kind ++ (be16 (length e.body) ++ (e.body ++ encode_extensions es))

unfoldable pub encode_body : ClientHello → Bytes
unfolding be16
encode_body h =
    h.version_random
    ++ (length h.session
        ∷ (h.session
            ++ (be16 (length h.ciphers)
                ++ (h.ciphers
                    ++ (length h.compressions
                        ∷ (h.compressions
                            ++ (be16 (length (encode_extensions h.extensions))
                                ++ encode_extensions h.extensions)))))))

unfoldable pub encode_handshake : ClientHello → Bytes
unfolding be24
encode_handshake h = 0x01 ∷ (be24 (length (encode_body h)) ++ encode_body h)

-- the TLS record
unfoldable pub encode : ClientHello → Bytes
unfolding be16
encode h =
    0x16
    ∷ h.legacy_version.0
    ∷ h.legacy_version.1
    ∷ (be16 (length (encode_handshake h)) ++ encode_handshake h)

-- The sizes that fit the length fields.
abbrev pub NameFits : ServerName → Type 0
NameFits n = length n.name < 65536

abbrev pub ExtensionFits : Extension → Type 0
ExtensionFits e = (e.kind < 65536) × (length e.body < 65536)

pub record Fits (h : ClientHello) : Type 0 where
  pub version_random_size : length h.version_random ≡ 34
  pub session_size : length h.session < 256
  pub ciphers_size : length h.ciphers < 65536
  pub compressions_size : length h.compressions < 256
  pub each_extension : All ExtensionFits h.extensions
  pub extensions_size : length (encode_extensions h.extensions) < 65536
  pub handshake_size : length (encode_handshake h) < 65536

-- The first host_name entry of a server name list.
abbrev pub first_host : List ServerName → Parsed Bytes
first_host [] = err no_sni
first_host (n ∷ ns) = if n.name_type == 0 then ok n.name else first_host ns
