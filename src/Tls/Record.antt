-- ===== src/Tls/Record.antt =====
-- src/tls_record.cpp: one TCP payload as the start of a TLS record.
pub mod Local
pub mod Shape
use packet_quapture.Base.{
  ℕ, zero, suc, ◌+◌, ◌-◌, ◌*◌, ◌^◌, Bool, true, false, not, ◌&&◌, ◌||◌, List, [], ◌==◌, ltb, leb,
  if◌then◌else◌, Bytes, u16, u32, Option, none, some,
}
use packet_quapture.Tls.Reader.{
  TlsReader, ServerName, start, remaining, u8_of, u16_of, u24_of, skip, skip_vector, sub,
  parse_tls_server_name,
}

abbrev pub tls_max_record_length : ℕ
tls_max_record_length = 16384 + 2048

abbrev pub tls_record_header_length : ℕ
tls_record_header_length = 5

-- Bytes 3 and 4 of a record header; the shift is of an int, which does not wrap.
abbrev pub body_length : Bytes → ℕ
body_length header = u32 (header 3 * 2 ^ 8 + header 4)

unfoldable pub tls_record_header_valid : Bytes → Bool
tls_record_header_valid header =
    header 1 == 0x03
    && leb (header 2) 0x04
    && not (body_length header == 0)
    && leb (body_length header) tls_max_record_length

unfoldable pub known_record_type : ℕ → Bool
known_record_type type = leb 20 type && leb type 24

pub record TlsRecord : Type 0 where
  pub valid : Bool
  pub record_type : ℕ
  pub record_version : ℕ
  pub record_length : ℕ
  pub has_handshake_type : Bool
  pub handshake_type : ℕ
  pub client_hello : Bool
  pub has_server_name : Bool
  pub server_name : List ℕ
  pub truncated : Bool

abbrev pub no_record : TlsRecord
no_record = record {
  valid = false;
  record_type = 0;
  record_version = 0;
  record_length = 0;
  has_handshake_type = false;
  handshake_type = 0;
  client_hello = false;
  has_server_name = false;
  server_name = [];
  truncated = false;
}

-- What `ParseClientHello` writes into the result, behind its return value.
pub record Hello : Type 0 where
  pub whole : Bool
  pub has_server_name : Bool
  pub server_name : List ℕ

abbrev pub no_name : Bool → Hello
no_name b = record { whole = b; has_server_name = false; server_name = [] }

unfoldable pub named : ServerName → Hello
named n = record { whole = true; has_server_name = n.has_name; server_name = n.name }

-- An extension's body, if there is one, as a server name.
unfoldable pub read_name : Option TlsReader → Hello
unfolding named
read_name none = no_name false
read_name (some extension) = named (parse_tls_server_name extension)

abbrev pub is_missing : Option TlsReader → Bool
is_missing none = true
is_missing (some _) = false

-- The loop over the extensions. A round adds four or more to `consumed`, so `extensions_length`
-- rounds are enough (`Local.extensions_loop_fuel`).
unfoldable pub extensions_loop : ℕ → TlsReader → ℕ → ℕ → Hello
unfolding read_name
extensions_loop zero r extensions_length consumed = no_name (not r.overrun)
extensions_loop (suc fuel) r extensions_length consumed =
    let (extension_type, r1) = u16_of r in
    let (extension_length, r2) = u16_of r1 in
    let consumed' = consumed + 4 in
    let (extension, r3) = sub r2 extension_length in
    let rest = extensions_loop fuel r3 extensions_length (consumed' + extension_length) in
    if leb (consumed + 4) extensions_length
    then if r2.overrun || ltb (extensions_length - consumed') extension_length
      then no_name false
      else if is_missing extension
      then no_name false
      else if extension_type == 0
      then read_name extension
      else rest
    else no_name (not r.overrun)

-- The part behind the compression methods.
unfoldable pub parse_extensions : TlsReader → Hello
parse_extensions r =
    let (extensions_length, r') = u16_of r in
    if remaining r == 0
    then no_name true
    else if r'.overrun
    then no_name false
    else extensions_loop extensions_length r' extensions_length 0

unfoldable pub parse_client_hello : TlsReader → Hello
parse_client_hello r =
    let (ok1, r1) = skip r (2 + 32) in
    let (ok2, r2) = skip_vector r1 1 in
    let (ok3, r3) = skip_vector r2 2 in
    let (ok4, r4) = skip_vector r3 1 in
    if not ok1
    then no_name false
    else if not ok2
    then no_name false
    else if not ok3
    then no_name false
    else if not ok4
    then no_name false
    else parse_extensions r4

-- The end of `DecodeTlsRecord`: the hello inside its record, if it is whole.
unfoldable pub add_hello : TlsRecord → Option TlsReader → TlsRecord
add_hello result none = record result { truncated = true }
add_hello result (some hello) =
    let h = parse_client_hello hello in
    if not h.whole
    then record result { truncated = true; has_server_name = false; server_name = [] }
    else record result { has_server_name = h.has_server_name; server_name = h.server_name }

abbrev pub with_type : TlsRecord → ℕ → TlsRecord
with_type result type = record result { has_handshake_type = true; handshake_type = type }

-- The first handshake message of a handshake record.
unfoldable pub decode_handshake : TlsRecord → TlsReader → TlsRecord
decode_handshake result r =
    let (type, r1) = u8_of r in
    let (handshake_length, r2) = u24_of r1 in
    let (hello, _) = sub r2 handshake_length in
    if r2.overrun
    then result
    else if not (type == 1)
    then with_type result type
    else add_hello (record (with_type result type) { client_hello = true }) hello

-- The header's fields.
abbrev pub found : Bytes → TlsRecord
found p = record no_record {
  valid = true;
  record_type = p 0;
  record_version = u16 (p 1 * 2 ^ 8 + p 2);
  record_length = body_length p;
}

unfoldable pub decode_record : Bytes → ℕ → TlsRecord
decode_record p size =
    if not (known_record_type (p 0)) || not (tls_record_header_valid p)
    then no_record
    else if ltb size (body_length p + tls_record_header_length)
    then no_record
    else if not (p 0 == 22)
    then found p
    else decode_handshake (found p) (start (λ i. p (tls_record_header_length + i)) (body_length p))

-- `none` is a null pointer.
unfoldable pub decode_tls_record : Option Bytes → ℕ → TlsRecord
decode_tls_record none size = no_record
decode_tls_record (some p) size =
    if ltb size tls_record_header_length then no_record else decode_record p size
