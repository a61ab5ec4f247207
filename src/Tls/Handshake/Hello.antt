-- ===== src/Tls/Handshake/Hello.antt =====
-- `ParseHello`, `ClearHello` and `HelloAt` of src/tls_handshake.cpp.
pub mod Bounded
use packet_quapture.Base.{
  ℕ, ◌+◌, ◌-◌, ◌*◌, ◌^◌, Bool, true, false, not, ◌&&◌, ◌||◌, List, [], ◌∷◌, ◌==◌, ltb, leb,
  if◌then◌else◌, Option, none, some, ◌>>=◌, ◌>>◌, guard, Bytes, u32,
}
use packet_quapture.Tls.Reader.{
  TlsReader, start, remaining, u8_of, u16_of, skip, skip_vector, take_bytes,
}
use packet_quapture.Tls.Record.{tls_record_header_length, tls_record_header_valid}
use packet_quapture.Tls.Handshake.Types.{
  TlsHandshakeLimits, TlsList, no_list, TlsHandshake, no_handshake, ListBudget, limit,
  list_exceeds_limit,
}
use packet_quapture.Tls.Handshake.Lists.{ListRead, read_codes}
use packet_quapture.Tls.Handshake.Extensions.{Walked, types_of, set_types, parse_extensions}

-- The return value of `ParseHello`, with the handshake and the session id.
pub record Hello : Type 0 where
  pub complete : Bool
  pub handshake : TlsHandshake
  pub session_id : List ℕ

abbrev pub broken : TlsHandshake → List ℕ → Option Hello
broken h session_id = some (record { complete = false; handshake = h; session_id = session_id })

abbrev pub with_version : Bool → ℕ → TlsHandshake → TlsHandshake
with_version true version h = record h { has_client_version = true; client_version = version }
with_version false version h = record h {
  has_negotiated_version = true;
  negotiated_version = version;
  has_server_legacy_version = true;
  server_legacy_version = version;
}

-- The hello is known, with the lists that its extensions gave.
abbrev pub end_hello : List ℕ → Walked → Option Hello
end_hello session_id w =
    let over = record w.handshake { status = limit; error = list_exceeds_limit } in
    some (record {
      complete = w.complete;
      handshake = if w.complete && w.budget.exceeded then over else w.handshake;
      session_id = session_id;
    })

-- The part behind the cipher suites and the compression methods.
unfoldable pub parse_tail :
    Bool → TlsHandshakeLimits → TlsReader → ListBudget → TlsHandshake → List ℕ → Option Hello
parse_tail client limits r budget h session_id =
    let types = types_of client h in
    let known = set_types client h (record types { present = true }) in
    let walk = parse_extensions r client limits budget known >>= end_hello session_id in
    let nothing : Walked = record { complete = true; budget = budget; handshake = known } in
    if remaining r == 0 then end_hello session_id nothing else walk

unfoldable pub parse_client_suites :
    TlsHandshakeLimits → TlsReader → ListBudget → TlsHandshake → List ℕ → Option Hello
parse_client_suites limits r budget h session_id = read_codes r 2 false budget >>= λ suites.
    let h' = record h { client_cipher_suites = suites.list } in
    let (skipped, r') = skip_vector suites.reader 1 in
    if not suites.complete || not skipped
    then broken h' session_id
    else parse_tail true limits r' suites.budget h' session_id

unfoldable pub parse_server_suite :
    TlsHandshakeLimits → TlsReader → ListBudget → TlsHandshake → List ℕ → Option Hello
parse_server_suite limits r budget h session_id =
    let (suite, r1) = u16_of r in
    let h' = record h { has_cipher_suite = true; cipher_suite = suite } in
    let (skipped, r2) = skip r1 1 in
    if r1.overrun
    then broken h session_id
    else if not skipped
    then broken h' session_id
    else parse_tail false limits r2 budget h' session_id

abbrev pub parse_suites :
    Bool → TlsHandshakeLimits → TlsReader → ListBudget → TlsHandshake → List ℕ → Option Hello
parse_suites true = parse_client_suites
parse_suites false = parse_server_suite

unfoldable pub parse_hello :
    Bytes → ℕ → Bool → TlsHandshakeLimits → TlsHandshake → List ℕ → Option Hello
parse_hello body size client limits handshake session_id =
    let r = start body size in
    let (version, r1) = u16_of r in
    let h = with_version client version handshake in
    let (skipped, r2) = skip r1 32 in
    let (session_length, r3) = u8_of r2 in
    let (taken, r4) = take_bytes r3 session_length in
    let budget : ListBudget = record { cap_entries = limits.max_list_entries; exceeded = false } in
    if r1.overrun
    then broken handshake session_id
    else if not skipped || r3.overrun
    then broken h session_id
    else elim taken [
      | none ↦ broken h session_id
      | some id ↦ parse_suites client limits r4 budget h id
    ]

unfoldable pub clear_hello : TlsHandshake → TlsHandshake
clear_hello h = record h {
  has_sni = false;
  sni = [];
  sni_seen = false;
  sni_malformed = false;
  client_cipher_suites = no_list;
  client_extensions = no_list;
  client_supported_groups = no_list;
  client_signature_algorithms = no_list;
  client_supported_versions = no_list;
  client_ec_point_formats = no_list;
  client_alpn = no_list;
  server_extensions = no_list;
  server_alpn = no_list;
  server_supported_versions = no_list;
}

abbrev pub tls_record_handshake : ℕ
tls_record_handshake = 22

abbrev pub tls_handshake_client_hello : ℕ
tls_handshake_client_hello = 1

abbrev pub tls_handshake_server_hello : ℕ
tls_handshake_server_hello = 2

-- The bytes from an index on.
abbrev pub from : Bytes → ℕ → Bytes
from view offset i = view (offset + i)

-- The hello of a message whose header fits: 1 for a ClientHello, 2 for a ServerHello.
unfoldable pub hello_in : Bytes → ℕ → ℕ → TlsHandshakeLimits → Option ℕ
hello_in message type length limits =
    let client = type == tls_handshake_client_hello in
    parse_hello (from message 4) length client limits no_handshake [] >>= λ hello.
    some (if not hello.complete then 0 else if client then 1 else 2)

unfoldable pub hello_at : Bytes → ℕ → ℕ → TlsHandshakeLimits → Option ℕ
hello_at view size offset limits =
    let header = from view offset in
    let length = header 3 * 2 ^ 8 + header 4 in
    let message = from header tls_record_header_length in
    let type = message 0 in
    let message_length = message 1 * 2 ^ 16 + message 2 * 2 ^ 8 + message 3 in
    let hello = hello_in message type message_length limits in
    if ltb size offset || ltb (size - offset) (tls_record_header_length + 4)
    then some 0
    else if not (header 0 == tls_record_handshake)
        || not (tls_record_header_valid header)
        || ltb (size - offset - tls_record_header_length) length
    then some 0
    else if not (type == tls_handshake_client_hello) && not (type == tls_handshake_server_hello)
        || ltb length 4
        || ltb (length - 4) message_length
        || ltb limits.max_message_bytes message_length
    then some 0
    else hello
