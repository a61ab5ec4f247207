-- ===== src/Tls/Record/Local.antt =====
-- `DecodeTlsRecord` reads only the record that it found: not the bytes behind it, nor outside the
-- payload.
use packet_quapture.Base.{
  ℕ, zero, suc, ◌+◌, ◌≤◌, ◌<◌, ◌≡◌, refl, ap, true, arith, Bytes, Option, none, some,
}
use packet_quapture.Tls.Reader.{TlsReader, u8_of, u16_of, u24_of, sub, start}
use packet_quapture.Tls.Reader.Bounds.{
  Alike, AlikeOption, u8_of-Alike, u16_of-Alike, u24_of-Alike, skip-Alike, skip_vector-Alike,
  sub-Alike, parse_tls_server_name-Alike,
}
use packet_quapture.Tls.Record.{
  TlsRecord, with_type, found, tls_record_header_length, read_name, named, is_missing,
  extensions_loop, parse_extensions, parse_client_hello, add_hello, decode_handshake, decode_record,
  decode_tls_record, tls_record_header_valid, body_length,
}

-- The loop over the extensions never runs out of fuel.
pub extensions_loop_fuel :
    (fuel : ℕ) (r : TlsReader) (extensions_length consumed : ℕ)
    → extensions_length ≤ consumed + fuel
    → extensions_loop (suc fuel) r extensions_length consumed
      ≡ extensions_loop fuel r extensions_length consumed
unfolding extensions_loop
extensions_loop_fuel zero r l c h = ground arith
extensions_loop_fuel (suc fuel) r l c h =
    let r2 = (u16_of (u16_of r).1).1 in
    let n = (u16_of (u16_of r).1).0 in
    ground (arith, extensions_loop_fuel fuel (sub r2 n).1 l (c + 4 + n))

read_name-Alike :
    (x y : Option TlsReader)
    → AlikeOption x y
    → (is_missing x ≡ is_missing y) × (read_name x ≡ read_name y)
unfolding read_name
read_name-Alike none none a = (refl, refl)
read_name-Alike none (some _) a = absurd a
read_name-Alike (some _) none a = absurd a
read_name-Alike (some r) (some s) a = (refl, ap named (parse_tls_server_name-Alike a))

extensions_loop-Alike :
    (fuel : ℕ) {r s : TlsReader} (l c : ℕ)
    → Alike r s
    → extensions_loop fuel r l c ≡ extensions_loop fuel s l c
unfolding extensions_loop
extensions_loop-Alike zero l c a = ground (arith, a.same_overrun)
extensions_loop-Alike (suc fuel) {r} {s} l c a =
    let (e, b) = u16_of-Alike a in
    let (f, d) = u16_of-Alike b in
    let n = (u16_of (u16_of r).1).0 in
    let (x, k) = sub-Alike d n in
    let (g, m) =
      read_name-Alike (sub (u16_of (u16_of r).1).1 n).0 (sub (u16_of (u16_of s).1).1 n).0 x in
    ground (
      arith,
      a.same_overrun,
      e,
      f,
      d.same_overrun,
      g,
      m,
      extensions_loop-Alike fuel l (c + 4 + n) k,
    )

parse_extensions-Alike : {r s : TlsReader} → Alike r s → parse_extensions r ≡ parse_extensions s
unfolding parse_extensions
parse_extensions-Alike {r} a =
    let (e, b) = u16_of-Alike a in
    ground (
      arith,
      a.same_size,
      a.same_offset,
      a.same_overrun,
      e,
      b.same_overrun,
      extensions_loop-Alike (u16_of r).0 (u16_of r).0 0 b,
    )

parse_client_hello-Alike :
    {r s : TlsReader} → Alike r s → parse_client_hello r ≡ parse_client_hello s
unfolding parse_client_hello
parse_client_hello-Alike {r} a =
    let (e1, b1) = skip-Alike a 34 in
    let (e2, b2) = skip_vector-Alike b1 1 in
    let (e3, b3) = skip_vector-Alike b2 2 in
    let (e4, b4) = skip_vector-Alike b3 1 in
    ground (arith, e1, e2, e3, e4, parse_extensions-Alike b4)

add_hello-Alike :
    (result : TlsRecord) (x y : Option TlsReader)
    → AlikeOption x y
    → add_hello result x ≡ add_hello result y
unfolding add_hello
add_hello-Alike result none none a = refl
add_hello-Alike result none (some _) a = absurd a
add_hello-Alike result (some _) none a = absurd a
add_hello-Alike result (some r) (some s) a = rw (parse_client_hello-Alike a)

decode_handshake-Alike :
    (result : TlsRecord) {r s : TlsReader}
    → Alike r s
    → decode_handshake result r ≡ decode_handshake result s
unfolding decode_handshake
decode_handshake-Alike result {r} {s} a =
    let (e, b) = u8_of-Alike a in
    let (f, d) = u24_of-Alike b in
    let n = (u24_of (u8_of r).1).0 in
    let (x, _) = sub-Alike d n in
    let t : TlsRecord = record (with_type result (u8_of r).0) { client_hello = true } in
    let h = add_hello-Alike t (sub (u24_of (u8_of r).1).1 n).0 (sub (u24_of (u8_of s).1).1 n).0 x in
    ground (arith, e, f, d.same_overrun, h)

-- Two payloads whose first `5 + record_length` bytes agree, `record_length` as the first has it.
abbrev pub SameRecord : Bytes → Bytes → Type 0
SameRecord p q = (i : ℕ) → i < tls_record_header_length + body_length p → p i ≡ q i

body-Alike :
    (p q : Bytes)
    → SameRecord p q
    → Alike (start (λ i. p (5 + i)) (body_length p)) (start (λ i. q (5 + i)) (body_length p))
body-Alike p q same = record {
  same_size = refl;
  same_offset = refl;
  same_overrun = refl;
  inside = omega arith;
  same_bytes = λ i h. same (5 + i) (omega arith);
}

decode_record-local :
    (p q : Bytes) (m n : ℕ)
    → SameRecord p q
    → body_length p + 5 ≤ m
    → body_length p + 5 ≤ n
    → decode_record p m ≡ decode_record q n
unfolding decode_record tls_record_header_valid
decode_record-local p q m n same hm hn = ground (
  arith,
  same 0,
  same 1,
  same 2,
  same 3,
  same 4,
  decode_handshake-Alike (found p) (body-Alike p q same),
)

-- A payload that holds its whole record is decoded alike whatever stands behind the record, and
-- outside the payload: any other payload with the same record bytes gives the same result.
pub decode_tls_record-local :
    (p q : Bytes) (m n : ℕ)
    → SameRecord p q
    → tls_record_header_length + body_length p ≤ m
    → tls_record_header_length + body_length p ≤ n
    → decode_tls_record (some p) m ≡ decode_tls_record (some q) n
unfolding decode_tls_record
decode_tls_record-local p q m n same hm hn =
    ground (arith, decode_record-local p q m n same (omega arith) (omega arith))
