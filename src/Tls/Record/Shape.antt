-- ===== src/Tls/Record/Shape.antt =====
-- What the fields of a decoded record say about one another and about the payload.
use packet_quapture.Base.{
  ℕ, zero, suc, ◌+◌, ◌≤◌, ◌<◌, ◌≡◌, refl, Bool, true, false, List, [], arith, Bytes, some, ltb,
  Bool-cases, inl, inr, ◌==◌, u16, ◌*◌, All, slice,
}
use packet_quapture.Escape.Laws.{IsByte, IsPrintable, escape_tls_text-IsPrintable}
use packet_quapture.Tls.Reader.{
  TlsReader, u8_of, u16_of, u24_of, skip, skip_vector, sub, start, remaining, take_bytes, host_name,
  server_name_loop, parse_tls_server_name, vector_length,
}
use packet_quapture.Tls.Record.{
  no_record, TlsRecord, Hello, with_type, found, read_name, extensions_loop, parse_extensions,
  parse_client_hello, add_hello, decode_handshake, decode_record, decode_tls_record,
  known_record_type, tls_record_header_valid, body_length,
}

-- A name is there exactly if the flag says so, and it is printable ASCII.
abbrev pub IsName : Bool → List ℕ → Type 0
IsName true name = All IsPrintable name
IsName false name = name ≡ []

abbrev pub HasBytes : TlsReader → Type 0
HasBytes r = (i : ℕ) → r.bytes i < 256

slice-IsByte : (p : Bytes) (o n : ℕ) → ((i : ℕ) → p i < 256) → All IsByte (slice p o n)
unfolding slice
slice-IsByte p o zero h = tt
slice-IsByte p o (suc n) h = (h o, slice-IsByte p (o + 1) n h)

module _ (r : TlsReader) (h : HasBytes r) where
  u8_of-HasBytes : HasBytes (u8_of r).1
  unfolding u8_of
  u8_of-HasBytes i = ground (arith, h i)

  skip-HasBytes : (n : ℕ) → HasBytes (skip r n).1
  unfolding skip
  skip-HasBytes n i = ground (arith, h i)

  sub-HasBytes : (n : ℕ) → HasBytes (sub r n).1
  unfolding sub
  sub-HasBytes n i = ground (arith, h i)

  host_name-IsName :
      (n : ℕ) → IsName (host_name (take_bytes r n).0).has_name (host_name (take_bytes r n).0).name
  unfolding take_bytes host_name
  host_name-IsName n = elim (Bool-cases (ltb (remaining r) n)) [
    | inl e ↦ rw e refl
    | inr e ↦
        rw e
          (escape_tls_text-IsPrintable (slice r.bytes r.offset n)
            (slice-IsByte r.bytes r.offset n h)).0
  ]

module _ (r : TlsReader) (h : HasBytes r) where
  u16_of-HasBytes : HasBytes (u16_of r).1
  unfolding u16_of
  u16_of-HasBytes = u8_of-HasBytes (u8_of r).1 (u8_of-HasBytes r h)

  u24_of-HasBytes : HasBytes (u24_of r).1
  unfolding u24_of
  u24_of-HasBytes =
      u8_of-HasBytes (u8_of (u8_of r).1).1 (u8_of-HasBytes (u8_of r).1 (u8_of-HasBytes r h))

  vector_length-HasBytes : (n : ℕ) → HasBytes (vector_length r n).1
  unfolding vector_length
  vector_length-HasBytes n i = ground (arith, u8_of-HasBytes r h i, u16_of-HasBytes i)

module _ (r : TlsReader) (h : HasBytes r) where
  skip_vector-HasBytes : (n : ℕ) → HasBytes (skip_vector r n).1
  unfolding skip_vector
  skip_vector-HasBytes n i =
      let b = vector_length-HasBytes r h n in
      let v = vector_length r n in ground (arith, skip-HasBytes v.1 b v.0 i, b i)

server_name_loop-IsName :
    (fuel : ℕ) (r : TlsReader) (l c : ℕ)
    → HasBytes r
    → IsName (server_name_loop fuel r l c).has_name (server_name_loop fuel r l c).name
unfolding server_name_loop
server_name_loop-IsName zero r l c h = refl
server_name_loop-IsName (suc fuel) r l c h =
    let r2 = (u16_of (u8_of r).1).1 in
    let n = (u16_of (u8_of r).1).0 in
    let h2 = u16_of-HasBytes (u8_of r).1 (u8_of-HasBytes r h) in
    let ih = server_name_loop-IsName fuel (skip r2 n).1 l (c + 3 + n) (skip-HasBytes r2 h2 n) in
    let b = host_name-IsName r2 h2 n in ground (arith, ih, b)

parse_tls_server_name-IsName :
    (r : TlsReader)
    → HasBytes r
    → IsName (parse_tls_server_name r).has_name (parse_tls_server_name r).name
unfolding parse_tls_server_name
parse_tls_server_name-IsName r h =
    let n = (u16_of r).0 in
    ground (arith, server_name_loop-IsName n (u16_of r).1 n 0 (u16_of-HasBytes r h))

abbrev pub IsNamed : Hello → Type 0
IsNamed h = IsName h.has_server_name h.server_name

read_name-IsNamed : (r : TlsReader) (n : ℕ) → HasBytes r → IsNamed (read_name (sub r n).0)
unfolding read_name sub
read_name-IsNamed r n h = elim (Bool-cases (ltb (remaining r) n)) [
  | inl e ↦ rw e refl
  | inr e ↦
      rw e (
        parse_tls_server_name-IsName (start (λ i. r.bytes (r.offset + i)) n)
          (λ i. h (r.offset + i)))
]

extensions_loop-IsNamed :
    (fuel : ℕ) (r : TlsReader) (l c : ℕ) → HasBytes r → IsNamed (extensions_loop fuel r l c)
unfolding extensions_loop
extensions_loop-IsNamed zero r l c h = refl
extensions_loop-IsNamed (suc fuel) r l c h =
    let r2 = (u16_of (u16_of r).1).1 in
    let n = (u16_of (u16_of r).1).0 in
    let h2 = u16_of-HasBytes (u16_of r).1 (u16_of-HasBytes r h) in
    let ih = extensions_loop-IsNamed fuel (sub r2 n).1 l (c + 4 + n) (sub-HasBytes r2 h2 n) in
    ground (arith, ih, read_name-IsNamed r2 n h2)

parse_extensions-IsNamed : (r : TlsReader) → HasBytes r → IsNamed (parse_extensions r)
unfolding parse_extensions
parse_extensions-IsNamed r h =
    let n = (u16_of r).0 in
    ground (arith, extensions_loop-IsNamed n (u16_of r).1 n 0 (u16_of-HasBytes r h))

parse_client_hello-IsNamed : (r : TlsReader) → HasBytes r → IsNamed (parse_client_hello r)
unfolding parse_client_hello
parse_client_hello-IsNamed r h =
    let r1 = (skip r 34).1 in
    let h1 = skip-HasBytes r h 34 in
    let h2 = skip_vector-HasBytes r1 h1 1 in
    let r2 = (skip_vector r1 1).1 in
    let h3 = skip_vector-HasBytes r2 h2 2 in
    let r3 = (skip_vector r2 2).1 in
    let h4 = skip_vector-HasBytes r3 h3 1 in
    ground (arith, parse_extensions-IsNamed (skip_vector r3 1).1 h4)

-- What holds of every result.
pub record IsConsistent (t : TlsRecord) : Type 0 where
  pub named : IsName t.has_server_name t.server_name
  pub name_in_hello : t.has_server_name ≡ true → (t.client_hello ≡ true) × (t.truncated ≡ false)
  pub hello_typed : t.client_hello ≡ true → (t.has_handshake_type ≡ true) × (t.handshake_type ≡ 1)
  pub handshake_typed : t.has_handshake_type ≡ true → (t.valid ≡ true) × (t.record_type ≡ 22)
  pub truncated_hello : t.truncated ≡ true → t.client_hello ≡ true

add_hello-IsConsistent :
    (t : TlsRecord) (r : TlsReader) (n : ℕ)
    → HasBytes r
    → IsConsistent t
    → t.client_hello ≡ true
    → t.has_server_name ≡ false
    → t.truncated ≡ false
    → IsConsistent (add_hello t (sub r n).0)
unfolding add_hello sub
add_hello-IsConsistent t r n h c hello unnamed whole = elim (Bool-cases (ltb (remaining r) n)) [
  | inl e ↦ rw e (record {
    named = c.named;
    name_in_hello = ground arith;
    hello_typed = c.hello_typed;
    handshake_typed = c.handshake_typed;
    truncated_hello = ground arith;
  })
  | inr e ↦ rw e (
      let q : TlsReader = start (λ i. r.bytes (r.offset + i)) n in
      let b = parse_client_hello-IsNamed q (λ i. h (r.offset + i)) in
      ground (arith, b, c.hello_typed, c.handshake_typed))
]

decode_handshake-IsConsistent :
    (t : TlsRecord) (r : TlsReader)
    → HasBytes r
    → IsConsistent t
    → t.valid ≡ true
    → t.record_type ≡ 22
    → t.client_hello ≡ false
    → t.has_server_name ≡ false
    → t.truncated ≡ false
    → IsConsistent (decode_handshake t r)
unfolding decode_handshake
decode_handshake-IsConsistent t r h c v ty plain unnamed whole =
    let r2 = (u24_of (u8_of r).1).1 in
    let n = (u24_of (u8_of r).1).0 in
    let h2 = u24_of-HasBytes (u8_of r).1 (u8_of-HasBytes r h) in
    let typed : TlsRecord = with_type t (u8_of r).0 in
    elim (Bool-cases r2.overrun) [
      | inl over ↦ rw over c
      | inr fine ↦ elim (Bool-cases ((u8_of r).0 == 1)) [
        | inr other ↦
            rw (fine, other)
              (record {
                named = c.named;
                name_in_hello = λ e. cc;
                hello_typed = λ e. cc;
                handshake_typed = λ _. (v, ty);
                truncated_hello = λ e. cc;
              })
        | inl hello ↦
            rw (fine, hello)
              (add_hello-IsConsistent (record typed { client_hello = true }) r2 n h2
                (record {
                  named = c.named;
                  name_in_hello = λ e. cc;
                  hello_typed = λ _. (refl, ground arith);
                  handshake_typed = λ _. (v, ty);
                  truncated_hello = λ e. cc;
                })
                refl unnamed whole)
      ]
    ]

no_record-IsConsistent : IsConsistent no_record
no_record-IsConsistent = ground arith

found-IsConsistent : (p : Bytes) → IsConsistent (found p)
found-IsConsistent p = ground arith

-- Every result is consistent: a server name is printable and stands only in a whole ClientHello, a
-- ClientHello is the type 1 handshake message of a valid handshake record (type 22), and only a
-- ClientHello is reported truncated.
pub decode_tls_record-IsConsistent :
    (p : Bytes) (size : ℕ) → ((i : ℕ) → p i < 256) → IsConsistent (decode_tls_record (some p) size)
unfolding decode_tls_record decode_record
decode_tls_record-IsConsistent p size h =
    let r : TlsReader = start (λ i. p (5 + i)) (body_length p) in
    let d =
      decode_handshake-IsConsistent (found p) r (λ i. h (5 + i)) (found-IsConsistent p) refl in
    ground (arith, no_record-IsConsistent, found-IsConsistent p, d)

decode_handshake_header :
    (t : TlsRecord) (r : TlsReader)
    → ((decode_handshake t r).valid ≡ t.valid)
      × ((decode_handshake t r).record_type ≡ t.record_type)
      × ((decode_handshake t r).record_version ≡ t.record_version)
      × ((decode_handshake t r).record_length ≡ t.record_length)
unfolding decode_handshake add_hello
decode_handshake_header t r = ground arith

-- What a TLS record header has to be, and that the payload holds the record.
abbrev pub IsRecord : Bytes → ℕ → Type 0
IsRecord p size =
    (20 ≤ p 0)
    × (p 0 ≤ 24)
    × (p 1 ≡ 3)
    × (p 2 ≤ 4)
    × (1 ≤ body_length p)
    × (body_length p ≤ 18432)
    × (5 + body_length p ≤ size)

-- A payload is reported as a TLS record exactly if it begins with a header of types 20 to 24, of
-- SSL 3.0 to TLS 1.3, with a body of 1 to 18432 bytes that it holds in full; the record's type,
-- version and length are then the header's.
pub decode_tls_record_valid :
    (p : Bytes) (size : ℕ)
    → ((decode_tls_record (some p) size).valid ≡ true → IsRecord p size)
      × (IsRecord p size → (decode_tls_record (some p) size).valid ≡ true)
      × ((decode_tls_record (some p) size).valid ≡ true
          → ((decode_tls_record (some p) size).record_type ≡ p 0)
            × ((decode_tls_record (some p) size).record_version ≡ u16 (p 1 * 256 + p 2))
            × ((decode_tls_record (some p) size).record_length ≡ body_length p))
unfolding decode_tls_record decode_record known_record_type tls_record_header_valid
decode_tls_record_valid p size =
    let h = decode_handshake_header (found p) (start (λ i. p (5 + i)) (body_length p)) in
    (λ v. ground (arith, h), λ v. ground (arith, h), λ v. ground (arith, h))
