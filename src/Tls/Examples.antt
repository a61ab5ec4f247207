-- ===== src/Tls/Examples.antt =====
-- Runs of the TLS record decoder of src/tls_record.cpp.
use packet_quapture.Base.{
  ℕ, zero, suc, ◌<◌, ◌≡◌, refl, true, false, List, [], ◌∷◌, get_or, some, arith, Bytes, All, ltb,
  if◌then◌else◌,
}
use packet_quapture.Tls.Reader.{start, u16_of, skip, server_name_loop}
use packet_quapture.Tls.Reader.Bounds.{server_name_loop_fuel}
use packet_quapture.Tls.Reader.Inside.{IsInside, at_start, by_u16, by_skip, Reached-IsInside}
use packet_quapture.Tls.Record.{decode_tls_record, body_length, extensions_loop}
use packet_quapture.Tls.Record.Local.{SameRecord, decode_tls_record-local, extensions_loop_fuel}
use packet_quapture.Tls.Record.Shape.{
  IsConsistent, IsRecord, decode_tls_record-IsConsistent, decode_tls_record_valid,
}

-- A TLS 1.2 alert record of two bytes.
abbrev alert_record : List ℕ
alert_record = 21 ∷ 3 ∷ 3 ∷ 0 ∷ 2 ∷ 1 ∷ 0 ∷ []

abbrev alert_bytes : Bytes
alert_bytes i = get_or alert_record i 0

-- The same with other bytes behind it.
abbrev followed_bytes : Bytes
followed_bytes i = if ltb i 7 then alert_bytes i else 200

alert_valid : (decode_tls_record (some alert_bytes) 7).valid ≡ true
unfolding decode_tls_record packet_quapture.Tls.Record.decode_record
    packet_quapture.Tls.Record.known_record_type packet_quapture.Tls.Record.tls_record_header_valid
alert_valid = refl

alert_cut : (decode_tls_record (some alert_bytes) 6).valid ≡ false
unfolding decode_tls_record packet_quapture.Tls.Record.decode_record
    packet_quapture.Tls.Record.known_record_type packet_quapture.Tls.Record.tls_record_header_valid
alert_cut = refl

alert_same : SameRecord alert_bytes followed_bytes
alert_same i h = ground (arith, h)

decode_tls_record-local_example :
    decode_tls_record (some alert_bytes) 7 ≡ decode_tls_record (some followed_bytes) 90
decode_tls_record-local_example =
    decode_tls_record-local alert_bytes followed_bytes 7 90 alert_same (omega arith) (omega arith)

alert_byte : (i : ℕ) → alert_bytes i < 256
alert_byte i = bound alert_record i (
  omega arith,
  (omega arith, (omega arith, (omega arith, (omega arith, (omega arith, (omega arith, tt)))))),
)
  where
    bound : (xs : List ℕ) (i : ℕ) → All (λ x. x < 256) xs → get_or xs i 0 < 256
    bound [] i h = omega arith
    bound (x ∷ xs) zero h = h.0
    bound (x ∷ xs) (suc i) h = bound xs i h.1

decode_tls_record-IsConsistent_example : IsConsistent (decode_tls_record (some alert_bytes) 7)
decode_tls_record-IsConsistent_example = decode_tls_record-IsConsistent alert_bytes 7 alert_byte

decode_tls_record_valid_example :
    ((decode_tls_record (some alert_bytes) 7).valid ≡ true → IsRecord alert_bytes 7)
    × (IsRecord alert_bytes 7 → (decode_tls_record (some alert_bytes) 7).valid ≡ true)
    × ((decode_tls_record (some alert_bytes) 7).valid ≡ true
        → ((decode_tls_record (some alert_bytes) 7).record_type ≡ 21)
          × ((decode_tls_record (some alert_bytes) 7).record_version ≡ 771)
          × ((decode_tls_record (some alert_bytes) 7).record_length ≡ 2))
decode_tls_record_valid_example = decode_tls_record_valid alert_bytes 7

server_name_loop_fuel_example :
    server_name_loop 4 (start alert_bytes 7) 3 0 ≡ server_name_loop 3 (start alert_bytes 7) 3 0
server_name_loop_fuel_example = server_name_loop_fuel 3 (start alert_bytes 7) 3 0 (omega arith)

extensions_loop_fuel_example :
    extensions_loop 6 (start alert_bytes 7) 5 0 ≡ extensions_loop 5 (start alert_bytes 7) 5 0
extensions_loop_fuel_example = extensions_loop_fuel 5 (start alert_bytes 7) 5 0 (omega arith)

-- A length is read and too many bytes are skipped.
Reached-IsInside_example : IsInside alert_bytes 7 (skip (u16_of (start alert_bytes 7)).1 9).1
Reached-IsInside_example =
    Reached-IsInside alert_bytes 7 (skip (u16_of (start alert_bytes 7)).1 9).1
      (by_skip 9 (by_u16 at_start))
