-- ===== src/Packet/Link.antt =====
-- The link layer of src/packet_decoder.cpp. A stage that fails reports its outcome; one that
-- succeeds leaves the reader, the packet and the cursor.
use packet_quapture.Base.{
  ℕ, zero, suc, ◌+◌, ◌/◌, ◌%◌, ◌^◌, Bool, true, ◌||◌, [], ◌∷◌, ◌++◌, ◌==◌, if◌then◌else◌, copy_n,
  be16, Option, none, some, length, ◌>>=◌,
}
use packet_quapture.Packet.Types.{
  DecodeOutcome, malformed, unsupported, capacity, DecodedPacket, no_packet, PrefixReader, ensure,
  Cursor,
}

-- What a stage that succeeds leaves.
pub record Stage : Type 0 where
  pub reader : PrefixReader
  pub packet : DecodedPacket
  pub cursor : Cursor

-- A stage that stops reports its outcome and the packet as it leaves it.
pub data Outcome : Type 0 where
  on : Stage → Outcome
  stop : DecodeOutcome → DecodedPacket → Outcome

abbrev pub is_vlan : ℕ → Bool
is_vlan type = type == 0x8100 || type == 0x88a8

-- The stage behind one tag.
abbrev pub after_tag : Stage → PrefixReader → Stage
after_tag s r = record {
  reader = r;
  packet = record (s.packet) {
    vlan_ids = s.packet.vlan_ids ++ (be16 r.bytes s.cursor.offset % 2 ^ 12 ∷ []);
  };
  cursor = record (s.cursor) {
    offset = s.cursor.offset + 4;
    ether_type = be16 r.bytes (s.cursor.offset + 2);
  };
}

-- One tag: `none` is a failed `Ensure`.
unfoldable pub read_tag : Stage → Option Stage
read_tag s = do r ← ensure s.reader s.cursor.offset 4; some (after_tag s r)

unfoldable pub end_ethernet : Stage → Outcome
end_ethernet s =
    on (record s {
      packet = record (s.packet) { ethernet = true; ether_type = s.cursor.ether_type };
    })

-- The loop over the tags, with the rest of `DecodeEthernet`. At most `capacity` tags are read, so
-- nine rounds are enough (`Fuel.vlan_loop_fuel`).
unfoldable pub vlan_loop : ℕ → Stage → Outcome
unfolding end_ethernet
vlan_loop zero s = stop unsupported no_packet
vlan_loop (suc fuel) s =
    let next : Outcome = elim (read_tag s) [
      | none ↦ stop malformed no_packet
      | some t ↦ vlan_loop fuel t
    ] in
    if is_vlan s.cursor.ether_type
    then if length s.packet.vlan_ids == capacity then stop unsupported no_packet else next
    else end_ethernet s

-- The stage behind the addresses and the type.
abbrev pub after_addresses : Stage → PrefixReader → Stage
after_addresses s r = record {
  reader = r;
  packet = record (s.packet) {
    dst_mac = copy_n r.bytes 0 6 s.packet.dst_mac;
    src_mac = copy_n r.bytes 6 6 s.packet.src_mac;
  };
  cursor = record (s.cursor) { ether_type = be16 r.bytes 12; offset = 14 };
}

unfoldable pub decode_ethernet : Stage → Outcome
decode_ethernet s = elim (ensure s.reader 0 14) [
  | none ↦ stop malformed s.packet
  | some r ↦ vlan_loop 9 (after_addresses s r)
]

-- The version nibble of a raw IP packet as an EtherType.
abbrev pub raw_type : ℕ → ℕ
raw_type version = if version == 4 then 0x0800 else if version == 6 then 0x86dd else 0

abbrev pub after_version : Stage → PrefixReader → Stage
after_version s r = record s {
  reader = r;
  cursor = record (s.cursor) { ether_type = raw_type (r.bytes 0 / 2 ^ 4) };
}

unfoldable pub decode_raw : Stage → Outcome
decode_raw s = elim (ensure s.reader 0 1) [
  | none ↦ stop malformed s.packet
  | some r ↦ on (after_version s r)
]

abbrev pub after_cooked : Stage → ℕ → ℕ → PrefixReader → Stage
after_cooked s length type_at r = record s {
  reader = r;
  cursor = record (s.cursor) { ether_type = be16 r.bytes type_at; offset = length };
}

-- Linux cooked v1 has 16 bytes and the type at 14, v2 has 20 bytes and the type at 0.
unfoldable pub decode_cooked : Stage → ℕ → ℕ → Outcome
decode_cooked s length type_at = elim (ensure s.reader 0 length) [
  | none ↦ stop malformed s.packet
  | some r ↦ on (after_cooked s length type_at r)
]

abbrev pub with_type : Stage → ℕ → Outcome
with_type s type = on (record s { cursor = record (s.cursor) { ether_type = type } })

unfoldable pub decode_link : Stage → ℕ → Outcome
unfolding decode_ethernet decode_raw decode_cooked
decode_link s link_type =
    if link_type == 1
    then decode_ethernet s
    else if link_type == 101
    then decode_raw s
    else if link_type == 228
    then with_type s 0x0800
    else if link_type == 229
    then with_type s 0x86dd
    else if link_type == 113
    then decode_cooked s 16 14
    else if link_type == 276
    then decode_cooked s 20 0
    else stop unsupported s.packet
