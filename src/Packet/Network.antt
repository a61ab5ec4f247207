-- ===== src/Packet/Network.antt =====
-- The network layer of src/packet_decoder.cpp: IPv4, and IPv6 with its extension headers.
use packet_quapture.Base.{
  ℕ, zero, suc, ◌+◌, ◌*◌, ◌/◌, ◌%◌, ◌^◌, true, not, ◌&&◌, ◌==◌, ltb, leb, if◌then◌else◌, Bytes,
  copy_n, be16, be32, Option, none, some, length, ◌>>=◌, ◌>>◌, guard,
}
use packet_quapture.Packet.Types.{
  malformed, unsupported, DecodedPacket, PrefixReader, ensure, ensure_within, is_extension,
}
use packet_quapture.Packet.Link.{Stage, Outcome, on, stop}

-- The fields of an IPv4 header at `o`.
abbrev pub ipv4_fields : Bytes → ℕ → DecodedPacket → DecodedPacket
ipv4_fields p o net = record net {
  ip_version = 4;
  ip_protocol = p (o + 9);
  ip_ttl = p (o + 8);
  ip_id = be16 p (o + 4);
  has_ip_id = true;
  ip_fragment_offset = be16 p (o + 6) % 2 ^ 13 * 8;
  ip_more_fragments = not (be16 p (o + 6) / 2 ^ 13 % 2 == 0);
  src_ip = copy_n p (o + 12) 4 net.src_ip;
  dst_ip = copy_n p (o + 16) 4 net.dst_ip;
}

abbrev pub after_ipv4 : Stage → ℕ → ℕ → PrefixReader → Stage
after_ipv4 s header_length total_length r = record {
  reader = r;
  packet = ipv4_fields r.bytes s.cursor.offset s.packet;
  cursor = record (s.cursor) {
    offset = s.cursor.offset + header_length;
    end = s.cursor.offset + total_length;
  };
}

unfoldable pub decode_ipv4 : Stage → Option Stage
decode_ipv4 s = do
  let o = s.cursor.offset
  r ← ensure s.reader o 20
  guard (r.bytes o / 2 ^ 4 == 4)
  let header_length = r.bytes o % 2 ^ 4 * 4
  let total_length = be16 r.bytes (o + 2)
  guard (leb 20 header_length && leb header_length total_length)
  r' ← ensure r o header_length
  some (after_ipv4 s header_length total_length r')

-- The fields of a fragment header at `o`.
abbrev pub fragment_fields : Bytes → ℕ → DecodedPacket → DecodedPacket
fragment_fields p o net = record net {
  ip_fragment_offset = be16 p (o + 2) / 2 ^ 3 * 2 ^ 3;
  ip_more_fragments = not (be16 p (o + 2) % 2 == 0);
  ip_id = be32 p (o + 4);
  has_ip_id = true;
}

-- The length of the extension header at the cursor, and the packet with its fields.
unfoldable pub extension_header : Stage → Option (ℕ × DecodedPacket)
extension_header s =
    let o = s.cursor.offset in
    let p = s.reader.bytes in
    if s.packet.ip_protocol == 44
    then if s.packet.has_ip_id then none else some (8, fragment_fields p o s.packet)
    else if s.packet.ip_protocol == 51
    then if ltb ((p (o + 1) + 2) * 4) 12 then none else some ((p (o + 1) + 2) * 4, s.packet)
    else some ((p (o + 1) + 1) * 8, s.packet)

abbrev pub after_extension : Stage → ℕ → DecodedPacket → PrefixReader → Stage
after_extension s length net r = record {
  reader = r;
  packet = record net { ip_protocol = r.bytes s.cursor.offset };
  cursor = record (s.cursor) { offset = s.cursor.offset + length };
}

unfoldable pub decode_ipv6_extension : Stage → Option Stage
decode_ipv6_extension s = do
  (length, net) ← extension_header s
  r ← ensure_within s.reader s.cursor.end s.cursor.offset length
  some (after_extension s length net r)

-- `EnsureWithin(cursor.end, cursor.offset, 8) && DecodeIPv6Extension(…)`
unfoldable pub next_extension : Stage → Option Stage
next_extension s = do
  r ← ensure_within s.reader s.cursor.end s.cursor.offset 8
  decode_ipv6_extension (record s { reader = r })

-- The loop; `extensions` counts the headers read. It stops behind sixteen, so seventeen rounds are
-- enough (`Fuel.extension_loop_fuel`).
unfoldable pub extension_loop : ℕ → ℕ → Stage → Outcome
extension_loop zero extensions s = stop unsupported s.packet
extension_loop (suc fuel) extensions s =
    let next : Outcome = elim (next_extension s) [
      | none ↦ stop malformed s.packet
      | some t ↦
          let rest = extension_loop fuel (extensions + 1) t in
          if not (t.packet.ip_fragment_offset == 0) then on t else rest
    ] in
    if is_extension s.packet.ip_protocol
    then if ltb 16 (extensions + 1) then stop unsupported s.packet else next
    else on s

abbrev pub ipv6_fields : Bytes → ℕ → DecodedPacket → DecodedPacket
ipv6_fields p o net = record net {
  ip_version = 6;
  ip_protocol = p (o + 6);
  ip_ttl = p (o + 7);
  src_ip = copy_n p (o + 8) 16 net.src_ip;
  dst_ip = copy_n p (o + 24) 16 net.dst_ip;
}

abbrev pub after_ipv6 : Stage → PrefixReader → Stage
after_ipv6 s r = record {
  reader = r;
  packet = ipv6_fields r.bytes s.cursor.offset s.packet;
  cursor = record (s.cursor) {
    offset = s.cursor.offset + 40;
    end = s.cursor.offset + 40 + be16 r.bytes (s.cursor.offset + 4);
  };
}

-- The fixed header.
unfoldable pub ipv6_header : Stage → Option Stage
ipv6_header s = do
  r ← ensure s.reader s.cursor.offset 40
  guard (r.bytes s.cursor.offset / 2 ^ 4 == 6)
  some (after_ipv6 s r)

unfoldable pub decode_ipv6 : Stage → Outcome
unfolding extension_loop
decode_ipv6 s = elim (ipv6_header s) [
  | none ↦ stop malformed s.packet
  | some t ↦ extension_loop 17 0 t
]

abbrev pub or_malformed : DecodedPacket → Option Stage → Outcome
or_malformed result none = stop malformed result
or_malformed result (some t) = on t

-- Leaves the result untouched unless the header chain validates.
unfoldable pub commit_network : DecodedPacket → Outcome → Outcome
commit_network result (on t) = on (record t { packet = record (t.packet) { has_network = true } })
commit_network result (stop o _) = stop o result

unfoldable pub decode_network : Stage → ℕ → Outcome
unfolding commit_network
decode_network s link_type = commit_network s.packet (
    if s.cursor.ether_type == 0x0800
    then or_malformed s.packet (decode_ipv4 s)
    else if s.cursor.ether_type == 0x86dd
    then decode_ipv6 s
    else if link_type == 101 && s.cursor.ether_type == 0
    then stop malformed s.packet
    else stop unsupported s.packet)
