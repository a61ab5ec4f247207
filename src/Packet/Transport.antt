-- ===== src/Packet/Transport.antt =====
-- The transport layer of src/packet_decoder.cpp: TCP and UDP.
use packet_quapture.Base.{
  ℕ, ◌+◌, ◌*◌, ◌/◌, ◌%◌, ◌^◌, min, true, ◌&&◌, ◌==◌, leb, if◌then◌else◌, Bytes, be16, be32, u32,
  u64_sub, Option, none, some, length, ◌>>=◌, ◌>>◌, guard,
}
use packet_quapture.Packet.Types.{
  decoded, malformed, unsupported, DecodedPacket, has, PrefixReader, ensure_within,
}
use packet_quapture.Packet.Link.{Stage}

-- A transport header that validated: the end of its payload, and the packet with its fields.
pub record Header : Type 0 where
  pub reader : PrefixReader
  pub packet : DecodedPacket
  pub header_length : ℕ
  pub end : ℕ

abbrev pub tcp_fields : Bytes → ℕ → ℕ → DecodedPacket → DecodedPacket
tcp_fields p o header_length result = record result {
  tcp = true;
  tcp_flags = p (o + 13);
  tcp_seq = be32 p (o + 4);
  tcp_ack = be32 p (o + 8);
  tcp_header_length = header_length % 2 ^ 8;
}

abbrev pub tcp_header : Stage → ℕ → PrefixReader → Header
tcp_header s header_length r = record {
  reader = r;
  packet = tcp_fields r.bytes s.cursor.offset header_length s.packet;
  header_length = header_length;
  end = s.cursor.end;
}

unfoldable pub decode_tcp : Stage → Option Header
decode_tcp s = do
  let o = s.cursor.offset
  r ← ensure_within s.reader s.cursor.end o 20
  let header_length = r.bytes (o + 12) / 2 ^ 4 * 4
  guard (leb 20 header_length)
  r' ← ensure_within r s.cursor.end o header_length
  some (tcp_header s header_length r')

abbrev pub udp_header : Stage → ℕ → PrefixReader → Header
udp_header s length r = record {
  reader = r;
  packet = record (s.packet) { udp = true; udp_length = length };
  header_length = 8;
  end = s.cursor.offset + length;
}

unfoldable pub decode_udp : Stage → Option Header
decode_udp s = do
  let o = s.cursor.offset
  r ← ensure_within s.reader s.cursor.end o 8
  let length = be16 r.bytes (o + 4)
  guard (leb 8 length && has s.cursor.end o length)
  some (udp_header s length r)

-- The fields that TCP and UDP share, at `o`.
unfoldable pub transport_fields : ℕ → Header → DecodedPacket
transport_fields o h = record (h.packet) {
  outcome = decoded;
  has_transport = true;
  src_port = be16 h.reader.bytes o;
  dst_port = be16 h.reader.bytes (o + 2);
  payload_offset = u32 (o + h.header_length);
  payload_declared_length = u32 (u64_sub (u64_sub h.end o) h.header_length);
  payload_length = u32 (u64_sub (u64_sub (min h.end h.reader.source.size) o) h.header_length);
}

abbrev pub finish_transport : Stage → Option Header → DecodedPacket
finish_transport s none = record (s.packet) { outcome = malformed }
finish_transport s (some h) = transport_fields s.cursor.offset h

-- `result.outcome = DecodeTransport(…)`
unfoldable pub decode_transport : Stage → DecodedPacket
decode_transport s =
    if s.packet.ip_protocol == 6
    then finish_transport s (decode_tcp s)
    else if s.packet.ip_protocol == 17
    then finish_transport s (decode_udp s)
    else record (s.packet) { outcome = unsupported }
