-- ===== src/Packet/Prefix.antt =====
-- The decoder reads only the prefixes that it asked for: sources of one size whose prefixes agree
-- give the same packet.
pub mod Rules
pub mod Link
pub mod Network
pub mod Transport
use packet_quapture.Base.{
  ℕ, zero, suc, ◌+◌, ◌*◌, ◌/◌, ◌%◌, ◌^◌, ◌≤◌, ◌<◌, ◌≡◌, refl, Bool, true, false, ◌&&◌, arith, ◌==◌,
  leb, if◌then◌else◌, be16, Option, none, some, length, ◌>>=◌, ◌>>◌, guard, Option-cases,
  Bool-cases, inl, inr, ◌⊎◌, leb→le, be16_cong, be32_cong, copy_n_cong,
}
use packet_quapture.Packet.Types.{
  DecodeDepth, nothing, link, network, transport, DecodeOutcome, decoded, malformed, unsupported,
  capacity, DecodedPacket, no_packet, PacketSource, has, PrefixReader, reader_of, ensure,
  ensure_within,
}
use packet_quapture.Packet.Link.{
  Stage, Outcome, on, stop, read_tag, vlan_loop, end_ethernet, decode_link, decode_ethernet,
  decode_raw, decode_cooked, after_addresses, is_vlan, with_type, after_tag, after_version,
  after_cooked,
}
use packet_quapture.Packet.Network.{
  decode_network, or_malformed, after_ipv4, after_ipv6, after_extension, decode_ipv4, decode_ipv6,
  ipv6_header, extension_loop, next_extension, decode_ipv6_extension, extension_header,
  commit_network,
}
use packet_quapture.Packet.Transport.{
  decode_transport, decode_tcp, decode_udp, transport_fields, finish_transport, Header, tcp_header,
  udp_header,
}
use packet_quapture.Packet.Decoder.{decode_packet, after_link, after_network, begin}
use packet_quapture.Packet.Prefix.Rules.{
  SamePrefixes, Reads, ReadsOption, ensure-Reads, ensure_within-Reads, moved, AgreeOption,
  AgreeOutcome, Agree-if, Agree-type, forget, read_tag-Agree,
}
use packet_quapture.Packet.Prefix.Link.{
  vlan_loop-Agree, decode_ethernet-Agree, decode_raw-Agree, decode_cooked-Agree, decode_link-Agree,
}
use packet_quapture.Packet.Prefix.Network.{
  Agree-option, ipv4_fields-Agree, bind_rule, guard_rule, neither, decode_ipv4-Agree,
  ipv6_header-Agree, extension_header_cong, extension_header_pos, next_extension-Agree,
  extension_loop-Agree, decode_ipv6-Agree, commit_network-Agree, decode_network-Agree,
}
use packet_quapture.Packet.Prefix.Transport.{
  AgreeHeader, fewer, tcp_header-Agree, decode_tcp-Agree, decode_udp-Agree, finish_transport-Agree,
  decode_transport-Agree,
}

after_network-Agree :
    (depth : DecodeDepth) {x y : Outcome}
    → AgreeOutcome x y
    → after_network depth x ≡ after_network depth y
unfolding after_network
after_network-Agree depth (inl (o, p, e, f)) = rw (e, f)
after_network-Agree depth (inr (t, r, e, f, a)) =
    rw (e, f) (ground (arith, decode_transport-Agree t r a))

after_link-Agree :
    (depth : DecodeDepth) (link_type : ℕ) {x y : Outcome}
    → AgreeOutcome x y
    → after_link depth link_type x ≡ after_link depth link_type y
unfolding after_link
after_link-Agree depth link_type (inl (o, p, e, f)) = rw (e, f)
after_link-Agree depth link_type (inr (t, r, e, f, a)) =
    let u = record t { packet = record (t.packet) { outcome = decoded } } in
    rw (e, f) (ground (arith, after_network-Agree depth (decode_network-Agree u r link_type a)))

linked-Agree :
    (a b : PacketSource) (link_type : ℕ) (depth : DecodeDepth)
    → SamePrefixes a b
    → after_link depth link_type (decode_link (begin a) link_type)
      ≡ after_link depth link_type (decode_link (begin b) link_type)
linked-Agree a b link_type depth same = after_link-Agree depth link_type (
    decode_link-Agree (begin a) (reader_of b) link_type
      (record { sources = same; held = λ i l. refl }))

-- Two sources of one size give the same packet if the first n bytes of what they answer to
-- `ReadPrefix(n)` agree, for each n: the decoder never reads past the prefix that it asked for.
pub decode_packet-prefix :
    (a b : PacketSource) (link_type : ℕ) (depth : DecodeDepth)
    → SamePrefixes a b
    → decode_packet a link_type depth ≡ decode_packet b link_type depth
unfolding decode_packet
decode_packet-prefix a b link_type nothing same = refl
decode_packet-prefix a b link_type link same = ground (arith, linked-Agree a b link_type link same)
decode_packet-prefix a b link_type network same = linked-Agree a b link_type network same
decode_packet-prefix a b link_type transport same = linked-Agree a b link_type transport same
