-- ===== src/Packet/Examples.antt =====
-- Runs of the packet decoder of src/packet_decoder.cpp.
use packet_quapture.Base.{
  ℕ, zero, suc, ◌+◌, ◌^◌, ◌≤◌, ◌<◌, ◌≡◌, refl, Bool, true, List, [], ◌∷◌, length, get_or, ltb,
  if◌then◌else◌, arith, Bytes, replicate, ◌++◌,
}
use packet_quapture.Packet.Types.{
  DecodeDepth, transport, DecodeOutcome, decoded, DecodedPacket, PacketSource, memory_source,
  capacity,
}
use packet_quapture.Packet.Link.{Stage, vlan_loop}
use packet_quapture.Packet.Network.{extension_loop}
use packet_quapture.Packet.Decoder.{decode_packet, begin}
use packet_quapture.Packet.Bounds.{HasPayload, decode_packet-HasPayload}
use packet_quapture.Packet.Prefix.Rules.{SamePrefixes}
use packet_quapture.Packet.Prefix.{decode_packet-prefix}
use packet_quapture.Packet.Fuel.{vlan_loop_fuel, extension_loop_fuel}

-- IPv4 from 10.0.0.1 to 10.0.0.2, UDP from port 53 to 1000 with two bytes.
abbrev udp_packet : List ℕ
udp_packet =
    69 ∷ 0 ∷ 0 ∷ 30 ∷ 0 ∷ 1 ∷ 0 ∷ 0 ∷ 64 ∷ 17 ∷ 0 ∷ 0 ∷ 10 ∷ 0 ∷ 0 ∷ 1 ∷ 10 ∷ 0 ∷ 0 ∷ 2 ∷ 0 ∷ 53 ∷ 3
    ∷ 232 ∷ 0 ∷ 10 ∷ 0 ∷ 0 ∷ 7 ∷ 8 ∷ []

abbrev udp_bytes : Bytes
udp_bytes i = get_or udp_packet i 0

abbrev udp_source : PacketSource
udp_source = memory_source udp_bytes 30

-- It holds nothing but the prefix that was asked for.
abbrev strict_source : PacketSource
strict_source = record { size = 30; read_prefix = λ n i. if ltb i n then udp_bytes i else 255 }

udp_decoded : (decode_packet udp_source 101 transport).outcome ≡ decoded
unfolding decode_packet packet_quapture.Packet.Decoder.after_link
    packet_quapture.Packet.Link.decode_link packet_quapture.Packet.Types.ensure
    packet_quapture.Packet.Types.has packet_quapture.Packet.Decoder.after_network
    packet_quapture.Packet.Network.decode_network packet_quapture.Packet.Network.decode_ipv4
    packet_quapture.Base.be16 packet_quapture.Packet.Transport.decode_transport
    packet_quapture.Packet.Transport.decode_udp packet_quapture.Packet.Types.ensure_within
    packet_quapture.Packet.Transport.transport_fields
udp_decoded = refl

udp_payload : (decode_packet udp_source 101 transport).payload_offset ≡ 28
unfolding decode_packet packet_quapture.Packet.Decoder.after_link
    packet_quapture.Packet.Link.decode_link packet_quapture.Packet.Types.ensure
    packet_quapture.Packet.Types.has packet_quapture.Packet.Decoder.after_network
    packet_quapture.Packet.Network.decode_network packet_quapture.Packet.Network.decode_ipv4
    packet_quapture.Base.be16 packet_quapture.Packet.Transport.decode_transport
    packet_quapture.Packet.Transport.decode_udp packet_quapture.Packet.Types.ensure_within
    packet_quapture.Packet.Transport.transport_fields
udp_payload = refl

decode_packet-HasPayload_example :
    (length (decode_packet udp_source 101 transport).vlan_ids ≤ capacity)
    × ((decode_packet udp_source 101 transport).has_transport ≡ true
        → HasPayload 30 (decode_packet udp_source 101 transport))
decode_packet-HasPayload_example = decode_packet-HasPayload udp_source 101 transport (omega arith)

prefixes_same : SamePrefixes udp_source strict_source
prefixes_same = record { same_size = refl; same_bytes = λ n i h. ground (arith, h) }

decode_packet-prefix_example :
    decode_packet udp_source 101 transport ≡ decode_packet strict_source 101 transport
decode_packet-prefix_example =
    decode_packet-prefix udp_source strict_source 101 transport prefixes_same

vlan_loop_fuel_example : vlan_loop 10 (begin udp_source) ≡ vlan_loop 9 (begin udp_source)
vlan_loop_fuel_example = vlan_loop_fuel 9 (begin udp_source) (omega arith) (omega arith)

extension_loop_fuel_example :
    extension_loop 18 0 (begin udp_source) ≡ extension_loop 17 0 (begin udp_source)
extension_loop_fuel_example =
    extension_loop_fuel 17 0 (begin udp_source) (omega arith) (omega arith)
