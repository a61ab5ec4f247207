-- ===== src/Packet/Decoder.antt =====
-- `DecodePacket` of src/packet_decoder.cpp.
use packet_quapture.Base.{ℕ, Bool, true, false, not, ◌&&◌, ◌||◌, ◌==◌, if◌then◌else◌, Bytes}
use packet_quapture.Packet.Types.{
  DecodeDepth, nothing, link, network, decoded, unsupported, fragment, DecodedPacket, no_packet,
  PacketSource, memory_source, reader_of,
}
use packet_quapture.Packet.Link.{Stage, Outcome, on, stop, decode_link}
use packet_quapture.Packet.Network.{decode_network}
use packet_quapture.Packet.Transport.{decode_transport}

abbrev pub stops_at_link : DecodeDepth → Bool
stops_at_link link = true
stops_at_link _ = false

abbrev pub stops_at_network : DecodeDepth → Bool
stops_at_network network = true
stops_at_network _ = false

-- The part of `DecodePacket` behind the network layer.
unfoldable pub after_network : DecodeDepth → Outcome → DecodedPacket
after_network depth (stop o net) = record net { outcome = o }
after_network depth (on s) =
    let fragmented = not (s.packet.ip_fragment_offset == 0) || s.packet.ip_more_fragments in
    if stops_at_network depth || fragmented
    then record (s.packet) { outcome = if fragmented then fragment else decoded }
    else decode_transport s

unfoldable pub after_link : DecodeDepth → ℕ → Outcome → DecodedPacket
after_link depth link_type (stop o net) = record net { outcome = o }
after_link depth link_type (on s) =
    if stops_at_link depth
    then record (s.packet) { outcome = decoded }
    else after_network depth
        (decode_network (record s { packet = record (s.packet) { outcome = decoded } }) link_type)

abbrev pub begin : PacketSource → Stage
begin source = record {
  reader = reader_of source;
  packet = no_packet;
  cursor = record { offset = 0; end = 0; ether_type = 0 };
}

unfoldable pub decode_packet : PacketSource → ℕ → DecodeDepth → DecodedPacket
decode_packet source link_type nothing = no_packet
decode_packet source link_type depth =
    if stops_at_link depth && not (link_type == 1)
    then record no_packet { outcome = unsupported }
    else after_link depth link_type (decode_link (begin source) link_type)

-- `DecodePacket(PacketView, DecodeDepth)`
unfoldable pub decode_view : Bytes → ℕ → ℕ → DecodeDepth → DecodedPacket
unfolding decode_packet
decode_view view size link_type depth = decode_packet (memory_source view size) link_type depth
