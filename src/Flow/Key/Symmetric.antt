-- ===== src/Flow/Key/Symmetric.antt =====
-- The order of endpoints, and the key of a packet that travels the other way.
use packet_quapture.Base.{true, false, not, ◌≡◌, refl, arith, Bool-cases, inl, inr, ◌⊎◌}
use packet_quapture.Packet.Types.{DecodedPacket}
use packet_quapture.Tcp.Key.Ordered.{list_less-asymmetric, list_less-total}
use packet_quapture.Flow.Types.{FlowEndpoint, FlowInput}
use packet_quapture.Flow.Key.{endpoint_less, make_key, travels_from_low, src_endpoint, dst_endpoint}

endpoint_less-asymmetric :
    (a b : FlowEndpoint) → endpoint_less a b ≡ true → endpoint_less b a ≡ false
unfolding endpoint_less
endpoint_less-asymmetric a b h =
    ground (arith, h, list_less-asymmetric a.ip b.ip, list_less-asymmetric b.ip a.ip)

endpoint_less-total :
    (a b : FlowEndpoint) → endpoint_less a b ≡ false → endpoint_less b a ≡ false → a ≡ b
unfolding endpoint_less
endpoint_less-total a b h k =
    let e = list_less-total a.ip b.ip (ground (arith, h, k)) (ground (arith, h, k)) in
    let p : a.port ≡ b.port = ground (arith, h, k) in ground (arith, e, p)

-- The packet of the other direction.
abbrev pub reversed : DecodedPacket → DecodedPacket
reversed p = record p {
  src_ip = p.dst_ip;
  src_port = p.dst_port;
  dst_ip = p.src_ip;
  dst_port = p.src_port;
}

-- A packet and one that travels the other way between its endpoints have the same session key, and
-- exactly one of them travels from the low endpoint, unless the two endpoints are the same.
pub make_key_symmetric :
    (input : FlowInput)
    → let back = record input { packet = reversed input.packet } in
      (make_key back ≡ make_key input)
      × ((src_endpoint input.packet ≡ dst_endpoint input.packet)
          ⊎ (travels_from_low (reversed input.packet) ≡ not (travels_from_low input.packet)))
unfolding make_key travels_from_low
make_key_symmetric input =
    let p = input.packet in
    let s = src_endpoint p in
    let d = dst_endpoint p in
    elim (Bool-cases (endpoint_less d s)) [
      | inl e ↦ let f = endpoint_less-asymmetric d s e in ground (arith, e, f)
      | inr e ↦ elim (Bool-cases (endpoint_less s d)) [
        | inl f ↦ ground (arith, e, f)
        | inr f ↦ let t : s ≡ d = endpoint_less-total s d f e in (rw (e, f, t) refl, inl t)
      ]
    ]
