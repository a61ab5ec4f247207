-- ===== src/Flow/Key.antt =====
-- `FlowEndpoint::operator<`, `SessionKey::operator<` and `MakeKey` of src/flow_aggregator.cpp.
pub mod Symmetric
pub mod Ordered
use packet_quapture.Base.{
  ℕ, ◌-◌, Bool, true, false, not, ◌&&◌, ◌||◌, List, [], ◌∷◌, ◌++◌, ◌==◌, ltb, if◌then◌else◌, length,
  replicate, ◌≡◌, arith, ◌%◌,
}
use packet_quapture.Packet.Types.{DecodedPacket, capacity}
use packet_quapture.Tcp.Key.{tie, list_less, list_less-irreflexive}
use packet_quapture.Flow.Types.{FlowEndpoint, SessionKey, FlowInput}

unfoldable pub endpoint_less : FlowEndpoint → FlowEndpoint → Bool
endpoint_less a b = tie (list_less a.ip b.ip) (list_less b.ip a.ip) (ltb a.port b.port)

abbrev pub list_same : List ℕ → List ℕ → Bool
list_same [] [] = true
list_same [] (_ ∷ _) = false
list_same (_ ∷ _) [] = false
list_same (x ∷ xs) (y ∷ ys) = x == y && list_same xs ys

unfoldable pub endpoint_same : FlowEndpoint → FlowEndpoint → Bool
endpoint_same a b = list_same a.ip b.ip && a.port == b.port

unfoldable pub session_less : SessionKey → SessionKey → Bool
session_less a b = tie (ltb a.interface_id b.interface_id) (ltb b.interface_id a.interface_id) (
    tie (ltb a.ip_version b.ip_version) (ltb b.ip_version a.ip_version) (
      tie (ltb a.protocol b.protocol) (ltb b.protocol a.protocol) (
        tie (ltb a.vlan_count b.vlan_count) (ltb b.vlan_count a.vlan_count) (
          tie (list_less a.vlans b.vlans) (list_less b.vlans a.vlans) (
            tie (endpoint_less a.low b.low) (endpoint_less b.low a.low)
              (endpoint_less a.high b.high))))))

endpoint_less-irreflexive : (a : FlowEndpoint) → endpoint_less a a ≡ false
unfolding endpoint_less
endpoint_less-irreflexive a = ground (arith, list_less-irreflexive a.ip)

pub session_less-irreflexive : (a : SessionKey) → session_less a a ≡ false
unfolding session_less
session_less-irreflexive a = ground (
  arith,
  list_less-irreflexive a.vlans,
  endpoint_less-irreflexive a.low,
  endpoint_less-irreflexive a.high,
)

abbrev pub src_endpoint : DecodedPacket → FlowEndpoint
src_endpoint p = record { ip = p.src_ip; port = p.src_port }

abbrev pub dst_endpoint : DecodedPacket → FlowEndpoint
dst_endpoint p = record { ip = p.dst_ip; port = p.dst_port }

-- The tags in an array of eight.
abbrev pub vlan_array : List ℕ → List ℕ
vlan_array ids = ids ++ replicate (capacity - length ids) 0

-- Whether the packet travels from the low endpoint.
unfoldable pub travels_from_low : DecodedPacket → Bool
travels_from_low p = not (endpoint_less (dst_endpoint p) (src_endpoint p))

unfoldable pub make_key : FlowInput → SessionKey
make_key input =
    let p = input.packet in
    let src = src_endpoint p in
    let dst = dst_endpoint p in
    let from_low = travels_from_low p in
    record {
      interface_id = input.interface_id;
      ip_version = p.ip_version;
      protocol = if p.tcp then 6 else 17;
      vlan_count = length p.vlan_ids % 256;
      vlans = vlan_array p.vlan_ids;
      low = if from_low then src else dst;
      high = if from_low then dst else src;
    }
