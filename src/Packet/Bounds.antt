-- ===== src/Packet/Bounds.antt =====
-- Where the headers and the payload lie.
use packet_quapture.Base.{
  ℕ, zero, suc, ◌+◌, ◌^◌, ◌≤◌, ◌<◌, ◌≡◌, true, false, not, ◌||◌, arith, ◌==◌, Bytes, be16, some,
  length, Option-cases, Bool-cases, inl, inr, length-append, ◌⊎◌,
}
use packet_quapture.Packet.Types.{
  DecodeDepth, nothing, link, network, transport, decoded, capacity, DecodedPacket, PacketSource,
  has, ensure, ensure_within,
}
use packet_quapture.Packet.Link.{
  Stage, Outcome, on, stop, read_tag, vlan_loop, end_ethernet, decode_link, decode_ethernet,
  decode_raw, decode_cooked, after_addresses,
}
use packet_quapture.Packet.Network.{
  decode_network, decode_ipv4, decode_ipv6, ipv6_header, extension_loop, next_extension,
  decode_ipv6_extension, extension_header, commit_network,
}
use packet_quapture.Packet.Transport.{
  decode_transport, decode_tcp, decode_udp, transport_fields, finish_transport, Header,
}
use packet_quapture.Packet.Decoder.{
  decode_packet, after_link, after_network, begin, stops_at_link, stops_at_network,
}

be16-lt : (p : Bytes) (o : ℕ) → be16 p o < 2 ^ 16
unfolding be16
be16-lt p o = omega arith

-- What the link layer leaves: the next header begins inside the packet, or at its end, and the
-- stack of tags is within its capacity.
record IsLinked (size : ℕ) (s : Stage) : Type 0 where
  same_size : s.reader.source.size ≡ size
  begins : s.cursor.offset ≤ size
  stack : length s.packet.vlan_ids ≤ capacity
  nothing_yet : s.packet.has_transport ≡ false

abbrev Leaves : (Stage → Type 0) → Outcome → Type 0
Leaves P (on s) = P s
Leaves P (stop o net) = (length net.vlan_ids ≤ capacity) × (net.has_transport ≡ false)

read_tag-IsLinked :
    (size : ℕ) (s t : Stage)
    → IsLinked size s
    → length s.packet.vlan_ids < capacity
    → read_tag s ≡ some t
    → IsLinked size t
unfolding read_tag ensure has
read_tag-IsLinked size s t h room e = grind (arith, length-append)

vlan_loop-IsLinked :
    (size fuel : ℕ) (s : Stage) → IsLinked size s → Leaves (IsLinked size) (vlan_loop fuel s)
unfolding vlan_loop end_ethernet
vlan_loop-IsLinked size zero s h = ground arith
vlan_loop-IsLinked size (suc fuel) s h = elim (Option-cases (read_tag s)) [
  | inl e ↦ ground arith
  | inr (t, e) ↦ ground (arith, read_tag-IsLinked size s t h, vlan_loop-IsLinked size fuel t)
]

decode_ethernet-IsLinked :
    (size : ℕ) (s : Stage) → IsLinked size s → Leaves (IsLinked size) (decode_ethernet s)
unfolding decode_ethernet ensure has
decode_ethernet-IsLinked size s h = elim (Option-cases (ensure s.reader 0 14)) [
  | inl e ↦ rw (e, decode_ethernet) (h.stack, h.nothing_yet)
  | inr (r, e) ↦
      rw (e, decode_ethernet)
        (vlan_loop-IsLinked size 9 (after_addresses s r) (record {
          same_size = ground arith;
          begins = ground arith;
          stack = h.stack;
          nothing_yet = h.nothing_yet;
        }))
]

decode_link-IsLinked :
    (size : ℕ) (s : Stage) (link_type : ℕ)
    → IsLinked size s
    → Leaves (IsLinked size) (decode_link s link_type)
unfolding decode_link decode_raw decode_cooked ensure has
decode_link-IsLinked size s link_type h = ground (arith, decode_ethernet-IsLinked size s h)

-- What the network layer leaves: the transport header begins inside the packet and the datagram.
record IsRouted (size : ℕ) (s : Stage) : Type 0 where
  same_size : s.reader.source.size ≡ size
  begins : s.cursor.offset ≤ size
  begins_within : s.cursor.offset ≤ s.cursor.end
  ends : s.cursor.end < size + 2 ^ 16
  stack : length s.packet.vlan_ids ≤ capacity
  nothing_yet : s.packet.has_transport ≡ false

decode_ipv4-IsRouted :
    (size : ℕ) (s t : Stage) → IsLinked size s → decode_ipv4 s ≡ some t → IsRouted size t
unfolding decode_ipv4 ensure has
decode_ipv4-IsRouted size s t h e = grind (arith, be16-lt)

ipv6_header-IsRouted :
    (size : ℕ) (s t : Stage) → IsLinked size s → ipv6_header s ≡ some t → IsRouted size t
unfolding ipv6_header ensure has
ipv6_header-IsRouted size s t h e = grind (arith, be16-lt)

next_extension-IsRouted :
    (size : ℕ) (s t : Stage) → IsRouted size s → next_extension s ≡ some t → IsRouted size t
unfolding next_extension decode_ipv6_extension extension_header ensure_within ensure has
next_extension-IsRouted size s t h e = ground arith

extension_loop-IsRouted :
    (size fuel n : ℕ) (s : Stage)
    → IsRouted size s
    → Leaves (IsRouted size) (extension_loop fuel n s)
unfolding extension_loop
extension_loop-IsRouted size zero n s h = ground arith
extension_loop-IsRouted size (suc fuel) n s h = elim (Option-cases (next_extension s)) [
  | inl e ↦ ground arith
  | inr (t, e) ↦
      ground
        (arith, next_extension-IsRouted size s t h, extension_loop-IsRouted size fuel (n + 1) t)
]

decode_ipv6-IsRouted :
    (size : ℕ) (s : Stage) → IsLinked size s → Leaves (IsRouted size) (decode_ipv6 s)
unfolding decode_ipv6
decode_ipv6-IsRouted size s h = elim (Option-cases (ipv6_header s)) [
  | inl e ↦ rw (e, decode_ipv6) (h.stack, h.nothing_yet)
  | inr (t, e) ↦
      rw (e, decode_ipv6) (extension_loop-IsRouted size 17 0 t (ipv6_header-IsRouted size s t h e))
]

commit_network-IsRouted :
    (size : ℕ) (net : DecodedPacket) (o : Outcome)
    → length net.vlan_ids ≤ capacity
    → net.has_transport ≡ false
    → Leaves (IsRouted size) o
    → Leaves (IsRouted size) (commit_network net o)
unfolding commit_network
commit_network-IsRouted size net (on t) v u h = ground arith
commit_network-IsRouted size net (stop o _) v u h = (v, u)

decode_network-IsRouted :
    (size : ℕ) (s : Stage) (link_type : ℕ)
    → IsLinked size s
    → Leaves (IsRouted size) (decode_network s link_type)
unfolding decode_network
decode_network-IsRouted size s link_type h =
    commit_network-IsRouted size s.packet _ h.stack h.nothing_yet
      (elim (Option-cases (decode_ipv4 s)) [
        | inl e ↦ ground (arith, decode_ipv6-IsRouted size s h)
        | inr (t, e) ↦
            ground (arith, decode_ipv6-IsRouted size s h, decode_ipv4-IsRouted size s t h e)
      ])

-- A decoded transport header and its payload: the payload lies behind the header, inside the
-- packet; it is shorter than declared only where the capture ends before the datagram.
pub record HasPayload (size : ℕ) (p : DecodedPacket) : Type 0 where
  pub behind_header : 8 ≤ p.payload_offset
  pub inside : p.payload_offset + p.payload_length ≤ size
  pub declared : p.payload_length ≤ p.payload_declared_length
  pub cut_short :
      (p.payload_length ≡ p.payload_declared_length) ⊎ (p.payload_offset + p.payload_length ≡ size)
  pub stack : length p.vlan_ids ≤ capacity
  pub one_protocol :
      ((p.tcp ≡ true) × (p.ip_protocol ≡ 6)) ⊎ ((p.udp ≡ true) × (p.ip_protocol ≡ 17))

record IsHeader (size : ℕ) (s : Stage) (h : Header) : Type 0 where
  same_size : h.reader.source.size ≡ size
  least : 8 ≤ h.header_length
  within : s.cursor.offset + h.header_length ≤ h.end
  inside : s.cursor.offset + h.header_length ≤ size
  ends : h.end < size + 2 ^ 16
  same_stack : h.packet.vlan_ids ≡ s.packet.vlan_ids
  same_protocol : h.packet.ip_protocol ≡ s.packet.ip_protocol

decode_tcp-IsHeader :
    (size : ℕ) (s : Stage) (h : Header)
    → IsRouted size s
    → decode_tcp s ≡ some h
    → IsHeader size s h × (h.packet.tcp ≡ true)
unfolding decode_tcp ensure_within ensure has
decode_tcp-IsHeader size s h r e = ground arith

decode_udp-IsHeader :
    (size : ℕ) (s : Stage) (h : Header)
    → IsRouted size s
    → decode_udp s ≡ some h
    → IsHeader size s h × (h.packet.udp ≡ true)
unfolding decode_udp ensure_within ensure has
decode_udp-IsHeader size s h r e = ground arith

-- With no field of the header wrapping.
transport_fields-HasPayload :
    (size : ℕ) (s : Stage) (h : Header)
    → IsHeader size s h
    → length s.packet.vlan_ids ≤ capacity
    → ((h.packet.tcp ≡ true) × (s.packet.ip_protocol ≡ 6))
      ⊎ ((h.packet.udp ≡ true) × (s.packet.ip_protocol ≡ 17))
    → size + 2 ^ 16 ≤ 2 ^ 32
    → HasPayload size (transport_fields s.cursor.offset h)
unfolding transport_fields
transport_fields-HasPayload size s h i stack one fits = record {
  behind_header = ground arith;
  inside = ground arith;
  declared = ground arith;
  cut_short = ground arith;
  stack = rw (i.same_stack) stack;
  one_protocol = rw (i.same_protocol) one;
}

-- A result without a transport header, or with its payload in place.
abbrev IsDone : ℕ → DecodedPacket → Type 0
IsDone size p = (length p.vlan_ids ≤ capacity) × (p.has_transport ≡ true → HasPayload size p)

finish_tcp-IsDone :
    (size : ℕ) (s : Stage)
    → IsRouted size s
    → s.packet.ip_protocol ≡ 6
    → size + 2 ^ 16 ≤ 2 ^ 32
    → IsDone size (finish_transport s (decode_tcp s))
finish_tcp-IsDone size s r e fits = elim (Option-cases (decode_tcp s)) [
  | inl bad ↦ rw bad (r.stack, λ t. cc)
  | inr (h, good) ↦
      let (i, t) = decode_tcp-IsHeader size s h r good in
      let p = transport_fields-HasPayload size s h i r.stack (inl (t, e)) fits in
      rw good (p.stack, λ _. p)
]

finish_udp-IsDone :
    (size : ℕ) (s : Stage)
    → IsRouted size s
    → s.packet.ip_protocol ≡ 17
    → size + 2 ^ 16 ≤ 2 ^ 32
    → IsDone size (finish_transport s (decode_udp s))
finish_udp-IsDone size s r e fits = elim (Option-cases (decode_udp s)) [
  | inl bad ↦ rw bad (r.stack, λ t. cc)
  | inr (h, good) ↦
      let (i, t) = decode_udp-IsHeader size s h r good in
      let p = transport_fields-HasPayload size s h i r.stack (inr (t, e)) fits in
      rw good (p.stack, λ _. p)
]

decode_transport-IsDone :
    (size : ℕ) (s : Stage)
    → IsRouted size s
    → size + 2 ^ 16 ≤ 2 ^ 32
    → IsDone size (decode_transport s)
unfolding decode_transport
decode_transport-IsDone size s r fits = elim (Bool-cases (s.packet.ip_protocol == 6)) [
  | inl six ↦ rw six (finish_tcp-IsDone size s r (ground arith) fits)
  | inr e ↦ elim (Bool-cases (s.packet.ip_protocol == 17)) [
    | inl udp ↦ rw (e, udp) (finish_udp-IsDone size s r (ground arith) fits)
    | inr other ↦ rw (e, other) (r.stack, λ t. cc)
  ]
]

after_network-IsDone :
    (size : ℕ) (depth : DecodeDepth) (o : Outcome)
    → Leaves (IsRouted size) o
    → size + 2 ^ 16 ≤ 2 ^ 32
    → IsDone size (after_network depth o)
unfolding after_network
after_network-IsDone size depth (stop o net) h fits = (h.0, λ t. cc)
after_network-IsDone size depth (on s) h fits =
    let d = decode_transport-IsDone size s h fits in
    elim (Bool-cases (
      stops_at_network depth
      || (not (s.packet.ip_fragment_offset == 0) || s.packet.ip_more_fragments))) [
        | inl e ↦ rw e (h.stack, λ t. cc)
        | inr e ↦ rw e d
      ]

after_link-IsDone :
    (size : ℕ) (depth : DecodeDepth) (link_type : ℕ) (o : Outcome)
    → Leaves (IsLinked size) o
    → size + 2 ^ 16 ≤ 2 ^ 32
    → IsDone size (after_link depth link_type o)
unfolding after_link
after_link-IsDone size depth link_type (stop o net) h fits = (h.0, λ t. cc)
after_link-IsDone size depth link_type (on s) h fits = elim (Bool-cases (stops_at_link depth)) [
  | inl e ↦ rw e (h.stack, λ t. cc)
  | inr e ↦ rw e (
      after_network-IsDone size depth _
        (decode_network-IsRouted size
          (record s { packet = record (s.packet) { outcome = decoded } }) link_type
          (record {
            same_size = h.same_size;
            begins = h.begins;
            stack = h.stack;
            nothing_yet = h.nothing_yet;
          }))
        fits)
]

begin-IsLinked : (source : PacketSource) → IsLinked source.size (begin source)
begin-IsLinked source = ground arith

linked-IsDone :
    (source : PacketSource) (link_type : ℕ) (depth : DecodeDepth)
    → source.size + 2 ^ 16 ≤ 2 ^ 32
    → IsDone source.size (after_link depth link_type (decode_link (begin source) link_type))
linked-IsDone source link_type depth fits =
    after_link-IsDone source.size depth link_type (decode_link (begin source) link_type)
      (decode_link-IsLinked source.size (begin source) link_type (begin-IsLinked source)) fits

-- For every packet whose size leaves 2^16 below 2^32, link type and depth: at most eight VLAN tags
-- are kept, and if a transport header is reported, its payload lies behind it and inside the
-- packet, with the lengths that `HasPayload` states.
pub decode_packet-HasPayload :
    (source : PacketSource) (link_type : ℕ) (depth : DecodeDepth)
    → source.size + 2 ^ 16 ≤ 2 ^ 32
    → (length (decode_packet source link_type depth).vlan_ids ≤ capacity)
      × ((decode_packet source link_type depth).has_transport ≡ true
          → HasPayload source.size (decode_packet source link_type depth))
unfolding decode_packet
decode_packet-HasPayload source link_type nothing fits = (omega arith, λ t. cc)
decode_packet-HasPayload source link_type link fits = elim (Bool-cases (link_type == 1)) [
  | inl e ↦ rw e (linked-IsDone source link_type link fits)
  | inr e ↦ rw e (omega arith, λ t. cc)
]
decode_packet-HasPayload source link_type network fits = linked-IsDone source link_type network fits
decode_packet-HasPayload source link_type transport fits =
    linked-IsDone source link_type transport fits
