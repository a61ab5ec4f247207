-- ===== src/Packet/Prefix/Link.antt =====
-- `DecodeLink` on sources with the same prefixes.
use packet_quapture.Base.{
  ℕ, zero, suc, ◌+◌, ◌≤◌, ◌≡◌, refl, arith, ◌==◌, length, Bool-cases, inl, inr, be16_cong,
  copy_n_cong,
}
use packet_quapture.Packet.Types.{unsupported, capacity, no_packet, PrefixReader}
use packet_quapture.Packet.Link.{
  Stage, vlan_loop, end_ethernet, decode_link, decode_ethernet, decode_raw, decode_cooked,
  after_addresses, is_vlan, after_version, after_cooked,
}
use packet_quapture.Packet.Prefix.Rules.{
  Reads, ensure-Reads, moved, AgreeOutcome, Agree-if, Agree-type, forget, read_tag-Agree,
}

pub vlan_loop-Agree :
    (fuel : ℕ) (s : Stage) (q : PrefixReader)
    → Reads 0 s.reader q
    → AgreeOutcome (vlan_loop fuel s) (vlan_loop fuel (moved s q))
unfolding vlan_loop end_ethernet
vlan_loop-Agree zero s q a = inl (unsupported, no_packet, refl, refl)
vlan_loop-Agree (suc fuel) s q a = elim (Bool-cases (is_vlan s.cursor.ether_type)) [
  | inr plain ↦ rw plain (inr (_, q, refl, refl, a))
  | inl tagged ↦ elim (Bool-cases (length s.packet.vlan_ids == capacity)) [
    | inl full ↦ rw (tagged, full) (inl (_, _, refl, refl))
    | inr room ↦ elim (read_tag-Agree s q a) [
      | inl (e, f) ↦ rw (tagged, room, e, f) (inl (_, _, refl, refl))
      | inr (t, r, e, f, b) ↦ rw (tagged, room, e, f) (vlan_loop-Agree fuel t r b)
    ]
  ]
]

pub decode_ethernet-Agree :
    (s : Stage) (q : PrefixReader)
    → Reads 0 s.reader q
    → AgreeOutcome (decode_ethernet s) (decode_ethernet (moved s q))
unfolding decode_ethernet
decode_ethernet-Agree s q a = elim (ensure-Reads a 0 14) [
  | inl (e, f) ↦ rw (e, decode_ethernet, f, decode_ethernet) (inl (_, _, refl, refl))
  | inr (r, r', e, f, h) ↦
      let c = copy_n_cong r.bytes r'.bytes 14 h.held in
      let y : after_addresses (moved s q) r' ≡ moved (after_addresses s r) r' = ground (
        arith,
        c 0 6 s.packet.dst_mac,
        c 6 6 s.packet.src_mac,
        be16_cong r.bytes r'.bytes 14 h.held 12,
      ) in
      rw (e, decode_ethernet, f, decode_ethernet, y)
        (vlan_loop-Agree 9 (after_addresses s r) r' (forget h))
]

pub decode_raw-Agree :
    (s : Stage) (q : PrefixReader)
    → Reads 0 s.reader q
    → AgreeOutcome (decode_raw s) (decode_raw (moved s q))
unfolding decode_raw
decode_raw-Agree s q a = elim (ensure-Reads a 0 1) [
  | inl (e, f) ↦ rw (e, decode_raw, f, decode_raw) (inl (_, _, refl, refl))
  | inr (r, r', e, f, h) ↦
      rw (e, decode_raw, f, decode_raw)
        (inr (after_version s r, r', refl, ground (arith, h.held 0), forget h))
]

pub decode_cooked-Agree :
    (s : Stage) (q : PrefixReader) (n at : ℕ)
    → at + 2 ≤ n
    → Reads 0 s.reader q
    → AgreeOutcome (decode_cooked s n at) (decode_cooked (moved s q) n at)
unfolding decode_cooked
decode_cooked-Agree s q n at l a = elim (ensure-Reads a 0 n) [
  | inl (e, f) ↦ rw (e, decode_cooked, f, decode_cooked) (inl (_, _, refl, refl))
  | inr (r, r', e, f, h) ↦
      let b = be16_cong r.bytes r'.bytes (0 + n) h.held at (omega arith) in
      rw (e, decode_cooked, f, decode_cooked)
        (inr (after_cooked s n at r, r', refl, ground (arith, b), forget h))
]

pub decode_link-Agree :
    (s : Stage) (q : PrefixReader) (link_type : ℕ)
    → Reads 0 s.reader q
    → AgreeOutcome (decode_link s link_type) (decode_link (moved s q) link_type)
unfolding decode_link
decode_link-Agree s q link_type a = Agree-if _ (decode_ethernet-Agree s q a) (
    Agree-if _ (decode_raw-Agree s q a) (
      Agree-if _ (Agree-type s q 0x0800 a) (
        Agree-if _ (Agree-type s q 0x86dd a) (
          Agree-if _ (decode_cooked-Agree s q 16 14 (omega arith) a) (
            Agree-if _ (decode_cooked-Agree s q 20 0 (omega arith) a)
              (inl (unsupported, s.packet, refl, refl)))))))
