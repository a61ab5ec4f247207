-- ===== src/Packet/Fuel.antt =====
-- The loops of the packet decoder never use up their fuel.
use packet_quapture.Base.{
  ℕ, zero, suc, ◌+◌, ◌≤◌, ◌<◌, ◌≡◌, arith, length, length-append, some, Option-cases, inl, inr,
}
use packet_quapture.Packet.Types.{capacity}
use packet_quapture.Packet.Link.{Stage, read_tag, vlan_loop}
use packet_quapture.Packet.Network.{next_extension, extension_loop}

read_tag_grows :
    (s t : Stage) → read_tag s ≡ some t → length t.packet.vlan_ids ≡ length s.packet.vlan_ids + 1
unfolding read_tag
read_tag_grows s t e = grind (arith, length-append)

-- More fuel than the room that is left in the stack changes nothing.
pub vlan_loop_fuel :
    (fuel : ℕ) (s : Stage)
    → length s.packet.vlan_ids ≤ capacity
    → capacity < length s.packet.vlan_ids + fuel
    → vlan_loop (suc fuel) s ≡ vlan_loop fuel s
unfolding vlan_loop
vlan_loop_fuel zero s h room = absurd (omega arith)
vlan_loop_fuel (suc fuel) s h room = elim (Option-cases (read_tag s)) [
  | inl e ↦ ground arith
  | inr (t, e) ↦ ground (arith, read_tag_grows s t e, vlan_loop_fuel fuel t)
]

-- More fuel than the extension headers that may still follow changes nothing.
pub extension_loop_fuel :
    (fuel extensions : ℕ) (s : Stage)
    → extensions ≤ 16
    → 16 < extensions + fuel
    → extension_loop (suc fuel) extensions s ≡ extension_loop fuel extensions s
unfolding extension_loop
extension_loop_fuel zero n s few h = absurd (omega arith)
extension_loop_fuel (suc fuel) n s few h = elim (Option-cases (next_extension s)) [
  | inl e ↦ ground arith
  | inr (t, e) ↦ ground (arith, extension_loop_fuel fuel (n + 1) t)
]
