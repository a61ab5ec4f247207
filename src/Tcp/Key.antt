-- ===== src/Tcp/Key.antt =====
-- `TcpFlowKey::operator<` of src/tcp_reassembly.cpp: std::tie compares field by field, an array or
-- a vector byte by byte.
pub mod Ordered
use packet_quapture.Base.{
  ℕ, Bool, true, false, not, ◌&&◌, ◌||◌, List, [], ◌∷◌, ltb, ◌≡◌, refl, arith,
}
use packet_quapture.Tcp.Types.{TcpFlowKey}

-- One field's answer, then that of the fields behind it.
abbrev pub tie : Bool → Bool → Bool → Bool
tie less greater rest = less || (not greater && rest)

unfoldable pub list_less : List ℕ → List ℕ → Bool
list_less xs [] = false
list_less [] (y ∷ ys) = true
list_less (x ∷ xs) (y ∷ ys) = tie (ltb x y) (ltb y x) (list_less xs ys)

unfoldable pub key_less : TcpFlowKey → TcpFlowKey → Bool
key_less a b = tie (ltb a.section b.section) (ltb b.section a.section) (
    tie (ltb a.interface_id b.interface_id) (ltb b.interface_id a.interface_id) (
      tie (ltb a.ip_version b.ip_version) (ltb b.ip_version a.ip_version) (
        tie (list_less a.src_ip b.src_ip) (list_less b.src_ip a.src_ip) (
          tie (list_less a.dst_ip b.dst_ip) (list_less b.dst_ip a.dst_ip) (
            tie (ltb a.src_port b.src_port) (ltb b.src_port a.src_port) (
              tie (ltb a.dst_port b.dst_port) (ltb b.dst_port a.dst_port)
                (list_less a.vlans b.vlans)))))))

pub list_less-irreflexive : (xs : List ℕ) → list_less xs xs ≡ false
unfolding list_less
list_less-irreflexive [] = refl
list_less-irreflexive (x ∷ xs) = ground (arith, list_less-irreflexive xs)

pub key_less-irreflexive : (key : TcpFlowKey) → key_less key key ≡ false
unfolding key_less
key_less-irreflexive key =
    let s = list_less-irreflexive key.src_ip in
    let d = list_less-irreflexive key.dst_ip in
    let v = list_less-irreflexive key.vlans in ground (arith, s, d, v)
