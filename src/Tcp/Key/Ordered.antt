-- ===== src/Tcp/Key/Ordered.antt =====
-- `TcpFlowKey::operator<` of src/tcp_reassembly.cpp, and the order of the lists in it.
use packet_quapture.Base.{ℕ, true, false, List, [], ◌∷◌, ◌≡◌, refl, arith}
use packet_quapture.Base.Orders.{IsOrder, ltb-IsOrder, lex-IsOrder, image-IsOrder}
use packet_quapture.Tcp.Types.{TcpFlowKey}
use packet_quapture.Tcp.Key.{list_less, list_less-irreflexive, key_less}

pub list_less-asymmetric : (xs ys : List ℕ) → list_less xs ys ≡ true → list_less ys xs ≡ false
unfolding list_less
list_less-asymmetric [] ys h = ground (arith, h)
list_less-asymmetric (x ∷ xs) [] h = ground (arith, h)
list_less-asymmetric (x ∷ xs) (y ∷ ys) h = ground (arith, h, list_less-asymmetric xs ys)

pub list_less-total : (xs ys : List ℕ) → list_less xs ys ≡ false → list_less ys xs ≡ false → xs ≡ ys
unfolding list_less
list_less-total [] [] h k = refl
list_less-total [] (y ∷ ys) h k = absurd (ground (arith, h))
list_less-total (x ∷ xs) [] h k = absurd (ground (arith, k))
list_less-total (x ∷ xs) (y ∷ ys) h k =
    let t = list_less-total xs ys (ground (arith, h, k)) (ground (arith, h, k)) in
    let e : x ≡ y = ground (arith, h, k) in rw (e, t) refl

list_less-transitive :
    (xs ys zs : List ℕ) → list_less xs ys ≡ true → list_less ys zs ≡ true → list_less xs zs ≡ true
unfolding list_less
list_less-transitive xs [] zs h k = absurd (ground (arith, h))
list_less-transitive xs (y ∷ ys) [] h k = absurd (ground (arith, k))
list_less-transitive [] (y ∷ ys) (z ∷ zs) h k = refl
list_less-transitive (x ∷ xs) (y ∷ ys) (z ∷ zs) h k =
    ground (arith, h, k, list_less-transitive xs ys zs)

pub list_less-IsOrder : IsOrder list_less
list_less-IsOrder = record {
  irreflexive = list_less-irreflexive;
  transitive = list_less-transitive;
  total = list_less-total;
}

-- The order of the directions of the reassembler is a strict total one.
pub key_less-IsOrder : IsOrder key_less
unfolding key_less
key_less-IsOrder =
    image-IsOrder
      (λ (k : TcpFlowKey). (
        k.section,
        (
          k.interface_id,
          (k.ip_version, (k.src_ip, (k.dst_ip, (k.src_port, (k.dst_port, k.vlans))))),
        ),
      ))
      (λ a b e. ground (arith, e))
      (lex-IsOrder ltb-IsOrder (
        lex-IsOrder ltb-IsOrder (
          lex-IsOrder ltb-IsOrder (
            lex-IsOrder list_less-IsOrder (
              lex-IsOrder list_less-IsOrder
                (lex-IsOrder ltb-IsOrder (lex-IsOrder ltb-IsOrder list_less-IsOrder)))))))
