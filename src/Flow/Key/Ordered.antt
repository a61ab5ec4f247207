-- ===== src/Flow/Key/Ordered.antt =====
-- The comparisons of src/flow_aggregator.cpp are strict total orders.
use packet_quapture.Base.{arith}
use packet_quapture.Base.Orders.{IsOrder, ltb-IsOrder, lex-IsOrder, image-IsOrder}
use packet_quapture.Tcp.Key.Ordered.{list_less-IsOrder}
use packet_quapture.Flow.Types.{FlowEndpoint, SessionKey}
use packet_quapture.Flow.Key.{endpoint_less, session_less}
use packet_quapture.Flow.Table.{entry_less}

endpoint_less-IsOrder : IsOrder endpoint_less
unfolding endpoint_less
endpoint_less-IsOrder =
    image-IsOrder (λ (e : FlowEndpoint). (e.ip, e.port)) (λ a b e. ground (arith, e))
      (lex-IsOrder list_less-IsOrder ltb-IsOrder)

-- The order of the sessions is a strict total one: two keys of which neither is less are the same.
pub session_less-IsOrder : IsOrder session_less
unfolding session_less
session_less-IsOrder =
    image-IsOrder
      (λ (k : SessionKey).
        (k.interface_id, (k.ip_version, (k.protocol, (k.vlan_count, (k.vlans, (k.low, k.high)))))))
      (λ a b e. ground (arith, e))
      (lex-IsOrder ltb-IsOrder (
        lex-IsOrder ltb-IsOrder (
          lex-IsOrder ltb-IsOrder (
            lex-IsOrder ltb-IsOrder (
              lex-IsOrder list_less-IsOrder
                (lex-IsOrder endpoint_less-IsOrder endpoint_less-IsOrder))))))

pub entry_less-IsOrder : IsOrder entry_less
entry_less-IsOrder = lex-IsOrder ltb-IsOrder session_less-IsOrder
