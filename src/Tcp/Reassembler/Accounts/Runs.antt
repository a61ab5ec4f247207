-- ===== src/Tcp/Reassembler/Accounts/Runs.antt =====
-- `Add` and `FinishNext` as a whole, under the invariant of what is buffered.
use packet_quapture.Base.{
  ℕ, ◌-◌, ◌^◌, ◌≡◌, refl, Bool, true, false, not, ◌&&◌, List, [], ◌∷◌, ◌==◌, leb, Option, none,
  some, length, ◌>>=◌, arith, Bool-cases, Option-cases, inl, inr,
}
use packet_quapture.Base.Maps.{
  find, total-put-new, length-put-new, put-AllValues, find-AllValues, emplace, find-put, find-head,
}
use packet_quapture.Tcp.Types.{
  TcpFlowKey, PacketStamp, TcpStream, TcpReassemblyLimits, Flow, reverse_key, tuple_reuse, reset,
  eof,
}
use packet_quapture.Tcp.Key.{key_less, key_less-irreflexive}
use packet_quapture.Tcp.Reassembler.{TcpReassembler, schedule, Run, remove, expire}
use packet_quapture.Tcp.Reassembler.Packets.{
  receive, flag, tcp_syn, tcp_ack, tcp_rst, store, Tracked, handled, tracking, new_flow, track,
  is_new_syn, forget, begin, locate, close, add_tracked, add, finish_next,
}
use packet_quapture.Tcp.Reassembler.Accounts.{
  IsSized, bytes_of, segments_of, IsFlow, IsAccounted, IsOpen, store-IsAccounted,
}
use packet_quapture.Tcp.Reassembler.Accounts.Steps.{receive-IsOpen, schedule-IsOpen}
use packet_quapture.Tcp.Reassembler.Accounts.Expire.{
  RunIsAccounted, TrackedIsAccounted, remove-IsAccounted, remove-length, expire-IsAccounted,
}

module _ (limits : TcpReassemblyLimits) (sized : IsSized limits) where
  -- The invariant holds behind a second operation if it holds behind the first.
  then-IsAccounted :
      (o : Option Run) (f : Run → Option Run)
      → RunIsAccounted limits o
      → ((r : TcpReassembler) (output : List TcpStream)
          → IsAccounted limits r
          → RunIsAccounted limits (f (r, output)))
      → RunIsAccounted limits (o >>= f)
  then-IsAccounted none f h k = tt
  then-IsAccounted (some (r, output)) f h k = k r output h

  track-IsAccounted :
      (key : TcpFlowKey) (syn : Bool) (sequence : ℕ) (stamp : PacketStamp) (r : TcpReassembler)
      (output : List TcpStream)
      → IsAccounted limits r
      → TrackedIsAccounted limits key (track limits key syn sequence stamp (r, output))
  unfolding track emplace
  track-IsAccounted key syn sequence stamp r output h =
      elim (Bool-cases (r.next_id == 2 ^ 64 - 1)) [
        | inl a ↦ rw (a, track) tt
        | inr a ↦ elim (Bool-cases (leb limits.max_flows (length r.flows))) [
          | inl b ↦
              rw (a, track, b)
                (record {
                  bytes = h.bytes;
                  segments = h.segments;
                  bytes_fit = h.bytes_fit;
                  segments_fit = h.segments_fit;
                  flows_fit = h.flows_fit;
                  each = h.each;
                })
          | inr b ↦ elim (Option-cases (find key_less key r.flows)) [
            | inl e ↦
                let new = new_flow r.next_id stamp in
                rw (a, track, b, e, emplace)
                  (
                    record {
                      bytes =
                          omega (arith, h.bytes, total-put-new key_less key bytes_of new r.flows e);
                      segments =
                          omega (
                            arith,
                            h.segments,
                            total-put-new key_less key segments_of new r.flows e,
                          );
                      bytes_fit = h.bytes_fit;
                      segments_fit = h.segments_fit;
                      flows_fit = ground (arith, b, length-put-new key_less key new r.flows e);
                      each = put-AllValues key_less key (IsFlow limits) new r.flows h.each (record {
                        counted = refl;
                        bytes_fit = omega arith;
                        segments_fit = omega arith;
                        captured = tt;
                        failed = λ _. refl;
                      });
                    },
                    find-put key_less key new r.flows (key_less-irreflexive key),
                  )
            | inr (old, e) ↦
                rw (a, track, b, e, emplace)
                  (
                    record {
                      bytes = h.bytes;
                      segments = h.segments;
                      bytes_fit = h.bytes_fit;
                      segments_fit = h.segments_fit;
                      flows_fit = h.flows_fit;
                      each = h.each;
                    },
                    e,
                  )
          ]
        ]
      ]

  forget-IsAccounted :
      (key : TcpFlowKey) (flags : ℕ) (r : TcpReassembler) (output : List TcpStream)
      → IsAccounted limits r
      → RunIsAccounted limits (forget limits key flags (r, output))
  unfolding forget
  forget-IsAccounted key flags r output h =
      then-IsAccounted (remove limits key tuple_reuse (r, output)) _
        (remove-IsAccounted limits sized key tuple_reuse r output h)
        (λ q o k. elim (Bool-cases (flag flags tcp_ack)) [
          | inl e ↦ rw e k
          | inr e ↦ rw e (remove-IsAccounted limits sized (reverse_key key) tuple_reuse q o k)
        ])

  begin-IsAccounted :
      (key : TcpFlowKey) (sequence flags captured declared : ℕ) (stamp : PacketStamp)
      (r : TcpReassembler) (output : List TcpStream)
      → IsAccounted limits r
      → TrackedIsAccounted limits key
          (begin limits key sequence flags captured declared stamp (r, output))
  unfolding begin
  begin-IsAccounted key sequence flags captured declared stamp r output h =
      elim (Bool-cases (not (flag flags tcp_syn) && declared == 0 && captured == 0)) [
        | inr a ↦ rw a (track-IsAccounted key (flag flags tcp_syn) sequence stamp r output h)
        | inl a ↦ elim (Bool-cases (flag flags tcp_rst)) [
          | inr b ↦ rw (a, b) h
          | inl b ↦
              let m = remove-IsAccounted limits sized (reverse_key key) reset r output h in
              elim (Option-cases (remove limits (reverse_key key) reset (r, output))) [
                | inl e ↦ rw (a, b, e) tt
                | inr ((q, o), e) ↦ rw (a, b, e) (rw e at m)
              ]
        ]
      ]

  locate-IsAccounted :
      (key : TcpFlowKey) (sequence flags captured declared : ℕ) (stamp : PacketStamp)
      (r : TcpReassembler) (output : List TcpStream)
      → IsAccounted limits r
      → TrackedIsAccounted limits key
          (locate limits key sequence flags captured declared stamp (r, output))
  unfolding locate
  locate-IsAccounted key sequence flags captured declared stamp r output h =
      elim (Bool-cases (is_new_syn (flag flags tcp_syn) sequence (find key_less key r.flows))) [
        | inl a ↦
            let m = forget-IsAccounted key flags r output h in
            elim (Option-cases (forget limits key flags (r, output))) [
              | inl e ↦ rw (a, e) tt
              | inr ((q, o), e) ↦
                  rw (a, e)
                    (begin-IsAccounted key sequence flags captured declared stamp q o (rw e at m))
            ]
        | inr a ↦ elim (Option-cases (find key_less key r.flows)) [
          | inl e ↦
              rw (a, e, locate)
                (begin-IsAccounted key sequence flags captured declared stamp r output h)
          | inr (flow, e) ↦ rw (a, e, locate) (h, e)
        ]
      ]

  close-IsAccounted :
      (key : TcpFlowKey) (b : Bool) (r : TcpReassembler) (output : List TcpStream)
      → IsAccounted limits r
      → RunIsAccounted limits (close limits key b (r, output))
  unfolding close
  close-IsAccounted key false r output h = h
  close-IsAccounted key true r output h =
      then-IsAccounted (remove limits key reset (r, output)) _
        (remove-IsAccounted limits sized key reset r output h)
        (λ q o k. remove-IsAccounted limits sized (reverse_key key) reset q o k)

  -- The direction of a packet as the packet finds it.
  found-IsOpen :
      (key : TcpFlowKey) (r : TcpReassembler) (flow : Flow) (stamp : PacketStamp)
      → IsAccounted limits r
      → find key_less key r.flows ≡ some flow
      → IsOpen limits key flow r (record flow { last = stamp })
  found-IsOpen key r flow stamp h e =
      let f = find-AllValues key_less key (IsFlow limits) flow r.flows h.each e in
      record {
        present = e;
        bytes = omega (arith, h.bytes);
        segments = omega (arith, h.segments);
        bytes_fit = h.bytes_fit;
        segments_fit = h.segments_fit;
        flows_fit = h.flows_fit;
        each = h.each;
        current = record {
          counted = f.counted;
          bytes_fit = f.bytes_fit;
          segments_fit = f.segments_fit;
          captured = f.captured;
          failed = f.failed;
        };
      }

  add_tracked-IsAccounted :
      (key : TcpFlowKey) (sequence flags : ℕ) (payload : List ℕ) (declared : ℕ)
      (stamp : PacketStamp) (t : Tracked)
      → TrackedIsAccounted limits key (some t)
      → RunIsAccounted limits (add_tracked limits key sequence flags payload declared stamp t)
  unfolding add_tracked
  add_tracked-IsAccounted key sequence flags payload declared stamp (handled run) h = h
  add_tracked-IsAccounted key sequence flags payload declared stamp (tracking (r, output) flow)
        (h, e) =
      let open_flow = found-IsOpen key r flow stamp h e in
      elim (Option-cases (schedule limits key r (record flow { last = stamp }) stamp)) [
        | inl n ↦ rw n tt
        | inr (s, n) ↦ rw n (
            let o =
              schedule-IsOpen limits sized key flow r (record flow { last = stamp }) stamp s n
                open_flow in
            let i =
              receive-IsOpen limits sized key flow sequence flags payload declared stamp s o in
            let t = receive limits sequence flags payload declared stamp s in
            close-IsAccounted key (flag flags tcp_rst) (store key t) output
              (store-IsAccounted limits sized key flow t i))
      ]

  add-RunIsAccounted :
      (key : TcpFlowKey) (sequence flags : ℕ) (payload : List ℕ) (declared : ℕ)
      (stamp : PacketStamp) (r : TcpReassembler)
      → IsAccounted limits r
      → RunIsAccounted limits (add limits key sequence flags payload declared stamp r)
  unfolding add
  add-RunIsAccounted key sequence flags payload declared stamp r h =
      then-IsAccounted (expire limits key stamp r) _ (expire-IsAccounted limits sized key stamp r h)
        (λ q o k.
          let m = locate-IsAccounted key sequence flags (length payload) declared stamp q o k in
          elim (Option-cases
            (locate limits key sequence flags (length payload) declared stamp (q, o))) [
              | inl e ↦ rw e tt
              | inr (t, e) ↦
                  rw e (
                    add_tracked-IsAccounted key sequence flags payload declared stamp t (rw e at m))
            ])

  -- Whatever packet comes: behind `Add`, the reassembler's counters are the sums over its
  -- directions, no limit on directions, bytes or segments is exceeded, and no direction holds a
  -- segment with more bytes than it declares.
  pub add-IsAccounted :
      (key : TcpFlowKey) (sequence flags : ℕ) (payload : List ℕ) (declared : ℕ)
      (stamp : PacketStamp) (r r' : TcpReassembler) (output : List TcpStream)
      → IsAccounted limits r
      → add limits key sequence flags payload declared stamp r ≡ some (r', output)
      → IsAccounted limits r'
  add-IsAccounted key sequence flags payload declared stamp r r' output h e =
      rw e at (add-RunIsAccounted key sequence flags payload declared stamp r h)

  -- `FinishNext` keeps the same invariant, and leaves one direction fewer, so calling it until
  -- `Empty` comes to an end.
  pub finish_next-IsAccounted :
      (r r' : TcpReassembler) (output : List TcpStream)
      → IsAccounted limits r
      → finish_next limits r ≡ some (r', output)
      → IsAccounted limits r' × (length r'.flows ≡ length r.flows - 1)
  unfolding finish_next
  finish_next-IsAccounted r r' output h e = from r.flows refl
    where
      from :
          (flows : List (TcpFlowKey × Flow))
          → r.flows ≡ flows
          → IsAccounted limits r' × (length r'.flows ≡ length flows - 1)
      from [] q =
          let e' : some (r, []) ≡ some (r', output) = rw (q, finish_next) at e in
          let s : r ≡ r' = ground (arith, e') in (rw s at h, rw (← s, q) refl)
      from ((key, flow) ∷ flows) q =
          let e' : remove limits key eof (r, []) ≡ some (r', output) = rw (q, finish_next) at e in
          let f : find key_less key r.flows ≡ some flow =
            rw q (find-head key_less key flow flows (key_less-irreflexive key)) in
          let n = remove-length limits sized key eof r [] flow r' output f e' in
          (rw e' at (remove-IsAccounted limits sized key eof r [] h), omega (arith, n, rw q at n))
