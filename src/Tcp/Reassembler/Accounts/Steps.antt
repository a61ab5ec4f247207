-- ===== src/Tcp/Reassembler/Accounts/Steps.antt =====
-- A packet's way through `Add`, step by step, under the invariant of what is buffered.
use packet_quapture.Base.{
  ℕ, ◌+◌, ◌≤◌, ◌≡◌, Bool, true, false, not, ◌&&◌, List, ◌==◌, ltb, if◌then◌else◌, u32, some, length,
  arith, Bool-cases, inl, inr,
}
use packet_quapture.Tcp.Types.{
  TcpFlowKey, PacketStamp, conflict, TcpReassemblyLimits, Segment, Flow, is_empty, conflicting_fin,
  captured_exceeds_declared,
}
use packet_quapture.Tcp.Finish.Inside.{IsCaptured}
use packet_quapture.Tcp.Reassembler.{TcpReassembler, fail, schedule}
use packet_quapture.Tcp.Reassembler.Packets.{
  with_syn, set_fin, with_fin, check_captured, add_segment, receive, flag, tcp_fin, tcp_syn,
}
use packet_quapture.Tcp.Reassembler.Clock.{schedule-Kept}
use packet_quapture.Tcp.Reassembler.Accounts.{
  IsSized, IsOpen, IsOpenPair, fail-IsOpen, buffer-IsOpen,
}

module _ (limits : TcpReassemblyLimits) (sized : IsSized limits) (key : TcpFlowKey)
    (old : Flow) where
  with_syn-IsOpen :
      (r : TcpReassembler) (flow : Flow) (syn : Bool) (sequence : ℕ)
      → IsOpen limits key old r flow
      → IsOpen limits key old r (with_syn syn sequence flow)
  with_syn-IsOpen r flow false sequence h = h
  with_syn-IsOpen r flow true sequence h = record {
    present = h.present;
    bytes = h.bytes;
    segments = h.segments;
    bytes_fit = h.bytes_fit;
    segments_fit = h.segments_fit;
    flows_fit = h.flows_fit;
    each = h.each;
    current = record {
      counted = h.current.counted;
      bytes_fit = h.current.bytes_fit;
      segments_fit = h.current.segments_fit;
      captured = h.current.captured;
      failed = h.current.failed;
    };
  }

  set_fin-IsOpen :
      (fin : ℕ) (s : TcpReassembler × Flow)
      → IsOpenPair limits key old s
      → IsOpenPair limits key old (set_fin fin s)
  set_fin-IsOpen fin (r, flow) h = record {
    present = h.present;
    bytes = h.bytes;
    segments = h.segments;
    bytes_fit = h.bytes_fit;
    segments_fit = h.segments_fit;
    flows_fit = h.flows_fit;
    each = h.each;
    current = record {
      counted = h.current.counted;
      bytes_fit = h.current.bytes_fit;
      segments_fit = h.current.segments_fit;
      captured = h.current.captured;
      failed = h.current.failed;
    };
  }

  with_fin-IsOpen :
      (b : Bool) (fin : ℕ) (s : TcpReassembler × Flow)
      → IsOpenPair limits key old s
      → IsOpenPair limits key old (with_fin b fin s)
  unfolding with_fin
  with_fin-IsOpen false fin (r, flow) h = h
  with_fin-IsOpen true fin (r, flow) h =
      elim (Bool-cases (flow.has_fin && not (flow.fin_sequence == fin))) [
        | inl e ↦ rw e (
            set_fin-IsOpen fin (fail r flow conflicting_fin conflict)
              (fail-IsOpen limits sized key old r flow conflicting_fin conflict h))
        | inr e ↦ rw e (set_fin-IsOpen fin (r, flow) h)
      ]

  check_captured-IsOpen :
      (captured declared : ℕ) (s : TcpReassembler × Flow)
      → IsOpenPair limits key old s
      → IsOpenPair limits key old (check_captured captured declared s)
  unfolding check_captured
  check_captured-IsOpen captured declared (r, flow) h =
      elim (Bool-cases (is_empty flow.failure && ltb declared captured)) [
        | inl e ↦
            rw e (fail-IsOpen limits sized key old r flow captured_exceeds_declared conflict h)
        | inr e ↦ rw e h
      ]

  -- Behind the check, a direction that has not failed has room for the captured bytes.
  check_captured-le :
      (captured declared : ℕ) (s : TcpReassembler × Flow)
      → is_empty (check_captured captured declared s).1.failure ≡ true
      → captured ≤ declared
  unfolding check_captured fail
  check_captured-le captured declared (r, flow) h = ground (arith, h)

  add_segment-IsOpen :
      (segment : Segment) (s : TcpReassembler × Flow)
      → (is_empty s.1.failure ≡ true → IsCaptured segment)
      → IsOpenPair limits key old s
      → IsOpenPair limits key old (add_segment limits segment s)
  unfolding add_segment
  add_segment-IsOpen segment (r, flow) c h = elim (Bool-cases (is_empty flow.failure)) [
    | inr e ↦ rw e h
    | inl e ↦ elim (Bool-cases (ltb 0 segment.declared)) [
      | inr f ↦ rw (e, f) h
      | inl f ↦ rw (e, f) (buffer-IsOpen limits sized key old r flow segment h e (c e))
    ]
  ]

  pub receive-IsOpen :
      (sequence flags : ℕ) (payload : List ℕ) (declared : ℕ) (stamp : PacketStamp)
      (s : TcpReassembler × Flow)
      → IsOpenPair limits key old s
      → IsOpenPair limits key old (receive limits sequence flags payload declared stamp s)
  unfolding receive
  receive-IsOpen sequence flags payload declared stamp (r, flow) h =
      let syn = flag flags tcp_syn in
      let start = u32 (sequence + (if syn then 1 else 0)) in
      let segment : Segment = record {
        sequence = start;
        declared = declared;
        stamp = stamp;
        bytes = payload;
      } in
      let one = with_syn-IsOpen r flow syn sequence h in
      let s2 =
        with_fin (flag flags tcp_fin) (u32 (start + declared)) (r, with_syn syn sequence flow) in
      let two =
        with_fin-IsOpen (flag flags tcp_fin) (u32 (start + declared))
          (r, with_syn syn sequence flow) one in
      add_segment-IsOpen segment (check_captured (length payload) declared s2)
        (check_captured-le (length payload) declared s2)
        (check_captured-IsOpen (length payload) declared s2 two)

  pub schedule-IsOpen :
      (r : TcpReassembler) (flow : Flow) (stamp : PacketStamp) (s : TcpReassembler × Flow)
      → schedule limits key r flow stamp ≡ some s
      → IsOpen limits key old r flow
      → IsOpenPair limits key old s
  schedule-IsOpen r flow stamp (r', flow') e h =
      let k = schedule-Kept limits key r flow stamp r' flow' e in
      record {
        present = rw k.flows h.present;
        bytes = rw (k.flows, k.buffered_bytes, k.bytes) h.bytes;
        segments = rw (k.flows, k.buffered_segments, k.segments) h.segments;
        bytes_fit = rw k.buffered_bytes h.bytes_fit;
        segments_fit = rw k.buffered_segments h.segments_fit;
        flows_fit = rw k.flows h.flows_fit;
        each = rw k.flows h.each;
        current = record {
          counted = rw (k.bytes, k.segments) h.current.counted;
          bytes_fit = rw k.bytes h.current.bytes_fit;
          segments_fit = rw k.segments h.current.segments_fit;
          captured = rw k.segments h.current.captured;
          failed = rw (k.segments, k.failure) h.current.failed;
        };
      }
