-- ===== src/Tcp/Reassembler/Accounts.antt =====
-- What `TcpReassembler` buffers is what it counts, and stays within the limits: the invariant, and
-- what each step on one direction does to it.
pub mod Steps
pub mod Expire
pub mod Runs
use packet_quapture.Base.{
  ℕ, zero, suc, ◌+◌, ◌-◌, ◌*◌, ◌^◌, ◌≤◌, ◌<◌, ◌≡◌, refl, Bool, true, false, not, ◌&&◌, ◌||◌, List,
  [], ◌∷◌, ◌++◌, map, ◌==◌, ltb, leb, if◌then◌else◌, u32, u64, u64_sub, Option, none, some, length,
  length-append, All, All-append, ◌>>=◌, ◌>>◌, guard, arith, Bool-cases, Option-cases, inl, inr,
}
use packet_quapture.Base.Maps.{
  find, put, erase, total, total-put, total-find, length-put, put-AllValues, AllValues,
}
use packet_quapture.Tcp.Types.{
  TcpFlowKey, PacketStamp, TcpStream, TcpStreamStatus, conflict, limit, Reason, FinalizedBy,
  TcpReassemblyLimits, IsLimits, Segment, Flow, is_empty, conflicting_fin,
  captured_exceeds_declared, segment_exceeds_limits, limit_reached,
}
use packet_quapture.Tcp.Key.{key_less}
use packet_quapture.Tcp.Finish.Inside.{IsCaptured}
use packet_quapture.Tcp.Reassembler.{TcpReassembler, fail, schedule}
use packet_quapture.Tcp.Reassembler.Packets.{
  is_repeated, lower_bound, insert_order, keep, has_room, buffer, with_syn, set_fin, with_fin,
  check_captured, add_segment, receive, store, flag, tcp_fin, tcp_syn,
}
use packet_quapture.Tcp.Reassembler.Clock.{Kept, schedule-Kept}

-- A size is 64 bits wide.
pub record IsSized (limits : TcpReassemblyLimits) : Type 0 where
  pub stream_fits : limits.max_stream_bytes < 2 ^ 32
  pub bytes_fit : limits.max_total_bytes < 2 ^ 64
  pub segments_fit : limits.max_total_segments < 2 ^ 64

abbrev pub sum_bytes : List Segment → ℕ
sum_bytes [] = 0
sum_bytes (s ∷ segments) = length s.bytes + sum_bytes segments

abbrev pub bytes_of : Flow → ℕ
bytes_of flow = flow.bytes

abbrev pub segments_of : Flow → ℕ
segments_of flow = length flow.segments

pub record IsFlow (limits : TcpReassemblyLimits) (flow : Flow) : Type 0 where
  pub counted : flow.bytes ≡ sum_bytes flow.segments
  pub bytes_fit : flow.bytes ≤ limits.max_stream_bytes
  pub segments_fit : length flow.segments ≤ limits.max_segments
  pub captured : All IsCaptured flow.segments
  pub failed : is_empty flow.failure ≡ false → flow.segments ≡ []

pub record IsAccounted (limits : TcpReassemblyLimits) (r : TcpReassembler) : Type 0 where
  pub bytes : r.buffered_bytes ≡ total bytes_of r.flows
  pub segments : r.buffered_segments ≡ total segments_of r.flows
  pub bytes_fit : r.buffered_bytes ≤ limits.max_total_bytes
  pub segments_fit : r.buffered_segments ≤ limits.max_total_segments
  pub flows_fit : length r.flows ≤ limits.max_flows
  pub each : AllValues (IsFlow limits) r.flows

-- The same while a packet changes the direction `key`, whose entry in the table is still `old`.
pub record IsOpen (limits : TcpReassemblyLimits) (key : TcpFlowKey) (old : Flow)
    (r : TcpReassembler) (flow : Flow) : Type 0 where
  pub present : find key_less key r.flows ≡ some old
  pub bytes : r.buffered_bytes + old.bytes ≡ total bytes_of r.flows + flow.bytes
  pub segments :
      r.buffered_segments + length old.segments ≡ total segments_of r.flows + length flow.segments
  pub bytes_fit : r.buffered_bytes ≤ limits.max_total_bytes
  pub segments_fit : r.buffered_segments ≤ limits.max_total_segments
  pub flows_fit : length r.flows ≤ limits.max_flows
  pub each : AllValues (IsFlow limits) r.flows
  pub current : IsFlow limits flow

abbrev pub IsOpenPair : TcpReassemblyLimits → TcpFlowKey → Flow → TcpReassembler × Flow → Type 0
IsOpenPair limits key old (r, flow) = IsOpen limits key old r flow

sum_bytes-append : (xs ys : List Segment) → sum_bytes (xs ++ ys) ≡ sum_bytes xs + sum_bytes ys
sum_bytes-append [] ys = omega arith
sum_bytes-append (x ∷ xs) ys = omega (arith, sum_bytes-append xs ys)

module _ (limits : TcpReassemblyLimits) (sized : IsSized limits) (key : TcpFlowKey)
    (old : Flow) where
  pub store-IsAccounted :
      (s : TcpReassembler × Flow) → IsOpenPair limits key old s → IsAccounted limits (store key s)
  store-IsAccounted (r, flow) h = record {
    bytes = omega (arith, h.bytes, total-put key_less key bytes_of old flow r.flows h.present);
    segments =
        omega (arith, h.segments, total-put key_less key segments_of old flow r.flows h.present);
    bytes_fit = h.bytes_fit;
    segments_fit = h.segments_fit;
    flows_fit = omega (arith, h.flows_fit, length-put key_less key old flow r.flows h.present);
    each = put-AllValues key_less key (IsFlow limits) flow r.flows h.each h.current;
  }

  pub fail-IsOpen :
      (r : TcpReassembler) (flow : Flow) (why : Reason) (status : TcpStreamStatus)
      → IsOpen limits key old r flow
      → IsOpenPair limits key old (fail r flow why status)
  unfolding fail
  fail-IsOpen r flow why status h =
      let b = total-find key_less key bytes_of old r.flows h.present in
      let s = total-find key_less key segments_of old r.flows h.present in
      record {
        present = h.present;
        bytes = omega (arith, h.bytes, h.bytes_fit, b, sized.bytes_fit);
        segments = omega (arith, h.segments, h.segments_fit, s, sized.segments_fit);
        bytes_fit = omega (arith, h.bytes, h.bytes_fit, b, sized.bytes_fit);
        segments_fit = omega (arith, h.segments, h.segments_fit, s, sized.segments_fit);
        flows_fit = h.flows_fit;
        each = h.each;
        current = record {
          counted = refl;
          bytes_fit = omega arith;
          segments_fit = omega arith;
          captured = tt;
          failed = λ _. refl;
        };
      }

  keep-IsOpen :
      (r : TcpReassembler) (flow : Flow) (position : ℕ) (segment : Segment)
      → IsOpen limits key old r flow
      → is_empty flow.failure ≡ true
      → IsCaptured segment
      → has_room limits r flow (length segment.bytes) ≡ true
      → IsOpenPair limits key old (keep r flow position segment)
  unfolding keep has_room
  keep-IsOpen r flow position segment h f c e =
      let fits : (length flow.segments < limits.max_segments)
          × (r.buffered_segments < limits.max_total_segments)
          × (flow.bytes + length segment.bytes ≤ limits.max_stream_bytes)
          × (r.buffered_bytes + length segment.bytes ≤ limits.max_total_bytes) =
        ground (
          arith, e, h.bytes_fit, h.segments_fit, h.current.bytes_fit, sized.bytes_fit,
          sized.stream_fits,
        ) in
      let n = length-append flow.segments (segment ∷ []) in
      record {
        present = h.present;
        bytes = omega (arith, h.bytes, fits.3, fits.2, sized.bytes_fit, sized.stream_fits);
        segments = omega (arith, h.segments, fits.1, n, sized.segments_fit);
        bytes_fit = omega (arith, fits.3, sized.bytes_fit);
        segments_fit = omega (arith, fits.1, sized.segments_fit);
        flows_fit = h.flows_fit;
        each = h.each;
        current = record {
          counted = omega (
            arith,
            h.current.counted,
            sum_bytes-append flow.segments (segment ∷ []),
            fits.2,
            sized.stream_fits,
          );
          bytes_fit = omega (arith, fits.2, sized.stream_fits);
          segments_fit = omega (arith, fits.0, n);
          captured = All-append IsCaptured flow.segments (segment ∷ []) h.current.captured (c, tt);
          failed = λ g. absurd (ground (arith, f, g));
        };
      }

  pub buffer-IsOpen :
      (r : TcpReassembler) (flow : Flow) (segment : Segment)
      → IsOpen limits key old r flow
      → is_empty flow.failure ≡ true
      → IsCaptured segment
      → IsOpenPair limits key old (buffer limits r flow segment)
  unfolding buffer
  buffer-IsOpen r flow segment h f c =
      let captured = length segment.bytes in
      let position = segment.sequence * 2 ^ 32 + segment.declared in
      elim (Bool-cases
        (ltb limits.max_stream_bytes captured || ltb limits.max_total_bytes captured)) [
          | inl a ↦ rw a (fail-IsOpen r flow segment_exceeds_limits limit h)
          | inr a ↦
              elim (Bool-cases (
                is_repeated position segment.bytes flow.segments
                  (lower_bound (position, 0) flow.segment_order))) [
                    | inl b ↦ rw (a, b) h
                    | inr b ↦ elim (Bool-cases (has_room limits r flow captured)) [
                      | inl d ↦ rw (a, b, d) (keep-IsOpen r flow position segment h f c d)
                      | inr d ↦ rw (a, b, d) (fail-IsOpen r flow limit_reached limit h)
                    ]
                  ]
        ]
