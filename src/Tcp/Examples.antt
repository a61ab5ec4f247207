-- ===== src/Tcp/Examples.antt =====
-- Runs of the TCP reassembler of src/tcp_reassembly.cpp: a direction whose sequence numbers wrap, with
-- its second segment first and a byte sent twice.
use packet_quapture.Base.{
  ℕ, zero, suc, ◌+◌, ◌-◌, ◌^◌, ◌≤◌, ◌<◌, ◌≡◌, ◌≢◌, refl, not, Bool, true, false, List, [], ◌∷◌, ◌↔◌,
  length, get_elem?, Option, some, none, u32, arith, replicate, All, inl, inr, if◌then◌else◌,
}
use packet_quapture.Base.Int.{pos, negsuc, u32_of_ℤ}
use packet_quapture.Tcp.Types.{
  TcpFlowKey, PacketStamp, no_stamp, TcpStreamChunk, TcpGap, TcpStream, contiguous,
  TcpReassemblyLimits, Segment, Flow, no_flow,
}
use packet_quapture.Tcp.Sequence.{
  relative_sequence, stream_base, stream_base_earliest, IsNear, relative_sequence_iff,
}
use packet_quapture.Tcp.Overlay.{Cells, blank, overlay, is_owned, unowned}
use packet_quapture.Tcp.Overlay.Laws.{
  byte_at, cell, first_cover, Covers, Disagree, overlay_fails_iff, overlay-first_cover,
}
use packet_quapture.Tcp.Emit.{emit}
use packet_quapture.Tcp.Emit.View.{chunk_byte, in_gap, owned_byte, owned_count, IsChunk, emit_view}
use packet_quapture.Tcp.Finish.{measure, placed, finish}
use packet_quapture.Tcp.Finish.Inside.{Inside, measure-Inside}
use packet_quapture.Tcp.Finish.Delivery.{Carries, finish_delivers}
use packet_quapture.Tcp.Finish.Delivery.Parts.{IsPiece}
use packet_quapture.Tcp.Provenance.{provenance, provenance_found}
use packet_quapture.Tcp.Reassembler.{
  TcpReassembler, no_reassembler, Run, ended_run, unfinished, expire_loop, expire_pass,
  expire_first, expire_entry, remove, remove_found, unschedule, without_entry,
}
use packet_quapture.Tcp.Reassembler.Packets.{add, finish_next}
use packet_quapture.Tcp.Reassembler.Clock.{expire_loop_ends}
use packet_quapture.Tcp.Reassembler.Accounts.{IsSized, IsAccounted}
use packet_quapture.Tcp.Reassembler.Accounts.Runs.{add-IsAccounted, finish_next-IsAccounted}

abbrev some_key : TcpFlowKey
some_key = record {
  section = 0;
  interface_id = 0;
  ip_version = 4;
  src_ip = 10 ∷ 0 ∷ 0 ∷ 1 ∷ [];
  dst_ip = 10 ∷ 0 ∷ 0 ∷ 2 ∷ [];
  src_port = 1000;
  dst_port = 53;
  vlans = [];
}

abbrev some_limits : TcpReassemblyLimits
some_limits = record {
  max_flows = 2;
  max_total_bytes = 100;
  max_stream_bytes = 50;
  max_segments = 4;
  max_total_segments = 8;
  tcp_idle_us = 1000;
}

abbrev late_segment : Segment
late_segment = record { sequence = 0; declared = 2; stamp = no_stamp; bytes = 8 ∷ 9 ∷ [] }

abbrev early_segment : Segment
early_segment = record { sequence = 4294967295; declared = 2; stamp = no_stamp; bytes = 7 ∷ 8 ∷ [] }

abbrev other_segment : Segment
other_segment = record { sequence = 0; declared = 1; stamp = no_stamp; bytes = 5 ∷ [] }

abbrev some_segments : List Segment
some_segments = late_segment ∷ early_segment ∷ []

abbrev some_offsets : List ℕ
some_offsets = 1 ∷ 0 ∷ []

abbrev some_flow : Flow
some_flow = record no_flow { has_syn = true; syn_sequence = 4294967294; segments = some_segments }

abbrev some_message : List ℕ
some_message = 7 ∷ 8 ∷ 9 ∷ []

late-IsPiece : IsPiece some_message 1 late_segment
late-IsPiece = record { ends = omega arith; captured = omega arith; same = same }
  where
    same : (p x : ℕ) → byte_at 1 (8 ∷ 9 ∷ []) p ≡ some x → get_elem? some_message p ≡ some x
    same zero x e = absurd (ground (arith, e))
    same (suc zero) x e = e
    same (suc (suc zero)) x e = e
    same (suc (suc (suc p))) x e = absurd (ground (arith, e))

early-IsPiece : IsPiece some_message 0 early_segment
early-IsPiece = record { ends = omega arith; captured = omega arith; same = same }
  where
    same : (p x : ℕ) → byte_at 0 (7 ∷ 8 ∷ []) p ≡ some x → get_elem? some_message p ≡ some x
    same zero x e = e
    same (suc zero) x e = e
    same (suc (suc p)) x e = absurd (ground (arith, e))

message_covered : (p : ℕ) → p < 3 → (x : ℕ) × Covers some_segments some_offsets p x
message_covered zero h = (7, inr (inl refl))
message_covered (suc zero) h = (8, inl refl)
message_covered (suc (suc zero)) h = (9, inl refl)
message_covered (suc (suc (suc p))) h = absurd (omega arith)

flow-Carries : Carries some_limits some_flow some_message some_offsets
flow-Carries = record {
  healthy = refl;
  syn = refl;
  starts = (refl, omega arith, (refl, omega arith, tt));
  pieces = (late-IsPiece, (early-IsPiece, tt));
  whole = message_covered;
  fin = λ e. absurd (ground (arith, e));
  nonempty = omega arith;
  fits = omega arith;
  short = omega arith;
  few = omega arith;
}

finish_delivers_example :
    (s : TcpStream) × (finish some_limits some_key some_flow ≡ some (s ∷ []))
    × (s.status ≡ contiguous)
    × (s.sequence ≡ 4294967295)
    × (s.expected_bytes ≡ 3)
    × (s.captured_bytes ≡ 3)
    × (s.gaps ≡ [])
    × ((p : ℕ) → chunk_byte s.chunks p ≡ get_elem? some_message p)
finish_delivers_example =
    finish_delivers some_limits some_flow some_message some_offsets flow-Carries some_key

flow_measured : measure some_limits some_flow 4294967295 ≡ placed some_offsets 3
unfolding measure packet_quapture.Tcp.Finish.place relative_sequence
flow_measured = refl

measure-Inside_example : Inside 3 some_segments some_offsets × (3 ≤ 50)
measure-Inside_example =
    measure-Inside some_limits some_flow 4294967295 some_offsets 3 flow_measured

overlay_fails_iff_example :
    (overlay 0 (late_segment ∷ other_segment ∷ []) (1 ∷ 1 ∷ []) blank ≡ none
      → Disagree (late_segment ∷ other_segment ∷ []) (1 ∷ 1 ∷ []))
    × (Disagree (late_segment ∷ other_segment ∷ []) (1 ∷ 1 ∷ [])
        → overlay 0 (late_segment ∷ other_segment ∷ []) (1 ∷ 1 ∷ []) blank ≡ none)
overlay_fails_iff_example =
    overlay_fails_iff (late_segment ∷ other_segment ∷ []) (1 ∷ 1 ∷ []) (omega arith)

overlay_fails : overlay 0 (late_segment ∷ other_segment ∷ []) (1 ∷ 1 ∷ []) blank ≡ none
unfolding overlay packet_quapture.Tcp.Overlay.overlay_bytes
overlay_fails = refl

abbrev cells_of : Option Cells → Cells
cells_of none = blank
cells_of (some c) = c

overlay_succeeds :
    overlay 0 some_segments some_offsets blank
    ≡ some (cells_of (overlay 0 some_segments some_offsets blank))
unfolding overlay packet_quapture.Tcp.Overlay.overlay_bytes
overlay_succeeds = refl

overlay-first_cover_example :
    cell (cells_of (overlay 0 some_segments some_offsets blank)) 1
    ≡ first_cover 0 some_segments some_offsets 1
overlay-first_cover_example =
    overlay-first_cover some_segments some_offsets
      (cells_of (overlay 0 some_segments some_offsets blank)) 1 (omega arith) overlay_succeeds

emit_view_example :
    let e = emit some_segments 4294967295 5 blank in
    ((p : ℕ)
      → p < 5
      → (chunk_byte e.chunks p ≡ owned_byte blank p) × (in_gap e.gaps p ≡ not (is_owned blank p)))
    × ((p : ℕ) → 5 ≤ p → (chunk_byte e.chunks p ≡ none) × (in_gap e.gaps p ≡ false))
    × (e.captured_bytes ≡ owned_count blank 5 0)
    × All (IsChunk some_segments 4294967295 blank) e.chunks
    × All (λ (g : TcpGap). 0 < g.length) e.gaps
emit_view_example = emit_view some_segments 4294967295 5 blank (omega arith)

abbrev unanchored_flow : Flow
unanchored_flow = record no_flow { segments = some_segments }

stream_base_earliest_example : stream_base unanchored_flow ≡ 4294967295
stream_base_earliest_example =
    stream_base_earliest unanchored_flow 4294967295 some_offsets refl (omega arith)
      (refl, omega arith, (refl, omega arith, tt)) (inr (inl refl))

-- Five behind the base, across the wrap, and five before it.
forward_distance : relative_sequence 4 4294967295 ≡ pos 5
unfolding relative_sequence
forward_distance = refl

backward_distance : relative_sequence 4294967295 4 ≡ negsuc 4
unfolding relative_sequence
backward_distance = refl

relative_sequence_iff_example :
    (relative_sequence 4294967295 4 ≡ negsuc 4)
    ↔ (IsNear (negsuc 4) × (u32 (4 + u32_of_ℤ (negsuc 4)) ≡ 4294967295))
relative_sequence_iff_example =
    relative_sequence_iff 4294967295 4 (negsuc 4) (omega arith) (omega arith)

abbrev some_chunk : TcpStreamChunk
some_chunk = record {
  offset = 0;
  sequence = 4294967295;
  bytes = some_message;
  origins =
      record { offset = 0; length = 1; stamp = no_stamp }
      ∷ record { offset = 1; length = 2; stamp = no_stamp }
      ∷ [];
}

provenance_found_example :
    (stamps : PacketStamp × PacketStamp) × (provenance some_chunk 1 2 ≡ some stamps)
provenance_found_example =
    provenance_found some_chunk 1 2 (refl, omega arith, (refl, omega arith, refl)) (omega arith)
      (omega arith)

limits-IsSized : IsSized some_limits
limits-IsSized = record {
  stream_fits = omega arith;
  bytes_fit = omega arith;
  segments_fit = omega arith;
}

empty-IsAccounted : IsAccounted some_limits no_reassembler
empty-IsAccounted = record {
  bytes = refl;
  segments = refl;
  bytes_fit = omega arith;
  segments_fit = omega arith;
  flows_fit = omega arith;
  each = tt;
}

abbrev state_of : Option Run → TcpReassembler
state_of none = no_reassembler
state_of (some (r, output)) = r

abbrev output_of : Option Run → List TcpStream
output_of none = []
output_of (some (r, output)) = output

-- A packet with two bytes that starts a direction in the middle.
abbrev some_run : Option Run
some_run = add some_limits some_key 4294967295 16 (7 ∷ 8 ∷ []) 2 no_stamp no_reassembler

run_succeeds :
    add some_limits some_key 4294967295 16 (7 ∷ 8 ∷ []) 2 no_stamp no_reassembler
    ≡ some (state_of some_run, output_of some_run)
unfolding add packet_quapture.Tcp.Reassembler.expire packet_quapture.Base.Maps.find
    packet_quapture.Tcp.Reassembler.Packets.locate packet_quapture.Tcp.Reassembler.Packets.begin
    packet_quapture.Tcp.Reassembler.Packets.track
    packet_quapture.Tcp.Reassembler.Packets.add_tracked packet_quapture.Tcp.Reassembler.schedule
    packet_quapture.Tcp.Reassembler.unschedule packet_quapture.Base.Maps.emplace
    packet_quapture.Tcp.Reassembler.Packets.close
run_succeeds = refl

run_buffers : (state_of some_run).buffered_bytes ≡ 2
unfolding add packet_quapture.Tcp.Reassembler.expire packet_quapture.Base.Maps.find
    packet_quapture.Tcp.Reassembler.Packets.locate packet_quapture.Tcp.Reassembler.Packets.begin
    packet_quapture.Tcp.Reassembler.Packets.track
    packet_quapture.Tcp.Reassembler.Packets.add_tracked packet_quapture.Tcp.Reassembler.schedule
    packet_quapture.Tcp.Reassembler.unschedule packet_quapture.Base.Maps.emplace
    packet_quapture.Tcp.Reassembler.Packets.close packet_quapture.Tcp.Reassembler.Packets.receive
    packet_quapture.Tcp.Reassembler.Packets.add_segment
    packet_quapture.Tcp.Reassembler.Packets.check_captured
    packet_quapture.Tcp.Reassembler.Packets.with_fin packet_quapture.Tcp.Reassembler.Packets.buffer
    packet_quapture.Tcp.Reassembler.Packets.is_repeated
    packet_quapture.Tcp.Reassembler.Packets.lower_bound
    packet_quapture.Tcp.Reassembler.Packets.has_room packet_quapture.Tcp.Reassembler.Packets.keep
run_buffers = refl

add-IsAccounted_example : IsAccounted some_limits (state_of some_run)
add-IsAccounted_example =
    add-IsAccounted some_limits limits-IsSized some_key 4294967295 16 (7 ∷ 8 ∷ []) 2 no_stamp
      no_reassembler (state_of some_run) (output_of some_run) empty-IsAccounted run_succeeds

run-IsAccounted : IsAccounted some_limits (state_of some_run)
run-IsAccounted =
    add-IsAccounted some_limits limits-IsSized some_key 4294967295 16 (7 ∷ 8 ∷ []) 2 no_stamp
      no_reassembler (state_of some_run) (output_of some_run) empty-IsAccounted run_succeeds

next_succeeds :
    finish_next some_limits (state_of some_run)
    ≡ some (
      state_of (finish_next some_limits (state_of some_run)),
      output_of (finish_next some_limits (state_of some_run)),
    )
unfolding add finish_next packet_quapture.Tcp.Reassembler.expire packet_quapture.Base.Maps.find
    packet_quapture.Tcp.Reassembler.Packets.locate packet_quapture.Tcp.Reassembler.Packets.begin
    packet_quapture.Tcp.Reassembler.Packets.track
    packet_quapture.Tcp.Reassembler.Packets.add_tracked packet_quapture.Tcp.Reassembler.schedule
    packet_quapture.Tcp.Reassembler.unschedule packet_quapture.Base.Maps.emplace
    packet_quapture.Tcp.Reassembler.Packets.close packet_quapture.Base.Maps.put
    packet_quapture.Tcp.Reassembler.Packets.receive
    packet_quapture.Tcp.Reassembler.Packets.add_segment
    packet_quapture.Tcp.Reassembler.Packets.check_captured
    packet_quapture.Tcp.Reassembler.Packets.with_fin packet_quapture.Tcp.Reassembler.Packets.buffer
    packet_quapture.Tcp.Reassembler.Packets.is_repeated
    packet_quapture.Tcp.Reassembler.Packets.lower_bound
    packet_quapture.Tcp.Reassembler.Packets.has_room packet_quapture.Tcp.Reassembler.Packets.keep
    packet_quapture.Tcp.Key.key_less packet_quapture.Tcp.Key.list_less
    packet_quapture.Tcp.Reassembler.remove packet_quapture.Tcp.Reassembler.remove_found finish
    packet_quapture.Tcp.Finish.finish_measured measure packet_quapture.Tcp.Finish.place
    relative_sequence stream_base packet_quapture.Tcp.Sequence.first_offset
next_succeeds = refl

finish_next-IsAccounted_example :
    IsAccounted some_limits (state_of (finish_next some_limits (state_of some_run)))
    × (length (state_of (finish_next some_limits (state_of some_run))).flows
        ≡ length (state_of some_run).flows - 1)
finish_next-IsAccounted_example =
    finish_next-IsAccounted some_limits limits-IsSized (state_of some_run)
      (state_of (finish_next some_limits (state_of some_run)))
      (output_of (finish_next some_limits (state_of some_run))) run-IsAccounted next_succeeds

-- A direction that is queued at time 3 and due at time 4.
abbrev waiting : TcpReassembler
waiting = record no_reassembler {
  flows = (some_key, record no_flow { scheduled = true; deadline = 4; queued = 3 }) ∷ [];
  scopes = ((0, 0), record { watermark = 5; expiry = ((3, some_key), tt) ∷ [] }) ∷ [];
}

-- It is queued again at time 4, and then removed.
waiting_ends :
    length (state_of (ended_run (expire_loop 3 some_limits (0, 0) 5 (waiting, [])))).flows ≡ 0
unfolding expire_loop expire_pass expire_first expire_entry remove remove_found unschedule
    without_entry packet_quapture.Base.Maps.find packet_quapture.Base.Maps.put
    packet_quapture.Base.Maps.erase packet_quapture.Tcp.Key.key_less
    packet_quapture.Tcp.Key.list_less finish
waiting_ends = refl

expire_loop_ends_example : ¬ (expire_loop 3 some_limits (0, 0) 5 (waiting, []) ≡ unfinished)
expire_loop_ends_example = expire_loop_ends some_limits (0, 0) 5 3 waiting [] (omega arith)
