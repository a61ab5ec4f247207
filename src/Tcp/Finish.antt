-- ===== src/Tcp/Finish.antt =====
-- `Diagnostic`, `Measure` and `Finish` of src/tcp_reassembly.cpp: the stream of one
-- direction, from the segments kept for it.
pub mod Inside
pub mod Delivery
use packet_quapture.Base.{
  ℕ, zero, suc, ◌+◌, ◌-◌, ◌^◌, max, Bool, true, false, not, ◌&&◌, ◌||◌, List, [], ◌∷◌, ◌==◌, ltb,
  leb, if◌then◌else◌, u32, Option, none, some, length, ◌>>=◌, ◌>>◌, guard,
}
use packet_quapture.Base.Int.{ℤ, pos, negsuc}
use packet_quapture.Tcp.Types.{
  TcpFlowKey, PacketStamp, no_stamp, TcpByteOrigin, TcpStreamChunk, TcpStreamStatus, unset,
  contiguous, gapped, unanchored, conflict, limit, Reason, no_reason, span_exceeds_window,
  fin_exceeds_window, data_beyond_fin, overlap_conflict, syn_not_captured, bytes_missing, not_final,
  TcpStream, TcpReassemblyLimits, Segment, Flow, is_empty,
}
use packet_quapture.Tcp.Sequence.{relative_sequence, stream_base}
use packet_quapture.Tcp.Overlay.{Cells, blank, overlay}
use packet_quapture.Tcp.Emit.{Emitted, emit}

unfoldable pub diagnostic : TcpFlowKey → Flow → TcpStreamStatus → Reason → TcpStream
diagnostic key flow status error = record {
  key = key;
  stream_id = flow.id;
  sequence = u32 (flow.syn_sequence + 1);
  expected_bytes = 0;
  captured_bytes = 0;
  syn_seen = flow.has_syn;
  fin_seen = flow.has_fin;
  first = flow.first;
  last = flow.last;
  status = status;
  error = error;
  finalized_by = not_final;
  chunks = [];
  gaps = [];
}

-- A distance that lies in the window, as a stream offset.
abbrev pub in_window : TcpReassemblyLimits → ℤ → Option ℕ
in_window limits (negsuc _) = none
in_window limits (pos offset) = if ltb limits.max_stream_bytes offset then none else some offset

-- The loop over the segments that are left: their offsets, and the extent.
unfoldable pub place : TcpReassemblyLimits → ℕ → ℕ → List Segment → Option (List ℕ × ℕ)
place limits base extent [] = some ([], extent)
place limits base extent (s ∷ rest) = do
  offset ← in_window limits (relative_sequence s.sequence base)
  (offsets, end) ←
      if ltb (limits.max_stream_bytes - offset) s.declared
      then none
      else place limits base (max extent (offset + s.declared)) rest
  some (offset ∷ offsets, end)

pub data Measured : Type 0 where
  placed : List ℕ → ℕ → Measured
  refused : TcpStreamStatus → Reason → Measured

-- The part of `Measure` behind the loop.
unfoldable pub measure_fin : TcpReassemblyLimits → Flow → ℕ → List ℕ → ℕ → Option ℕ → Measured
measure_fin limits flow base offsets extent none = refused limit fin_exceeds_window
measure_fin limits flow base offsets extent (some end) =
    if ltb end extent then refused conflict data_beyond_fin else placed offsets end

unfoldable pub measure_end : TcpReassemblyLimits → Flow → ℕ → Option (List ℕ × ℕ) → Measured
unfolding measure_fin
measure_end limits flow base none = refused limit span_exceeds_window
measure_end limits flow base (some (offsets, extent)) =
    if flow.has_fin
    then measure_fin limits flow base offsets extent
        (in_window limits (relative_sequence flow.fin_sequence base))
    else placed offsets extent

unfoldable pub measure : TcpReassemblyLimits → Flow → ℕ → Measured
unfolding measure_end
measure limits flow base = measure_end limits flow base (place limits base 0 flow.segments)

abbrev pub has_gaps : Emitted → Bool
has_gaps e = elim e.gaps [ [] ↦ false | _ ∷ _ ↦ true ]

-- The stream with what `Emit` adds to it, and its final status.
unfoldable pub complete : TcpFlowKey → Flow → ℕ → ℕ → Emitted → TcpStream
complete key flow base extent e =
    let stream : TcpStream = record (diagnostic key flow contiguous no_reason) {
      sequence = base;
      expected_bytes = u32 extent;
      chunks = e.chunks;
      gaps = e.gaps;
      captured_bytes = e.captured_bytes;
    } in
    if not flow.has_syn
    then record stream { status = unanchored; error = syn_not_captured }
    else if has_gaps e
    then record stream { status = gapped; error = bytes_missing }
    else stream

-- The part of `Finish` behind `Overlay`.
unfoldable pub assemble : TcpFlowKey → Flow → ℕ → ℕ → Option Cells → List TcpStream
assemble key flow base extent none = diagnostic key flow conflict overlap_conflict ∷ []
assemble key flow base extent (some c) =
    let stream = complete key flow base extent (emit flow.segments base extent c) in
    if ltb 0 extent then stream ∷ [] else []

unfoldable pub finish_measured :
    TcpReassemblyLimits → TcpFlowKey → Flow → ℕ → Measured → Option (List TcpStream)
finish_measured limits key flow base (refused status error) =
    some (diagnostic key flow status error ∷ [])
finish_measured limits key flow base (placed offsets extent) =
    guard (leb extent limits.max_stream_bytes)
    >> some (assemble key flow base extent (overlay 0 flow.segments offsets blank))

abbrev pub is_nil {ℓ} : {A : Type ℓ} → List A → Bool
is_nil [] = true
is_nil (_ ∷ _) = false

-- The result `none` is a failed PQ_ASSERT.
unfoldable pub finish : TcpReassemblyLimits → TcpFlowKey → Flow → Option (List TcpStream)
finish limits key flow =
    if not (is_empty flow.failure)
    then some (diagnostic key flow flow.failure_status flow.failure ∷ [])
    else if is_nil flow.segments && not flow.has_fin
    then some []
    else if not flow.has_syn && is_nil flow.segments
    then some []
    else finish_measured limits key flow (stream_base flow) (measure limits flow (stream_base flow))
