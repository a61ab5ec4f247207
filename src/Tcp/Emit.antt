-- ===== src/Tcp/Emit.antt =====
-- `Emit` of src/tcp_reassembly.cpp: the overlaid bytes as chunks and gaps.
pub mod Scan
pub mod Origins
pub mod View
use packet_quapture.Base.{
  ℕ, zero, suc, ◌+◌, ◌-◌, Bool, not, ◌&&◌, List, [], ◌∷◌, ◌==◌, ltb, if◌then◌else◌, slice, u32,
  Option, none, some, get_elem?, length,
}
use packet_quapture.Tcp.Types.{
  PacketStamp, no_stamp, Segment, TcpByteOrigin, TcpStreamChunk, TcpGap,
}
use packet_quapture.Tcp.Overlay.{Cells, unowned, is_owned}

-- `while (offset < extent && test(offset)) ++offset;` with `extent - offset` rounds left.
unfoldable pub scan : (ℕ → Bool) → ℕ → ℕ → ℕ
scan test zero offset = offset
scan test (suc rounds) offset =
    let next = scan test rounds (offset + 1) in if test offset then next else offset

-- `flow.segments[owner].stamp`; `Finish` calls `Emit` with owners that are indices.
abbrev pub stamp_of : Option Segment → PacketStamp
stamp_of none = no_stamp
stamp_of (some s) = s.stamp

abbrev pub owner_stamp : List Segment → ℕ → PacketStamp
owner_stamp segments owner = stamp_of (get_elem? segments owner)

-- The end of the run of bytes with one owner.
abbrev pub run_end : ℕ → Cells → ℕ → ℕ
run_end extent c offset = scan (λ p. c.owners p == c.owners offset) (extent - offset) offset

abbrev pub gap_end : ℕ → Cells → ℕ → ℕ
gap_end extent c offset = scan (λ p. c.owners p == unowned) (extent - offset) offset

-- The loop over the owners of a chunk that began at `begin`: its origins and its end. Each round
-- passes a byte, so `extent - offset` rounds are enough.
unfoldable pub origin_loop : List Segment → ℕ → Cells → ℕ → ℕ → ℕ → List TcpByteOrigin × ℕ
origin_loop segments extent c begin zero offset = ([], offset)
origin_loop segments extent c begin (suc fuel) offset =
    let next = run_end extent c offset in
    let (rest, end) = origin_loop segments extent c begin fuel next in
    let origin : TcpByteOrigin = record {
      offset = u32 (offset - begin);
      length = u32 (next - offset);
      stamp = owner_stamp segments (c.owners offset);
    } in
    if ltb offset extent && is_owned c offset then (origin ∷ rest, end) else ([], offset)

-- What `Emit` adds to the stream.
pub record Emitted : Type 0 where
  pub chunks : List TcpStreamChunk
  pub gaps : List TcpGap
  pub captured_bytes : ℕ

abbrev pub no_output : Emitted
no_output = record { chunks = []; gaps = []; captured_bytes = 0 }

abbrev pub add_gap : ℕ → ℕ → Emitted → Emitted
add_gap begin end e = record e {
  gaps = record { offset = u32 begin; length = u32 (end - begin) } ∷ e.gaps;
}

abbrev pub add_chunk : ℕ → Cells → ℕ → List TcpByteOrigin × ℕ → Emitted → Emitted
add_chunk sequence c begin (origins, end) e = record e {
  chunks =
      record {
        offset = u32 begin;
        sequence = u32 (sequence + u32 begin);
        bytes = slice c.bytes begin (end - begin);
        origins = origins;
      }
      ∷ e.chunks;
  captured_bytes = u32 (u32 (end - begin) + e.captured_bytes);
}

-- The loop from `offset` on, for a stream whose first sequence number is `sequence`.
unfoldable pub emit_loop : List Segment → ℕ → ℕ → Cells → ℕ → ℕ → Emitted
emit_loop segments sequence extent c zero offset = no_output
emit_loop segments sequence extent c (suc fuel) offset =
    let hole = gap_end extent c offset in
    let (origins, end) = origin_loop segments extent c offset (extent - offset) offset in
    let behind_hole = emit_loop segments sequence extent c fuel hole in
    let behind = emit_loop segments sequence extent c fuel end in
    if ltb offset extent
    then if c.owners offset == unowned
      then add_gap offset hole behind_hole
      else add_chunk sequence c offset (origins, end) behind
    else no_output

unfoldable pub emit : List Segment → ℕ → ℕ → Cells → Emitted
emit segments sequence extent c = emit_loop segments sequence extent c extent 0
