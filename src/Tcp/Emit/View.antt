-- ===== src/Tcp/Emit/View.antt =====
-- The chunks and gaps of a stream, read back byte by byte, are the overlaid cells.
use packet_quapture.Base.{
  ℕ, zero, suc, ◌+◌, ◌-◌, ◌≤◌, ◌<◌, ◌≡◌, refl, Bool, true, false, ◌==◌, ◌&&◌, ◌||◌, ltb, leb, arith,
  if◌then◌else◌, u32, ◌^◌, List, [], ◌∷◌, Option, none, some, Bool-cases, inl, inr, not, slice,
  get_elem?, length, length-slice, All,
}
use packet_quapture.Tcp.Types.{Segment, TcpStreamChunk, TcpGap}
use packet_quapture.Tcp.Overlay.{Cells, unowned, is_owned}
use packet_quapture.Tcp.Overlay.Laws.{byte_at, or_else}
use packet_quapture.Tcp.Emit.{
  Emitted, gap_end, owner_stamp, origin_loop, no_output, add_gap, add_chunk, emit_loop, emit,
}
use packet_quapture.Tcp.Emit.Scan.{scan_passes, scan_starts}
use packet_quapture.Tcp.Emit.Origins.{Tiles, stamp_at, origins_of, end_of, IsRun, origin_loop-IsRun}

get_elem?-slice :
    (f : ℕ → ℕ) (o n i : ℕ)
    → get_elem? (slice f o n) i ≡ (if ltb i n then some (f (o + i)) else none)
unfolding slice
get_elem?-slice f o zero i = ground arith
get_elem?-slice f o (suc n) zero = ground arith
get_elem?-slice f o (suc n) (suc i) = ground (arith, get_elem?-slice f (o + 1) n i)

-- The byte that the chunks have for the stream offset `p`.
abbrev pub chunk_byte : List TcpStreamChunk → ℕ → Option ℕ
chunk_byte [] p = none
chunk_byte (k ∷ chunks) p = or_else (byte_at k.offset k.bytes p) (chunk_byte chunks p)

-- Whether a gap holds `p`.
abbrev pub in_gap : List TcpGap → ℕ → Bool
in_gap [] p = false
in_gap (g ∷ gaps) p = leb g.offset p && ltb p (g.offset + g.length) || in_gap gaps p

-- What a cell is to a reader of the stream.
abbrev pub owned_byte : Cells → ℕ → Option ℕ
owned_byte c p = if is_owned c p then some (c.bytes p) else none

-- The owned bytes among `rounds` cells.
abbrev pub owned_count : Cells → ℕ → ℕ → ℕ
owned_count c zero offset = 0
owned_count c (suc rounds) offset =
    (if is_owned c offset then 1 else 0) + owned_count c rounds (offset + 1)

-- A chunk that `Emit` made.
pub record IsChunk (segments : List Segment) (sequence : ℕ) (c : Cells) (k : TcpStreamChunk)
    : Type 0 where
  pub nonempty : 0 < length k.bytes
  pub numbered : k.sequence ≡ u32 (sequence + k.offset)
  pub tiled : Tiles 0 k.origins (length k.bytes)
  pub stamped :
      (i : ℕ)
      → i < length k.bytes
      → stamp_at k.origins i ≡ some (owner_stamp segments (c.owners (k.offset + i)))

owned_count-le : (c : Cells) (rounds offset : ℕ) → owned_count c rounds offset ≤ rounds
owned_count-le c zero offset = omega arith
owned_count-le c (suc rounds) offset = ground (arith, owned_count-le c rounds (offset + 1))

-- A run of cells that are all owned, or all unowned.
pub owned_count_run :
    (c : Cells) (b : Bool) (extent m offset end : ℕ)
    → end ≡ offset + m
    → end ≤ extent
    → ((p : ℕ) → offset ≤ p → p < end → is_owned c p ≡ b)
    → owned_count c (extent - offset) offset
      ≡ (if b then m else 0) + owned_count c (extent - end) end
owned_count_run c b extent zero offset end e l h =
    let e' : end ≡ offset = omega arith in rw e' (ground arith)
owned_count_run c b extent (suc m) offset end e l h =
    let s : extent - offset ≡ suc (extent - (offset + 1)) = omega arith in
    let ih =
      owned_count_run c b extent m (offset + 1) end (omega arith) l (λ p k. h p (omega arith)) in
    rw s (ground (arith, ih, h offset))

record IsView (segments : List Segment) (sequence extent : ℕ) (c : Cells) (offset : ℕ) (e : Emitted)
    : Type 0 where
  bytes : (p : ℕ) → offset ≤ p → p < extent → chunk_byte e.chunks p ≡ owned_byte c p
  holes : (p : ℕ) → offset ≤ p → p < extent → in_gap e.gaps p ≡ not (is_owned c p)
  no_bytes : (p : ℕ) → p < offset → chunk_byte e.chunks p ≡ none
  no_holes : (p : ℕ) → p < offset → in_gap e.gaps p ≡ false
  past_bytes : (p : ℕ) → extent ≤ p → chunk_byte e.chunks p ≡ none
  past_holes : (p : ℕ) → extent ≤ p → in_gap e.gaps p ≡ false
  count : e.captured_bytes ≡ owned_count c (extent - offset) offset
  chunked : All (IsChunk segments sequence c) e.chunks
  gapped : All (λ (g : TcpGap). 0 < g.length) e.gaps

module _ (segments : List Segment) (sequence extent : ℕ) (c : Cells) where
  no_output-IsView :
      (offset : ℕ) → extent ≤ offset → IsView segments sequence extent c offset no_output
  no_output-IsView offset l = record {
    bytes = λ p h k. absurd (omega arith);
    holes = λ p h k. absurd (omega arith);
    no_bytes = λ p h. refl;
    no_holes = λ p h. refl;
    past_bytes = λ p h. refl;
    past_holes = λ p h. refl;
    count = let e : extent - offset ≡ 0 = omega arith in rw e refl;
    chunked = tt;
    gapped = tt;
  }

  add_gap-IsView :
      (offset end : ℕ) (e : Emitted)
      → extent < 2 ^ 32
      → offset < end
      → end ≤ extent
      → ((p : ℕ) → offset ≤ p → p < end → is_owned c p ≡ false)
      → IsView segments sequence extent c end e
      → IsView segments sequence extent c offset (add_gap offset end e)
  add_gap-IsView offset end e small l u h v = record {
    bytes = λ p a b. ground (arith, h p, v.bytes p, v.no_bytes p);
    holes = λ p a b. ground (arith, h p, v.holes p, v.no_holes p);
    no_bytes = λ p a. v.no_bytes p (omega arith);
    no_holes = λ p a. ground (arith, v.no_holes p);
    past_bytes = v.past_bytes;
    past_holes = λ p a. ground (arith, v.past_holes p);
    count = ground (
      arith,
      v.count,
      owned_count_run c false extent (end - offset) offset end (omega arith) u h,
    );
    chunked = v.chunked;
    gapped = (omega arith, v.gapped);
  }

  add_chunk-IsView :
      (fuel offset : ℕ) (e : Emitted)
      → extent < 2 ^ 32
      → offset < end_of segments extent c offset fuel offset
      → IsRun segments extent c offset fuel offset
      → IsView segments sequence extent c (end_of segments extent c offset fuel offset) e
      → IsView segments sequence extent c offset
          (add_chunk sequence c offset (origin_loop segments extent c offset fuel offset) e)
  add_chunk-IsView fuel offset e small l r v =
      let end = end_of segments extent c offset fuel offset in
      let n = end - offset in
      record {
        bytes = λ p a b. ground (
          arith,
          r.owned p,
          r.ends,
          v.bytes p,
          v.no_bytes p,
          get_elem?-slice c.bytes offset n (p - offset),
        );
        holes = λ p a b. ground (arith, r.owned p, v.holes p, v.no_holes p);
        no_bytes = λ p a. ground (arith, v.no_bytes p, r.ends);
        no_holes = λ p a. ground (arith, v.no_holes p);
        past_bytes = λ p a.
            ground (arith, v.past_bytes p, r.ends, get_elem?-slice c.bytes offset n (p - offset));
        past_holes = v.past_holes;
        count = ground (
          arith,
          v.count,
          r.ends,
          owned_count-le c (extent - end) end,
          owned_count_run c true extent n offset end (omega arith) r.ends r.owned,
        );
        chunked = (chunk, v.chunked);
        gapped = v.gapped;
      }
    where
      o : ℕ
      o = u32 offset

      same : o ≡ offset
      same = omega (arith, r.ends)

      size : ℕ
      size = end_of segments extent c offset fuel offset - offset

      zero_at : offset - offset ≡ 0
      zero_at = omega arith

      chunk : IsChunk segments sequence c (record {
        offset = o;
        sequence = u32 (sequence + o);
        bytes = slice c.bytes offset size;
        origins = origins_of segments extent c offset fuel offset;
      })
      chunk = record {
        nonempty = rw length-slice (omega arith);
        numbered = refl;
        tiled = rw (length-slice, ← zero_at) r.tiles;
        stamped = λ i h.
            let h' : i < size = rw (length-slice c.bytes offset size) at h in
            let e : offset + i - offset ≡ i = omega arith in
            rw same (rw e at (r.stamps (offset + i) (omega arith) (omega arith)));
      }

module _ (segments : List Segment) (sequence extent : ℕ) (c : Cells) where
  emit_loop-IsView :
      (fuel offset : ℕ)
      → extent < 2 ^ 32
      → offset ≤ extent
      → extent ≤ offset + fuel
      → IsView segments sequence extent c offset (emit_loop segments sequence extent c fuel offset)
  unfolding emit_loop
  emit_loop-IsView zero offset small l f =
      no_output-IsView segments sequence extent c offset (omega arith)
  emit_loop-IsView (suc fuel) offset small l f = elim (Bool-cases (ltb offset extent)) [
    | inr e ↦ rw e (no_output-IsView segments sequence extent c offset (ground arith))
    | inl e ↦ elim (Bool-cases (c.owners offset == unowned)) [
      | inl hole ↦
          let test : ℕ → Bool = λ p. c.owners p == unowned in
          let (low, high, same) = scan_passes test (extent - offset) offset in
          let end = gap_end extent c offset in
          let moves : offset < end =
            scan_starts test (extent - offset) offset (ground arith) hole in
          rw (e, hole)
            (add_gap-IsView segments sequence extent c offset end _ small moves (omega arith)
              (λ p a b. ground (arith, same p))
              (emit_loop-IsView fuel end small (omega arith) (omega arith)))
      | inr owned ↦
          let r =
            origin_loop-IsRun segments extent c offset (extent - offset) offset small (omega arith)
              l (omega arith) in
          let end = end_of segments extent c offset (extent - offset) offset in
          let moves : offset < end = ground (arith, r.stops, r.starts) in
          rw (e, owned)
            (add_chunk-IsView segments sequence extent c (extent - offset) offset _ small moves r
              (emit_loop-IsView fuel end small r.ends (omega arith)))
    ]
  ]

  -- Read back byte by byte, the chunks have exactly the owned bytes and the gaps hold exactly the
  -- other offsets below the extent; nothing lies at or past the extent; `captured_bytes` is the
  -- number of owned bytes; every chunk is nonempty, numbered by its offset, and tiled by origins
  -- with the stamps of the segments that own its bytes; and no gap is empty.
  pub emit_view :
      extent < 2 ^ 32
      → let e = emit segments sequence extent c in
        ((p : ℕ)
          → p < extent
          → (chunk_byte e.chunks p ≡ owned_byte c p) × (in_gap e.gaps p ≡ not (is_owned c p)))
        × ((p : ℕ) → extent ≤ p → (chunk_byte e.chunks p ≡ none) × (in_gap e.gaps p ≡ false))
        × (e.captured_bytes ≡ owned_count c extent 0)
        × All (IsChunk segments sequence c) e.chunks
        × All (λ (g : TcpGap). 0 < g.length) e.gaps
  unfolding emit
  emit_view small =
      let v = emit_loop-IsView extent 0 small (omega arith) (omega arith) in
      let z : extent - 0 ≡ extent = omega arith in
      (
        λ p h. (v.bytes p (omega arith) h, v.holes p (omega arith) h),
        λ p h. (v.past_bytes p h, v.past_holes p h),
        rw z at v.count,
        v.chunked,
        v.gapped,
      )
