-- ===== src/Tcp/Emit/Origins.antt =====
-- The origins of a chunk: they tile it in order, each with the stamp of the segment that owns its
-- bytes, as the assertions of `Provenance` want it.
use packet_quapture.Base.{
  ℕ, zero, suc, ◌+◌, ◌-◌, ◌≤◌, ◌<◌, ◌≡◌, refl, Bool, true, false, ◌==◌, ◌&&◌, ltb, leb, arith,
  if◌then◌else◌, ◌^◌, List, [], ◌∷◌, Option, none, some, Bool-cases, inl, inr,
}
use packet_quapture.Tcp.Types.{PacketStamp, Segment, TcpByteOrigin}
use packet_quapture.Tcp.Overlay.{Cells, is_owned}
use packet_quapture.Tcp.Emit.{run_end, owner_stamp, origin_loop}
use packet_quapture.Tcp.Emit.Scan.{scan_passes, scan_starts}

-- Runs of at least one byte, one behind the other, from `start` to `end`.
abbrev pub Tiles : ℕ → List TcpByteOrigin → ℕ → Type 0
Tiles start [] end = start ≡ end
Tiles start (o ∷ origins) end =
    (o.offset ≡ start) × (0 < o.length) × Tiles (start + o.length) origins end

-- The stamp of the first origin that holds the byte at `i` of the chunk.
abbrev pub stamp_at : List TcpByteOrigin → ℕ → Option PacketStamp
stamp_at [] i = none
stamp_at (o ∷ origins) i =
    if leb o.offset i && ltb i (o.offset + o.length) then some o.stamp else stamp_at origins i

module _ (segments : List Segment) (extent : ℕ) (c : Cells) (begin : ℕ) where
  abbrev pub origins_of : ℕ → ℕ → List TcpByteOrigin
  origins_of fuel offset = (origin_loop segments extent c begin fuel offset).0

  abbrev pub end_of : ℕ → ℕ → ℕ
  end_of fuel offset = (origin_loop segments extent c begin fuel offset).1

  pub record IsRun (fuel offset : ℕ) : Type 0 where
    pub starts : offset ≤ end_of fuel offset
    pub ends : end_of fuel offset ≤ extent
    pub owned : (p : ℕ) → offset ≤ p → p < end_of fuel offset → is_owned c p ≡ true
    pub stops : end_of fuel offset < extent → is_owned c (end_of fuel offset) ≡ false
    pub tiles : Tiles (offset - begin) (origins_of fuel offset) (end_of fuel offset - begin)
    pub stamps :
        (p : ℕ)
        → offset ≤ p
        → p < end_of fuel offset
        → stamp_at (origins_of fuel offset) (p - begin) ≡ some (owner_stamp segments (c.owners p))

  pub origin_loop-IsRun :
      (fuel offset : ℕ)
      → extent < 2 ^ 32
      → begin ≤ offset
      → offset ≤ extent
      → extent ≤ offset + fuel
      → IsRun fuel offset
  unfolding origin_loop
  origin_loop-IsRun zero offset small b l f = record {
    starts = omega arith;
    ends = omega arith;
    owned = λ p h k. absurd (omega arith);
    stops = λ h. absurd (omega arith);
    tiles = refl;
    stamps = λ p h k. absurd (omega arith);
  }
  origin_loop-IsRun (suc fuel) offset small b l f =
      elim (Bool-cases (ltb offset extent && is_owned c offset)) [
        | inr e ↦ record {
          starts = ground arith;
          ends = ground arith;
          owned = λ p h k. absurd (ground arith);
          stops = λ h. ground arith;
          tiles = ground arith;
          stamps = λ p h k. absurd (ground arith);
        }
        | inl e ↦
            let next = run_end extent c offset in
            let test : ℕ → Bool = λ p. c.owners p == c.owners offset in
            let (low, high, same) = scan_passes test (extent - offset) offset in
            let moves : offset < next =
              scan_starts test (extent - offset) offset (ground arith) (ground arith) in
            let r = origin_loop-IsRun fuel next small (omega arith) (omega arith) (omega arith) in
            record {
              starts = ground (arith, r.starts);
              ends = ground (arith, r.ends);
              owned = λ p h k. ground (arith, r.owned p, same p);
              stops = ground (arith, r.stops);
              tiles = ground (arith, r.tiles);
              stamps = λ p h k. ground (arith, r.stamps p, same p);
            }
      ]
