-- ===== src/Tcp/Provenance.antt =====
-- `TcpStreamChunk::Provenance` of src/tcp_reassembly.cpp: the earliest and the latest packet that
-- supplied a range of a chunk. The origins lie in the order of their offsets, so the binary search
-- finds the last one that starts at or before the range. The result `none` is a failed PQ_ASSERT.
use packet_quapture.Base.{
  ℕ, ◌+◌, ◌-◌, ◌≤◌, ◌<◌, ◌≡◌, refl, Bool, true, false, not, ◌&&◌, ◌||◌, List, [], ◌∷◌, ◌==◌, ltb,
  if◌then◌else◌, Option, none, some, length, ◌>>=◌, ◌>>◌, guard, arith, Bool-cases, ◌⊎◌, inl, inr,
}
use packet_quapture.Tcp.Types.{PacketStamp, no_stamp, TcpByteOrigin, TcpStreamChunk}
use packet_quapture.Tcp.Emit.Origins.{Tiles}

-- The origins from the last one on that starts at or before `offset`.
unfoldable pub from_origin : ℕ → List TcpByteOrigin → Option (List TcpByteOrigin)
from_origin offset [] = none
from_origin offset (o ∷ origins) =
    let later = elim (from_origin offset origins) as (λ _. Option (List TcpByteOrigin)) [
      | none ↦ some (o ∷ origins)
      | some rest ↦ some rest
    ] in
    if ltb offset o.offset then none else later

abbrev pub earlier : Bool → PacketStamp → PacketStamp → PacketStamp
earlier found s first = if not found || ltb s.number first.number then s else first

abbrev pub later : Bool → PacketStamp → PacketStamp → PacketStamp
later found s last = if not found || ltb last.number s.number then s else last

-- The loop over the origins that overlap the range, which ends at `end`. The end of an origin of a
-- stream fits 32 bits, in which the source adds.
unfoldable pub walk :
    ℕ
    → ℕ
    → Bool
    → PacketStamp × PacketStamp
    → List TcpByteOrigin
    → Option (PacketStamp × PacketStamp)
walk end expected found stamps [] = guard found >> some stamps
walk end expected found (first, last) (o ∷ origins) =
    let rest =
      walk end (o.offset + o.length) true (earlier found o.stamp first, later found o.stamp last)
        origins in
    if ltb o.offset end
    then (guard (o.offset == expected && ltb 0 o.length) >> rest)
    else (guard found >> some (first, last))

abbrev pub walk_from : ℕ → List TcpByteOrigin → Option (PacketStamp × PacketStamp)
walk_from end [] = none
walk_from end (o ∷ origins) = walk end o.offset false (no_stamp, no_stamp) (o ∷ origins)

unfoldable pub provenance : TcpStreamChunk → ℕ → ℕ → Option (PacketStamp × PacketStamp)
provenance chunk offset size =
    let available = length chunk.bytes in
    let found = (do
      origins ← from_origin offset chunk.origins
      walk_from (offset + size) origins) in
    if size == 0 || ltb available offset || ltb (available - offset) size
    then some (no_stamp, no_stamp)
    else found

from_origin-Tiles :
    (start offset end : ℕ) (origins : List TcpByteOrigin)
    → Tiles start origins end
    → start ≤ offset
    → offset < end
    → (o : TcpByteOrigin) × (rest : List TcpByteOrigin) × (from_origin offset origins
        ≡ some (o ∷ rest))
      × (o.offset ≤ offset)
      × Tiles o.offset (o ∷ rest) end
unfolding from_origin
from_origin-Tiles start offset end [] t l h = absurd (omega (arith, t))
from_origin-Tiles start offset end (o ∷ origins) (s, n, t) l h =
    elim (Bool-cases (ltb offset (start + o.length))) [
      | inl b ↦ (
        o,
        origins,
        ground (arith, b, s, n, none_before origins t (ground (arith, b))),
        omega (arith, s),
        (refl, n, rw s t),
      )
      | inr b ↦
          let (p, rest, e, q, u) =
            from_origin-Tiles (start + o.length) offset end origins t (ground (arith, b)) h in
          (p, rest, ground (arith, e, s, l), q, u)
    ]
  where
    none_before :
        (origins : List TcpByteOrigin)
        → Tiles (start + o.length) origins end
        → offset < start + o.length
        → from_origin offset origins ≡ none
    none_before [] t b = refl
    none_before (p ∷ origins) t b = ground (arith, t, b)

walk-Tiles :
    (end start size : ℕ) (found : Bool) (stamps : PacketStamp × PacketStamp)
    (origins : List TcpByteOrigin)
    → Tiles start origins size
    → (found ≡ true) ⊎ ((start < end) × (start < size))
    → (result : PacketStamp × PacketStamp) × (walk end start found stamps origins ≡ some result)
unfolding walk
walk-Tiles end start size found stamps [] t h = (stamps, ground (arith, t, h))
walk-Tiles end start size found (first, last) (o ∷ origins) (s, n, t) h =
    elim (Bool-cases (ltb o.offset end)) [
      | inl b ↦
          let (r, e) =
            walk-Tiles end (start + o.length) size true
              (earlier found o.stamp first, later found o.stamp last) origins t (inl refl) in
          (r, ground (arith, b, e, s, n))
      | inr b ↦ ((first, last), ground (arith, b, s, h))
    ]

-- No assertion of `Provenance` fails on a chunk whose origins tile it.
pub provenance_found :
    (chunk : TcpStreamChunk) (offset size : ℕ)
    → Tiles 0 chunk.origins (length chunk.bytes)
    → 0 < size
    → offset + size ≤ length chunk.bytes
    → (stamps : PacketStamp × PacketStamp) × (provenance chunk offset size ≡ some stamps)
unfolding provenance
provenance_found chunk offset size t n h =
    let (o, rest, e, l, u) =
      from_origin-Tiles 0 offset (length chunk.bytes) chunk.origins t (omega arith) (omega arith) in
    let (stamps, w) =
      walk-Tiles (offset + size) o.offset (length chunk.bytes) false (no_stamp, no_stamp) (o ∷ rest)
        u (inr (omega arith, omega arith)) in
    (stamps, ground (arith, e, w, h, n))
