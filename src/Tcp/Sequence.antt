-- ===== src/Tcp/Sequence.antt =====
-- `RelativeSequence` and `StreamBase` of src/tcp_reassembly.cpp: 32-bit sequence numbers as signed
-- distances.
use packet_quapture.Base.{
  ℕ, zero, suc, max, ◌+◌, ◌-◌, ◌^◌, ◌≤◌, ◌<◌, ◌≡◌, List, [], ◌∷◌, leb, if◌then◌else◌, u32, arith,
  not, refl, ◌↔◌, ◌⊎◌, inl, inr, false,
}
use packet_quapture.Base.Int.{ℤ, pos, negsuc, min_ℤ, u32_of_ℤ}
use packet_quapture.Tcp.Types.{Segment, Flow}

unfoldable pub relative_sequence : ℕ → ℕ → ℤ
relative_sequence sequence base =
    let difference = u32 (sequence + 2 ^ 32 - base) in
    if leb difference (2 ^ 31 - 1) then pos difference else negsuc (2 ^ 32 - difference - 1)

-- `segments.front().sequence`; an empty vector has no front, and `Finish` returns before that.
abbrev pub front_sequence : List Segment → ℕ
front_sequence [] = 0
front_sequence (s ∷ _) = s.sequence

unfoldable pub first_offset : ℕ → ℤ → List Segment → ℤ
first_offset base least [] = least
first_offset base least (s ∷ rest) =
    first_offset base (min_ℤ least (relative_sequence s.sequence base)) rest

unfoldable pub stream_base : Flow → ℕ
stream_base flow =
    let base = if flow.has_syn then u32 (flow.syn_sequence + 1) else front_sequence flow.segments in
    if not flow.has_syn
    then u32 (base + u32_of_ℤ (first_offset base (pos 0) flow.segments))
    else base

-- The distance is exact within half of the sequence space, in both directions, across the wrap.
pub relative_sequence_forward :
    (base d : ℕ) → base < 2 ^ 32 → d < 2 ^ 31 → relative_sequence (u32 (base + d)) base ≡ pos d
unfolding relative_sequence
relative_sequence_forward base d hb hd = ground arith

pub relative_sequence_backward :
    (sequence d : ℕ)
    → sequence < 2 ^ 32
    → d < 2 ^ 31
    → relative_sequence sequence (u32 (sequence + suc d)) ≡ negsuc d
unfolding relative_sequence
relative_sequence_backward sequence d hs hd = ground arith

-- A number within half of the sequence space, of 2^31 to each side but the upper end.
abbrev pub IsNear : ℤ → Type 0
IsNear (pos n) = n < 2 ^ 31
IsNear (negsuc n) = n < 2 ^ 31

near :
    (sequence base : ℕ) (z : ℤ)
    → sequence < 2 ^ 32
    → base < 2 ^ 32
    → relative_sequence sequence base ≡ z
    → IsNear z × (u32 (base + u32_of_ℤ z) ≡ sequence)
unfolding relative_sequence
near sequence base (pos n) hs hb e = ground (arith, e)
near sequence base (negsuc n) hs hb e = ground (arith, e)

only :
    (sequence base : ℕ) (z : ℤ)
    → sequence < 2 ^ 32
    → base < 2 ^ 32
    → IsNear z × (u32 (base + u32_of_ℤ z) ≡ sequence)
    → relative_sequence sequence base ≡ z
unfolding relative_sequence
only sequence base (pos n) hs hb h = ground (arith, h)
only sequence base (negsuc n) hs hb h = ground (arith, h)

-- Between 32-bit numbers, the relative sequence is the one distance in [-2^31, 2^31) that moves the
-- base to the sequence number.
pub relative_sequence_iff :
    (sequence base : ℕ) (z : ℤ)
    → sequence < 2 ^ 32
    → base < 2 ^ 32
    → (relative_sequence sequence base ≡ z) ↔ (IsNear z × (u32 (base + u32_of_ℤ z) ≡ sequence))
relative_sequence_iff sequence base z hs hb =
    (near sequence base z hs hb, only sequence base z hs hb)

-- The segments start at the distances `ds` from `b`, all below 2^31.
abbrev pub StartAt : ℕ → List Segment → List ℕ → Type 0
StartAt b [] [] = Unit {0}
StartAt b (s ∷ rest) (d ∷ ds) = (s.sequence ≡ u32 (b + d)) × (d < 2 ^ 31) × StartAt b rest ds
StartAt b [] (d ∷ ds) = ⊥
StartAt b (s ∷ rest) [] = ⊥

-- The number -k.
abbrev minus : ℕ → ℤ
minus zero = pos 0
minus (suc k) = negsuc k

-- The farthest that a distance lies before `d`.
abbrev before : ℕ → ℕ → List ℕ → ℕ
before d k [] = k
before d k (e ∷ ds) = before d (max k (d - e)) ds

min_ℤ-minus :
    (b d e k : ℕ)
    → b < 2 ^ 32
    → d < 2 ^ 31
    → e < 2 ^ 31
    → min_ℤ (minus k) (relative_sequence (u32 (b + e)) (u32 (b + d))) ≡ minus (max k (d - e))
unfolding relative_sequence
min_ℤ-minus b d e zero hb hd he = ground arith
min_ℤ-minus b d e (suc k) hb hd he = ground arith

first_offset-before :
    (b d k : ℕ) (segments : List Segment) (ds : List ℕ)
    → b < 2 ^ 32
    → d < 2 ^ 31
    → StartAt b segments ds
    → first_offset (u32 (b + d)) (minus k) segments ≡ minus (before d k ds)
unfolding first_offset
first_offset-before b d k [] [] hb hd h = refl
first_offset-before b d k [] (e ∷ ds) hb hd h = absurd h
first_offset-before b d k (s ∷ rest) [] hb hd h = absurd h
first_offset-before b d k (s ∷ rest) (e ∷ ds) hb hd h =
    rw (h.0, min_ℤ-minus b d e k hb hd h.1)
      (first_offset-before b d (max k (d - e)) rest ds hb hd h.2)

-- One of the distances is 0.
abbrev pub HasZero : List ℕ → Type 0
HasZero [] = ⊥
HasZero (d ∷ ds) = (d ≡ 0) ⊎ HasZero ds

before-le : (d k : ℕ) (ds : List ℕ) → k ≤ d → before d k ds ≤ d
before-le d k [] h = h
before-le d k (e ∷ ds) h = before-le d (max k (d - e)) ds (omega arith)

le-before : (d k : ℕ) (ds : List ℕ) → k ≤ before d k ds
le-before d k [] = omega arith
le-before d k (e ∷ ds) = omega (arith, le-before d (max k (d - e)) ds)

before-zero : (d k : ℕ) (ds : List ℕ) → k ≤ d → HasZero ds → before d k ds ≡ d
before-zero d k [] l h = absurd h
before-zero d k (e ∷ ds) l (inl z) =
    omega (arith, z, before-le d (max k (d - e)) ds (omega arith), le-before d (max k (d - e)) ds)
before-zero d k (e ∷ ds) l (inr h) = before-zero d (max k (d - e)) ds (omega arith) h

back : (b d : ℕ) → b < 2 ^ 32 → d < 2 ^ 31 → u32 (u32 (b + d) + u32_of_ℤ (minus d)) ≡ b
back b zero hb hd = ground arith
back b (suc d) hb hd = ground arith

close :
    (b d f : ℕ) (z : ℤ)
    → b < 2 ^ 32
    → d < 2 ^ 31
    → f ≡ u32 (b + d)
    → z ≡ minus d
    → u32 (f + u32_of_ℤ z) ≡ b
close b d f z hb hd p q = rw (p, q) (back b d hb hd)

first_offset-at :
    (b d k f : ℕ) (segments : List Segment) (ds : List ℕ)
    → f ≡ u32 (b + d)
    → b < 2 ^ 32
    → d < 2 ^ 31
    → StartAt b segments ds
    → first_offset f (minus k) segments ≡ minus (before d k ds)
first_offset-at b d k f segments ds e hb hd h = rw e (first_offset-before b d k segments ds hb hd h)

-- Without a SYN, if the segments start at distances below 2^31 from `b` and one of them at `b`
-- itself, then offset zero is at `b`, in whichever order the segments came and wherever the
-- sequence numbers wrap.
pub stream_base_earliest :
    (flow : Flow) (b : ℕ) (ds : List ℕ)
    → flow.has_syn ≡ false
    → b < 2 ^ 32
    → StartAt b flow.segments ds
    → HasZero ds
    → stream_base flow ≡ b
unfolding stream_base
stream_base_earliest flow b ds syn hb h z = rw syn (go flow.segments ds h z)
  where
    go :
        (segments : List Segment) (ds : List ℕ)
        → StartAt b segments ds
        → HasZero ds
        → u32 (
            front_sequence segments
            + u32_of_ℤ (first_offset (front_sequence segments) (pos 0) segments))
          ≡ b
    go [] [] h z = absurd z
    go [] (e ∷ ds) h z = absurd h
    go (s ∷ rest) [] h z = absurd h
    go (s ∷ rest) (d ∷ ds) h z = close b d s.sequence _ hb h.1 h.0 (
        rw (before-zero d 0 (d ∷ ds) (omega arith) z) at
          (first_offset-at b d 0 s.sequence (s ∷ rest) (d ∷ ds) h.0 hb h.1 h))
