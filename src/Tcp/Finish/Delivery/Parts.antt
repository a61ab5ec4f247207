-- ===== src/Tcp/Finish/Delivery/Parts.antt =====
-- Segments that hold pieces of one message, and where `Measure` places them.
use packet_quapture.Base.{
  ℕ, zero, suc, ◌+◌, ◌^◌, ◌≤◌, ◌<◌, ◌≡◌, refl, max, false, List, [], ◌∷◌, none, some, length, arith,
  All, inl, inr, get_elem?,
}
use packet_quapture.Tcp.Types.{TcpReassemblyLimits, Segment, TcpGap}
use packet_quapture.Tcp.Sequence.{StartAt, relative_sequence_forward}
use packet_quapture.Tcp.Overlay.Laws.{byte_at, Covers}
use packet_quapture.Tcp.Emit.View.{in_gap}
use packet_quapture.Tcp.Finish.{place}
use packet_quapture.Tcp.Finish.Inside.{IsCaptured}

-- A segment at `d` that holds only bytes of `msg`, at their places.
pub record IsPiece (msg : List ℕ) (d : ℕ) (s : Segment) : Type 0 where
  pub ends : d + s.declared ≤ length msg
  pub captured : IsCaptured s
  pub same : (p x : ℕ) → byte_at d s.bytes p ≡ some x → get_elem? msg p ≡ some x

abbrev pub Pieces : List ℕ → List Segment → List ℕ → Type 0
Pieces msg [] [] = Unit {0}
Pieces msg (s ∷ segments) (d ∷ ds) = IsPiece msg d s × Pieces msg segments ds
Pieces msg [] (_ ∷ _) = ⊥
Pieces msg (_ ∷ _) [] = ⊥

pub Pieces-IsCaptured :
    (msg : List ℕ) (segments : List Segment) (ds : List ℕ)
    → Pieces msg segments ds
    → All IsCaptured segments
Pieces-IsCaptured msg [] [] h = tt
Pieces-IsCaptured msg [] (_ ∷ _) h = absurd h
Pieces-IsCaptured msg (_ ∷ _) [] h = absurd h
Pieces-IsCaptured msg (s ∷ segments) (d ∷ ds) h =
    (h.0.captured, Pieces-IsCaptured msg segments ds h.1)

pub Pieces-Covers :
    (msg : List ℕ) (segments : List Segment) (ds : List ℕ) (p x : ℕ)
    → Pieces msg segments ds
    → Covers segments ds p x
    → get_elem? msg p ≡ some x
Pieces-Covers msg [] ds p x h c = absurd c
Pieces-Covers msg (s ∷ segments) [] p x h c = absurd c
Pieces-Covers msg (s ∷ segments) (d ∷ ds) p x h (inl c) = h.0.same p x c
Pieces-Covers msg (s ∷ segments) (d ∷ ds) p x h (inr c) = Pieces-Covers msg segments ds p x h.1 c

-- Where the farthest segment ends.
abbrev pub reach : ℕ → List Segment → List ℕ → ℕ
reach extent [] ds = extent
reach extent (s ∷ segments) [] = extent
reach extent (s ∷ segments) (d ∷ ds) = reach (max extent (d + s.declared)) segments ds

pub reach-le :
    (msg : List ℕ) (extent : ℕ) (segments : List Segment) (ds : List ℕ)
    → extent ≤ length msg
    → Pieces msg segments ds
    → reach extent segments ds ≤ length msg
reach-le msg extent [] ds l h = l
reach-le msg extent (s ∷ segments) [] l h = l
reach-le msg extent (s ∷ segments) (d ∷ ds) l h =
    reach-le msg (max extent (d + s.declared)) segments ds (omega (arith, h.0.ends)) h.1

pub place-reach :
    (limits : TcpReassemblyLimits) (msg : List ℕ) (b extent : ℕ) (segments : List Segment)
    (ds : List ℕ)
    → b < 2 ^ 32
    → length msg ≤ limits.max_stream_bytes
    → StartAt b segments ds
    → Pieces msg segments ds
    → place limits b extent segments ≡ some (ds, reach extent segments ds)
unfolding place
place-reach limits msg b extent [] [] hb l h k = refl
place-reach limits msg b extent [] (_ ∷ _) hb l h k = absurd h
place-reach limits msg b extent (_ ∷ _) [] hb l h k = absurd h
place-reach limits msg b extent (s ∷ segments) (d ∷ ds) hb l h k =
    rw (h.0, relative_sequence_forward b d hb h.1)
      (ground (
        arith,
        k.0.ends,
        place-reach limits msg b (max extent (d + s.declared)) segments ds hb l h.2 k.1,
      ))

pub no_gaps :
    (gaps : List TcpGap)
    → All (λ (g : TcpGap). 0 < g.length) gaps
    → ((p : ℕ) → in_gap gaps p ≡ false)
    → gaps ≡ []
no_gaps [] h f = refl
no_gaps (g ∷ gaps) h f = absurd (ground (arith, f g.offset))

pub get_elem?-past : (msg : List ℕ) (p : ℕ) → length msg ≤ p → get_elem? msg p ≡ none
get_elem?-past [] p l = refl
get_elem?-past (x ∷ msg) zero l = absurd (omega arith)
get_elem?-past (x ∷ msg) (suc p) l = get_elem?-past msg p (omega arith)
