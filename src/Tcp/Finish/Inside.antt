-- ===== src/Tcp/Finish/Inside.antt =====
-- `Measure` keeps every segment inside the extent, so `Overlay` stays inside its vectors.
use packet_quapture.Base.{
  ℕ, zero, suc, ◌+◌, ◌-◌, ◌≤◌, ◌<◌, ◌≡◌, max, List, [], ◌∷◌, some, length, arith, All, inl, inr,
  get_elem?, Option-cases, Bool-cases,
}
use packet_quapture.Base.Int.{ℤ, pos, negsuc}
use packet_quapture.Tcp.Types.{TcpReassemblyLimits, Segment, Flow}
use packet_quapture.Tcp.Sequence.{relative_sequence}
use packet_quapture.Tcp.Overlay.Laws.{Covers}
use packet_quapture.Tcp.Finish.{in_window, place, placed, measure}

-- The segments lie at the offsets, inside the extent.
abbrev pub Inside : ℕ → List Segment → List ℕ → Type 0
Inside extent [] [] = Unit {0}
Inside extent (s ∷ segments) (o ∷ offsets) =
    (o + s.declared ≤ extent) × Inside extent segments offsets
Inside extent [] (_ ∷ _) = ⊥
Inside extent (_ ∷ _) [] = ⊥

Inside-le :
    (m n : ℕ) (segments : List Segment) (offsets : List ℕ)
    → m ≤ n
    → Inside m segments offsets
    → Inside n segments offsets
Inside-le m n [] [] l h = tt
Inside-le m n [] (_ ∷ _) l h = absurd h
Inside-le m n (_ ∷ _) [] l h = absurd h
Inside-le m n (s ∷ segments) (o ∷ offsets) l h =
    (omega (arith, h.0), Inside-le m n segments offsets l h.1)

in_window_bound :
    (limits : TcpReassemblyLimits) (z : ℤ) (o : ℕ)
    → in_window limits z ≡ some o
    → o ≤ limits.max_stream_bytes
in_window_bound limits (pos n) o e = ground arith
in_window_bound limits (negsuc n) o e = ground arith

pub place-Inside :
    (limits : TcpReassemblyLimits) (base extent : ℕ) (segments : List Segment) (offsets : List ℕ)
    (end : ℕ)
    → extent ≤ limits.max_stream_bytes
    → place limits base extent segments ≡ some (offsets, end)
    → (extent ≤ end) × (end ≤ limits.max_stream_bytes) × Inside end segments offsets
unfolding place
place-Inside limits base extent [] offsets end l e = ground arith
place-Inside limits base extent (s ∷ rest) offsets end l e =
    elim (Option-cases (in_window limits (relative_sequence s.sequence base))) [
      | inl w ↦ absurd (ground arith)
      | inr (o, w) ↦ elim (Option-cases (place limits base (max extent (o + s.declared)) rest)) [
        | inl q ↦ absurd (ground arith)
        | inr ((os, n), q) ↦
            let b = in_window_bound limits (relative_sequence s.sequence base) o w in
            let ih = place-Inside limits base (max extent (o + s.declared)) rest os n in
            ground (arith, b, ih)
      ]
    ]

-- If `Measure` succeeds, every segment lies inside the extent with its declared length, and the
-- extent within the window.
pub measure-Inside :
    (limits : TcpReassemblyLimits) (flow : Flow) (base : ℕ) (offsets : List ℕ) (extent : ℕ)
    → measure limits flow base ≡ placed offsets extent
    → Inside extent flow.segments offsets × (extent ≤ limits.max_stream_bytes)
unfolding measure
measure-Inside limits flow base offsets extent e =
    elim (Option-cases (place limits base 0 flow.segments)) [
      | inl q ↦ absurd (ground arith)
      | inr ((os, n), q) ↦
          let (_, b, h) = place-Inside limits base 0 flow.segments os n (omega arith) q in
          elim (Bool-cases flow.has_fin) [
            | inr f ↦ ground (arith, b, h)
            | inl f ↦
                elim (Option-cases (in_window limits (relative_sequence flow.fin_sequence base))) [
                  | inl w ↦ absurd (ground arith)
                  | inr (m, w) ↦
                      let c =
                        in_window_bound limits (relative_sequence flow.fin_sequence base) m w in
                      let i = Inside-le n m flow.segments os in ground (arith, c, i, h)
                ]
          ]
    ]

pub get_elem?-lt {ℓ} :
    {A : Type ℓ} (xs : List A) (i : ℕ) (x : A) → get_elem? xs i ≡ some x → i < length xs
get_elem?-lt [] i x e = absurd (ground arith)
get_elem?-lt (y ∷ xs) zero x e = omega arith
get_elem?-lt (y ∷ xs) (suc i) x e = omega (arith, get_elem?-lt xs i x e)

-- No segment has more bytes than it declared; `Add` fails a direction otherwise.
abbrev pub IsCaptured : Segment → Type 0
IsCaptured s = length s.bytes ≤ s.declared

-- The bytes that `Overlay` handles lie inside the extent.
pub Covers-lt :
    (segments : List Segment) (offsets : List ℕ) (extent p x : ℕ)
    → Inside extent segments offsets
    → All IsCaptured segments
    → Covers segments offsets p x
    → p < extent
Covers-lt [] offsets extent p x h a c = absurd c
Covers-lt (s ∷ segments) [] extent p x h a c = absurd c
Covers-lt (s ∷ segments) (o ∷ offsets) extent p x h a (inl c) =
    ground (arith, get_elem?-lt s.bytes (p - o) x)
Covers-lt (s ∷ segments) (o ∷ offsets) extent p x h a (inr c) =
    Covers-lt segments offsets extent p x h.1 a.1 c
