-- ===== src/Tcp/Overlay.antt =====
-- `Overlay` of src/tcp_reassembly.cpp. A vector of `extent` cells is the function that gives the
-- cell at each index; that every index used is below the extent is proved in Finish.
pub mod Laws
use packet_quapture.Base.{
  ℕ, suc, ◌+◌, ◌-◌, ◌^◌, Bool, not, ◌&&◌, List, [], ◌∷◌, ◌==◌, ltb, if◌then◌else◌, u32, Option,
  none, some, get_elem?,
}
use packet_quapture.Tcp.Types.{Segment}

-- Marks a byte that no segment supplied.
abbrev pub unowned : ℕ
unowned = 2 ^ 32 - 1

pub record Cells : Type 0 where
  pub bytes : ℕ → ℕ
  pub owners : ℕ → ℕ

-- The vectors before the first segment.
abbrev pub blank : Cells
blank = record { bytes = λ _. 0; owners = λ _. unowned }

abbrev pub update : (ℕ → ℕ) → ℕ → ℕ → ℕ → ℕ
update f p v q = if p == q then v else f q

abbrev pub own : Cells → ℕ → ℕ → ℕ → Cells
own c i pos b = record { bytes = update c.bytes pos b; owners = update c.owners pos (u32 i) }

abbrev pub is_owned : Cells → ℕ → Bool
is_owned c pos = not (c.owners pos == unowned)

-- The loop over the bytes of segment `i` that are left; the first of them goes to `pos`.
unfoldable pub overlay_bytes : ℕ → ℕ → List ℕ → Cells → Option Cells
overlay_bytes i pos [] c = some c
overlay_bytes i pos (b ∷ bs) c =
    let rest = overlay_bytes i (pos + 1) bs (if is_owned c pos then c else own c i pos b) in
    if is_owned c pos && not (c.bytes pos == b) then none else rest

-- The loop over the segments from index `i` on, with their offsets. `none` is the result false.
unfoldable pub overlay : ℕ → List Segment → List ℕ → Cells → Option Cells
overlay i [] offsets c = some c
overlay i (s ∷ segments) [] c = some c
overlay i (s ∷ segments) (o ∷ offsets) c = elim (overlay_bytes i o s.bytes c) [
  | none ↦ none
  | some c' ↦ overlay (suc i) segments offsets c'
]
