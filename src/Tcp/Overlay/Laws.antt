-- ===== src/Tcp/Overlay/Laws.antt =====
-- `Overlay` against its description: each byte comes from the first segment that covers it, and it
-- fails exactly if two segments disagree.
use packet_quapture.Base.{
  ℕ, suc, ◌+◌, ◌-◌, ◌≤◌, ◌<◌, ◌≡◌, ◌≢◌, refl, sym, ◌∙◌, ◌⊎◌, inl, inr, List, [], ◌∷◌, ◌==◌, ltb,
  arith, if◌then◌else◌, Option, none, some, get_elem?, Option-cases, length, true, false,
  Bool-cases,
}
use packet_quapture.Tcp.Types.{Segment}
use packet_quapture.Tcp.Overlay.{unowned, Cells, blank, own, is_owned, overlay_bytes, overlay}

-- What a segment with the bytes `bs` at `o` has for position `p`.
abbrev pub byte_at : ℕ → List ℕ → ℕ → Option ℕ
byte_at o bs p = if ltb p o then none else get_elem? bs (p - o)

-- The owner and the byte of a cell.
abbrev pub cell : Cells → ℕ → Option (ℕ × ℕ)
cell c p = if is_owned c p then some (c.owners p, c.bytes p) else none

abbrev pub or_else {ℓ} : {A : Type ℓ} → Option A → Option A → Option A
or_else none y = y
or_else (some x) y = some x

abbrev pub owned_by : ℕ → Option ℕ → Option (ℕ × ℕ)
owned_by i none = none
owned_by i (some b) = some (i, b)

byte_at-cons :
    (o b : ℕ) (bs : List ℕ) (p : ℕ)
    → byte_at o (b ∷ bs) p ≡ (if o == p then some b else byte_at (o + 1) bs p)
byte_at-cons o b bs p = elim (Bool-cases (ltb p o)) [
  | inl e ↦ ground arith
  | inr e ↦ elim (Bool-cases (o == p)) [
    | inl d ↦ let z : p - o ≡ 0 = ground arith in rw (e, d, z)
    | inr d ↦
        let z : p - o ≡ suc (p - (o + 1)) = ground arith in
        let l : ltb p (o + 1) ≡ false = ground arith in rw (e, d, z, l)
  ]
]

-- One segment laid over the cells: what was owned stays, and the rest is taken from the segment.
overlay_bytes-cell :
    (i pos : ℕ) (bs : List ℕ) (c d : Cells) (p : ℕ)
    → i < unowned
    → overlay_bytes i pos bs c ≡ some d
    → cell d p ≡ or_else (cell c p) (owned_by i (byte_at pos bs p))
unfolding overlay_bytes
overlay_bytes-cell i pos [] c d p small e = ground arith
overlay_bytes-cell i pos (b ∷ bs) c d p small e = ground (
  arith,
  byte_at-cons pos b bs p,
  overlay_bytes-cell i (pos + 1) bs c d p small,
  overlay_bytes-cell i (pos + 1) bs (own c i pos b) d p small,
)

-- Each byte of a segment that was laid is the byte of its cell.
overlay_bytes_agrees :
    (i pos : ℕ) (bs : List ℕ) (c d : Cells) (p x : ℕ)
    → i < unowned
    → overlay_bytes i pos bs c ≡ some d
    → byte_at pos bs p ≡ some x
    → (is_owned d p ≡ true) × (d.bytes p ≡ x)
unfolding overlay_bytes
overlay_bytes_agrees i pos [] c d p x small e h = ground arith
overlay_bytes_agrees i pos (b ∷ bs) c d p x small e h = ground (
  arith,
  byte_at-cons pos b bs p,
  overlay_bytes-cell i (pos + 1) bs c d p small,
  overlay_bytes-cell i (pos + 1) bs (own c i pos b) d p small,
  overlay_bytes_agrees i (pos + 1) bs c d p x small,
  overlay_bytes_agrees i (pos + 1) bs (own c i pos b) d p x small,
)

-- A place where a segment disagrees with what is owned.
abbrev Differs : ℕ → List ℕ → Cells → Type 0
Differs pos bs c =
    (p : ℕ) × (x : ℕ) × (byte_at pos bs p ≡ some x) × (is_owned c p ≡ true) × (c.bytes p ≢ x)

later :
    (pos b : ℕ) (bs : List ℕ) (p x : ℕ)
    → byte_at (pos + 1) bs p ≡ some x
    → (byte_at pos (b ∷ bs) p ≡ some x) × (pos ≢ p)
later pos b bs p x h = ground (arith, byte_at-cons pos b bs p)

overlay_bytes_fails :
    (i pos : ℕ) (bs : List ℕ) (c : Cells)
    → i < unowned
    → overlay_bytes i pos bs c ≡ none
    → Differs pos bs c
unfolding overlay_bytes
overlay_bytes_fails i pos [] c small e = absurd (ground arith)
overlay_bytes_fails i pos (b ∷ bs) c small e = elim (Bool-cases (is_owned c pos)) [
  | inl o ↦ elim (Bool-cases (c.bytes pos == b)) [
    | inl same ↦
        let (p, x, h, w, n) = overlay_bytes_fails i (pos + 1) bs c small (ground arith) in
        (p, x, (later pos b bs p x h).0, w, n)
    | inr differ ↦ (pos, b, ground (arith, byte_at-cons pos b bs pos), o, ground arith)
  ]
  | inr o ↦
      let (p, x, h, w, n) =
        overlay_bytes_fails i (pos + 1) bs (own c i pos b) small (ground arith) in
      let (h', ne) = later pos b bs p x h in (p, x, h', ground arith, ground arith)
]

-- The first segment from index `i` on that covers a position, and its byte there.
abbrev pub first_cover : ℕ → List Segment → List ℕ → ℕ → Option (ℕ × ℕ)
first_cover i [] offsets p = none
first_cover i (s ∷ segments) [] p = none
first_cover i (s ∷ segments) (o ∷ offsets) p =
    or_else (owned_by i (byte_at o s.bytes p)) (first_cover (suc i) segments offsets p)

-- Some segment has the byte `x` at position `p`.
abbrev pub Covers : List Segment → List ℕ → ℕ → ℕ → Type 0
Covers [] offsets p x = ⊥
Covers (s ∷ segments) [] p x = ⊥
Covers (s ∷ segments) (o ∷ offsets) p x =
    (byte_at o s.bytes p ≡ some x) ⊎ Covers segments offsets p x

overlay-cell :
    (i : ℕ) (segments : List Segment) (offsets : List ℕ) (c d : Cells) (p : ℕ)
    → i + length segments ≤ unowned
    → overlay i segments offsets c ≡ some d
    → cell d p ≡ or_else (cell c p) (first_cover i segments offsets p)
unfolding overlay
overlay-cell i [] offsets c d p small e = ground arith
overlay-cell i (s ∷ segments) [] c d p small e = ground arith
overlay-cell i (s ∷ segments) (o ∷ offsets) c d p small e =
    elim (Option-cases (overlay_bytes i o s.bytes c)) [
      | inl f ↦ absurd (ground arith)
      | inr (c', f) ↦ ground (
        arith,
        overlay_bytes-cell i o s.bytes c c' p (omega arith) f,
        overlay-cell (suc i) segments offsets c' d p (omega arith),
      )
    ]

pub overlay_agrees :
    (i : ℕ) (segments : List Segment) (offsets : List ℕ) (c d : Cells) (p x : ℕ)
    → i + length segments ≤ unowned
    → overlay i segments offsets c ≡ some d
    → Covers segments offsets p x
    → (is_owned d p ≡ true) × (d.bytes p ≡ x)
unfolding overlay
overlay_agrees i [] offsets c d p x small e h = absurd h
overlay_agrees i (s ∷ segments) [] c d p x small e h = absurd h
overlay_agrees i (s ∷ segments) (o ∷ offsets) c d p x small e h =
    elim (Option-cases (overlay_bytes i o s.bytes c)) [
      | inl f ↦ absurd (ground arith)
      | inr (c', f) ↦ elim h [
        | inl here ↦ ground (
          arith,
          overlay_bytes_agrees i o s.bytes c c' p x (omega arith) f here,
          overlay-cell (suc i) segments offsets c' d p (omega arith),
        )
        | inr there ↦
            overlay_agrees (suc i) segments offsets c' d p x (omega arith) (ground arith) there
      ]
    ]

-- Two bytes for one position: the cell's and a segment's, or those of two segments.
abbrev Clash : List Segment → List ℕ → Cells → Type 0
Clash segments offsets c =
    (p x y : ℕ) × Covers segments offsets p x
    × (((is_owned c p ≡ true) × (c.bytes p ≡ y)) ⊎ Covers segments offsets p y)
    × (x ≢ y)

from_cell :
    (i o : ℕ) (s : Segment) (c c' : Cells) (p y : ℕ)
    → i < unowned
    → overlay_bytes i o s.bytes c ≡ some c'
    → is_owned c' p ≡ true
    → c'.bytes p ≡ y
    → ((is_owned c p ≡ true) × (c.bytes p ≡ y)) ⊎ (byte_at o s.bytes p ≡ some y)
from_cell i o s c c' p y small f w e = ground (arith, overlay_bytes-cell i o s.bytes c c' p small f)

overlay_fails :
    (i : ℕ) (segments : List Segment) (offsets : List ℕ) (c : Cells)
    → i + length segments ≤ unowned
    → overlay i segments offsets c ≡ none
    → Clash segments offsets c
unfolding overlay
overlay_fails i [] offsets c small e = absurd (ground arith)
overlay_fails i (s ∷ segments) [] c small e = absurd (ground arith)
overlay_fails i (s ∷ segments) (o ∷ offsets) c small e =
    elim (Option-cases (overlay_bytes i o s.bytes c)) [
      | inl f ↦
          let (p, x, h, w, n) = overlay_bytes_fails i o s.bytes c (omega arith) f in
          (p, x, c.bytes p, inl h, inl (w, refl), λ q. n (sym q))
      | inr (c', f) ↦
          let (p, x, y, h, k, n) =
            overlay_fails (suc i) segments offsets c' (omega arith) (ground arith) in
          (p, x, y, inr h, weaken c' f p y k, n)
    ]
  where
    weaken :
        (c' : Cells)
        → overlay_bytes i o s.bytes c ≡ some c'
        → (p y : ℕ) → ((is_owned c' p ≡ true) × (c'.bytes p ≡ y)) ⊎ Covers segments offsets p y
        → ((is_owned c p ≡ true) × (c.bytes p ≡ y)) ⊎ Covers (s ∷ segments) (o ∷ offsets) p y
    weaken c' f p y (inr k) = inr (inr k)
    weaken c' f p y (inl (w, e)) = elim (from_cell i o s c c' p y (omega arith) f w e) [
      | inl old ↦ inl old
      | inr new ↦ inr (inl new)
    ]

-- Two segments have different bytes for one position.
abbrev pub Disagree : List Segment → List ℕ → Type 0
Disagree segments offsets =
    (p x y : ℕ) × Covers segments offsets p x × Covers segments offsets p y × (x ≢ y)

-- `Overlay` fails exactly if two segments disagree about a byte.
pub overlay_fails_iff :
    (segments : List Segment) (offsets : List ℕ)
    → length segments ≤ unowned
    → (overlay 0 segments offsets blank ≡ none → Disagree segments offsets)
      × (Disagree segments offsets → overlay 0 segments offsets blank ≡ none)
overlay_fails_iff segments offsets small = (forth, back)
  where
    forth : overlay 0 segments offsets blank ≡ none → Disagree segments offsets
    forth e =
        let (p, x, y, h, k, n) = overlay_fails 0 segments offsets blank (omega arith) e in
        (p, x, y, h, elim k [ inl (w, _) ↦ absurd (ground arith) | inr there ↦ there ], n)

    back : Disagree segments offsets → overlay 0 segments offsets blank ≡ none
    back (p, x, y, h, k, n) = elim (Option-cases (overlay 0 segments offsets blank)) [
      | inl e ↦ e
      | inr (d, e) ↦
          let one = overlay_agrees 0 segments offsets blank d p x (omega arith) e h in
          let two = overlay_agrees 0 segments offsets blank d p y (omega arith) e k in
          absurd (n (sym one.1 ∙ two.1))
    ]

-- Where it succeeds, each cell has the index and the byte of the first segment that covers it, and
-- is unowned where none does.
pub overlay-first_cover :
    (segments : List Segment) (offsets : List ℕ) (d : Cells) (p : ℕ)
    → length segments ≤ unowned
    → overlay 0 segments offsets blank ≡ some d
    → cell d p ≡ first_cover 0 segments offsets p
overlay-first_cover segments offsets d p small e =
    ground (arith, overlay-cell 0 segments offsets blank d p (omega arith) e)
