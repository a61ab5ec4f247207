-- ===== src/Tls/Handshake/Lists/Spelled.antt =====
-- `ReadCodes` of src/tls_handshake.cpp gives the code points that the bytes spell.
use packet_quapture.Base.{
  ℕ, zero, suc, ◌+◌, ◌-◌, ◌*◌, ◌/◌, ◌%◌, ◌^◌, ◌≤◌, ◌<◌, ◌≡◌, refl, Bool, true, false, not, ◌&&◌,
  List, [], ◌∷◌, ◌==◌, ltb, leb, some, length as count, arith, Bytes, u16,
}
use packet_quapture.Tls.Reader.{TlsReader, start, u8_of, u16_of, sub, vector_length}
use packet_quapture.Tls.Handshake.Types.{present_list, ListBudget}
use packet_quapture.Tls.Handshake.Lists.{codes_loop, read_values, read_codes}

-- The bytes from an index on are the code points, each its high byte first.
abbrev pub Spells : Bytes → ℕ → List ℕ → Type 0
Spells view at [] = Unit {0}
Spells view at (code ∷ codes) =
    (u16 (view at * 2 ^ 8 + view (at + 1)) ≡ code) × Spells view (at + 2) codes

-- A reader at an index of a view.
abbrev pub reading : Bytes → ℕ → ℕ → TlsReader
reading view size at = record { bytes = view; size = size; offset = at; overrun = false }

u16_of-reading :
    (view : Bytes) (size at : ℕ)
    → at + 2 ≤ size
    → u16_of (reading view size at)
      ≡ (u16 (view at * 2 ^ 8 + view (at + 1)), reading view size (at + 2))
unfolding u16_of u8_of
u16_of-reading view size at h = ground (arith, h)

codes_loop-Spells :
    (view : Bytes) (size at fuel : ℕ) (codes : List ℕ)
    → Spells view at codes
    → at + (count codes + count codes) ≡ size
    → count codes < fuel
    → codes_loop fuel (reading view size at) ≡ some (codes, reading view size size)
unfolding codes_loop
codes_loop-Spells view size at zero codes s e l = absurd (omega arith)
codes_loop-Spells view size at (suc fuel) [] s e l =
    let d : at ≡ size = omega arith in
    let z : (size - at == 0) ≡ true = ground (arith, d) in rw (z, d) refl
codes_loop-Spells view size at (suc fuel) (code ∷ codes) (c, s) e l =
    let u = u16_of-reading view size at (omega arith) in
    let rest = codes_loop-Spells view size (at + 2) fuel codes s (omega arith) (omega arith) in
    let z : (size - at == 0) ≡ false = ground (arith, e) in rw (z, u, rest, c) refl

Spells-from :
    (view : Bytes) (from at : ℕ) (codes : List ℕ)
    → Spells view (from + at) codes
    → Spells (λ i. view (from + i)) at codes
Spells-from view from at [] s = tt
Spells-from view from at (code ∷ codes) (c, s) =
    let next : from + (at + 1) ≡ from + at + 1 = omega arith in
    let later : from + (at + 2) ≡ from + at + 2 = omega arith in
    (rw next c, Spells-from view from (at + 2) codes (rw later s))

vector_length-reading :
    (view : Bytes) (size at n : ℕ)
    → at + 2 ≤ size
    → u16 (view at * 2 ^ 8 + view (at + 1)) ≡ n
    → vector_length (reading view size at) 2 ≡ (n, reading view size (at + 2))
unfolding vector_length
vector_length-reading view size at n h e = let u = u16_of-reading view size at h in rw (u, e) refl

sub-reading :
    (view : Bytes) (size at n : ℕ)
    → at + n ≤ size
    → sub (reading view size at) n
      ≡ (some (start (λ i. view (at + i)) n), reading view size (at + n))
unfolding sub
sub-reading view size at n h =
    let room : ltb (size - at) n ≡ false = ground (arith, h) in rw room refl

read_values-Spells :
    (view : Bytes) (r : TlsReader) (budget : ListBudget) (codes : List ℕ)
    → Spells view 0 codes
    → count codes ≤ budget.cap_entries
    → read_values (count codes + count codes) (reading view (count codes + count codes) 0) r budget
      ≡ some (record { complete = true; reader = r; budget = budget; list = present_list codes })
unfolding read_values
read_values-Spells view r budget codes s few =
    let k = count codes in
    let loop = codes_loop-Spells view (k + k) 0 (suc (k + k)) codes s (omega arith) (omega arith) in
    let held : leb k budget.cap_entries ≡ true = ground (arith, few) in rw (loop, held) refl

-- ReadCodes with a two-byte length, where a length within 65535 and within the cap is followed by the
-- bytes of as many code points, and by nothing else where they have to fill the reader: the list
-- is exactly these code points, and the reader stands behind them.
pub read_codes-Spells :
    (view : Bytes) (size at : ℕ) (exact : Bool) (budget : ListBudget) (codes : List ℕ)
    → u16 (view at * 2 ^ 8 + view (at + 1)) ≡ count codes + count codes
    → Spells view (at + 2) codes
    → at + 2 + (count codes + count codes) ≤ size
    → (exact ≡ true → at + 2 + (count codes + count codes) ≡ size)
    → count codes ≤ budget.cap_entries
    → read_codes (reading view size at) 2 exact budget
      ≡ some (record {
        complete = true;
        reader = reading view size (at + 2 + (count codes + count codes));
        budget = budget;
        list = present_list codes;
      })
unfolding read_codes
read_codes-Spells view size at exact budget codes n s fits fills few =
    let k = count codes in
    let v = vector_length-reading view size at (k + k) (omega (arith, fits)) n in
    let b = sub-reading view size (at + 2) (k + k) fits in
    let inner =
      Spells-from view (at + 2) 0 codes (let z : at + 2 + 0 ≡ at + 2 = omega arith in rw z s) in
    let even : ((k + k) % 2 == 0) ≡ true = ground arith in
    let half : ltb budget.cap_entries ((k + k) / 2) ≡ false = ground (arith, few) in
    let whole : (exact && not (size - (at + 2 + (k + k)) == 0)) ≡ false = ground (arith, fills) in
    let values =
      read_values-Spells (λ i. view (at + 2 + i)) (reading view size (at + 2 + (k + k))) budget
        codes inner few in
    ground (arith, v, b, even, whole, half, values)
