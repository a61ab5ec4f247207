-- ===== src/Pcap/Writer/Appends/Output.antt =====
-- Outputs that store what they report, and what writing over a place does to a file.
use packet_quapture.Base.{
  ℕ, zero, suc, ◌+◌, ◌≤◌, ◌≡◌, refl, ap, List, [], ◌∷◌, ◌++◌, some, length, take, drop,
  length-append, length-take, length-drop, arith,
}
use packet_quapture.Base.Splits.{overwrite, take-drop, take-append}
use mathlib.Core.List.{append-nil}
use packet_quapture.Pcap.Writer.{PcapOutput}

-- An output with contents and a position: a write stores the bytes that it reports, over what was
-- there, and moves behind them; a seek moves alone.
pub record IsOutput {O : Type 0} (interface : PcapOutput O) (contents : O → List ℕ)
    (position : O → ℕ) : Type 0 where
  pub writes :
      (o : O) (bytes : List ℕ) (amount : ℕ) (o' : O)
      → interface.write o bytes ≡ some (amount, o')
      → amount ≤ length bytes
      → (contents o' ≡ overwrite (position o) (take amount bytes) (contents o))
        × (position o' ≡ position o + amount)
  pub seeks :
      (o : O) (p : ℕ) (o' : O)
      → interface.seek o p ≡ some o'
      → (contents o' ≡ contents o) × (position o' ≡ p)

pub take-take : (m n : ℕ) (xs : List ℕ) → m ≤ n → take m (take n xs) ≡ take m xs
take-take zero n xs h = refl
take-take (suc m) zero xs h = absurd (omega arith)
take-take (suc m) (suc n) [] h = refl
take-take (suc m) (suc n) (x ∷ xs) h = ap (λ ys. x ∷ ys) (take-take m n xs (omega arith))

pub length-overwrite :
    (p : ℕ) (xs file : List ℕ) → p ≤ length file → p + length xs ≤ length (overwrite p xs file)
length-overwrite p xs file h = omega (
  arith,
  length-append (take p file ++ xs) (drop (p + length xs) file),
  length-append (take p file) xs,
  length-take p file,
)

pub length-inside :
    (p : ℕ) (xs file : List ℕ)
    → p + length xs ≤ length file
    → length (overwrite p xs file) ≡ length file
length-inside p xs file h = omega (
  arith,
  length-append (take p file ++ xs) (drop (p + length xs) file),
  length-append (take p file) xs,
  length-take p file,
  length-drop (p + length xs) file,
)

pub overwrite-nil : (p : ℕ) (file : List ℕ) → overwrite p [] file ≡ file
overwrite-nil p file =
    let e : p + 0 ≡ p = omega arith in rw (e, append-nil (take p file)) (take-drop p file)

pub overwrite-end : (xs file : List ℕ) → overwrite (length file) xs file ≡ file ++ xs
overwrite-end xs file =
    let t : take (length file) file ≡ file = rw (append-nil file) at (take-append file []) in
    let d : drop (length file + length xs) file ≡ [] =
      past file (length file + length xs) (omega arith) in
    rw (t, d) (append-nil (file ++ xs))
  where
    past : (file : List ℕ) (k : ℕ) → length file ≤ k → drop k file ≡ []
    past file zero h = ground (arith, h)
    past [] (suc k) h = refl
    past (x ∷ file) (suc k) h = past file k (omega arith)
