-- ===== src/Base/Maps.antt =====
-- The standard library's ordered maps: the entries in the order of the keys, searched from the
-- smallest key on. Two keys of which neither is less than the other are the same key.
pub mod Sorted
use Prim.Native.Nat.{ℕ, suc, ◌+◌, ◌≤◌}
use mathlib.Core.Path.{◌≡◌, refl}
use mathlib.Core.Bool.{Bool, false}
use mathlib.Core.List.{List, [], ◌∷◌}
use mathlib.Core.Option.{Option, none, some}
use mathlib.Core.Logic.{inl, inr}
use native.Mathlib.Omega.{arith}
use packet_quapture.Base.Tests.{if◌then◌else◌, Bool-cases}
use packet_quapture.Base.Lists.{length}

module _ {K : Type 0} {V : Type 0} where
  unfoldable pub find : (K → K → Bool) → K → List (K × V) → Option V
  find less key [] = none
  find less key ((k, v) ∷ entries) =
      let rest = find less key entries in
      if less key k then none else if less k key then rest else some v

  -- The entry of the key is replaced, or a new one is put in its place.
  unfoldable pub put : (K → K → Bool) → K → V → List (K × V) → List (K × V)
  put less key new [] = (key, new) ∷ []
  put less key new ((k, v) ∷ entries) =
      let rest = put less key new entries in
      if less key k
      then (key, new) ∷ (k, v) ∷ entries
      else if less k key
      then (k, v) ∷ rest
      else (k, new) ∷ entries

  -- The value that the key has behind an emplacement, which leaves an entry of the key alone, and
  -- the entries.
  unfoldable pub emplace : (K → K → Bool) → K → V → List (K × V) → V × List (K × V)
  emplace less key new entries = elim (find less key entries) [
    | none ↦ (new, put less key new entries)
    | some old ↦ (old, entries)
  ]

  unfoldable pub erase : (K → K → Bool) → K → List (K × V) → List (K × V)
  erase less key [] = []
  erase less key ((k, v) ∷ entries) =
      let rest = erase less key entries in
      if less key k then (k, v) ∷ entries else if less k key then (k, v) ∷ rest else entries

  -- The sum of a measure over the values.
  abbrev pub total : (V → ℕ) → List (K × V) → ℕ
  total w [] = 0
  total w ((k, v) ∷ entries) = w v + total w entries

  abbrev pub AllValues : (V → Type 0) → List (K × V) → Type 0
  AllValues P [] = Unit {0}
  AllValues P ((k, v) ∷ entries) = P v × AllValues P entries

module _ {K : Type 0} {V : Type 0} (less : K → K → Bool) (key : K) where
  pub total-put :
      (w : V → ℕ) (old new : V) (entries : List (K × V))
      → find less key entries ≡ some old
      → total w (put less key new entries) + w old ≡ total w entries + w new
  unfolding find put
  total-put w old new [] e = absurd (ground arith)
  total-put w old new ((k, v) ∷ entries) e = ground (arith, total-put w old new entries)

  pub total-put-new :
      (w : V → ℕ) (new : V) (entries : List (K × V))
      → find less key entries ≡ none
      → total w (put less key new entries) ≡ total w entries + w new
  unfolding find put
  total-put-new w new [] e = omega arith
  total-put-new w new ((k, v) ∷ entries) e = ground (arith, total-put-new w new entries)

  pub total-erase :
      (w : V → ℕ) (old : V) (entries : List (K × V))
      → find less key entries ≡ some old
      → total w (erase less key entries) + w old ≡ total w entries
  unfolding find erase
  total-erase w old [] e = absurd (ground arith)
  total-erase w old ((k, v) ∷ entries) e = ground (arith, total-erase w old entries)

  pub length-put-new :
      (new : V) (entries : List (K × V))
      → find less key entries ≡ none
      → length (put less key new entries) ≡ suc (length entries)
  unfolding find put
  length-put-new new [] e = refl
  length-put-new new ((k, v) ∷ entries) e = ground (arith, length-put-new new entries)

  pub length-put :
      (old new : V) (entries : List (K × V))
      → find less key entries ≡ some old
      → length (put less key new entries) ≡ length entries
  unfolding find put
  length-put old new [] e = absurd (ground arith)
  length-put old new ((k, v) ∷ entries) e = ground (arith, length-put old new entries)

  pub length-erase :
      (old : V) (entries : List (K × V))
      → find less key entries ≡ some old
      → suc (length (erase less key entries)) ≡ length entries
  unfolding find erase
  length-erase old [] e = absurd (ground arith)
  length-erase old ((k, v) ∷ entries) e = ground (arith, length-erase old entries)

  pub find-AllValues :
      (P : V → Type 0) (v : V) (entries : List (K × V))
      → AllValues P entries
      → find less key entries ≡ some v
      → P v
  unfolding find
  find-AllValues P v [] a e = absurd (ground arith)
  find-AllValues P v ((k, u) ∷ entries) (p, a) e = elim (Bool-cases (less key k)) [
    | inl l ↦ absurd (ground (arith, l, e))
    | inr l ↦ elim (Bool-cases (less k key)) [
      | inl m ↦ find-AllValues P v entries a (ground (arith, l, m, e))
      | inr m ↦ let u' : u ≡ v = ground (arith, l, m, e) in rw u' at p
    ]
  ]

  pub put-AllValues :
      (P : V → Type 0) (v : V) (entries : List (K × V))
      → AllValues P entries
      → P v
      → AllValues P (put less key v entries)
  unfolding put
  put-AllValues P v [] a p = (p, tt)
  put-AllValues P v ((k, u) ∷ entries) (q, a) p = elim (Bool-cases (less key k)) [
    | inl l ↦ rw l (p, (q, a))
    | inr l ↦ elim (Bool-cases (less k key)) [
      | inl m ↦ rw (l, m) (q, put-AllValues P v entries a p)
      | inr m ↦ rw (l, m) (p, a)
    ]
  ]

  pub erase-AllValues :
      (P : V → Type 0) (entries : List (K × V))
      → AllValues P entries
      → AllValues P (erase less key entries)
  unfolding erase
  erase-AllValues P [] a = tt
  erase-AllValues P ((k, u) ∷ entries) (q, a) = elim (Bool-cases (less key k)) [
    | inl l ↦ rw l (q, a)
    | inr l ↦ elim (Bool-cases (less k key)) [
      | inl m ↦ rw (l, m) (q, erase-AllValues P entries a)
      | inr m ↦ rw (l, m) a
    ]
  ]

  pub total-find :
      (w : V → ℕ) (v : V) (entries : List (K × V))
      → find less key entries ≡ some v
      → w v ≤ total w entries
  unfolding find
  total-find w v [] e = absurd (ground arith)
  total-find w v ((k, u) ∷ entries) e = ground (arith, total-find w v entries)

  pub find-put :
      (new : V) (entries : List (K × V))
      → less key key ≡ false
      → find less key (put less key new entries) ≡ some new
  unfolding find put
  find-put new [] e = ground (arith, e)
  find-put new ((k, v) ∷ entries) e = ground (arith, e, find-put new entries)

  pub find-head :
      (v : V) (entries : List (K × V))
      → less key key ≡ false
      → find less key ((key, v) ∷ entries) ≡ some v
  unfolding find
  find-head v entries e = ground (arith, e)

  pub put-put :
      (old new : V) (entries : List (K × V))
      → less key key ≡ false
      → put less key new (put less key old entries) ≡ put less key new entries
  unfolding put
  put-put old new [] e = ground (arith, e)
  put-put old new ((k, v) ∷ entries) e = ground (arith, e, put-put old new entries)

  pub erase-head :
      (v : V) (entries : List (K × V))
      → less key key ≡ false
      → erase less key ((key, v) ∷ entries) ≡ entries
  unfolding erase
  erase-head v entries e = ground (arith, e)
