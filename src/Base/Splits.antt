-- ===== src/Base/Splits.antt =====
-- Lists cut by `take` and `drop`, and bytes written over a place in them.
use Prim.Native.Nat.{ℕ, zero, suc, ◌+◌, ◌≤◌}
use mathlib.Core.Path.{◌≡◌, refl, sym, ap, ◌∙◌}
use mathlib.Core.List.{List, [], ◌∷◌, ◌++◌, append_assoc}
use native.Mathlib.Omega.{arith}
use packet_quapture.Base.Lists.{length, get_or, take, drop, length-append, length-take}

module _ {ℓ} {A : Type ℓ} where
  pub get_or-drop : (xs : List A) (o i : ℕ) (d : A) → get_or (drop o xs) i d ≡ get_or xs (o + i) d
  get_or-drop xs zero i d = let e : 0 + i ≡ i = omega arith in rw e refl
  get_or-drop [] (suc o) i d = refl
  get_or-drop (x ∷ xs) (suc o) i d =
      let e : suc o + i ≡ suc (o + i) = omega arith in rw e (get_or-drop xs o i d)

  abbrev empty : List A
  empty = []

  drop-nil : (k : ℕ) → drop k empty ≡ []
  drop-nil zero = refl
  drop-nil (suc k) = refl

  pub drop-drop : (xs : List A) (o k : ℕ) → drop (o + k) xs ≡ drop k (drop o xs)
  drop-drop xs zero k = let e : 0 + k ≡ k = omega arith in rw e refl
  drop-drop [] (suc o) k = let e : suc o + k ≡ suc (o + k) = omega arith in rw (e, drop-nil k) refl
  drop-drop (x ∷ xs) (suc o) k =
      let e : suc o + k ≡ suc (o + k) = omega arith in rw e (drop-drop xs o k)

  pub take-append : (xs rest : List A) → take (length xs) (xs ++ rest) ≡ xs
  take-append [] rest = refl
  take-append (x ∷ xs) rest = ap (λ ys. x ∷ ys) (take-append xs rest)

  pub drop-append : (xs rest : List A) → drop (length xs) (xs ++ rest) ≡ rest
  drop-append [] rest = refl
  drop-append (x ∷ xs) rest = drop-append xs rest

  pub take-drop : (n : ℕ) (xs : List A) → take n xs ++ drop n xs ≡ xs
  take-drop zero xs = refl
  take-drop (suc n) [] = refl
  take-drop (suc n) (x ∷ xs) = ap (λ ys. x ∷ ys) (take-drop n xs)

  -- `xs` written over `file` from position `p` on.
  abbrev pub overwrite : ℕ → List A → List A → List A
  overwrite p xs file = (take p file ++ xs) ++ drop (p + length xs) file

  -- Two writes, one behind the other, are one.
  pub overwrite-overwrite :
      (p : ℕ) (xs ys file : List A)
      → p ≤ length file
      → overwrite (p + length xs) ys (overwrite p xs file) ≡ overwrite p (xs ++ ys) file
  overwrite-overwrite p xs ys file h =
      let head = take p file ++ xs in
      let n : p + length xs ≡ length head =
        omega (arith, length-append (take p file) xs, length-take p file) in
      let t : take (p + length xs) (head ++ drop (p + length xs) file) ≡ head =
        rw n (take-append head (drop (length head) file)) in
      let d : drop (p + length xs + length ys) (head ++ drop (p + length xs) file)
          ≡ drop (p + length (xs ++ ys)) file =
        drop-drop (head ++ drop (p + length xs) file) (p + length xs) (length ys)
        ∙ ap (drop (length ys)) (rw n (drop-append head (drop (length head) file)))
        ∙ sym (drop-drop file (p + length xs) (length ys))
        ∙ ap (λ k. drop k file) (omega (arith, length-append xs ys)) in
      rw (t, d)
        (ap (λ l. l ++ drop (p + length (xs ++ ys)) file) (append_assoc (take p file) xs ys))
