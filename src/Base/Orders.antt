-- ===== src/Base/Orders.antt =====
-- Strict orders as the comparisons of the standard library's ordered maps: what they have to
-- satisfy, and how std::tie makes one of several.
use mathlib.Core.Path.{◌≡◌, refl}
use mathlib.Core.Logic.{inl, inr}
use mathlib.Core.Bool.{Bool, true, false, not, ◌&&◌, ◌||◌}
use native.Mathlib.Omega.{arith}
use packet_quapture.Base.Tests.{ltb, Bool-cases}

pub record IsOrder {K : Type 0} (less : K → K → Bool) : Type 0 where
  pub irreflexive : (a : K) → less a a ≡ false
  pub transitive : (a b c : K) → less a b ≡ true → less b c ≡ true → less a c ≡ true
  pub total : (a b : K) → less a b ≡ false → less b a ≡ false → a ≡ b

-- Neither of two keys is less than the other.
abbrev pub same : {K : Type 0} → (K → K → Bool) → K → K → Bool
same less a b = not (less a b) && not (less b a)

pub ltb-IsOrder : IsOrder ltb
ltb-IsOrder = record {
  irreflexive = λ a. ground arith;
  transitive = λ a b c h k. ground arith;
  total = λ a b h k. ground arith;
}

-- The order by the first component, and by the second where the first is the same.
abbrev pub lex : {A B : Type 0} → (A → A → Bool) → (B → B → Bool) → A × B → A × B → Bool
lex first second p q = first p.0 q.0 || (not (first q.0 p.0) && second p.1 q.1)

module _ {K : Type 0} {less : K → K → Bool} (o : IsOrder less) where
  pub asymmetric : (a b : K) → less a b ≡ true → less b a ≡ false
  asymmetric a b h = elim (Bool-cases (less b a)) [
    | inr k ↦ k
    | inl k ↦ absurd (ground (arith, o.transitive a b a h k, o.irreflexive a))
  ]

  pub same→≡ : (a b : K) → same less a b ≡ true → a ≡ b
  same→≡ a b h = o.total a b (ground (arith, h)) (ground (arith, h))

module _ {A B : Type 0} {first : A → A → Bool} {second : B → B → Bool} (f : IsOrder first)
    (s : IsOrder second) where
  lex-transitive :
      (a b c : A) (x y z : B)
      → lex first second (a, x) (b, y) ≡ true
      → lex first second (b, y) (c, z) ≡ true
      → lex first second (a, x) (c, z) ≡ true
  lex-transitive a b c x y z h k = elim (Bool-cases (first a b)) [
    | inl p ↦ elim (Bool-cases (first b c)) [
      | inl q ↦ ground (arith, f.transitive a b c p q)
      | inr q ↦
          let e : b ≡ c = f.total b c q (ground (arith, q, k)) in
          let r : first a c ≡ true = rw (← e) p in ground (arith, r)
    ]
    | inr p ↦
        let e : a ≡ b = f.total a b p (ground (arith, p, h)) in
        elim (Bool-cases (first b c)) [
          | inl q ↦ let r : first a c ≡ true = rw e q in ground (arith, r)
          | inr q ↦
              let e' : b ≡ c = f.total b c q (ground (arith, q, k)) in
              let t = s.transitive x y z (ground (arith, p, h)) (ground (arith, q, k)) in
              let r : first c a ≡ false = rw (e, e') (f.irreflexive c) in ground (arith, t, r)
        ]
  ]

  lex-total :
      (a b : A) (x y : B)
      → lex first second (a, x) (b, y) ≡ false
      → lex first second (b, y) (a, x) ≡ false
      → ◌≡◌ {A = A × B} (a, x) (b, y)
  lex-total a b x y h k =
      let e = f.total a b (ground (arith, h)) (ground (arith, k)) in
      let d = s.total x y (ground (arith, h, k)) (ground (arith, h, k)) in rw (e, d) refl

  pub lex-IsOrder : IsOrder (lex first second)
  lex-IsOrder = record {
    irreflexive = λ (a, x). ground (arith, f.irreflexive a, s.irreflexive x);
    transitive = λ (a, x) (b, y) (c, z). lex-transitive a b c x y z;
    total = λ (a, x) (b, y). lex-total a b x y;
  }

-- An order of the images under a function that keeps keys apart.
pub image-IsOrder :
    {K A : Type 0} (f : K → A) {less : A → A → Bool}
    → ((a b : K) → f a ≡ f b → a ≡ b)
    → IsOrder less
    → IsOrder (λ (a b : K). less (f a) (f b))
image-IsOrder f apart o = record {
  irreflexive = λ a. o.irreflexive (f a);
  transitive = λ a b c. o.transitive (f a) (f b) (f c);
  total = λ a b h k. apart a b (o.total (f a) (f b) h k);
}
