-- ===== src/Base/Maps/Sorted.antt =====
-- What the ordered maps hold under each key, where their entries stand in the order of the keys.
use mathlib.Core.Path.{◌≡◌, refl}
use mathlib.Core.Bool.{Bool, true}
use mathlib.Core.List.{List, [], ◌∷◌}
use mathlib.Core.Option.{none, some}
use mathlib.Core.Logic.{inl, inr}
use native.Mathlib.Omega.{arith}
use packet_quapture.Base.Tests.{if◌then◌else◌, Bool-cases}
use packet_quapture.Base.Orders.{IsOrder, same, asymmetric, same→≡}
use packet_quapture.Base.Maps.{find, put, erase}

module _ {K : Type 0} {V : Type 0} where
  -- The key is less than that of the first entry.
  abbrev pub Below : (K → K → Bool) → K → List (K × V) → Type 0
  Below less key [] = Unit {0}
  Below less key ((k, _) ∷ _) = less key k ≡ true

  abbrev pub Sorted : (K → K → Bool) → List (K × V) → Type 0
  Sorted less [] = Unit {0}
  Sorted less ((k, _) ∷ entries) = Below less k entries × Sorted less entries

  abbrev pub AllKeys : (K → Type 0) → List (K × V) → Type 0
  AllKeys P [] = Unit {0}
  AllKeys P ((k, _) ∷ entries) = P k × AllKeys P entries

  pub AllKeys-mono :
      (P Q : K → Type 0) (entries : List (K × V))
      → ((k : K) → P k → Q k)
      → AllKeys P entries
      → AllKeys Q entries
  AllKeys-mono P Q [] f h = tt
  AllKeys-mono P Q ((k, v) ∷ entries) f (p, h) = (f k p, AllKeys-mono P Q entries f h)

module _ {K : Type 0} {V : Type 0} {less : K → K → Bool} (o : IsOrder less) where
  Below-trans :
      (j k : K) (entries : List (K × V))
      → less j k ≡ true
      → Below less k entries
      → Below less j entries
  Below-trans j k [] h b = tt
  Below-trans j k ((i, _) ∷ entries) h b = o.transitive j k i h b

  find-Below :
      (key : K) (entries : List (K × V)) → Below less key entries → find less key entries ≡ none
  unfolding find
  find-Below key [] b = refl
  find-Below key ((k, v) ∷ entries) b = ground (arith, b)

  -- What a key has behind the other key's entry was put.
  pub find-put-at :
      (j key : K) (new : V) (entries : List (K × V))
      → Sorted less entries
      → find less j (put less key new entries)
        ≡ (if same less j key then some new else find less j entries)
  unfolding find put
  find-put-at j key new [] s = ground arith
  find-put-at j key new ((k, v) ∷ entries) (b, s) = elim (Bool-cases (less key k)) [
    | inl p ↦ ground (arith, p, o.transitive j key k)
    | inr p ↦ elim (Bool-cases (less k key)) [
      | inl q ↦ elim (Bool-cases (same less j k)) [
        | inl r ↦
            let e = same→≡ o j k r in
            let l : less j key ≡ true = rw e q in ground (arith, p, q, r, l)
        | inr r ↦ ground (arith, p, q, r, o.transitive j k key, find-put-at j key new entries s)
      ]
      | inr q ↦
          let e : key ≡ k = o.total key k p q in
          let l : less j key ≡ less j k = rw e refl in
          let m : less key j ≡ less k j = rw e refl in ground (arith, p, q, l, m)
    ]
  ]

  -- What a key has behind the other key's entry was taken out.
  pub find-erase-at :
      (j key : K) (entries : List (K × V))
      → Sorted less entries
      → find less j (erase less key entries)
        ≡ (if same less j key then none else find less j entries)
  unfolding find erase
  find-erase-at j key [] s = ground arith
  find-erase-at j key ((k, v) ∷ entries) (b, s) = elim (Bool-cases (less key k)) [
    | inl p ↦ elim (Bool-cases (same less j key)) [
      | inl r ↦
          let e = same→≡ o j key r in let l : less j k ≡ true = rw e p in ground (arith, p, r, l)
      | inr r ↦ ground (arith, p, r)
    ]
    | inr p ↦ elim (Bool-cases (less k key)) [
      | inl q ↦ elim (Bool-cases (same less j k)) [
        | inl r ↦
            let e = same→≡ o j k r in
            let l : less j key ≡ true = rw e q in ground (arith, p, q, r, l)
        | inr r ↦ ground (arith, p, q, r, o.transitive j k key, find-erase-at j key entries s)
      ]
      | inr q ↦
          let e : key ≡ k = o.total key k p q in
          let l : less j key ≡ less j k = rw e refl in
          let m : less key j ≡ less k j = rw e refl in
          elim (Bool-cases (less k j)) [
            | inl r ↦ ground (arith, p, q, l, m, r, asymmetric o k j r)
            | inr r ↦ elim (Bool-cases (less j k)) [
              | inl t ↦
                  let u = find-Below j entries (Below-trans j k entries t b) in
                  ground (arith, p, q, l, m, r, t, u)
              | inr t ↦
                  let d : j ≡ k = o.total j k t r in
                  let u : find less j entries ≡ none = rw d (find-Below k entries b) in
                  ground (arith, p, q, l, m, r, t, u)
            ]
          ]
    ]
  ]

  put-Below :
      (j key : K) (new : V) (entries : List (K × V))
      → less j key ≡ true
      → Below less j entries
      → Below less j (put less key new entries)
  unfolding put
  put-Below j key new [] h b = h
  put-Below j key new ((k, v) ∷ entries) h b = ground (arith, h, b)

  pub put-Sorted :
      (key : K) (new : V) (entries : List (K × V))
      → Sorted less entries
      → Sorted less (put less key new entries)
  unfolding put
  put-Sorted key new [] s = (tt, tt)
  put-Sorted key new ((k, v) ∷ entries) (b, s) = elim (Bool-cases (less key k)) [
    | inl p ↦ rw p (p, (b, s))
    | inr p ↦ elim (Bool-cases (less k key)) [
      | inl q ↦ rw (p, q) (put-Below k key new entries q b, put-Sorted key new entries s)
      | inr q ↦ rw (p, q) (b, s)
    ]
  ]

  erase-Below :
      (j key : K) (entries : List (K × V))
      → Sorted less entries
      → Below less j entries
      → Below less j (erase less key entries)
  unfolding erase
  erase-Below j key [] s b = tt
  erase-Below j key ((k, v) ∷ entries) (c, s) b = elim (Bool-cases (less key k)) [
    | inl p ↦ rw p b
    | inr p ↦ elim (Bool-cases (less k key)) [
      | inl q ↦ rw (p, q) b
      | inr q ↦ rw (p, q) (Below-trans j k entries b c)
    ]
  ]

  pub erase-Sorted :
      (key : K) (entries : List (K × V))
      → Sorted less entries
      → Sorted less (erase less key entries)
  unfolding erase
  erase-Sorted key [] s = tt
  erase-Sorted key ((k, v) ∷ entries) (b, s) = elim (Bool-cases (less key k)) [
    | inl p ↦ rw p (b, s)
    | inr p ↦ elim (Bool-cases (less k key)) [
      | inl q ↦ rw (p, q) (erase-Below k key entries s b, erase-Sorted key entries s)
      | inr q ↦ rw (p, q) s
    ]
  ]

  -- Each key of the entries leads to a value.
  abbrev pub Leads : List (K × V) → K → Type 0
  Leads entries key = (v : V) × (find less key entries ≡ some v)

  above-AllKeys :
      (key : K) (entries : List (K × V))
      → Below less key entries
      → Sorted less entries
      → AllKeys (λ j. less key j ≡ true) entries
  above-AllKeys key [] b s = tt
  above-AllKeys key ((k, v) ∷ entries) b (c, s) =
      (b, above-AllKeys key entries (Below-trans key k entries b c) s)

  later-AllKeys :
      (k : K) (v : V) (entries keys : List (K × V))
      → AllKeys (λ j. less k j ≡ true) keys
      → AllKeys (Leads entries) keys
      → AllKeys (Leads ((k, v) ∷ entries)) keys
  unfolding find
  later-AllKeys k v entries [] a h = tt
  later-AllKeys k v entries ((j, _) ∷ keys) (l, a) ((w, e), h) =
      ((w, ground (arith, l, e, asymmetric o k j l)), later-AllKeys k v entries keys a h)

  pub Sorted-Leads :
      (entries : List (K × V)) → Sorted less entries → AllKeys (Leads entries) entries
  unfolding find
  Sorted-Leads [] s = tt
  Sorted-Leads ((k, v) ∷ entries) (b, s) = (
    (v, ground (arith, o.irreflexive k)),
    later-AllKeys k v entries entries (above-AllKeys k entries b s) (Sorted-Leads entries s),
  )
