-- ===== src/Dns/Decoder/Total.antt =====
-- `Name` ends within its steps: no assertion of it fails.
use packet_quapture.Base.{
  ℕ, zero, suc, ◌+◌, ◌-◌, ◌*◌, ◌/◌, ◌%◌, ◌≤◌, ◌<◌, ◌≡◌, ◌≢◌, refl, true, false, not, ◌||◌, ◌==◌,
  ltb, leb, Bytes, arith, Bool-cases, inl, inr, ◌⊎◌,
}
use packet_quapture.Dns.Decoder.{
  Parsed, parsed, malformed, asserted, and_then, has_bytes, work_max, steps_max, NameState, Named,
  NamePass, next, done, follow, take_label, read_label, advance_name, name_pass, name_loop,
  start_name, read_name,
}

-- The counts of a name so far: a label takes at least two of the 255 octets.
record IsCounted (size start : ℕ) (s : NameState) : Type 0 where
  octets : 1 + (s.labels + s.labels) ≤ s.expanded
  fits : s.expanded ≤ 255
  pointers : s.pointers ≤ 127
  inside : s.cursor ≤ size
  within : s.segment ≤ size
  jumped : s.jumped ≡ true → (start < s.offset) × (s.offset ≤ size)

-- What a name that is read promises.
pub record IsNamed (size start work : ℕ) (n : Named) : Type 0 where
  pub ahead : start < n.offset
  pub inside : n.offset ≤ size
  pub worked : work < n.work
  pub bounded : n.work ≤ work_max

-- The passes that can follow: each takes a label or a pointer.
abbrev left : NameState → ℕ
left s = 254 - (s.labels + s.pointers)

abbrev PassIsGood : ℕ → ℕ → ℕ → ℕ → Parsed NamePass → Type 0
PassIsGood size start l work malformed = Unit {0}
PassIsGood size start l work asserted = ⊥
PassIsGood size start l work (parsed (next t)) =
    IsCounted size start t × (left t < l) × (t.work ≡ work) × (t.jumped ≡ false → start ≤ t.cursor)
PassIsGood size start l work (parsed (done n)) =
    (start < n.offset) × (n.offset ≤ size) × (n.work ≡ work)

module _ (octets : Bytes) (size start : ℕ) (s : NameState) (h : IsCounted size start s)
    (ahead : s.jumped ≡ false → start < s.cursor) where
  follow-IsGood : (byte : ℕ) → PassIsGood size start (left s) s.work (follow octets size s byte)
  unfolding follow
  follow-IsGood byte = elim (Bool-cases (not (has_bytes size s.cursor 1))) [
    | inl a ↦ rw a tt
    | inr a ↦
        elim (Bool-cases (
          ltb (byte % 64 * 256 + octets s.cursor) 12
          || leb s.segment (byte % 64 * 256 + octets s.cursor))) [
            | inl b ↦ rw (a, b) tt
            | inr b ↦ elim (Bool-cases (ltb 127 (s.pointers + 1))) [
              | inl c ↦ rw (a, b, c) tt
              | inr c ↦
                  rw (a, b, c)
                    (
                      record {
                        octets = h.octets;
                        fits = h.fits;
                        pointers = ground (arith, c);
                        inside = ground (arith, b, h.within);
                        within = ground (arith, b, h.within);
                        jumped = λ _. elim (Bool-cases s.jumped) [
                          | inl j ↦ rw j (h.jumped j)
                          | inr j ↦ rw j (ground (arith, a, ahead j))
                        ];
                      },
                      ground (arith, h.octets, h.fits, c),
                      refl,
                      λ j. absurd (ground (arith, j)),
                    )
            ]
          ]
  ]

  take_label-IsGood :
      (amount : ℕ)
      → amount ≢ 0
      → s.cursor + amount ≤ size
      → PassIsGood size start (left s) s.work (take_label octets s amount)
  unfolding take_label
  take_label-IsGood amount n l = elim (Bool-cases (ltb 255 (s.expanded + (amount + 1)))) [
    | inl a ↦ rw a tt
    | inr a ↦ elim (Bool-cases (ltb 127 (s.labels + 1))) [
      | inl b ↦ absurd (ground (arith, a, b, h.octets, n))
      | inr b ↦
          rw (a, b)
            (
              record {
                octets = ground (arith, h.octets, n);
                fits = ground (arith, a);
                pointers = h.pointers;
                inside = l;
                within = h.within;
                jumped = h.jumped;
              },
              ground (arith, h.octets, h.fits, a, n, h.pointers),
              refl,
              λ j. omega (arith, ahead j),
            )
    ]
  ]

  read_label-IsGood :
      (amount : ℕ) → PassIsGood size start (left s) s.work (read_label octets size s amount)
  unfolding read_label
  read_label-IsGood amount =
      elim (Bool-cases (ltb 63 amount || not (has_bytes size s.cursor amount))) [
        | inl a ↦ rw a tt
        | inr a ↦ elim (Bool-cases (amount == 0)) [
          | inl b ↦
              rw (a, b)
                (elim (Bool-cases s.jumped) [
                  | inl j ↦ rw j (let (p, q) = h.jumped j in (p, q, refl))
                  | inr j ↦ rw j (ahead j, h.inside, refl)
                ])
          | inr b ↦ rw (a, b) (take_label-IsGood amount (ground (arith, b)) (ground (arith, a)))
        ]
      ]

name_pass-IsGood :
    (octets : Bytes) (size start : ℕ) (s : NameState)
    → IsCounted size start s
    → (s.jumped ≡ false → start ≤ s.cursor)
    → PassIsGood size start (left s) (s.work + 1) (name_pass octets size s)
unfolding name_pass
name_pass-IsGood octets size start s h ahead =
    elim (Bool-cases (ltb work_max (s.work + 1) || not (has_bytes size s.cursor 1))) [
      | inl a ↦ rw a tt
      | inr a ↦
          let k : IsCounted size start (advance_name s) = record {
            octets = h.octets;
            fits = h.fits;
            pointers = h.pointers;
            inside = ground (arith, a);
            within = h.within;
            jumped = h.jumped;
          } in
          let ahead' : s.jumped ≡ false → start < s.cursor + 1 = λ j. omega (arith, ahead j) in
          elim (Bool-cases (octets s.cursor / 64 % 4 == 3)) [
            | inl b ↦
                rw (a, b)
                  (follow-IsGood octets size start (advance_name s) k ahead' (octets s.cursor))
            | inr b ↦
                rw (a, b)
                  (read_label-IsGood octets size start (advance_name s) k ahead' (octets s.cursor))
          ]
    ]

name_pass-work :
    (octets : Bytes) (size : ℕ) (s : NameState)
    → (name_pass octets size s ≡ malformed) ⊎ (s.work + 1 ≤ work_max)
unfolding name_pass
name_pass-work octets size s = elim (Bool-cases (ltb work_max (s.work + 1))) [
  | inl a ↦ inl (ground (arith, a))
  | inr a ↦ inr (ground (arith, a))
]

abbrev ResultIsNamed : ℕ → ℕ → ℕ → Parsed Named → Type 0
ResultIsNamed size start work malformed = Unit {0}
ResultIsNamed size start work asserted = ⊥
ResultIsNamed size start work (parsed n) = IsNamed size start work n

-- The loop behind a pass.
after_pass :
    (steps : ℕ) (octets : Bytes) (size start work : ℕ) (s : NameState) (p : Parsed NamePass)
    → work ≤ s.work
    → PassIsGood size start (left s) (s.work + 1) p
    → (p ≡ malformed) ⊎ (s.work + 1 ≤ work_max)
    → ((t : NameState)
        → IsCounted size start t
        → (t.jumped ≡ false → start ≤ t.cursor)
        → left t < left s
        → work ≤ t.work
        → ResultIsNamed size start work (name_loop steps octets size t))
    → ResultIsNamed size start work
        (and_then p (λ q. elim q [ done n ↦ parsed n | next t ↦ name_loop steps octets size t ]))
after_pass steps octets size start work s malformed w g b rec = tt
after_pass steps octets size start work s asserted w g b rec = g
after_pass steps octets size start work s (parsed (done n)) w (p, q, e) b rec = record {
  ahead = p;
  inside = q;
  worked = omega (arith, e);
  bounded = ground (arith, e, b);
}
after_pass steps octets size start work s (parsed (next t)) w (k, l, e, a) b rec =
    rec t k a l (omega (arith, e))

name_loop-IsNamed :
    (steps : ℕ) (octets : Bytes) (size start work : ℕ) (s : NameState)
    → IsCounted size start s
    → (s.jumped ≡ false → start ≤ s.cursor)
    → left s < steps
    → work ≤ s.work
    → ResultIsNamed size start work (name_loop steps octets size s)
unfolding name_loop
name_loop-IsNamed zero octets size start work s h ahead f w = absurd (omega arith)
name_loop-IsNamed (suc steps) octets size start work s h ahead f w =
    after_pass steps octets size start work s (name_pass octets size s) w
      (name_pass-IsGood octets size start s h ahead) (name_pass-work octets size s)
      (λ t k a l v. name_loop-IsNamed steps octets size start work t k a (omega arith) v)

-- `Name` never fails an assertion, whatever the bytes: the loop ends within its steps. A name that it
-- reads ends behind its start and inside the message, and has cost work within the budget.
pub read_name-IsNamed :
    (octets : Bytes) (size offset work : ℕ)
    → offset ≤ size
    → (read_name octets size offset work ≢ asserted)
      × ((n : Named) → read_name octets size offset work ≡ parsed n → IsNamed size offset work n)
unfolding read_name
read_name-IsNamed octets size offset work h =
    let r =
      name_loop-IsNamed steps_max octets size offset work (start_name offset work)
        (record {
          octets = omega arith;
          fits = omega arith;
          pointers = omega arith;
          inside = h;
          within = h;
          jumped = λ j. absurd (ground (arith, j));
        })
        (λ _. omega arith) (omega arith) (omega arith) in
    (λ e. rw e at r, λ n e. rw e at r)
