-- ===== src/Tls/Handshake/Lists/Bounded.antt =====
-- The readers of lists of src/tls_handshake.cpp: the limit on a list, and their assertions.
use packet_quapture.Base.{
  ℕ, zero, suc, ◌+◌, ◌/◌, ◌%◌, ◌≤◌, ◌<◌, ◌≡◌, refl, Bool, true, false, not, ◌&&◌, ◌||◌, List, [],
  ◌∷◌, ◌++◌, ◌==◌, ltb, leb, if◌then◌else◌, Option, some, length as count, Yields, Yields->>=,
  Yields-if, arith, Option-cases, Bool-cases, inl, inr, length-append, length-slice, min, slice,
}
use packet_quapture.Tls.Reader.{
  TlsReader, remaining, u8_of, u16_of, skip, sub, take_bytes, vector_length,
}
use packet_quapture.Tls.Handshake.Types.{
  TlsList, no_list, malformed_list, limited_list, present_list, ListBudget, exceed,
}
use packet_quapture.Tls.Handshake.Lists.{
  codes_loop, ListRead, read_values, read_codes, Listed, read_point_formats, Walk, broken, walked,
  alpn_loop, alpn_list, read_alpn, is_seen, unless_duplicate,
}

-- A list of at most `cap` values, which has values only if it is present, and is then neither
-- malformed nor over the limit.
pub record IsListed {A : Type 0} (cap : ℕ) (list : TlsList A) : Type 0 where
  pub bounded : count list.values ≤ cap
  pub empty : list.present ≡ false → list.values ≡ []
  pub known : list.present ≡ true → (list.malformed ≡ false) × (list.over_limit ≡ false)

-- What a reader of a list gives.
pub record IsRead {A : Type 0} (cap : ℕ) (l : Listed A) : Type 0 where
  pub cap_kept : l.0.cap_entries ≡ cap
  pub listed : IsListed cap l.1

u16_advances :
    (r : TlsReader)
    → r.overrun ≡ false
    → 2 ≤ remaining r
    → ((u16_of r).1.overrun ≡ false) × (remaining (u16_of r).1 + 2 ≡ remaining r)
unfolding u16_of u8_of
u16_advances r o l = ground (arith, o, l)

u8_advances :
    (r : TlsReader)
    → r.overrun ≡ false
    → 1 ≤ remaining r
    → ((u8_of r).1.overrun ≡ false) × (remaining (u8_of r).1 + 1 ≡ remaining r)
unfolding u8_of
u8_advances r o l = ground (arith, o, l)

skip_advances :
    (r : TlsReader) (length : ℕ)
    → r.overrun ≡ false
    → length ≤ remaining r
    → ((skip r length).0 ≡ true)
      × ((skip r length).1.overrun ≡ false)
      × (remaining (skip r length).1 + length ≡ remaining r)
unfolding skip
skip_advances r length o l = ground (arith, o, l)

take_advances :
    (r : TlsReader) (length : ℕ)
    → r.overrun ≡ false
    → length ≤ remaining r
    → ((take_bytes r length).1.overrun ≡ false)
      × (remaining (take_bytes r length).1 + length ≡ remaining r)
unfolding take_bytes
take_advances r length o l = ground (arith, o, l)

-- An even number of bytes is read as half as many code points.
codes_loop-count :
    (n fuel : ℕ) (r : TlsReader)
    → r.overrun ≡ false
    → remaining r ≡ n + n
    → n < fuel
    → (codes : List ℕ) × (r' : TlsReader) × (codes_loop fuel r ≡ some (codes, r'))
      × (r'.overrun ≡ false)
      × (count codes ≡ n)
unfolding codes_loop
codes_loop-count n zero r o e l = absurd (omega arith)
codes_loop-count zero (suc fuel) r o e l = ([], r, ground (arith, e), o, refl)
codes_loop-count (suc n) (suc fuel) r o e l =
    let code = (u16_of r).0 in
    let r1 = (u16_of r).1 in
    let s = u16_advances r o (ground (arith, e)) in
    let (codes, r2, f, o', c) =
      codes_loop-count n fuel r1 s.0 (omega (arith, s, e)) (omega arith) in
    (code ∷ codes, r2, ground (arith, e, f), o', ground (arith, c))

pub no_list-IsListed : {A : Type 0} (cap : ℕ) → IsListed {A = A} cap no_list
no_list-IsListed cap = record {
  bounded = omega arith;
  empty = λ _. refl;
  known = λ e. absurd (ground (arith, e));
}

pub malformed-IsListed : {A : Type 0} (cap : ℕ) → IsListed {A = A} cap malformed_list
malformed-IsListed cap = record {
  bounded = omega arith;
  empty = λ _. refl;
  known = λ e. absurd (ground (arith, e));
}

pub limited-IsListed : {A : Type 0} (cap : ℕ) → IsListed {A = A} cap limited_list
limited-IsListed cap = record {
  bounded = omega arith;
  empty = λ _. refl;
  known = λ e. absurd (ground (arith, e));
}

pub present-IsListed :
    {A : Type 0} (cap : ℕ) (values : List A)
    → count values ≤ cap
    → IsListed cap (present_list values)
present-IsListed cap values l = record {
  bounded = l;
  empty = λ e. absurd (ground (arith, e));
  known = λ _. (refl, refl);
}

-- The budget and the list of what `ReadCodes` gives.
abbrev pub listed_of : {A : Type 0} → ListRead A → Listed A
listed_of l = (l.budget, l.list)

abbrev pub IsCodes : ℕ → ListRead ℕ → Type 0
IsCodes cap l = IsRead cap (listed_of l)

read_values-IsCodes :
    (length : ℕ) (codes r : TlsReader) (budget : ListBudget)
    → codes.overrun ≡ false
    → remaining codes ≡ length
    → length % 2 ≡ 0
    → length / 2 ≤ budget.cap_entries
    → Yields (IsCodes budget.cap_entries) (read_values length codes r budget)
unfolding read_values
read_values-IsCodes length codes r budget o e d l =
    let (values, r', f, o', c) =
      codes_loop-count (length / 2) (suc length) codes o (omega (arith, e, d)) (omega arith) in
    let g : (not r'.overrun && leb (count values) budget.cap_entries) ≡ true =
      ground (arith, o', c, l) in
    let p = present-IsListed budget.cap_entries values (ground (arith, c, l)) in
    rw (f, g) (record { cap_kept = refl; listed = p })

sub-remaining :
    (r : TlsReader) (length : ℕ) (inner : TlsReader)
    → (sub r length).0 ≡ some inner
    → (inner.overrun ≡ false) × (remaining inner ≡ length)
unfolding sub
sub-remaining r length inner e = ground (arith, e)

pub read_codes-IsCodes :
    (r : TlsReader) (length_bytes : ℕ) (exact : Bool) (budget : ListBudget)
    → Yields (IsCodes budget.cap_entries) (read_codes r length_bytes exact budget)
unfolding read_codes
read_codes-IsCodes r length_bytes exact budget =
    let length = (vector_length r length_bytes).0 in
    let r1 = (vector_length r length_bytes).1 in
    let r2 = (sub r1 length).1 in
    let cap = budget.cap_entries in
    let bad = malformed-IsListed {A = ℕ} cap in
    elim (Option-cases (sub r1 length).0) [
      | inl n ↦ rw (n, read_codes) (record { cap_kept = refl; listed = bad })
      | inr (inner, n) ↦
          let (o, m) = sub-remaining r1 length inner n in
          let Good = IsCodes cap in
          let failed : ListRead ℕ = record {
            complete = false;
            reader = r1;
            budget = budget;
            list = malformed_list;
          } in
          let badly : Good failed = record { cap_kept = refl; listed = bad } in
          let odd = not (length % 2 == 0) || exact && not (remaining r2 == 0) in
          let over : ListRead ℕ = record {
            complete = true;
            reader = r2;
            budget = exceed budget;
            list = limited_list;
          } in
          rw (n, read_codes)
            (Yields-if Good r1.overrun (some failed)
              (if odd
                then some (record failed { complete = true; reader = r2 })
                else if ltb cap (length / 2)
                then some over
                else read_values length inner r2 budget)
              (λ _. badly)
              (λ _.
                Yields-if Good odd (some (record failed { complete = true; reader = r2 }))
                  (if ltb cap (length / 2) then some over else read_values length inner r2 budget)
                  (λ _. badly)
                  (λ even.
                    Yields-if Good (ltb cap (length / 2)) (some over)
                      (read_values length inner r2 budget)
                      (λ _. record { cap_kept = refl; listed = limited-IsListed cap })
                      (λ fits.
                        read_values-IsCodes length inner r2 budget o m (ground (arith, even))
                          (ground (arith, fits))))))
    ]

take_bytes_length :
    (r : TlsReader) (length : ℕ)
    → length ≤ remaining r
    → (values : List ℕ) × ((take_bytes r length).0 ≡ some values) × (count values ≡ length)
unfolding take_bytes
take_bytes_length r length h =
    (slice r.bytes r.offset length, ground (arith, h), length-slice r.bytes r.offset length)

pub read_point_formats-IsRead :
    (r : TlsReader) (budget : ListBudget)
    → Yields (IsRead budget.cap_entries) (read_point_formats r budget)
unfolding read_point_formats
read_point_formats-IsRead r budget =
    let length = (u8_of r).0 in
    let r1 = (u8_of r).1 in
    let cap = budget.cap_entries in
    elim (Bool-cases (r1.overrun || not (remaining r1 == length))) [
      | inl e ↦
          rw (e, read_point_formats) (record { cap_kept = refl; listed = malformed-IsListed cap })
      | inr e ↦
          let (values, f, c) = take_bytes_length r1 length (ground (arith, e)) in
          elim (Bool-cases (ltb cap length)) [
            | inl g ↦
                rw (e, g, read_point_formats)
                  (record { cap_kept = refl; listed = limited-IsListed cap })
            | inr g ↦
                let fits : leb (count values) cap ≡ true = ground (arith, c, g) in
                let p = present-IsListed cap values (ground (arith, c, g)) in
                rw (e, g, f, fits, read_point_formats) (record { cap_kept = refl; listed = p })
          ]
    ]

-- The names that are kept are all, up to the cap.
abbrev IsWalk : ℕ → Walk → Type 0
IsWalk cap broken = Unit {0}
IsWalk cap (walked number protocols) = count protocols ≡ min number cap

alpn_loop-IsWalk :
    (fuel cap : ℕ) (r : TlsReader) (number : ℕ) (protocols : List (List ℕ))
    → r.overrun ≡ false
    → remaining r < fuel
    → count protocols ≡ min number cap
    → Yields (IsWalk cap) (alpn_loop fuel cap r number protocols)
unfolding alpn_loop
alpn_loop-IsWalk zero cap r number protocols o l c = absurd (omega arith)
alpn_loop-IsWalk (suc fuel) cap r number protocols o l c = elim (Bool-cases (remaining r == 0)) [
  | inl e ↦ rw (e, o) c
  | inr e ↦
      let length = (u8_of r).0 in
      let r1 = (u8_of r).1 in
      let s = u8_advances r o (ground (arith, e)) in
      elim (Bool-cases (r1.overrun || length == 0 || ltb (remaining r1) length)) [
        | inl f ↦ rw (e, f) tt
        | inr f ↦
            let (protocol, g, _) = take_bytes_length r1 length (ground (arith, f)) in
            let k = skip_advances r1 length s.0 (ground (arith, f)) in
            let t = take_advances r1 length s.0 (ground (arith, f)) in
            let more : count (protocols ++ protocol ∷ []) ≡ suc (count protocols) =
              omega (arith, length-append protocols (protocol ∷ [])) in
            elim (Bool-cases (ltb cap (number + 1))) [
              | inl p ↦
                  let rest =
                    alpn_loop-IsWalk fuel cap (skip r1 length).1 (number + 1) protocols k.1
                      (omega (arith, k, s, l)) (ground (arith, c, p)) in
                  rw (e, f, p, k.0) rest
              | inr p ↦
                  let rest =
                    alpn_loop-IsWalk fuel cap (take_bytes r1 length).1 (number + 1)
                      (protocols ++ protocol ∷ []) t.0 (omega (arith, t, s, l))
                      (ground (arith, c, p, more)) in
                  rw (e, f, p, g) rest
            ]
      ]
]

alpn_list-IsRead :
    (client : Bool) (budget : ListBudget) (walk : Walk)
    → IsWalk budget.cap_entries walk
    → Yields (IsRead budget.cap_entries) (alpn_list client budget walk)
unfolding alpn_list
alpn_list-IsRead client budget broken h = record {
  cap_kept = refl;
  listed = malformed-IsListed budget.cap_entries;
}
alpn_list-IsRead client budget (walked number protocols) h =
    let cap = budget.cap_entries in
    elim (Bool-cases (number == 0 || not client && not (number == 1))) [
      | inl e ↦ rw e (record { cap_kept = refl; listed = malformed-IsListed cap })
      | inr e ↦ elim (Bool-cases (ltb cap number)) [
        | inl g ↦ rw (e, g) (record { cap_kept = refl; listed = limited-IsListed cap })
        | inr g ↦
            let fits : (count protocols == number) ≡ true = ground (arith, h, g) in
            let p = present-IsListed cap protocols (ground (arith, h, g)) in
            rw (e, g, fits) (record { cap_kept = refl; listed = p })
      ]
    ]

pub read_alpn-IsRead :
    (r : TlsReader) (client : Bool) (budget : ListBudget)
    → Yields (IsRead budget.cap_entries) (read_alpn r client budget)
unfolding read_alpn
read_alpn-IsRead r client budget =
    let length = (u16_of r).0 in
    let r1 = (u16_of r).1 in
    let cap = budget.cap_entries in
    elim (Bool-cases (r1.overrun || not (remaining r1 == length))) [
      | inl e ↦ rw (e, read_alpn) (record { cap_kept = refl; listed = malformed-IsListed cap })
      | inr e ↦
          let walk =
            alpn_loop-IsWalk (suc length) cap r1 0 [] (ground (arith, e)) (ground (arith, e))
              (omega arith) in
          rw (e, read_alpn)
            (Yields->>= (IsWalk cap) (IsRead cap) (alpn_loop (suc length) cap r1 0 [])
              (alpn_list client budget) walk (λ w h. alpn_list-IsRead client budget w h))
    ]

pub unless_duplicate-IsRead :
    {A : Type 0} (list : TlsList A) (budget : ListBudget) (read : Option (Listed A))
    → Yields (IsRead budget.cap_entries) read
    → Yields (IsRead budget.cap_entries) (unless_duplicate list budget read)
unfolding unless_duplicate
unless_duplicate-IsRead list budget read h =
    Yields-if (IsRead budget.cap_entries) (is_seen list) (some (budget, malformed_list)) read
      (λ _. record { cap_kept = refl; listed = malformed-IsListed budget.cap_entries }) (λ _. h)
