-- ===== src/Dns/Decoder/Counts.antt =====
-- `DecodeDns` as a whole: it fails no assertion, and a message that it calls valid has the sections
-- that its header announces.
use packet_quapture.Base.{
  ℕ, zero, suc, ◌+◌, ◌≤◌, ◌≡◌, ◌≢◌, refl, true, not, ◌&&◌, ◌||◌, List, [], ◌∷◌, ◌++◌, ◌==◌, ltb,
  Bytes, be16, length, length-append, arith, Bool-cases, inl, inr,
}
use packet_quapture.Dns.Decoder.{
  Parsed, parsed, malformed, asserted, and_then, has_bytes, Named, read_name, DnsQuestion,
  DnsRecord, Worded, read_target, read_text, Read, read_body, read_records, read_question,
  read_questions, DnsMessage, finish_message, read_sections, or_invalid, decode_dns,
}
use packet_quapture.Dns.Decoder.Total.{read_name-IsNamed}

-- No assertion failed, and a value has the property.
abbrev Good : {A : Type 0} → (A → Type 0) → Parsed A → Type 0
Good P malformed = Unit {0}
Good P asserted = ⊥
Good P (parsed a) = P a

and_then-Good :
    {A B : Type 0} (P : A → Type 0) (Q : B → Type 0) (p : Parsed A) (f : A → Parsed B)
    → Good P p
    → ((a : A) → P a → Good Q (f a))
    → Good Q (and_then p f)
and_then-Good P Q malformed f h k = tt
and_then-Good P Q asserted f h k = h
and_then-Good P Q (parsed a) f h k = k a h

to-Good :
    {A : Type 0} (P : A → Type 0) (p : Parsed A)
    → (p ≢ asserted)
    → ((a : A) → p ≡ parsed a → P a)
    → Good P p
to-Good P malformed n h = tt
to-Good P asserted n h = n refl
to-Good P (parsed a) n h = h a refl

module _ (octets : Bytes) (size : ℕ) where
  abbrev NameEnds : Named → Type 0
  NameEnds n = n.offset ≤ size

  read_name-Good :
      (offset work : ℕ) → offset ≤ size → Good NameEnds (read_name octets size offset work)
  read_name-Good offset work h =
      let (n, k) = read_name-IsNamed octets size offset work h in
      to-Good NameEnds (read_name octets size offset work) n (λ a e. (k a e).inside)

  abbrev Anything : Worded → Type 0
  Anything _ = Unit {0}

  read_target-Good :
      (at amount work : ℕ) → at ≤ size → Good Anything (read_target octets size at amount work)
  unfolding read_target
  read_target-Good at amount work h =
      and_then-Good NameEnds Anything (read_name octets size at work) _ (read_name-Good at work h)
        (λ n _. elim (Bool-cases (n.offset == at + amount)) [ inl e ↦ rw e tt | inr e ↦ rw e tt ])

  read_text-Good :
      (kind klass at amount work : ℕ)
      → at ≤ size
      → Good Anything (read_text octets size kind klass at amount work)
  unfolding read_text
  read_text-Good kind klass at amount work h = elim (Bool-cases (kind == 1 && klass == 1)) [
    | inl a ↦ elim (Bool-cases (amount == 4)) [ inl b ↦ rw (a, b) tt | inr b ↦ rw (a, b) tt ]
    | inr a ↦ elim (Bool-cases (kind == 28 && klass == 1)) [
      | inl b ↦ elim (Bool-cases (amount == 16)) [
        | inl c ↦ rw (a, b, c) tt
        | inr c ↦ rw (a, b, c) tt
      ]
      | inr b ↦ elim (Bool-cases (kind == 2 || kind == 5 || kind == 12)) [
        | inl c ↦ rw (a, b, c) (read_target-Good at amount work h)
        | inr c ↦ rw (a, b, c) tt
      ]
    ]
  ]

  abbrev Ends : {A : Type 0} → Read A → Type 0
  Ends r = r.offset ≤ size

  read_body-Good : (n : Named) → Good Ends (read_body octets size n)
  unfolding read_body
  read_body-Good n = elim (Bool-cases (not (has_bytes size n.offset 10))) [
    | inl a ↦ rw a tt
    | inr a ↦
        elim (Bool-cases (not (has_bytes size (n.offset + 10) (be16 octets (n.offset + 8))))) [
          | inl b ↦ rw (a, b) tt
          | inr b ↦
              let t =
                read_text-Good (be16 octets n.offset) (be16 octets (n.offset + 2)) (n.offset + 10)
                  (be16 octets (n.offset + 8)) n.work (ground (arith, b)) in
              rw (a, b)
                (and_then-Good Anything Ends
                  (read_text octets size (be16 octets n.offset) (be16 octets (n.offset + 2))
                    (n.offset + 10) (be16 octets (n.offset + 8)) n.work)
                  _ t (λ w _. ground (arith, b)))
        ]
  ]

  read_question-Good : (n : Named) → Good Ends (read_question octets size n)
  unfolding read_question
  read_question-Good n = elim (Bool-cases (not (has_bytes size n.offset 4))) [
    | inl a ↦ rw a tt
    | inr a ↦ rw a (ground (arith, a))
  ]

  abbrev Has : {A : Type 0} → ℕ → Read (List A) → Type 0
  Has n r = (r.offset ≤ size) × (length r.value ≡ n)

  read_records-Good :
      (count offset work : ℕ) (records : List DnsRecord)
      → offset ≤ size
      → Good (Has (length records + count)) (read_records octets size count offset work records)
  unfolding read_records
  read_records-Good zero offset work records h = (h, omega arith)
  read_records-Good (suc count) offset work records h =
      and_then-Good NameEnds (Has (length records + suc count)) (read_name octets size offset work)
        _ (read_name-Good offset work h)
        (λ n _.
          and_then-Good Ends (Has (length records + suc count)) (read_body octets size n) _
            (read_body-Good n)
            (λ r e.
              let l : length (records ++ r.value ∷ []) + count ≡ length records + suc count =
                omega (arith, length-append records (r.value ∷ [])) in
              rw l at (read_records-Good count r.offset r.work (records ++ r.value ∷ []) e)))

  read_questions-Good :
      (count offset work : ℕ) (questions : List DnsQuestion)
      → offset ≤ size
      → Good
          (Has (length questions + count))
          (read_questions octets size count offset work questions)
  unfolding read_questions
  read_questions-Good zero offset work questions h = (h, omega arith)
  read_questions-Good (suc count) offset work questions h =
      and_then-Good NameEnds (Has (length questions + suc count))
        (read_name octets size offset work) _ (read_name-Good offset work h)
        (λ n _.
          and_then-Good Ends (Has (length questions + suc count)) (read_question octets size n) _
            (read_question-Good n)
            (λ r e.
              let l : length (questions ++ r.value ∷ []) + count ≡ length questions + suc count =
                omega (arith, length-append questions (r.value ∷ [])) in
              rw l at (read_questions-Good count r.offset r.work (questions ++ r.value ∷ []) e)))

-- A message with the sections that the header of `octets` announces.
pub record IsDecoded (octets : Bytes) (size : ℕ) (m : DnsMessage) : Type 0 where
  pub long : 12 ≤ size
  pub short : size ≤ 65535
  pub questions : length m.questions ≡ be16 octets 4
  pub answers : length m.answers ≡ be16 octets 6
  pub authorities : length m.authorities ≡ be16 octets 8
  pub additionals : length m.additionals ≡ be16 octets 10
  pub few :
      length m.questions + length m.answers + length m.authorities + length m.additionals ≤ 4096

abbrev IfValid : Bytes → ℕ → DnsMessage → Type 0
IfValid octets size m = m.valid ≡ true → IsDecoded octets size m

read_sections-Good :
    (octets : Bytes) (size : ℕ)
    → 12 ≤ size
    → size ≤ 65535
    → be16 octets 4 + be16 octets 6 + be16 octets 8 + be16 octets 10 ≤ 4096
    → Good (IfValid octets size) (read_sections octets size)
unfolding read_sections finish_message
read_sections-Good octets size l s f =
    let P = IfValid octets size in
    and_then-Good (Has octets size (0 + be16 octets 4)) P _ _
      (read_questions-Good octets size (be16 octets 4) 12 0 [] l)
      (λ q hq.
        and_then-Good (Has octets size (0 + be16 octets 6)) P _ _
          (read_records-Good octets size (be16 octets 6) q.offset q.work [] hq.0)
          (λ a ha.
            and_then-Good (Has octets size (0 + be16 octets 8)) P _ _
              (read_records-Good octets size (be16 octets 8) a.offset a.work [] ha.0)
              (λ b hb.
                and_then-Good (Has octets size (0 + be16 octets 10)) P _ _
                  (read_records-Good octets size (be16 octets 10) b.offset b.work [] hb.0)
                  (λ c hc. elim (Bool-cases (c.offset == size)) [
                    | inr e ↦ rw e tt
                    | inl e ↦ rw e (λ _. record {
                      long = l;
                      short = s;
                      questions = omega (arith, hq.1);
                      answers = omega (arith, ha.1);
                      authorities = omega (arith, hb.1);
                      additionals = omega (arith, hc.1);
                      few = omega (arith, hq.1, ha.1, hb.1, hc.1);
                    })
                  ]))))

-- A message came back, with the property.
abbrev Answered : Bytes → ℕ → Parsed DnsMessage → Type 0
Answered octets size malformed = ⊥
Answered octets size asserted = ⊥
Answered octets size (parsed m) = IfValid octets size m

decode_dns-Answered : (octets : Bytes) (size : ℕ) → Answered octets size (decode_dns octets size)
unfolding decode_dns
decode_dns-Answered octets size = elim (Bool-cases (ltb size 12 || ltb 65535 size)) [
  | inl a ↦ rw a (λ v. absurd (ground (arith, v)))
  | inr a ↦
      elim (Bool-cases
        (ltb 4096 (be16 octets 4 + be16 octets 6 + be16 octets 8 + be16 octets 10))) [
          | inl b ↦ rw (a, b) (λ v. absurd (ground (arith, v)))
          | inr b ↦
              rw (a, b)
                (sections (read_sections octets size) (
                  read_sections-Good octets size (ground (arith, a)) (ground (arith, a))
                    (ground (arith, b))))
        ]
]
  where
    sections :
        (p : Parsed DnsMessage) → Good (IfValid octets size) p → Answered octets size (or_invalid p)
    sections malformed h = λ v. absurd (ground (arith, v))
    sections asserted h = h
    sections (parsed m) h = h

-- `DecodeDns` returns a message for any bytes, without a failed assertion; and if that message is
-- valid, the input has a size that DNS allows, each section has as many entries as the header
-- announces, and there are at most 4096 of them.
pub decode_dns-IsDecoded :
    (octets : Bytes) (size : ℕ)
    → (m : DnsMessage) × (decode_dns octets size ≡ parsed m)
      × (m.valid ≡ true → IsDecoded octets size m)
decode_dns-IsDecoded octets size = from (decode_dns octets size) (decode_dns-Answered octets size)
  where
    from :
        (p : Parsed DnsMessage)
        → Answered octets size p
        → (m : DnsMessage) × (p ≡ parsed m) × (m.valid ≡ true → IsDecoded octets size m)
    from malformed h = absurd h
    from asserted h = absurd h
    from (parsed m) h = (m, refl, h)
