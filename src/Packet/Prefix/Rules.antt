-- ===== src/Packet/Prefix/Rules.antt =====
-- When two readers, and two stages, agree on what the decoder may read.
use packet_quapture.Base.{
  ℕ, ◌+◌, ◌<◌, ◌≡◌, refl, Bool, true, false, arith, if◌then◌else◌, Option, none, some, Bool-cases,
  inl, inr, ◌⊎◌, be16_cong,
}
use packet_quapture.Packet.Types.{
  DecodeOutcome, DecodedPacket, PacketSource, has, PrefixReader, ensure, ensure_within,
}
use packet_quapture.Packet.Link.{Stage, Outcome, on, stop, read_tag, with_type, after_tag}

-- The contract of `ReadPrefix`, for two sources.
pub record SamePrefixes (a b : PacketSource) : Type 0 where
  pub same_size : a.size ≡ b.size
  pub same_bytes : (n i : ℕ) → i < n → a.read_prefix n i ≡ b.read_prefix n i

-- The readers' pointers agree on the first `k` bytes too.
pub record Reads (k : ℕ) (r s : PrefixReader) : Type 0 where
  pub sources : SamePrefixes r.source s.source
  pub held : (i : ℕ) → i < k → r.bytes i ≡ s.bytes i

abbrev pub ReadsOption : ℕ → Option PrefixReader → Option PrefixReader → Type 0
ReadsOption k x y =
    ((x ≡ none) × (y ≡ none)) ⊎ ((r s : PrefixReader) × (x ≡ some r) × (y ≡ some s) × Reads k r s)

module _ {k : ℕ} {r s : PrefixReader} (h : Reads k r s) where
  pub ensure-Reads : (start n : ℕ) → ReadsOption (start + n) (ensure r start n) (ensure s start n)
  unfolding ensure
  ensure-Reads start n = elim (Bool-cases (has r.source.size start n)) [
    | inl e ↦
        let e' : has s.source.size start n ≡ true = rw (← h.sources.same_size) e in
        inr (
          record r { bytes = r.source.read_prefix (start + n) },
          record s { bytes = s.source.read_prefix (start + n) },
          rw e,
          rw e',
          record { sources = h.sources; held = h.sources.same_bytes (start + n) },
        )
    | inr e ↦
        let e' : has s.source.size start n ≡ false = rw (← h.sources.same_size) e in
        inl (rw e, rw e')
  ]

  pub ensure_within-Reads :
      (end start n : ℕ)
      → ReadsOption (start + n) (ensure_within r end start n) (ensure_within s end start n)
  unfolding ensure_within
  ensure_within-Reads end start n = elim (Bool-cases (has end start n)) [
    | inl e ↦ rw e (ensure-Reads start n)
    | inr e ↦ rw e (inl (refl, refl))
  ]

-- The same stage with another reader.
abbrev pub moved : Stage → PrefixReader → Stage
moved s r = record s { reader = r }

abbrev pub AgreeOption : Option Stage → Option Stage → Type 0
AgreeOption x y =
    ((x ≡ none) × (y ≡ none))
    ⊎ ((s : Stage) × (r : PrefixReader) × (x ≡ some s)
        × (y ≡ some (moved s r))
        × Reads 0 s.reader r)

abbrev pub AgreeOutcome : Outcome → Outcome → Type 0
AgreeOutcome x y =
    ((o : DecodeOutcome) × (p : DecodedPacket) × (x ≡ stop o p) × (y ≡ stop o p))
    ⊎ ((s : Stage) × (r : PrefixReader) × (x ≡ on s) × (y ≡ on (moved s r)) × Reads 0 s.reader r)

pub Agree-if :
    (b : Bool) {x y x' y' : Outcome}
    → AgreeOutcome x y
    → AgreeOutcome x' y'
    → AgreeOutcome (if b then x else x') (if b then y else y')
Agree-if true h k = h
Agree-if false h k = k

pub Agree-type :
    (s : Stage) (q : PrefixReader) (type : ℕ)
    → Reads 0 s.reader q
    → AgreeOutcome (with_type s type) (with_type (moved s q) type)
Agree-type s q type a =
    inr (record s { cursor = record (s.cursor) { ether_type = type } }, q, refl, refl, a)

-- A stage after a successful `Ensure`: the pointers may be forgotten.
pub forget : {k : ℕ} {r s : PrefixReader} → Reads k r s → Reads 0 r s
forget h = record { sources = h.sources; held = λ i l. absurd (omega arith) }

module _ (s : Stage) (q : PrefixReader) (a : Reads 0 s.reader q) where
  pub read_tag-Agree : AgreeOption (read_tag s) (read_tag (moved s q))
  unfolding read_tag
  read_tag-Agree =
      let o = s.cursor.offset in
      elim (ensure-Reads a o 4) [
        | inl (e, f) ↦ inl (rw e, rw f)
        | inr (r, r', e, f, h) ↦
            let b = be16_cong r.bytes r'.bytes (o + 4) h.held in
            inr (after_tag s r, r', rw e, ground (arith, f, b o, b (o + 2)), forget h)
      ]
