-- ===== src/Packet/Prefix/Network.antt =====
-- `DecodeNetwork` on sources with the same prefixes.
use packet_quapture.Base.{
  ℕ, zero, suc, ◌+◌, ◌*◌, ◌/◌, ◌%◌, ◌^◌, ◌≤◌, ◌≡◌, refl, Bool, true, false, ◌&&◌, arith, ◌==◌, leb,
  be16, Option, none, some, ◌>>=◌, ◌>>◌, guard, Option-cases, Bool-cases, inl, inr, leb→le,
  be16_cong, be32_cong, copy_n_cong,
}
use packet_quapture.Packet.Types.{malformed, unsupported, DecodedPacket, PrefixReader}
use packet_quapture.Packet.Link.{Stage, Outcome}
use packet_quapture.Packet.Network.{
  decode_network, or_malformed, after_ipv4, after_ipv6, after_extension, decode_ipv4, decode_ipv6,
  ipv6_header, extension_loop, next_extension, decode_ipv6_extension, extension_header,
  commit_network,
}
use packet_quapture.Packet.Prefix.Rules.{
  Reads, ReadsOption, ensure-Reads, ensure_within-Reads, moved, AgreeOption, AgreeOutcome, Agree-if,
  forget,
}

pub Agree-option :
    (net : DecodedPacket) {x y : Option Stage}
    → AgreeOption x y
    → AgreeOutcome (or_malformed net x) (or_malformed net y)
Agree-option net (inl (e, f)) = rw (e, f) (inl (malformed, net, refl, refl))
Agree-option net (inr (t, r, e, f, b)) = rw (e, f) (inr (t, r, refl, refl, b))

pub ipv4_fields-Agree :
    (s : Stage) (n total : ℕ) (r r' : PrefixReader)
    → 20 ≤ n
    → Reads (s.cursor.offset + n) r r'
    → AgreeOption (some (after_ipv4 s n total r)) (some (after_ipv4 s n total r'))
ipv4_fields-Agree s n total r r' l h =
    let o = s.cursor.offset in
    let b = be16_cong r.bytes r'.bytes (o + n) h.held in
    let c = copy_n_cong r.bytes r'.bytes (o + n) h.held in
    inr (
      after_ipv4 s n total r,
      r',
      refl,
      ground (
        arith,
        h.held (o + 8),
        h.held (o + 9),
        b (o + 4),
        b (o + 6),
        c (o + 12) 4 s.packet.src_ip,
        c (o + 16) 4 s.packet.dst_ip,
      ),
      forget h,
    )

-- The rules for the chains of steps, for a relation that holds of two failures.
module _ {B : Type 0} (P : Option B → Option B → Type 0) (failed : P none none) where
  pub bind_rule :
      {k : ℕ} {x y : Option PrefixReader} (f g : PrefixReader → Option B)
      → ReadsOption k x y
      → ((r s : PrefixReader) → Reads k r s → P (f r) (g s))
      → P (x >>= f) (y >>= g)
  bind_rule f g (inl (e, d)) h = rw (e, d) failed
  bind_rule f g (inr (r, s, e, d, a)) h = rw (e, d) (h r s a)

  pub guard_rule : (b : Bool) {m n : Option B} → P m n → P (guard b >> m) (guard b >> n)
  guard_rule true h = h
  guard_rule false h = failed

abbrev pub neither : AgreeOption none none
neither = inl (refl, refl)

pub decode_ipv4-Agree :
    (s : Stage) (q : PrefixReader)
    → Reads 0 s.reader q
    → AgreeOption (decode_ipv4 s) (decode_ipv4 (moved s q))
unfolding decode_ipv4
decode_ipv4-Agree s q a =
    let o = s.cursor.offset in
    bind_rule AgreeOption neither _ _ (ensure-Reads a o 20) λ r r' h.
      rw
        (
          ← h.held o (omega arith),
          ← be16_cong r.bytes r'.bytes (o + 20) h.held (o + 2) (omega arith),
        )
        (guard_rule AgreeOption neither (r.bytes o / 2 ^ 4 == 4)
          (elim (Bool-cases (leb 20 (r.bytes o % 2 ^ 4 * 4))) [
            | inr e ↦ rw e neither
            | inl e ↦
                guard_rule AgreeOption neither
                  (leb 20 (r.bytes o % 2 ^ 4 * 4)
                    && leb (r.bytes o % 2 ^ 4 * 4) (be16 r.bytes (o + 2)))
                  (bind_rule AgreeOption neither _ _
                    (ensure-Reads (forget h) o (r.bytes o % 2 ^ 4 * 4))
                    λ p p' k.
                      ipv4_fields-Agree s (r.bytes o % 2 ^ 4 * 4) (be16 r.bytes (o + 2)) p p'
                        (leb→le _ _ e) k)
          ]))

pub ipv6_header-Agree :
    (s : Stage) (q : PrefixReader)
    → Reads 0 s.reader q
    → AgreeOption (ipv6_header s) (ipv6_header (moved s q))
unfolding ipv6_header
ipv6_header-Agree s q a =
    let o = s.cursor.offset in
    bind_rule AgreeOption neither _ _ (ensure-Reads a o 40) λ r r' h.
      let b = be16_cong r.bytes r'.bytes (o + 40) h.held in
      let c = copy_n_cong r.bytes r'.bytes (o + 40) h.held in
      rw (← h.held o (omega arith)) (
        guard_rule AgreeOption neither (r.bytes o / 2 ^ 4 == 6) (
          inr (
            after_ipv6 s r,
            r',
            refl,
            ground (
              arith,
              h.held (o + 6),
              h.held (o + 7),
              b (o + 4),
              c (o + 8) 16 s.packet.src_ip,
              c (o + 24) 16 s.packet.dst_ip,
            ),
            forget h,
          )))

pub extension_header_cong :
    (s : Stage) (r r' : PrefixReader)
    → Reads (s.cursor.offset + 8) r r'
    → extension_header (moved s r) ≡ extension_header (moved s r')
unfolding extension_header
extension_header_cong s r r' h =
    let o = s.cursor.offset in
    ground (
      arith,
      h.held (o + 1),
      be16_cong r.bytes r'.bytes (o + 8) h.held (o + 2),
      be32_cong r.bytes r'.bytes (o + 8) h.held (o + 4),
    )

pub extension_header_pos :
    (s : Stage) (n : ℕ) (net : DecodedPacket) → extension_header s ≡ some (n, net) → 8 ≤ n
unfolding extension_header
extension_header_pos s n net e = ground arith

pub next_extension-Agree :
    (s : Stage) (q : PrefixReader)
    → Reads 0 s.reader q
    → AgreeOption (next_extension s) (next_extension (moved s q))
unfolding next_extension decode_ipv6_extension
next_extension-Agree s q a =
    let o = s.cursor.offset in
    bind_rule AgreeOption neither _ _ (ensure_within-Reads a s.cursor.end o 8) λ r r' h.
      rw (← extension_header_cong s r r' h) (elim (Option-cases (extension_header (moved s r))) [
        | inl e ↦ rw e neither
        | inr ((n, net), e) ↦
            let l = extension_header_pos (moved s r) n net e in
            rw e (
              bind_rule AgreeOption neither _ _ (ensure_within-Reads (forget h) s.cursor.end o n)
                λ p p' k.
                  inr (after_extension s n net p, p', refl, ground (arith, k.held o), forget k))
      ])

pub extension_loop-Agree :
    (fuel n : ℕ) (s : Stage) (q : PrefixReader)
    → Reads 0 s.reader q
    → AgreeOutcome (extension_loop fuel n s) (extension_loop fuel n (moved s q))
unfolding extension_loop
extension_loop-Agree zero n s q a = inl (unsupported, s.packet, refl, refl)
extension_loop-Agree (suc fuel) n s q a = elim (next_extension-Agree s q a) [
  | inl (e, f) ↦
      rw (e, f)
        (Agree-if _
          (Agree-if _ (inl (unsupported, s.packet, refl, refl))
            (inl (malformed, s.packet, refl, refl)))
          (inr (s, q, refl, refl, a)))
  | inr (t, r, e, f, b) ↦
      rw (e, f)
        (Agree-if _
          (Agree-if _ (inl (unsupported, s.packet, refl, refl))
            (Agree-if _ (inr (t, r, refl, refl, b)) (extension_loop-Agree fuel (n + 1) t r b)))
          (inr (s, q, refl, refl, a)))
]

pub decode_ipv6-Agree :
    (s : Stage) (q : PrefixReader)
    → Reads 0 s.reader q
    → AgreeOutcome (decode_ipv6 s) (decode_ipv6 (moved s q))
unfolding decode_ipv6
decode_ipv6-Agree s q a = elim (ipv6_header-Agree s q a) [
  | inl (e, f) ↦ rw (e, decode_ipv6, f, decode_ipv6) (inl (malformed, s.packet, refl, refl))
  | inr (t, r, e, f, b) ↦ rw (e, decode_ipv6, f, decode_ipv6) (extension_loop-Agree 17 0 t r b)
]

pub commit_network-Agree :
    (net : DecodedPacket) {x y : Outcome}
    → AgreeOutcome x y
    → AgreeOutcome (commit_network net x) (commit_network net y)
unfolding commit_network
commit_network-Agree net (inl (o, p, e, f)) = rw (e, f) (inl (o, net, refl, refl))
commit_network-Agree net (inr (t, r, e, f, b)) =
    rw (e, f)
      (inr (record t { packet = record (t.packet) { has_network = true } }, r, refl, refl, b))

pub decode_network-Agree :
    (s : Stage) (q : PrefixReader) (link_type : ℕ)
    → Reads 0 s.reader q
    → AgreeOutcome (decode_network s link_type) (decode_network (moved s q) link_type)
unfolding decode_network
decode_network-Agree s q link_type a = commit_network-Agree s.packet (
    Agree-if _ (Agree-option s.packet (decode_ipv4-Agree s q a)) (
      Agree-if _ (decode_ipv6-Agree s q a) (
        Agree-if _ (inl (malformed, s.packet, refl, refl))
          (inl (unsupported, s.packet, refl, refl)))))
