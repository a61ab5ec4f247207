-- ===== src/Packet/Prefix/Transport.antt =====
-- `DecodeTransport` on sources with the same prefixes.
use packet_quapture.Base.{
  ℕ, ◌+◌, ◌*◌, ◌/◌, ◌^◌, ◌≤◌, ◌≡◌, refl, ◌&&◌, arith, leb, be16, Option, none, some, Bool-cases,
  inl, inr, ◌⊎◌, leb→le, be16_cong, be32_cong,
}
use packet_quapture.Packet.Types.{has, PrefixReader}
use packet_quapture.Packet.Link.{Stage}
use packet_quapture.Packet.Transport.{
  decode_transport, decode_tcp, decode_udp, transport_fields, finish_transport, Header, tcp_header,
  udp_header,
}
use packet_quapture.Packet.Prefix.Rules.{Reads, ensure_within-Reads, moved, forget}
use packet_quapture.Packet.Prefix.Network.{bind_rule, guard_rule}

abbrev pub AgreeHeader : ℕ → Option Header → Option Header → Type 0
AgreeHeader o x y =
    ((x ≡ none) × (y ≡ none))
    ⊎ ((h : Header) × (r : PrefixReader) × (x ≡ some h)
        × (y ≡ some (record h { reader = r }))
        × Reads (o + 4) h.reader r)

pub fewer : {j k : ℕ} {r s : PrefixReader} → j ≤ k → Reads k r s → Reads j r s
fewer l h = record { sources = h.sources; held = λ i m. h.held i (omega arith) }

pub tcp_header-Agree :
    (s : Stage) (n : ℕ) (r r' : PrefixReader)
    → 20 ≤ n
    → Reads (s.cursor.offset + n) r r'
    → AgreeHeader s.cursor.offset (some (tcp_header s n r)) (some (tcp_header s n r'))
tcp_header-Agree s n r r' l k =
    let o = s.cursor.offset in
    let c = be32_cong r.bytes r'.bytes (o + n) k.held in
    inr (
      tcp_header s n r,
      r',
      refl,
      ground (arith, k.held (o + 13), c (o + 4), c (o + 8)),
      fewer (omega arith) k,
    )

pub decode_tcp-Agree :
    (s : Stage) (q : PrefixReader)
    → Reads 0 s.reader q
    → AgreeHeader s.cursor.offset (decode_tcp s) (decode_tcp (moved s q))
unfolding decode_tcp
decode_tcp-Agree s q a =
    let o = s.cursor.offset in
    let end = s.cursor.end in
    bind_rule (AgreeHeader o) (inl (refl, refl)) _ _ (ensure_within-Reads a end o 20) λ r r' h.
      let n = r.bytes (o + 12) / 2 ^ 4 * 4 in
      rw (← h.held (o + 12) (omega arith)) (elim (Bool-cases (leb 20 n)) [
        | inr e ↦ rw e (inl (refl, refl))
        | inl e ↦ rw e (
            bind_rule (AgreeHeader o) (inl (refl, refl)) _ _
              (ensure_within-Reads (forget h) end o n)
              λ p p' k. tcp_header-Agree s n p p' (leb→le _ _ e) k)
      ])

pub decode_udp-Agree :
    (s : Stage) (q : PrefixReader)
    → Reads 0 s.reader q
    → AgreeHeader s.cursor.offset (decode_udp s) (decode_udp (moved s q))
unfolding decode_udp
decode_udp-Agree s q a =
    let o = s.cursor.offset in
    let end = s.cursor.end in
    bind_rule (AgreeHeader o) (inl (refl, refl)) _ _ (ensure_within-Reads a end o 8) λ r r' h.
      let n = be16 r.bytes (o + 4) in
      rw (← be16_cong r.bytes r'.bytes (o + 8) h.held (o + 4) (omega arith)) (
        guard_rule (AgreeHeader o) (inl (refl, refl)) (leb 8 n && has end o n)
          (inr (udp_header s n r, r', refl, refl, fewer (omega arith) h)))

pub finish_transport-Agree :
    (s : Stage) (q : PrefixReader) (x y : Option Header)
    → AgreeHeader s.cursor.offset x y
    → finish_transport s x ≡ finish_transport (moved s q) y
unfolding transport_fields
finish_transport-Agree s q x y (inl (e, f)) = rw (e, f)
finish_transport-Agree s q x y (inr (h, r, e, f, k)) =
    let o = s.cursor.offset in
    let b = be16_cong h.reader.bytes r.bytes (o + 4) k.held in
    rw (e, f) (ground (arith, b o, b (o + 2), k.sources.same_size))

pub decode_transport-Agree :
    (s : Stage) (q : PrefixReader)
    → Reads 0 s.reader q
    → decode_transport s ≡ decode_transport (moved s q)
unfolding decode_transport
decode_transport-Agree s q a = ground (
  arith,
  finish_transport-Agree s q (decode_tcp s) (decode_tcp (moved s q)) (decode_tcp-Agree s q a),
  finish_transport-Agree s q (decode_udp s) (decode_udp (moved s q)) (decode_udp-Agree s q a),
)
