-- ===== src/Tls/Reader/Bounds.antt =====
-- The reader never leaves its buffer: what it returns depends only on the bytes inside.
use packet_quapture.Base.{
  ℕ, zero, suc, ◌+◌, ◌≤◌, ◌<◌, ◌≡◌, refl, true, false, arith, slice_cong, Option, none, some,
  Bool-cases, ltb, inl, inr, ◌==◌,
}
use packet_quapture.Tls.Reader.{
  TlsReader, u8_of, u16_of, u24_of, skip, skip_vector, take_bytes, sub, remaining, server_name_loop,
  parse_tls_server_name, vector_length,
}

-- Two readers at the same place of buffers that agree inside.
pub record Alike (r s : TlsReader) : Type 0 where
  pub same_size : r.size ≡ s.size
  pub same_offset : r.offset ≡ s.offset
  pub same_overrun : r.overrun ≡ s.overrun
  pub inside : r.offset ≤ r.size
  pub same_bytes : (i : ℕ) → i < r.size → r.bytes i ≡ s.bytes i

module _ {r s : TlsReader} (a : Alike r s) where
  pub u8_of-Alike : ((u8_of r).0 ≡ (u8_of s).0) × Alike (u8_of r).1 (u8_of s).1
  unfolding u8_of
  u8_of-Alike = (
    ground (arith, a.same_bytes r.offset),
    record {
      same_size = ground arith;
      same_offset = ground arith;
      same_overrun = ground arith;
      inside = ground arith;
      same_bytes = λ i h. ground (arith, a.same_bytes i);
    },
  )

  pub skip-Alike : (n : ℕ) → ((skip r n).0 ≡ (skip s n).0) × Alike (skip r n).1 (skip s n).1
  unfolding skip
  skip-Alike n = (
    ground arith,
    record {
      same_size = ground arith;
      same_offset = ground arith;
      same_overrun = ground arith;
      inside = ground arith;
      same_bytes = λ i h. ground (arith, a.same_bytes i);
    },
  )

  pub take_bytes-Alike :
      (n : ℕ)
      → ((take_bytes r n).0 ≡ (take_bytes s n).0) × Alike (take_bytes r n).1 (take_bytes s n).1
  unfolding take_bytes
  take_bytes-Alike n = (
    elim (Bool-cases (ltb (remaining r) n)) [
      | inl e ↦ ground arith
      | inr e ↦ ground (
        arith,
        slice_cong r.bytes s.bytes r.offset s.offset n
            (λ i h. ground (arith, a.same_bytes (r.offset + i))),
      )
    ],
    record {
      same_size = ground arith;
      same_offset = ground arith;
      same_overrun = ground arith;
      inside = ground arith;
      same_bytes = λ i h. ground (arith, a.same_bytes i);
    },
  )

-- Both readers of `sub` are absent, or they are alike.
abbrev pub AlikeOption : Option TlsReader → Option TlsReader → Type 0
AlikeOption none none = Unit {0}
AlikeOption (some r) (some s) = Alike r s
AlikeOption none (some _) = ⊥
AlikeOption (some _) none = ⊥

module _ {r s : TlsReader} (a : Alike r s) where
  pub sub-Alike : (n : ℕ) → AlikeOption (sub r n).0 (sub s n).0 × Alike (sub r n).1 (sub s n).1
  unfolding sub
  sub-Alike n = (
    elim (Bool-cases (ltb (remaining r) n)) [
      | inl e ↦ let e' : ltb (remaining s) n ≡ true = ground arith in rw (e, e') tt
      | inr e ↦
          let e' : ltb (remaining s) n ≡ false = ground arith in
          rw (e, e')
            (record {
              same_size = refl;
              same_offset = refl;
              same_overrun = refl;
              inside = omega arith;
              same_bytes = λ i h. ground (arith, a.same_bytes (r.offset + i));
            })
    ],
    record {
      same_size = ground arith;
      same_offset = ground arith;
      same_overrun = ground arith;
      inside = ground arith;
      same_bytes = λ i h. ground (arith, a.same_bytes i);
    },
  )

module _ {r s : TlsReader} (a : Alike r s) where
  pub u16_of-Alike : ((u16_of r).0 ≡ (u16_of s).0) × Alike (u16_of r).1 (u16_of s).1
  unfolding u16_of
  u16_of-Alike = let (e, b) = u8_of-Alike a in let (f, c) = u8_of-Alike b in (ground arith, c)

  pub u24_of-Alike : ((u24_of r).0 ≡ (u24_of s).0) × Alike (u24_of r).1 (u24_of s).1
  unfolding u24_of
  u24_of-Alike =
      let (e, b) = u8_of-Alike a in
      let (f, c) = u8_of-Alike b in let (g, d) = u8_of-Alike c in (ground arith, d)

  vector_length-Alike :
      (n : ℕ)
      → ((vector_length r n).0 ≡ (vector_length s n).0)
        × Alike (vector_length r n).1 (vector_length s n).1
  unfolding vector_length
  vector_length-Alike n = elim (Bool-cases (n == 1)) [
    | inl one ↦ rw one (u8_of-Alike a)
    | inr two ↦ rw two u16_of-Alike
  ]

module _ {r s : TlsReader} (a : Alike r s) where
  pub skip_vector-Alike :
      (n : ℕ)
      → ((skip_vector r n).0 ≡ (skip_vector s n).0) × Alike (skip_vector r n).1 (skip_vector s n).1
  unfolding skip_vector
  skip_vector-Alike n =
      let (e, b) = vector_length-Alike a n in
      elim (Bool-cases (vector_length r n).1.overrun) [
        | inl over ↦ rw (over, ← b.same_overrun, over) (refl, b)
        | inr fine ↦ rw (fine, ← b.same_overrun, fine, ← e) (skip-Alike b (vector_length r n).0)
      ]

-- The loop on `list_length - consumed` or more fuel is the loop on any more fuel.
pub server_name_loop_fuel :
    (fuel : ℕ) (r : TlsReader) (list_length consumed : ℕ)
    → list_length ≤ consumed + fuel
    → server_name_loop (suc fuel) r list_length consumed
      ≡ server_name_loop fuel r list_length consumed
unfolding server_name_loop
server_name_loop_fuel zero r l c h = ground arith
server_name_loop_fuel (suc fuel) r l c h =
    let r2 = (u16_of (u8_of r).1).1 in
    let n = (u16_of (u8_of r).1).0 in
    ground (arith, server_name_loop_fuel fuel (skip r2 n).1 l (c + 3 + n))

server_name_loop-Alike :
    (fuel : ℕ) {r s : TlsReader} (list_length consumed : ℕ)
    → Alike r s
    → server_name_loop fuel r list_length consumed ≡ server_name_loop fuel s list_length consumed
unfolding server_name_loop
server_name_loop-Alike zero l c a = refl
server_name_loop-Alike (suc fuel) {r} l c a =
    let (e, b) = u8_of-Alike a in
    let (f, d) = u16_of-Alike b in
    let n = (u16_of (u8_of r).1).0 in
    let (g, k) = skip-Alike d n in
    ground (
      arith,
      e,
      f,
      d.same_overrun,
      g,
      take_bytes-Alike d n,
      server_name_loop-Alike fuel l (c + 3 + n) k,
    )

pub parse_tls_server_name-Alike :
    {r s : TlsReader} → Alike r s → parse_tls_server_name r ≡ parse_tls_server_name s
unfolding parse_tls_server_name
parse_tls_server_name-Alike {r} a =
    let (e, b) = u16_of-Alike a in
    ground (
      arith,
      e,
      b.same_overrun,
      b.same_size,
      b.same_offset,
      server_name_loop-Alike (u16_of r).0 (u16_of r).0 0 b,
    )
