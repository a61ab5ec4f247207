-- ===== src/Tls/Reader/Inside.antt =====
-- The readers that the methods of `TlsReader` in src/include/tls_reader.hpp can make from one buffer.
-- Its fields are private, so its users make no others.
use packet_quapture.Base.{
  ℕ, ◌+◌, ◌≤◌, ◌≡◌, refl, Bytes, some, arith, Bool-cases, inl, inr, ltb, ◌==◌, false,
}
use packet_quapture.Tls.Reader.{
  TlsReader, start, remaining, u8_of, u16_of, u24_of, vector_length, skip, skip_vector, take_bytes,
  sub,
}

-- A reader of the buffer, what a method leaves of one, or what `Sub` makes of one.
pub data Reached (body : Bytes) (size : ℕ) : TlsReader → Type 0 where
  at_start : Reached body size (start body size)
  by_u8 : {r : TlsReader} → Reached body size r → Reached body size (u8_of r).1
  by_u16 : {r : TlsReader} → Reached body size r → Reached body size (u16_of r).1
  by_u24 : {r : TlsReader} → Reached body size r → Reached body size (u24_of r).1
  by_skip : {r : TlsReader} (count : ℕ) → Reached body size r → Reached body size (skip r count).1
  by_skip_vector :
      {r : TlsReader} (length_bytes : ℕ)
      → Reached body size r
      → Reached body size (skip_vector r length_bytes).1
  by_take :
      {r : TlsReader} (count : ℕ) → Reached body size r → Reached body size (take_bytes r count).1
  by_sub : {r : TlsReader} (count : ℕ) → Reached body size r → Reached body size (sub r count).1
  in_sub :
      {r inner : TlsReader} (count : ℕ)
      → Reached body size r
      → (sub r count).0 ≡ some inner
      → Reached body size inner

-- The reader stands inside its bytes, and these are a part of the buffer.
pub record IsInside (body : Bytes) (size : ℕ) (r : TlsReader) : Type 0 where
  pub inside : r.offset ≤ r.size
  pub base : ℕ
  pub fits : base + r.size ≤ size
  pub same : (i : ℕ) → r.bytes i ≡ body (base + i)

module _ {body : Bytes} {size : ℕ} {r : TlsReader} (h : IsInside body size r) where
  u8_of-IsInside : IsInside body size (u8_of r).1
  unfolding u8_of
  u8_of-IsInside = ground (arith, h)

  skip-IsInside : (count : ℕ) → IsInside body size (skip r count).1
  unfolding skip
  skip-IsInside count = ground (arith, h)

  take_bytes-IsInside : (count : ℕ) → IsInside body size (take_bytes r count).1
  unfolding take_bytes
  take_bytes-IsInside count = ground (arith, h)

  sub-IsInside : (count : ℕ) → IsInside body size (sub r count).1
  unfolding sub
  sub-IsInside count = ground (arith, h)

  sub_start-IsInside :
      (count : ℕ)
      → ltb (remaining r) count ≡ false
      → IsInside body size (start (λ i. r.bytes (r.offset + i)) count)
  sub_start-IsInside count b = record {
    inside = omega arith;
    base = h.base + r.offset;
    fits = ground (arith, h, b);
    same = λ i.
        let e : h.base + r.offset + i ≡ h.base + (r.offset + i) = omega arith in
        rw e (h.same (r.offset + i));
  }

  sub_inner-IsInside :
      (count : ℕ) (inner : TlsReader) → (sub r count).0 ≡ some inner → IsInside body size inner
  unfolding sub
  sub_inner-IsInside count inner e = elim (Bool-cases (ltb (remaining r) count)) [
    | inl b ↦ absurd (ground (arith, e, b))
    | inr b ↦
        let same : inner ≡ start (λ i. r.bytes (r.offset + i)) count = ground (arith, e, b) in
        rw same (sub_start-IsInside count b)
  ]

module _ {body : Bytes} {size : ℕ} {r : TlsReader} (h : IsInside body size r) where
  u16_of-IsInside : IsInside body size (u16_of r).1
  unfolding u16_of
  u16_of-IsInside = u8_of-IsInside (u8_of-IsInside h)

  u24_of-IsInside : IsInside body size (u24_of r).1
  unfolding u24_of
  u24_of-IsInside = u8_of-IsInside (u8_of-IsInside (u8_of-IsInside h))

  vector_length-IsInside : (n : ℕ) → IsInside body size (vector_length r n).1
  unfolding vector_length
  vector_length-IsInside n = elim (Bool-cases (n == 1)) [
    | inl e ↦ rw e (u8_of-IsInside h)
    | inr e ↦ rw e u16_of-IsInside
  ]

  skip_vector-IsInside : (n : ℕ) → IsInside body size (skip_vector r n).1
  unfolding skip_vector
  skip_vector-IsInside n =
      let v = vector_length-IsInside n in
      elim (Bool-cases (vector_length r n).1.overrun) [
        | inl e ↦ rw e v
        | inr e ↦ rw e (skip-IsInside v (vector_length r n).0)
      ]

-- Whatever methods a parser calls on a reader of a buffer, and on the readers that `Sub` makes of it:
-- a reader stands inside its bytes, as the assertion of `Remaining` says, and its bytes are a part of
-- the buffer.
pub Reached-IsInside :
    (body : Bytes) (size : ℕ) (r : TlsReader) → Reached body size r → IsInside body size r
Reached-IsInside body size r at_start = record {
  inside = omega arith;
  base = 0;
  fits = omega arith;
  same = λ i. let e : 0 + i ≡ i = omega arith in rw e refl;
}
Reached-IsInside body size r (by_u8 h) = u8_of-IsInside (Reached-IsInside body size _ h)
Reached-IsInside body size r (by_u16 h) = u16_of-IsInside (Reached-IsInside body size _ h)
Reached-IsInside body size r (by_u24 h) = u24_of-IsInside (Reached-IsInside body size _ h)
Reached-IsInside body size r (by_skip count h) =
    skip-IsInside (Reached-IsInside body size _ h) count
Reached-IsInside body size r (by_skip_vector n h) =
    skip_vector-IsInside (Reached-IsInside body size _ h) n
Reached-IsInside body size r (by_take count h) =
    take_bytes-IsInside (Reached-IsInside body size _ h) count
Reached-IsInside body size r (by_sub count h) = sub-IsInside (Reached-IsInside body size _ h) count
Reached-IsInside body size r (in_sub {inner = inner} count h e) =
    sub_inner-IsInside (Reached-IsInside body size _ h) count inner e
