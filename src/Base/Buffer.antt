-- ===== src/Base/Buffer.antt =====
-- Byte buffers behind a pointer, the big-endian readers of src/include/byte_order.hpp, and the
-- conversions to the unsigned machine widths.
--
-- A `const uint8_t *p` is the function that gives the byte at each offset from `p`: the model does
-- not know what stands past the end of a buffer, so a theorem that a result is the same for any two
-- functions that agree inside the buffer says that nothing outside is read.
use Prim.Native.Nat.{ℕ, zero, suc, ◌+◌, ◌-◌, ◌*◌, ◌%◌, ◌^◌, ◌≤◌, ◌<◌}
use mathlib.Core.Path.{◌≡◌, refl, ap}
use mathlib.Core.List.{List, [], ◌∷◌, ◌++◌}
use native.Mathlib.Omega.{arith}
use packet_quapture.Base.Lists.{drop, length}

abbrev pub Bytes : Type 0
Bytes = ℕ → ℕ

abbrev pub u16 : ℕ → ℕ
u16 x = x % 2 ^ 16

abbrev pub u32 : ℕ → ℕ
u32 x = x % 2 ^ 32

abbrev pub u64 : ℕ → ℕ
u64 x = x % 2 ^ 64

-- `a - b` of two size_t values, which wraps.
abbrev pub u64_sub : ℕ → ℕ → ℕ
u64_sub a b = u64 (a + 2 ^ 64 - b)

-- The `n` bytes from offset `o` on, as a vector holds them.
unfoldable pub slice : Bytes → ℕ → ℕ → List ℕ
slice p o zero = []
slice p o (suc n) = p o ∷ slice p (o + 1) n

-- `std::copy_n(p + o, n, target.begin())`.
unfoldable pub copy_n : Bytes → ℕ → ℕ → List ℕ → List ℕ
unfolding slice
copy_n p o n target = slice p o n ++ drop n target

-- Bytes are below 256, so the shifted parts share no bits and `|` is `+`.
unfoldable pub be16 : Bytes → ℕ → ℕ
be16 p o = u16 (p o * 2 ^ 8 + p (o + 1))

unfoldable pub be32 : Bytes → ℕ → ℕ
unfolding be16
be32 p o = u32 (be16 p o * 2 ^ 16 + be16 p (o + 2))

pub length-slice : (p : Bytes) (o n : ℕ) → length (slice p o n) ≡ n
unfolding slice
length-slice p o zero = refl
length-slice p o (suc n) = ap suc (length-slice p (o + 1) n)

pub slice_cong :
    (p q : Bytes) (o o' n : ℕ)
    → ((i : ℕ) → i < n → p (o + i) ≡ q (o' + i))
    → slice p o n ≡ slice q o' n
unfolding slice
slice_cong p q o o' zero h = refl
slice_cong p q o o' (suc n) h =
    ground (arith, h 0, slice_cong p q (o + 1) (o' + 1) n (λ i l. ground (arith, h (suc i))))

-- Buffers that agree below `k` have the same values there.
module _ (p q : Bytes) (k : ℕ) (same : (i : ℕ) → i < k → p i ≡ q i) where
  pub be16_cong : (o : ℕ) → o + 2 ≤ k → be16 p o ≡ be16 q o
  unfolding be16
  be16_cong o h = ground (arith, same o, same (o + 1))

  pub be32_cong : (o : ℕ) → o + 4 ≤ k → be32 p o ≡ be32 q o
  unfolding be32
  be32_cong o h = ground (arith, same o, same (o + 1), same (o + 2), same (o + 2 + 1))

  pub copy_n_cong :
      (o n : ℕ) (target : List ℕ) → o + n ≤ k → copy_n p o n target ≡ copy_n q o n target
  unfolding copy_n
  copy_n_cong o n target h =
      ap (λ (l : List ℕ). l ++ drop n target)
        (slice_cong p q o o n (λ i l. same (o + i) (omega arith)))
