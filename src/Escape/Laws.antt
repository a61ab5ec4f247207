-- ===== src/Escape/Laws.antt =====
-- What the escapes promise: the text is printable ASCII, and distinct byte strings stay distinct.
use mathlib.Core.List.{append-nil, append_assoc}
use packet_quapture.Base.{
  ℕ, ◌*◌, ◌≤◌, ◌<◌, ◌≡◌, refl, sym, ◌∙◌, List, [], ◌∷◌, ◌++◌, if◌then◌else◌, arith, All, All-append,
  length, length-append,
}
use packet_quapture.Escape.{append_decimal_escape, is_plain, escape_tls_loop, escape_tls_text}

abbrev pub IsByte : ℕ → Type 0
IsByte b = b < 256

abbrev pub IsPrintable : ℕ → Type 0
IsPrintable c = (33 ≤ c) × (c ≤ 126)

-- The text of one byte, and of a byte string.
pub escaped_byte : ℕ → List ℕ
unfolding append_decimal_escape
escaped_byte ch = if is_plain ch then ch ∷ [] else append_decimal_escape [] ch

pub escaped : List ℕ → List ℕ
escaped [] = []
escaped (ch ∷ raw) = escaped_byte ch ++ escaped raw

escape_tls_loop_step :
    (text : List ℕ) (ch : ℕ) (raw : List ℕ)
    → escape_tls_loop text (ch ∷ raw) ≡ escape_tls_loop (text ++ escaped_byte ch) raw
unfolding escape_tls_loop escaped_byte
escape_tls_loop_step text ch raw = ground arith

escape_tls_loop-escaped : (text raw : List ℕ) → escape_tls_loop text raw ≡ text ++ escaped raw
unfolding escaped
escape_tls_loop-escaped text [] = unfold escape_tls_loop in sym (append-nil text)
escape_tls_loop-escaped text (ch ∷ raw) =
    escape_tls_loop_step text ch raw
    ∙ escape_tls_loop-escaped (text ++ escaped_byte ch) raw
    ∙ append_assoc text (escaped_byte ch) (escaped raw)

pub escape_tls_text-escaped : (raw : List ℕ) → escape_tls_text raw ≡ escaped raw
unfolding escape_tls_text
escape_tls_text-escaped raw = escape_tls_loop-escaped [] raw

escaped_byte-IsPrintable : (ch : ℕ) → ch < 256 → All IsPrintable (escaped_byte ch)
unfolding escaped_byte
escaped_byte-IsPrintable ch h = ground arith

pub escaped-IsPrintable : (raw : List ℕ) → All IsByte raw → All IsPrintable (escaped raw)
unfolding escaped
escaped-IsPrintable [] h = tt
escaped-IsPrintable (ch ∷ raw) h =
    All-append IsPrintable (escaped_byte ch) (escaped raw) (escaped_byte-IsPrintable ch h.0)
      (escaped-IsPrintable raw h.1)

length-escaped_byte : (ch : ℕ) → length (escaped_byte ch) ≤ 4
unfolding escaped_byte
length-escaped_byte ch = ground arith

length-escaped : (raw : List ℕ) → length (escaped raw) ≤ 4 * length raw
unfolding escaped
length-escaped [] = omega arith
length-escaped (ch ∷ raw) =
    rw length-append (omega (arith, length-escaped_byte ch, length-escaped raw))

-- Two texts that begin with the texts of one byte each: the bytes and the rests are the same.
escaped_byte-injective :
    (x y : ℕ) (xs ys : List ℕ)
    → x < 256
    → y < 256
    → escaped_byte x ++ xs ≡ escaped_byte y ++ ys
    → (x ≡ y) × (xs ≡ ys)
unfolding escaped_byte
escaped_byte-injective x y xs ys hx hy e = ground arith

escaped_byte-ne-nil : (x : ℕ) (xs : List ℕ) → [] ≡ escaped_byte x ++ xs → ⊥
unfolding escaped_byte
escaped_byte-ne-nil x xs e = ground arith

escaped-injective :
    (xs ys : List ℕ) → All IsByte xs → All IsByte ys → escaped xs ≡ escaped ys → xs ≡ ys
unfolding escaped
escaped-injective [] [] hx hy e = refl
escaped-injective [] (y ∷ ys) hx hy e = absurd (escaped_byte-ne-nil y (escaped ys) e)
escaped-injective (x ∷ xs) [] hx hy e = absurd (escaped_byte-ne-nil x (escaped xs) (sym e))
escaped-injective (x ∷ xs) (y ∷ ys) hx hy e =
    let (head, tail) = escaped_byte-injective x y (escaped xs) (escaped ys) hx.0 hy.0 e in
    cc (head, escaped-injective xs ys hx.1 hy.1 tail)

-- The escaped text of any byte string is printable ASCII, with no space in it, and is at most four
-- times as long.
pub escape_tls_text-IsPrintable :
    (raw : List ℕ)
    → All IsByte raw
    → All IsPrintable (escape_tls_text raw) × (length (escape_tls_text raw) ≤ 4 * length raw)
escape_tls_text-IsPrintable raw h =
    rw escape_tls_text-escaped (escaped-IsPrintable raw h, length-escaped raw)

-- Byte strings with the same escaped text are the same.
pub escape_tls_text-injective :
    (xs ys : List ℕ)
    → All IsByte xs
    → All IsByte ys
    → escape_tls_text xs ≡ escape_tls_text ys
    → xs ≡ ys
escape_tls_text-injective xs ys hx hy e =
    escaped-injective xs ys hx hy
      (sym (escape_tls_text-escaped xs) ∙ e ∙ escape_tls_text-escaped ys)
