-- ===== src/Escape/Examples.antt =====
-- Runs of the text escapes of src/include/text_escape.hpp and src/include/tls_record.hpp.
use packet_quapture.Base.{ℕ, ◌*◌, ◌≤◌, ◌≡◌, refl, List, [], ◌∷◌, length, All, arith}
use packet_quapture.Escape.{append_hex_escape, escape_tls_text}
use packet_quapture.Escape.Laws.{
  IsPrintable, escape_tls_text-IsPrintable, escape_tls_text-injective,
}

-- "a\", then a space
abbrev some_text : List ℕ
some_text = 97 ∷ 92 ∷ 32 ∷ []

escape_backslash : escape_tls_text some_text ≡ 97 ∷ 92 ∷ 48 ∷ 57 ∷ 50 ∷ 92 ∷ 48 ∷ 51 ∷ 50 ∷ []
unfolding escape_tls_text
escape_backslash = refl

escape_hex : append_hex_escape [] 175 ≡ 92 ∷ 65 ∷ 70 ∷ []
unfolding append_hex_escape
escape_hex = refl

escape_tls_text-IsPrintable_example :
    All IsPrintable (escape_tls_text some_text) × (length (escape_tls_text some_text) ≤ 4 * 3)
escape_tls_text-IsPrintable_example =
    escape_tls_text-IsPrintable some_text (omega arith, (omega arith, (omega arith, tt)))

escape_tls_text-injective_example : some_text ≡ 97 ∷ 92 ∷ 32 ∷ []
escape_tls_text-injective_example =
    escape_tls_text-injective some_text (97 ∷ 92 ∷ 32 ∷ [])
      (omega arith, (omega arith, (omega arith, tt)))
      (omega arith, (omega arith, (omega arith, tt))) refl
