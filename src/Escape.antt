-- ===== src/Escape.antt =====
-- The text escapes: src/include/text_escape.hpp, and `EscapeTlsText` of src/include/tls_record.hpp.
-- A std::string is the list of its bytes.
pub mod Laws
pub mod Examples
use packet_quapture.Base.{
  ℕ, ◌+◌, ◌/◌, ◌%◌, Bool, not, ◌&&◌, List, [], ◌∷◌, ◌++◌, ◌==◌, leb, if◌then◌else◌, get_or,
}

unfoldable pub append_decimal_escape : List ℕ → ℕ → List ℕ
append_decimal_escape out byte =
    out ++ (b'\\' ∷ (b'0' + byte / 100) ∷ (b'0' + byte / 10 % 10) ∷ (b'0' + byte % 10) ∷ [])

-- "0123456789ABCDEF"
abbrev pub upper_hex : List ℕ
upper_hex = 48 ∷ 49 ∷ 50 ∷ 51 ∷ 52 ∷ 53 ∷ 54 ∷ 55 ∷ 56 ∷ 57 ∷ 65 ∷ 66 ∷ 67 ∷ 68 ∷ 69 ∷ 70 ∷ []

-- `byte >> 4U` and `byte & 0x0FU`
unfoldable pub append_hex_escape : List ℕ → ℕ → List ℕ
append_hex_escape out byte =
    out ++ (b'\\' ∷ get_or upper_hex (byte / 16) 0 ∷ get_or upper_hex (byte % 16) 0 ∷ [])

-- The bytes that `EscapeTlsText` copies as they are.
abbrev pub is_plain : ℕ → Bool
is_plain ch = leb 33 ch && leb ch 126 && not (ch == b'\\')

-- The loop over the bytes of `raw` that are left, with the text so far.
unfoldable pub escape_tls_loop : List ℕ → List ℕ → List ℕ
unfolding append_decimal_escape
escape_tls_loop text [] = text
escape_tls_loop text (ch ∷ raw) =
    escape_tls_loop (if is_plain ch then text ++ (ch ∷ []) else append_decimal_escape text ch) raw

unfoldable pub escape_tls_text : List ℕ → List ℕ
unfolding escape_tls_loop
escape_tls_text raw = escape_tls_loop [] raw
