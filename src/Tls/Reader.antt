-- ===== src/Tls/Reader.antt =====
-- src/include/tls_reader.hpp: the bounds-checked reader, and `ParseTlsServerName`.
-- A method returns its result and the reader after it; an `out` parameter is part of the result.
pub mod Bounds
pub mod Inside
use packet_quapture.Base.{
  ℕ, zero, suc, ◌+◌, ◌-◌, ◌*◌, ◌/◌, ◌^◌, Bool, true, false, not, ◌&&◌, ◌||◌, List, [], ◌==◌, ltb,
  leb, if◌then◌else◌, Bytes, slice, u16, u32, Option, none, some,
}
use packet_quapture.Escape.{escape_tls_text}

pub record TlsReader : Type 0 where
  pub bytes : Bytes
  pub size : ℕ
  pub offset : ℕ
  pub overrun : Bool

abbrev pub start : Bytes → ℕ → TlsReader
start bytes size = record { bytes = bytes; size = size; offset = 0; overrun = false }

abbrev pub remaining : TlsReader → ℕ
remaining r = if r.overrun then 0 else r.size - r.offset

-- `overrun = true; return …`
abbrev pub overran : TlsReader → TlsReader
overran r = record r { overrun = true }

abbrev pub advance : TlsReader → ℕ → TlsReader
advance r count = record r { offset = r.offset + count }

unfoldable pub u8_of : TlsReader → ℕ × TlsReader
u8_of r = if ltb (remaining r) 1 then (0, overran r) else (r.bytes r.offset, advance r 1)

unfoldable pub u16_of : TlsReader → ℕ × TlsReader
unfolding u8_of
u16_of r = let (high, r') = u8_of r in let (low, r'') = u8_of r' in (u16 (high * 2 ^ 8 + low), r'')

unfoldable pub u24_of : TlsReader → ℕ × TlsReader
unfolding u8_of
u24_of r =
    let (high, r') = u8_of r in
    let (mid, r'') = u8_of r' in
    let (low, r''') = u8_of r'' in (u32 (high * 2 ^ 16 + mid * 2 ^ 8 + low), r''')

unfoldable pub skip : TlsReader → ℕ → Bool × TlsReader
skip r count = if ltb (remaining r) count then (false, overran r) else (true, advance r count)

-- `length_bytes` is 1 or 2.
unfoldable pub vector_length : TlsReader → ℕ → ℕ × TlsReader
vector_length r length_bytes = if length_bytes == 1 then u8_of r else u16_of r

unfoldable pub skip_vector : TlsReader → ℕ → Bool × TlsReader
unfolding vector_length
skip_vector r length_bytes =
    let (length, r') = vector_length r length_bytes in
    if not r'.overrun then skip r' length else (false, r')

-- `Take`, `TakeBytes`: the bytes are copied out. `none` is the result false.
unfoldable pub take_bytes : TlsReader → ℕ → Option (List ℕ) × TlsReader
unfolding slice
take_bytes r count =
    if ltb (remaining r) count
    then (none, overran r)
    else (some (slice r.bytes r.offset count), advance r count)

-- `Sub` and `TakeSpan`: the next `count` bytes in place. `none` is the result false.
unfoldable pub sub : TlsReader → ℕ → Option TlsReader × TlsReader
sub r count =
    if ltb (remaining r) count
    then (none, overran r)
    else (some (start (λ i. r.bytes (r.offset + i)) count), advance r count)

-- `ParseTlsServerName`: the return value, `has_name`, `name`, and the reader.
pub record ServerName : Type 0 where
  pub complete : Bool
  pub has_name : Bool
  pub name : List ℕ

abbrev pub absent : Bool → ServerName
absent b = record { complete = b; has_name = false; name = [] }

-- The tail of a round that found a host name.
unfoldable pub host_name : Option (List ℕ) → ServerName
unfolding escape_tls_text
host_name none = absent false
host_name (some raw) = record { complete = true; has_name = true; name = escape_tls_text raw }

-- The loop. A round adds three or more to `consumed`, so `list_length` rounds are enough, and out
-- of fuel the loop test is false (`Bounds.server_name_loop_fuel`).
unfoldable pub server_name_loop : ℕ → TlsReader → ℕ → ℕ → ServerName
server_name_loop zero r list_length consumed = absent (consumed == list_length)
server_name_loop (suc fuel) r list_length consumed =
    let (name_type, r1) = u8_of r in
    let (name_length, r2) = u16_of r1 in
    let consumed' = consumed + 3 in
    let (skipped, r3) = skip r2 name_length in
    let rest = server_name_loop fuel r3 list_length (consumed' + name_length) in
    if leb (consumed + 3) list_length
    then if r2.overrun || ltb (list_length - consumed') name_length
      then absent false
      else if name_type == 0
      then host_name (take_bytes r2 name_length).0
      else if not skipped
      then absent false
      else rest
    else absent (consumed == list_length)

unfoldable pub parse_tls_server_name : TlsReader → ServerName
parse_tls_server_name r =
    let (list_length, r') = u16_of r in
    if r'.overrun || not (remaining r' == list_length)
    then absent false
    else server_name_loop list_length r' list_length 0
