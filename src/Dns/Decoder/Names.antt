-- ===== src/Dns/Decoder/Names.antt =====
-- `Parser::Has` and `Parser::Name` of src/dns_decoder.cpp. The counter `work` of `Parser` is a value that
-- each name passes on. A text is the list of its character codes.
use packet_quapture.Base.{
  ℕ, zero, suc, ◌+◌, ◌-◌, ◌*◌, ◌/◌, ◌%◌, Bool, true, false, not, ◌&&◌, ◌||◌, List, [], ◌∷◌, ◌++◌,
  ◌==◌, ltb, leb, if◌then◌else◌, Bytes,
}
use packet_quapture.Escape.{append_decimal_escape}

-- The result of a step: a value, false, or a failed PQ_ASSERT.
pub data Parsed (A : Type 0) : Type 0 where
  parsed : A → Parsed A
  malformed : Parsed A
  asserted : Parsed A

abbrev pub and_then : {A B : Type 0} → Parsed A → (A → Parsed B) → Parsed B
and_then (parsed a) f = f a
and_then malformed f = malformed
and_then asserted f = asserted

abbrev pub has_bytes : ℕ → ℕ → ℕ → Bool
has_bytes size offset amount = leb offset size && leb amount (size - offset)

abbrev pub work_max : ℕ
work_max = 262144

abbrev pub steps_max : ℕ
steps_max = 127 + 127 + 1

abbrev pub is_name_character : ℕ → Bool
is_name_character ch = leb 33 ch && leb ch 126 && not (ch == 46) && not (ch == 92)

unfoldable pub append_label : Bytes → ℕ → ℕ → List ℕ → List ℕ
append_label octets zero cursor name = name
append_label octets (suc n) cursor name =
    let ch = octets cursor in
    append_label octets n (cursor + 1)
      (if is_name_character ch then name ++ ch ∷ [] else append_decimal_escape name ch)

abbrev pub is_nothing : List ℕ → Bool
is_nothing [] = true
is_nothing (_ ∷ _) = false

-- The locals of `Name`, and the counter of the parser.
pub record NameState : Type 0 where
  pub cursor : ℕ
  pub expanded : ℕ
  pub segment : ℕ
  pub labels : ℕ
  pub pointers : ℕ
  pub jumped : Bool
  pub offset : ℕ
  pub work : ℕ
  pub name : List ℕ

pub record Named : Type 0 where
  pub offset : ℕ
  pub work : ℕ
  pub name : List ℕ

-- How one pass of the loop ends.
pub data NamePass : Type 0 where
  next : NameState → NamePass
  done : Named → NamePass

-- A compression pointer; `cursor` is behind its first byte `size_byte`.
unfoldable pub follow : Bytes → ℕ → NameState → ℕ → Parsed NamePass
follow octets size s size_byte =
    let target = size_byte % 64 * 256 + octets s.cursor in
    let after = s.cursor + 1 in
    if not (has_bytes size s.cursor 1)
    then malformed
    else if ltb target 12 || leb s.segment target
    then malformed
    else if ltb 127 (s.pointers + 1)
    then malformed
    else parsed (
        next (record s {
          pointers = s.pointers + 1;
          offset = if s.jumped then s.offset else after;
          jumped = true;
          cursor = target;
          segment = target;
        }))

-- The label of `amount` bytes at the cursor.
unfoldable pub take_label : Bytes → NameState → ℕ → Parsed NamePass
take_label octets s amount =
    let name = if is_nothing s.name then s.name else s.name ++ 46 ∷ [] in
    if ltb 255 (s.expanded + (amount + 1))
    then malformed
    else if ltb 127 (s.labels + 1)
    then asserted
    else parsed (
        next (record s {
          expanded = s.expanded + (amount + 1);
          labels = s.labels + 1;
          cursor = s.cursor + amount;
          name = append_label octets amount s.cursor name;
        }))

abbrev pub end_name : NameState → Named
end_name s = record {
  offset = if s.jumped then s.offset else s.cursor;
  work = s.work;
  name = if is_nothing s.name then 46 ∷ [] else s.name;
}

-- A label, or the end of the name.
unfoldable pub read_label : Bytes → ℕ → NameState → ℕ → Parsed NamePass
read_label octets size s amount =
    if ltb 63 amount || not (has_bytes size s.cursor amount)
    then malformed
    else if amount == 0
    then parsed (done (end_name s))
    else take_label octets s amount

abbrev pub advance_name : NameState → NameState
advance_name s = record s { work = s.work + 1; cursor = s.cursor + 1 }

unfoldable pub name_pass : Bytes → ℕ → NameState → Parsed NamePass
name_pass octets size s =
    if ltb work_max (s.work + 1) || not (has_bytes size s.cursor 1)
    then malformed
    else if octets s.cursor / 64 % 4 == 3
    then follow octets size (advance_name s) (octets s.cursor)
    else read_label octets size (advance_name s) (octets s.cursor)

unfoldable pub name_loop : ℕ → Bytes → ℕ → NameState → Parsed Named
name_loop zero octets size s = asserted
name_loop (suc steps) octets size s =
    and_then (name_pass octets size s)
      (λ p. elim p [ done n ↦ parsed n | next s' ↦ name_loop steps octets size s' ])

abbrev pub start_name : ℕ → ℕ → NameState
start_name offset work = record {
  cursor = offset;
  expanded = 1;
  segment = offset;
  labels = 0;
  pointers = 0;
  jumped = false;
  offset = offset;
  work = work;
  name = [];
}

unfoldable pub read_name : Bytes → ℕ → ℕ → ℕ → Parsed Named
read_name octets size offset work = name_loop steps_max octets size (start_name offset work)
