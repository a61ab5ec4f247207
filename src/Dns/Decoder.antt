-- ===== src/Dns/Decoder.antt =====
-- src/dns_decoder.cpp and src/include/dns_decoder.hpp: records, sections and messages, on the names that
-- `Names` reads. The texts of addresses, which snprintf writes, are kept as the numbers it writes.
pub mod Names
pub mod Total
pub mod Counts
pub use Names.{
  Parsed, and_then, has_bytes, work_max, steps_max, is_name_character, is_nothing, NameState, Named,
  NamePass, end_name, advance_name, start_name, parsed, malformed, asserted, next, done,
}
unfoldable pub use Names.{
  append_label, follow, take_label, read_label, name_pass, name_loop, read_name,
}
use packet_quapture.Base.{
  ℕ, zero, suc, ◌+◌, ◌-◌, ◌*◌, ◌/◌, ◌%◌, ◌^◌, Bool, true, false, not, ◌&&◌, ◌||◌, List, [], ◌∷◌,
  ◌++◌, ◌==◌, ltb, leb, if◌then◌else◌, Bytes, slice, be16, be32, length,
}
use packet_quapture.Escape.{append_decimal_escape}

pub record DnsQuestion : Type 0 where
  pub name : List ℕ
  pub kind : ℕ
  pub klass : ℕ

-- What stands in a record's text: four numbers with dots, eight with colons, or a name.
pub data RecordText : Type 0 where
  no_text : RecordText
  ipv4_text : ℕ → ℕ → ℕ → ℕ → RecordText
  ipv6_text : List ℕ → RecordText
  name_text : List ℕ → RecordText

pub record DnsRecord : Type 0 where
  pub name : List ℕ
  pub kind : ℕ
  pub klass : ℕ
  pub ttl : ℕ
  pub text : RecordText
  pub bytes : List ℕ

abbrev pub ipv4_of : Bytes → ℕ → RecordText
ipv4_of octets at = ipv4_text (octets at) (octets (at + 1)) (octets (at + 2)) (octets (at + 3))

abbrev pub ipv6_of : Bytes → ℕ → RecordText
ipv6_of octets at = ipv6_text (
    be16 octets at
    ∷ be16 octets (at + 2)
    ∷ be16 octets (at + 4)
    ∷ be16 octets (at + 6)
    ∷ be16 octets (at + 8)
    ∷ be16 octets (at + 10)
    ∷ be16 octets (at + 12)
    ∷ be16 octets (at + 14)
    ∷ [])

-- The text of a record, and the parser's counter behind it.
abbrev pub Worded : Type 0
Worded = RecordText × ℕ

-- A name that is the whole data of its record.
unfoldable pub read_target : Bytes → ℕ → ℕ → ℕ → ℕ → Parsed Worded
read_target octets size at amount work =
    and_then (read_name octets size at work)
      (λ n. if n.offset == at + amount then parsed (name_text n.name, n.work) else malformed)

unfoldable pub read_text : Bytes → ℕ → ℕ → ℕ → ℕ → ℕ → ℕ → Parsed Worded
read_text octets size kind klass at amount work =
    if kind == 1 && klass == 1
    then (if amount == 4 then parsed (ipv4_of octets at, work) else malformed)
    else if kind == 28 && klass == 1
    then (if amount == 16 then parsed (ipv6_of octets at, work) else malformed)
    else if kind == 2 || kind == 5 || kind == 12
    then read_target octets size at amount work
    else parsed (no_text, work)

-- A value, with the offset and the counter behind it.
pub record Read (A : Type 0) : Type 0 where
  pub value : A
  pub offset : ℕ
  pub work : ℕ

abbrev pub record_at : Bytes → Named → ℕ → RecordText → DnsRecord
record_at octets n amount text = record {
  name = n.name;
  kind = be16 octets n.offset;
  klass = be16 octets (n.offset + 2);
  ttl = be32 octets (n.offset + 4);
  text = text;
  bytes = slice octets (n.offset + 10) amount;
}

-- A record behind its name.
unfoldable pub read_body : Bytes → ℕ → Named → Parsed (Read DnsRecord)
read_body octets size n =
    let amount = be16 octets (n.offset + 8) in
    let at = n.offset + 10 in
    if not (has_bytes size n.offset 10)
    then malformed
    else if not (has_bytes size at amount)
    then malformed
    else and_then
        (read_text octets size (be16 octets n.offset) (be16 octets (n.offset + 2)) at amount n.work)
        (λ w.
          parsed
            (record { value = record_at octets n amount w.0; offset = at + amount; work = w.1 }))

unfoldable pub read_records :
    Bytes → ℕ → ℕ → ℕ → ℕ → List DnsRecord → Parsed (Read (List DnsRecord))
read_records octets size zero offset work records =
    parsed (record { value = records; offset = offset; work = work })
read_records octets size (suc count) offset work records =
    and_then (read_name octets size offset work) (λ n.
      and_then (read_body octets size n)
        (λ r. read_records octets size count r.offset r.work (records ++ r.value ∷ [])))

unfoldable pub read_question : Bytes → ℕ → Named → Parsed (Read DnsQuestion)
read_question octets size n =
    if not (has_bytes size n.offset 4)
    then malformed
    else parsed (record {
      value = record {
        name = n.name;
        kind = be16 octets n.offset;
        klass = be16 octets (n.offset + 2);
      };
      offset = n.offset + 4;
      work = n.work;
    })

unfoldable pub read_questions :
    Bytes → ℕ → ℕ → ℕ → ℕ → List DnsQuestion → Parsed (Read (List DnsQuestion))
read_questions octets size zero offset work questions =
    parsed (record { value = questions; offset = offset; work = work })
read_questions octets size (suc count) offset work questions =
    and_then (read_name octets size offset work) (λ n.
      and_then (read_question octets size n)
        (λ r. read_questions octets size count r.offset r.work (questions ++ r.value ∷ [])))

pub data DnsError : Type 0 where
  no_dns_error malformed_message too_many_records : DnsError

pub record DnsMessage : Type 0 where
  pub valid : Bool
  pub error : DnsError
  pub id : ℕ
  pub response : Bool
  pub truncated : Bool
  pub opcode : ℕ
  pub rcode : ℕ
  pub questions : List DnsQuestion
  pub answers : List DnsRecord
  pub authorities : List DnsRecord
  pub additionals : List DnsRecord

abbrev pub invalid_message : DnsError → DnsMessage
invalid_message error = record {
  valid = false;
  error = error;
  id = 0;
  response = false;
  truncated = false;
  opcode = 0;
  rcode = 0;
  questions = [];
  answers = [];
  authorities = [];
  additionals = [];
}

-- The header, and the four sections.
abbrev pub valid_message :
    Bytes → List DnsQuestion → List DnsRecord → List DnsRecord → List DnsRecord → DnsMessage
valid_message octets questions answers authorities additionals =
    let flags = be16 octets 2 in
    record {
      valid = true;
      error = no_dns_error;
      id = be16 octets 0;
      response = flags / 2 ^ 15 % 2 == 1;
      truncated = flags / 2 ^ 9 % 2 == 1;
      opcode = flags / 2 ^ 11 % 16;
      rcode = flags % 16;
      questions = questions;
      answers = answers;
      authorities = authorities;
      additionals = additionals;
    }

-- What follows the last section: the message must be used up.
unfoldable pub finish_message : ℕ → ℕ → DnsMessage → Parsed DnsMessage
finish_message size offset message = if offset == size then parsed message else malformed

unfoldable pub read_sections : Bytes → ℕ → Parsed DnsMessage
read_sections octets size = and_then (read_questions octets size (be16 octets 4) 12 0 []) (λ q.
    and_then (read_records octets size (be16 octets 6) q.offset q.work []) (λ a.
      and_then (read_records octets size (be16 octets 8) a.offset a.work []) (λ b.
        and_then (read_records octets size (be16 octets 10) b.offset b.work []) (λ c.
          finish_message size c.offset (valid_message octets q.value a.value b.value c.value)))))

-- A false result is the invalid message.
abbrev pub or_invalid : Parsed DnsMessage → Parsed DnsMessage
or_invalid (parsed message) = parsed message
or_invalid malformed = parsed (invalid_message malformed_message)
or_invalid asserted = asserted

unfoldable pub decode_dns : Bytes → ℕ → Parsed DnsMessage
decode_dns octets size =
    if ltb size 12 || ltb 65535 size
    then parsed (invalid_message malformed_message)
    else if ltb 4096 (be16 octets 4 + be16 octets 6 + be16 octets 8 + be16 octets 10)
    then parsed (invalid_message too_many_records)
    else or_invalid (read_sections octets size)
