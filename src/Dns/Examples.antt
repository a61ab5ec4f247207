-- ===== src/Dns/Examples.antt =====
-- Runs of the DNS framer and decoder of src/dns_tcp_framer.cpp and src/dns_decoder.cpp.
use packet_quapture.Base.{
  ℕ, ◌+◌, ◌≤◌, ◌≡◌, ◌≢◌, refl, Bool, true, false, List, [], ◌∷◌, ◌++◌, map, length, get_or, Option,
  some, arith, All, Bytes, replicate,
}
use packet_quapture.Tcp.Types.{no_stamp, TcpStreamChunk, TcpStream, contiguous, no_reason, eof}
use packet_quapture.Dns.Framer.{TcpDnsMessage, frame_tcp_dns}
use packet_quapture.Dns.Framer.RoundTrip.{
  encode, IsComplete, IsWhole, bytes_of, frame_tcp_dns-encode,
}
use packet_quapture.Dns.Decoder.{
  Parsed, parsed, malformed, asserted, Named, read_name, DnsMessage, decode_dns,
}
use packet_quapture.Dns.Decoder.Total.{IsNamed, read_name-IsNamed}
use packet_quapture.Dns.Decoder.Counts.{IsDecoded, decode_dns-IsDecoded}

abbrev two_messages : List (List ℕ)
two_messages = replicate 12 1 ∷ replicate 13 2 ∷ []

abbrev framed_chunk : TcpStreamChunk
framed_chunk = record {
  offset = 0;
  sequence = 100;
  bytes = encode two_messages;
  origins = record { offset = 0; length = 29; stamp = no_stamp } ∷ [];
}

abbrev framed_stream : TcpStream
framed_stream = record {
  key = record {
    section = 0;
    interface_id = 0;
    ip_version = 4;
    src_ip = [];
    dst_ip = [];
    src_port = 53;
    dst_port = 1000;
    vlans = [];
  };
  stream_id = 1;
  sequence = 100;
  expected_bytes = 29;
  captured_bytes = 29;
  syn_seen = true;
  fin_seen = true;
  first = no_stamp;
  last = no_stamp;
  status = contiguous;
  error = no_reason;
  finalized_by = eof;
  chunks = framed_chunk ∷ [];
  gaps = [];
}

framed-IsWhole : IsWhole framed_stream (encode two_messages)
framed-IsWhole = record {
  status = refl;
  syn_seen = refl;
  expected = refl;
  chunk = framed_chunk;
  chunks = refl;
  first = refl;
  same = refl;
  tiled = (refl, omega arith, refl);
}

frame_tcp_dns-encode_example :
    (out : List TcpDnsMessage) × (frame_tcp_dns (record { max_messages = 2 }) framed_stream
      ≡ some out)
    × (map bytes_of out ≡ two_messages)
    × All IsComplete out
frame_tcp_dns-encode_example =
    frame_tcp_dns-encode (record { max_messages = 2 }) framed_stream two_messages framed-IsWhole
      ((omega arith, omega arith), ((omega arith, omega arith), tt)) (omega arith)

-- A query for the address of "ab": one question.
abbrev query : List ℕ
query = 0 ∷ 7 ∷ 1 ∷ 0 ∷ 0 ∷ 1 ∷ 0 ∷ 0 ∷ 0 ∷ 0 ∷ 0 ∷ 0 ∷ 2 ∷ 97 ∷ 98 ∷ 0 ∷ 0 ∷ 1 ∷ 0 ∷ 1 ∷ []

abbrev query_bytes : Bytes
query_bytes i = get_or query i 0

query_name :
    read_name query_bytes 20 12 0 ≡ parsed (record { offset = 16; work = 2; name = 97 ∷ 98 ∷ [] })
unfolding read_name packet_quapture.Dns.Decoder.name_loop packet_quapture.Dns.Decoder.name_pass
    packet_quapture.Dns.Decoder.read_label packet_quapture.Dns.Decoder.take_label
    packet_quapture.Dns.Decoder.append_label
query_name = refl

read_name-IsNamed_example :
    (read_name query_bytes 20 12 0 ≢ asserted)
    × ((n : Named) → read_name query_bytes 20 12 0 ≡ parsed n → IsNamed 20 12 0 n)
read_name-IsNamed_example = read_name-IsNamed query_bytes 20 12 0 (omega arith)

abbrev message_of : Parsed DnsMessage → Bool
message_of (parsed m) = m.valid
message_of malformed = false
message_of asserted = false

query_valid : message_of (decode_dns query_bytes 20) ≡ true
unfolding decode_dns packet_quapture.Base.be16 packet_quapture.Dns.Decoder.read_sections
    packet_quapture.Dns.Decoder.read_questions read_name packet_quapture.Dns.Decoder.name_loop
    packet_quapture.Dns.Decoder.name_pass packet_quapture.Dns.Decoder.read_label
    packet_quapture.Dns.Decoder.take_label packet_quapture.Dns.Decoder.read_question
    packet_quapture.Dns.Decoder.read_records packet_quapture.Dns.Decoder.finish_message
query_valid = refl

decode_dns-IsDecoded_example :
    (m : DnsMessage) × (decode_dns query_bytes 20 ≡ parsed m)
    × (m.valid ≡ true → IsDecoded query_bytes 20 m)
decode_dns-IsDecoded_example = decode_dns-IsDecoded query_bytes 20
