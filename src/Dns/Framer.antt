-- ===== src/Dns/Framer.antt =====
-- src/dns_tcp_framer.cpp and src/include/dns_tcp_framer.hpp: the DNS messages in a reconstructed TCP
-- stream. An error text is a constructor of `FrameError`. The result `none` is a failed PQ_ASSERT.
pub mod RoundTrip
use packet_quapture.Base.{
  ℕ, zero, suc, ◌+◌, ◌-◌, ◌*◌, Bool, true, false, not, ◌&&◌, ◌||◌, List, [], ◌∷◌, ◌++◌, ◌==◌, ltb,
  leb, if◌then◌else◌, u32, Option, none, some, length, get_or, take, drop, ◌>>=◌, ◌>>◌, guard,
}
use packet_quapture.Tcp.Types.{
  TcpFlowKey, PacketStamp, TcpStream, TcpStreamChunk, TcpGap, TcpStreamStatus, unset, contiguous,
  gapped, unanchored, conflict, limit, Reason, FinalizedBy, idle_timeout,
}
use packet_quapture.Tcp.Provenance.{provenance}

pub data DnsFrameStatus : Type 0 where
  frame_unset frame_complete frame_incomplete frame_invalid frame_unanchored frame_conflict
        frame_limit :
      DnsFrameStatus

pub data FrameError : Type 0 where
  no_error unaligned short_frame too_many missing_bytes cut_at_idle cut_at_end : FrameError
  of_stream : Reason → FrameError

pub record TcpDnsMessage : Type 0 where
  pub key : TcpFlowKey
  pub tcp : Bool
  pub stream_id : ℕ
  pub message_number : ℕ
  pub sequence : ℕ
  pub first : PacketStamp
  pub last : PacketStamp
  pub status : DnsFrameStatus
  pub error : FrameError
  pub bytes : List ℕ

pub record DnsFramingLimits : Type 0 where
  pub max_messages : ℕ

unfoldable pub failed_stream_status : TcpStreamStatus → Option DnsFrameStatus
failed_stream_status conflict = some frame_conflict
failed_stream_status limit = some frame_limit
failed_stream_status _ = none

unfoldable pub frame_diagnostic : TcpStream → DnsFrameStatus → FrameError → TcpDnsMessage
frame_diagnostic stream status error = record {
  key = stream.key;
  tcp = true;
  stream_id = stream.stream_id;
  message_number = 0;
  sequence = stream.sequence;
  first = stream.first;
  last = stream.last;
  status = status;
  error = error;
  bytes = [];
}

-- `diagnostic.sequence += static_cast<uint32_t>(offset)`
abbrev pub moved : ℕ → TcpDnsMessage → TcpDnsMessage
moved offset message = record message { sequence = u32 (message.sequence + u32 offset) }

abbrev pub frame_length : List ℕ → ℕ → ℕ
frame_length octets offset = get_or octets offset 0 * 256 + get_or octets (offset + 1) 0

abbrev pub framed : TcpStream → List ℕ → ℕ → ℕ → ℕ → PacketStamp × PacketStamp → TcpDnsMessage
framed stream octets offset size number (first, last) =
    record (moved offset (frame_diagnostic stream frame_complete no_error)) {
      message_number = suc number;
      first = first;
      last = last;
      bytes = take size (drop (offset + 2) octets);
    }

-- How the loop ends: with the whole result, or at an offset with the messages so far.
pub data Framing : Type 0 where
  returned : List TcpDnsMessage → Framing
  broke : List TcpDnsMessage → ℕ → Framing

unfoldable pub frame_loop :
    ℕ → DnsFramingLimits → TcpStream → TcpStreamChunk → ℕ → ℕ → List TcpDnsMessage → Option Framing
frame_loop zero limits stream chunk offset number result = none
frame_loop (suc fuel) limits stream chunk offset number result =
    let available = length chunk.bytes in
    let size = frame_length chunk.bytes offset in
    let rest = provenance chunk offset (size + 2) >>= (λ stamps.
      frame_loop fuel limits stream chunk (offset + (size + 2)) (suc number)
        (result ++ framed stream chunk.bytes offset size number stamps ∷ [])) in
    if ltb available offset
    then none
    else if ltb (available - offset) 2
    then some (broke result offset)
    else if ltb size 12
    then some
        (returned (result ++ moved offset (frame_diagnostic stream frame_invalid short_frame) ∷ []))
    else if ltb (available - offset - 2) size
    then some (broke result offset)
    else if leb limits.max_messages number
    then some (returned (frame_diagnostic stream frame_limit too_many ∷ []))
    else rest

-- The first chunk, if it starts the stream.
abbrev pub first_chunk : List TcpStreamChunk → Option TcpStreamChunk
first_chunk [] = none
first_chunk (chunk ∷ _) = if chunk.offset == 0 then some chunk else none

-- A pass takes at least two bytes.
abbrev pub frame_chunk : DnsFramingLimits → TcpStream → Option TcpStreamChunk → Option Framing
frame_chunk limits stream none = some (broke [] 0)
frame_chunk limits stream (some chunk) =
    frame_loop (suc (length chunk.bytes)) limits stream chunk 0 0 []

abbrev pub incomplete_error : TcpStream → FrameError
incomplete_error stream = elim stream.gaps [
  | _ ∷ _ ↦ missing_bytes
  | [] ↦ elim stream.finalized_by [ idle_timeout ↦ cut_at_idle | _ ↦ cut_at_end ]
]

-- What follows the loop.
unfoldable pub close_frames : TcpStream → Framing → List TcpDnsMessage
close_frames stream (returned result) = result
close_frames stream (broke result offset) =
    if offset == stream.expected_bytes
    then result
    else result
      ++ moved offset (frame_diagnostic stream frame_incomplete (incomplete_error stream)) ∷ []

unfoldable pub frame_anchored : DnsFramingLimits → TcpStream → Option (List TcpDnsMessage)
frame_anchored limits stream =
    if not stream.syn_seen
    then some (frame_diagnostic stream frame_unanchored unaligned ∷ [])
    else (do
      framing ← frame_chunk limits stream (first_chunk stream.chunks)
      some (close_frames stream framing))

abbrev pub has_failed : TcpStreamStatus → Bool
has_failed conflict = true
has_failed limit = true
has_failed _ = false

unfoldable pub frame_tcp_dns : DnsFramingLimits → TcpStream → Option (List TcpDnsMessage)
frame_tcp_dns limits stream =
    let failed = (do
      status ← failed_stream_status stream.status
      some (frame_diagnostic stream status (of_stream stream.error) ∷ [])) in
    if has_failed stream.status then failed else frame_anchored limits stream

unfoldable pub frame_streams : DnsFramingLimits → List TcpStream → Option (List TcpDnsMessage)
frame_streams limits [] = some []
frame_streams limits (stream ∷ streams) = do
  messages ← frame_tcp_dns limits stream
  rest ← frame_streams limits streams
  some (messages ++ rest)
