-- ===== src/Dns/Framer/RoundTrip.antt =====
-- Framing recovers the messages that a sender wrote, each behind its length.
use packet_quapture.Base.{
  ℕ, zero, suc, ◌+◌, ◌-◌, ◌/◌, ◌%◌, ◌^◌, ◌≤◌, ◌<◌, ◌≡◌, refl, sym, ap, ◌∙◌, true, List, [], ◌∷◌,
  ◌++◌, map, some, length, get_or, take, drop, All, length-append, length-drop, arith,
}
use packet_quapture.Base.Splits.{get_or-drop, drop-drop, take-append, drop-append}
use mathlib.Core.List.{append-nil, append_assoc}
use packet_quapture.Tcp.Types.{TcpStream, TcpStreamChunk, contiguous}
use packet_quapture.Tcp.Provenance.{provenance_found}
use packet_quapture.Tcp.Emit.Origins.{Tiles}
use packet_quapture.Dns.Framer.{
  TcpDnsMessage, frame_complete, DnsFramingLimits, frame_diagnostic, frame_length, framed, broke,
  frame_loop, close_frames, frame_anchored, frame_tcp_dns,
}

-- The bytes of messages on the wire: RFC 1035, 4.2.2.
abbrev pub encode : List (List ℕ) → List ℕ
encode [] = []
encode (m ∷ messages) = length m / 256 ∷ length m % 256 ∷ (m ++ encode messages)

-- A message that a frame can hold, with the whole header of DNS.
abbrev pub IsMessage : List ℕ → Type 0
IsMessage m = (12 ≤ length m) × (length m < 2 ^ 16)

abbrev pub IsComplete : TcpDnsMessage → Type 0
IsComplete message = message.status ≡ frame_complete

abbrev pub bytes_of : TcpDnsMessage → List ℕ
bytes_of message = message.bytes

-- The first frame of what is left from `offset` on.
frame_length-encode :
    (octets : List ℕ) (offset : ℕ) (m : List ℕ) (messages : List (List ℕ))
    → drop offset octets ≡ encode (m ∷ messages)
    → frame_length octets offset ≡ length m
frame_length-encode octets offset m messages e =
    let a : get_or octets offset 0 ≡ length m / 256 =
      (let z : offset + 0 ≡ offset = omega arith in
        rw (e, z) at (sym (get_or-drop octets offset 0 0))) in
    let b : get_or octets (offset + 1) 0 ≡ length m % 256 =
      rw e at (sym (get_or-drop octets offset 1 0)) in
    omega (arith, a, b)

frame-encode :
    (octets : List ℕ) (offset : ℕ) (m : List ℕ) (messages : List (List ℕ))
    → drop offset octets ≡ encode (m ∷ messages)
    → take (length m) (drop (offset + 2) octets) ≡ m
frame-encode octets offset m messages e =
    rw (drop-drop octets offset 2, e) (take-append m (encode messages))

rest-encode :
    (octets : List ℕ) (offset : ℕ) (m : List ℕ) (messages : List (List ℕ))
    → drop offset octets ≡ encode (m ∷ messages)
    → drop (offset + (length m + 2)) octets ≡ encode messages
rest-encode octets offset m messages e =
    let s : length m + 2 ≡ suc (suc (length m)) = omega arith in
    rw (drop-drop octets offset (length m + 2), e, s) (drop-append m (encode messages))

-- From any frame on, the loop reads the messages that are left, and stops behind them.
frame_loop-encode :
    (fuel : ℕ) (limits : DnsFramingLimits) (stream : TcpStream) (chunk : TcpStreamChunk)
    (offset number : ℕ) (result : List TcpDnsMessage) (messages : List (List ℕ))
    → Tiles 0 chunk.origins (length chunk.bytes)
    → offset ≤ length chunk.bytes
    → length chunk.bytes - offset < fuel
    → drop offset chunk.bytes ≡ encode messages
    → All IsMessage messages
    → number + length messages ≤ limits.max_messages
    → (out : List TcpDnsMessage) × (frame_loop fuel limits stream chunk offset number result
        ≡ some (broke (result ++ out) (length chunk.bytes)))
      × (map bytes_of out ≡ messages)
      × All IsComplete out
unfolding frame_loop frame_diagnostic
frame_loop-encode zero limits stream chunk offset number result messages t l f e a c =
    absurd (omega arith)
frame_loop-encode (suc fuel) limits stream chunk offset number result [] t l f e a c =
    let n : length chunk.bytes - offset ≡ 0 = rw e at (sym (length-drop offset chunk.bytes)) in
    let o : offset ≡ length chunk.bytes = omega (arith, n) in
    ([], rw (append-nil result) (ground (arith, o)), refl, tt)
frame_loop-encode (suc fuel) limits stream chunk offset number result (m ∷ messages) t l f e (h, a)
      c =
    let n : 2 + (length m + length (encode messages)) ≡ length chunk.bytes - offset =
      omega (arith, length-append m (encode messages), rw e at (length-drop offset chunk.bytes)) in
    let size = frame_length-encode chunk.bytes offset m messages e in
    let (stamps, p) =
      provenance_found chunk offset (length m + 2) t (omega arith) (omega (arith, n)) in
    let one = framed stream chunk.bytes offset (length m) number stamps in
    let (out, q, b, k) =
      frame_loop-encode fuel limits stream chunk (offset + (length m + 2)) (suc number)
        (result ++ one ∷ []) messages t (omega (arith, n)) (omega (arith, n))
        (rest-encode chunk.bytes offset m messages e) a (omega (arith, c)) in
    let q' = rw (append_assoc result (one ∷ []) out) at q in
    (
      one ∷ out,
      rw size (ground (arith, q', p, h, n, c)),
      rw (b, frame-encode chunk.bytes offset m messages e) refl,
      (refl, k),
    )

-- A contiguous stream from its SYN on that is `octets`, as `Finish` delivers one.
pub record IsWhole (stream : TcpStream) (octets : List ℕ) : Type 0 where
  pub status : stream.status ≡ contiguous
  pub syn_seen : stream.syn_seen ≡ true
  pub expected : stream.expected_bytes ≡ length octets
  pub chunk : TcpStreamChunk
  pub chunks : stream.chunks ≡ chunk ∷ []
  pub first : chunk.offset ≡ 0
  pub same : chunk.bytes ≡ octets
  pub tiled : Tiles 0 chunk.origins (length chunk.bytes)

-- If a whole stream is the wire form of DNS messages, each with a full header, and their number is
-- within the limit, `FrameTcpDns` recovers exactly these messages in their order, all complete, and
-- no assertion fails.
pub frame_tcp_dns-encode :
    (limits : DnsFramingLimits) (stream : TcpStream) (messages : List (List ℕ))
    → IsWhole stream (encode messages)
    → All IsMessage messages
    → length messages ≤ limits.max_messages
    → (out : List TcpDnsMessage) × (frame_tcp_dns limits stream ≡ some out)
      × (map bytes_of out ≡ messages)
      × All IsComplete out
unfolding frame_tcp_dns frame_anchored close_frames
frame_tcp_dns-encode limits stream messages w a c =
    let (out, q, b, k) =
      frame_loop-encode (suc (length w.chunk.bytes)) limits stream w.chunk 0 0 [] messages w.tiled
        (omega arith) (omega arith) w.same a (omega (arith, c)) in
    let e : length w.chunk.bytes ≡ stream.expected_bytes = ap length w.same ∙ sym w.expected in
    (out, rw (w.status, w.syn_seen, w.chunks) (ground (arith, w.first, q, e)), b, k)
