-- ===== src/Pcap/Writer.antt =====
-- src/pcap_writer.cpp and src/include/pcap_writer.hpp. `PcapOutput` is an interface that the caller
-- implements: a record of its two operations, on a state of its own; `none` is an exception. A
-- signed timestamp is its value plus 2^63. A payload is the list of its `data_size` bytes, with
-- whether its pointer is null.
pub mod Appends
use packet_quapture.Base.{
  ℕ, zero, suc, ◌+◌, ◌-◌, ◌*◌, ◌/◌, ◌%◌, ◌^◌, min, max, Bool, true, false, not, ◌&&◌, ◌||◌, List,
  [], ◌∷◌, ◌++◌, ◌==◌, ltb, leb, if◌then◌else◌, Option, none, some, length, take, drop, ◌>>=◌, ◌>>◌,
  guard,
}

pub record PcapOutput (O : Type 0) : Type 0 where
  pub write : O → List ℕ → Option (ℕ × O)
  pub seek : O → ℕ → Option O

pub record PcapWriterOptions : Type 0 where
  pub link_type : ℕ
  pub has_snaplen : Bool
  pub snaplen : ℕ

pub data WriterState : Type 0 where
  writing finished failed : WriterState

pub record PcapWriter (O : Type 0) : Type 0 where
  pub output : O
  pub options : PcapWriterOptions
  pub state : WriterState
  pub packets : ℕ
  pub written : ℕ
  pub maximum_capture : ℕ

unfoldable pub put32 : ℕ → List ℕ
put32 value = value % 256 ∷ value / 2 ^ 8 % 256 ∷ value / 2 ^ 16 % 256 ∷ value / 2 ^ 24 % 256 ∷ []

abbrev pub write_chunk_size : ℕ
write_chunk_size = 64 * 1024

abbrev pub snaplen_of : PcapWriterOptions → ℕ → ℕ
snaplen_of options maximum = if options.has_snaplen then options.snaplen else maximum

-- The header of the file.
unfoldable pub file_header : ℕ → ℕ → List ℕ
file_header snaplen link_type =
    put32 (
      10 * 2 ^ 28
      + 1 * 2 ^ 24
      + 11 * 2 ^ 20
      + 2 * 2 ^ 16
      + 12 * 2 ^ 12
      + 3 * 2 ^ 8
      + 13 * 2 ^ 4
      + 4)
    ++ (2 ∷ 0 ∷ 4 ∷ 0 ∷ 0 ∷ 0 ∷ 0 ∷ 0 ∷ 0 ∷ 0 ∷ 0 ∷ 0 ∷ [])
    ++ put32 snaplen
    ++ put32 link_type

-- The header of a packet.
unfoldable pub packet_header : ℕ → ℕ → ℕ → List ℕ
packet_header time captured original =
    put32 (time / 1000000) ++ put32 (time % 1000000) ++ put32 captured ++ put32 original

module _ {O : Type 0} (interface : PcapOutput O) where
  -- The loop of `WriteAll`, which writes at least a byte in each pass.
  unfoldable pub write_loop : ℕ → O → List ℕ → Option O
  write_loop fuel o [] = some o
  write_loop zero o (b ∷ bs) = none
  write_loop (suc fuel) o (b ∷ bs) = do
    let requested = min (length (b ∷ bs)) write_chunk_size
    (amount, o') ← interface.write o (take requested (b ∷ bs))
    guard (not (amount == 0 || ltb requested amount))
    write_loop fuel o' (drop amount (b ∷ bs))

  unfoldable pub write_all : O → List ℕ → Option O
  write_all o bytes = write_loop (length bytes) o bytes

  unfoldable pub create : O → PcapWriterOptions → Option (PcapWriter O)
  create o options = do
    guard (not (ltb 65535 options.link_type))
    guard (not (options.has_snaplen && options.snaplen == 0))
    o' ← write_all o (file_header (snaplen_of options 1) options.link_type)
    some (record {
      output = o';
      options = options;
      state = writing;
      packets = 0;
      written = 24;
      maximum_capture = 1;
    })

  -- The checks of `WritePacket`, in their order.
  unfoldable pub is_writable : PcapWriter O → ℕ → ℕ → ℕ → ℕ → Bool → List ℕ → Bool
  is_writable w timestamp captured original link_type is_null payload =
      let limit = 2 ^ 32 - 1 in
      not (ltb timestamp (2 ^ 63) || ltb limit ((timestamp - 2 ^ 63) / 1000000))
      && link_type == w.options.link_type
      && not (ltb limit captured || ltb limit original || ltb original captured)
      && not (not (captured == length payload) || ltb 0 (length payload) && is_null)
      && not (w.options.has_snaplen && ltb w.options.snaplen captured)
      && not (ltb (2 ^ 64 - 1 - 16 - captured) w.written || w.packets == 2 ^ 64 - 1)

  abbrev pub wrote : PcapWriter O → O → ℕ → PcapWriter O
  wrote w o captured = record w {
    output = o;
    maximum_capture = max w.maximum_capture captured;
    written = w.written + (16 + captured);
    packets = w.packets + 1;
  }

  -- The body of the try block.
  unfoldable pub try_packet : PcapWriter O → ℕ → ℕ → ℕ → ℕ → Bool → List ℕ → Option (PcapWriter O)
  try_packet w timestamp captured original link_type is_null payload = do
    guard (is_writable w timestamp captured original link_type is_null payload)
    o ← write_all w.output (packet_header (timestamp - 2 ^ 63) captured original)
    o' ← write_all o payload
    some (wrote w o' captured)

-- How a call ends: it returns, or throws, with the state that the writer is then in. What the output
-- holds behind an exception is not modelled.
pub data Call (O : Type 0) : Type 0 where
  returned : PcapWriter O → Call O
  threw : WriterState → Call O

-- The catch block.
abbrev pub caught : {O : Type 0} → PcapWriter O → Option (PcapWriter O) → Call O
caught w none = threw failed
caught w (some w') = returned w'

-- `RequireOpen`, then the try block.
abbrev pub when_open : {O : Type 0} → PcapWriter O → WriterState → Option (PcapWriter O) → Call O
when_open w writing body = caught w body
when_open w finished body = threw finished
when_open w failed body = threw failed

module _ {O : Type 0} (interface : PcapOutput O) where
  unfoldable pub write_packet : PcapWriter O → ℕ → ℕ → ℕ → ℕ → Bool → List ℕ → Call O
  write_packet w timestamp captured original link_type is_null payload =
      when_open w w.state
        (try_packet interface w timestamp captured original link_type is_null payload)

  -- The inferred snaplen goes to its place in the header.
  unfoldable pub patch_snaplen : PcapWriter O → Option O
  patch_snaplen w = do
    o ← interface.seek w.output 16
    o' ← write_all interface o (put32 w.maximum_capture)
    interface.seek o' w.written

  unfoldable pub try_finish : PcapWriter O → Option (PcapWriter O)
  try_finish w = do
    o ← if w.options.has_snaplen then some w.output else patch_snaplen w
    some (record w { output = o; state = finished })

  unfoldable pub finish_writer : PcapWriter O → Call O
  finish_writer w = when_open w w.state (try_finish w)
