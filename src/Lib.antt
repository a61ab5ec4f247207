-- ===== src/Lib.antt =====
-- PacketQuapture reads packet captures inside DuckDB. This library models the part of it that
-- interprets what a peer sent, where every length, offset and sequence number is hostile input.
--
-- The parts, and how they work together:
--   * `Packet` is src/packet_decoder.cpp with src/include/packet_decoder.hpp. `decode_packet` is
--     `DecodePacket`: link, network and transport headers of one packet, read through a source that
--     gives prefixes of the packet.
--   * `Tls` is src/tls_record.cpp, src/include/tls_record.hpp and src/include/tls_reader.hpp.
--     `decode_tls_record` is `DecodeTlsRecord`, which takes the payload of one TCP packet for the
--     start of a TLS record and looks for the server name of a ClientHello in it.
--     `Tls.Handshake` is the part of src/tls_handshake.cpp that parses hellos: `parse_hello` is
--     `ParseHello`, with the lists and the extensions of a ClientHello or a ServerHello, on the fields of
--     `TlsHandshake` that a hello fills; `hello_at` is `HelloAt`.
--   * `Escape` is src/include/text_escape.hpp and `EscapeTlsText`, which render peer bytes as text.
--   * `Tcp` is src/tcp_reassembly.cpp with src/include/tcp_reassembly.hpp. `Tcp.Reassembler` has the
--     state of `TcpReassembler`, with its tables of directions and of clocks; `add` and `finish_next`
--     in `Tcp.Reassembler.Packets` are `Add` and `FinishNext`. What they finish goes through
--     `Tcp.Sequence` (`StreamBase`), `Tcp.Finish` (`Measure`, `Finish`), `Tcp.Overlay` (`Overlay`) and
--     `Tcp.Emit` (`Emit`). `Tcp.Provenance` is `TcpStreamChunk::Provenance`.
--   * `Dns` is src/dns_tcp_framer.cpp (`Dns.Framer`), which cuts the streams of `Tcp` into messages, and
--     src/dns_decoder.cpp (`Dns.Decoder`), which decodes one message.
--   * `Pcap` is src/pcap_writer.cpp with src/include/pcap_writer.hpp: `create`, `write_packet` and
--     `finish_writer` are the constructor, `WritePacket` and `Finish` of `PcapWriter`, on any output.
--   * `Flow` is src/flow_aggregator.cpp with src/include/flow_aggregator.hpp, the table of sessions:
--     `Flow.Key` (`MakeKey`), `Flow.Account` (`Account`, `Open`, `Reused`), `Flow.Table` (the queues of
--     sessions to expire: `Schedule`, `Refresh`, `Evictable`, `Emit`) and `Flow.Aggregator` (`Push`,
--     `Finish`, `Next`). `Flow.Scan` is the loop of `FlowsScan` in src/packetquapture_extension.cpp
--     over the records of one file. An exception is a `Failure`.
--   * `Scan` is src/include/scan_budget.hpp: row ids, and the memory budget that the workers of a
--     query share, whose lock makes each operation one step.
--   * `Base` has what these share: src/include/byte_order.hpp, machine integers, lists, and the
--     ordered maps of the standard library.
-- The `Examples` module of each part runs it on small inputs.
--
-- How the code is written down: a pointer is the function from an index to the byte there; shifted
-- bytes that are or-ed are added, and masks are written with / and %; a 16, 32 or 64-bit result is
-- taken modulo its size wherever the code can wrap, and left as it is where a guard before it rules
-- that out. A signed 64-bit timestamp is its value plus 2^63. An error text is a constructor. A
-- function that changes its arguments returns them, and one that can fail returns `Option`. std::map
-- and std::set are lists in the order of their keys.
--
-- A failed PQ_ASSERT throws in every build. It has a result of its own in `Expire`, `Remove`,
-- `Schedule`, `Unschedule`, `Finish` and `Provenance`, in the framer, in the DNS decoder, in the
-- flow table, and where the hello parsers read lists and walk over the extensions. Left out are, in
-- the reassembler, those on the counters in `Fail`, where the model wraps around as the source would
-- without them, and those of `Buffer`; in `TlsReader`, the pointer of the constructor, the argument of
-- `SkipVector`, which is a constant, and `offset <= size` in `Remaining`, with which
-- `Tls.Reader.Inside` deals for all readers; and in the packet decoder those that guard an index that
-- the model cannot leave. What the constructor of `TcpReassembler` asserts is `IsLimits`.
--
-- Loops run on fuel where they are not on the structure of a list: the VLAN stack holds 8 tags, an
-- IPv6 packet has 16 extension headers, the TLS lists have at most one entry for each byte of their
-- length, a DNS name has at most 255 steps, the framer at most one step for each byte, `Emit` at most
-- one step for each position, `Expire` two passes for each direction and one more, `Refresh` one for
-- each session and one more, and the scan of a file two calls of `Next` for each record and two more.
-- The results below state for the loops that are not bounded by the code itself that the fuel is
-- enough.
--
-- Not modelled: the table functions of src/packetquapture_extension.cpp and the files beside it that
-- register SQL with DuckDB, since that interface is not in the repository; the rest of the TLS
-- handshake (certificates, tunnels, records and the pairing of directions), X.509 and fingerprint
-- code; the read-ahead; the plan registry of scans; the texts that snprintf writes for addresses,
-- which stay numbers.
pub mod Base
pub mod Escape
pub mod Flow
pub mod Tls
pub mod Packet
pub mod Tcp
pub mod Dns
pub mod Pcap
pub mod Scan
