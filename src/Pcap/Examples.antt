-- ===== src/Pcap/Examples.antt =====
-- Runs of the PCAP writer of src/pcap_writer.cpp, on an output that takes at most seven bytes at once.
use packet_quapture.Base.{
  ℕ, ◌+◌, ◌-◌, ◌^◌, ◌≤◌, ◌≡◌, refl, min, false, List, [], ◌∷◌, ◌++◌, Option, some, none, length,
  take, arith, if◌then◌else◌,
}
use packet_quapture.Base.Splits.{overwrite}
use packet_quapture.Pcap.Writer.{
  PcapOutput, PcapWriterOptions, PcapWriter, WriterState, writing, finished, Call, returned, threw,
  put32, file_header, packet_header, create, write_packet, finish_writer, snaplen_of,
}
use packet_quapture.Pcap.Writer.Appends.Output.{IsOutput}
use packet_quapture.Pcap.Writer.Appends.{
  IsAppending, write_packet-IsAppending, create-IsAppending, finish_writer-overwrites,
}

-- A file in memory, and the position in it.
abbrev Memory : Type 0
Memory = List ℕ × ℕ

abbrev contents_of : Memory → List ℕ
contents_of (c, p) = c

abbrev position_of : Memory → ℕ
position_of (c, p) = p

abbrev memory_output : PcapOutput Memory
memory_output = record {
  write = λ o bytes. some (
    min 7 (length bytes),
    (overwrite o.1 (take (min 7 (length bytes)) bytes) o.0, o.1 + min 7 (length bytes)),
  );
  seek = λ o p. some (o.0, p);
}

memory-IsOutput : IsOutput memory_output contents_of position_of
memory-IsOutput = record {
  writes = λ o bytes amount o' e h.
      let a : min 7 (length bytes) ≡ amount = ground (arith, e) in
      let b : (overwrite o.1 (take (min 7 (length bytes)) bytes) o.0, o.1 + min 7 (length bytes))
          ≡ o' =
        ground (arith, e) in
      rw (← b, ← a) (refl, refl);
  seeks = λ o p o' e. let b : (o.0, p) ≡ o' = ground (arith, e) in rw (← b) (refl, refl);
}

abbrev some_options : PcapWriterOptions
some_options = record { link_type = 1; has_snaplen = false; snaplen = 0 }

abbrev new_writer : PcapWriter Memory
new_writer = record {
  output = (file_header 1 1, 24);
  options = some_options;
  state = writing;
  packets = 0;
  written = 24;
  maximum_capture = 1;
}

new-IsAppending : IsAppending memory_output contents_of position_of memory-IsOutput new_writer
unfolding file_header put32
new-IsAppending = record { at_end = refl; counted = refl; fits = omega arith }

abbrev writer_of : Call Memory → PcapWriter Memory
writer_of (returned w) = w
writer_of (threw state) = new_writer

-- Three bytes of five, at 1.000002 seconds.
abbrev some_call : Call Memory
some_call = write_packet memory_output new_writer (2 ^ 63 + 1000002) 3 5 1 false (7 ∷ 8 ∷ 9 ∷ [])

call_returns :
    write_packet memory_output new_writer (2 ^ 63 + 1000002) 3 5 1 false (7 ∷ 8 ∷ 9 ∷ [])
    ≡ returned (writer_of some_call)
unfolding write_packet packet_quapture.Pcap.Writer.try_packet
    packet_quapture.Pcap.Writer.is_writable packet_quapture.Pcap.Writer.write_all
    packet_quapture.Pcap.Writer.write_loop packet_header put32
call_returns = refl

write_packet-IsAppending_example :
    (contents_of (writer_of some_call).output
      ≡ (file_header 1 1 ++ packet_header (2 ^ 63 + 1000002 - 2 ^ 63) 3 5) ++ 7 ∷ 8 ∷ 9 ∷ [])
    × IsAppending memory_output contents_of position_of memory-IsOutput (writer_of some_call)
    × ((writer_of some_call).packets ≡ 0 + 1)
    × (3 ≤ (writer_of some_call).maximum_capture)
    × (3 ≤ 5)
write_packet-IsAppending_example =
    write_packet-IsAppending memory_output contents_of position_of memory-IsOutput new_writer
      (2 ^ 63 + 1000002) 3 5 1 false (7 ∷ 8 ∷ 9 ∷ []) (writer_of some_call) new-IsAppending
      call_returns

abbrev created : Option (PcapWriter Memory) → PcapWriter Memory
created none = new_writer
created (some w) = w

create_succeeds :
    create memory_output ([], 0) some_options
    ≡ some (created (create memory_output ([], 0) some_options))
unfolding create packet_quapture.Pcap.Writer.write_all packet_quapture.Pcap.Writer.write_loop
    file_header put32
create_succeeds = refl

create-IsAppending_example :
    (contents_of (created (create memory_output ([], 0) some_options)).output
      ≡ file_header (snaplen_of some_options 1) 1)
    × IsAppending memory_output contents_of position_of memory-IsOutput
        (created (create memory_output ([], 0) some_options))
create-IsAppending_example =
    create-IsAppending memory_output contents_of position_of memory-IsOutput ([], 0) some_options
      (created (create memory_output ([], 0) some_options)) refl refl create_succeeds

header_holds : 20 ≤ length (file_header 1 1)
unfolding file_header put32
header_holds = omega arith

finish_returns :
    finish_writer memory_output new_writer
    ≡ returned (writer_of (finish_writer memory_output new_writer))
unfolding finish_writer packet_quapture.Pcap.Writer.try_finish
    packet_quapture.Pcap.Writer.patch_snaplen packet_quapture.Pcap.Writer.write_all
    packet_quapture.Pcap.Writer.write_loop put32
finish_returns = refl

finish_writer-overwrites_example :
    (contents_of (writer_of (finish_writer memory_output new_writer)).output
      ≡ (if false then file_header 1 1 else overwrite 16 (put32 1) (file_header 1 1)))
    × (position_of (writer_of (finish_writer memory_output new_writer)).output
        ≡ length (contents_of (writer_of (finish_writer memory_output new_writer)).output))
    × ((writer_of (finish_writer memory_output new_writer)).state ≡ finished)
finish_writer-overwrites_example =
    finish_writer-overwrites memory_output contents_of position_of memory-IsOutput new_writer
      (writer_of (finish_writer memory_output new_writer)) new-IsAppending header_holds
      finish_returns
