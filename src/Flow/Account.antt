-- ===== src/Flow/Account.antt =====
-- `AddChecked`, `Account`, `Reused` and `Open` of src/flow_aggregator.cpp. `true` is side 0, that of
-- the originator.
use Prim.Native.Nat.{bit_or}
use packet_quapture.Base.{
  ℕ, ◌+◌, ◌-◌, ◌^◌, Bool, true, false, not, ◌&&◌, ◌||◌, ◌==◌, ltb, if◌then◌else◌, u32, min, max,
}
use packet_quapture.Packet.Types.{DecodedPacket}
use packet_quapture.Tcp.Reassembler.Packets.{flag, tcp_fin, tcp_syn, tcp_rst, tcp_ack}
use packet_quapture.Flow.Types.{
  SessionKey, FlowInput, FlowCounters, no_counters, OriginatorBasis, by_first_packet, by_syn,
  by_syn_ack, not_final, FlowSummary, at_side, set_side, State, Result, ok, throws, overflow_error,
  ◌>>=◌,
}
use packet_quapture.Flow.Key.{endpoint_same}

unfoldable pub add_checked : ℕ → ℕ → Result ℕ
add_checked target amount =
    if ltb (2 ^ 64 - 1 - target) amount then throws overflow_error else ok (target + amount)

-- The four counters of a side.
unfoldable pub count_packet : FlowInput → FlowCounters → Result FlowCounters
count_packet input counts = do
  packets ← add_checked counts.packets 1
  captured ← add_checked counts.captured_bytes input.captured_length
  reported ← add_checked counts.reported_bytes input.original_length
  payload ← add_checked counts.payload_bytes input.packet.payload_length
  ok (record counts {
    packets = packets;
    captured_bytes = captured;
    reported_bytes = reported;
    payload_bytes = payload;
  })

-- Whether a packet is the originator's.
abbrev pub is_orig : FlowSummary → Bool → Bool
is_orig row from_low = if from_low then row.orig_is_low else not row.orig_is_low

unfoldable pub count_side : FlowInput → Bool → FlowSummary → Result FlowSummary
count_side input true row = do
  counts ← count_packet input row.orig
  ok (record row { orig = counts })
count_side input false row = do
  counts ← count_packet input row.resp
  ok (record row { resp = counts })

-- The timestamps of the row, with the number of late packets and of those without a timestamp.
unfoldable pub clock_row : FlowInput → Bool → FlowSummary → Result FlowSummary
clock_row input late row =
    let now = input.stamp.timestamp in
    let timed = record row {
      first_timestamp = if row.has_timestamp then min row.first_timestamp now else now;
      last_timestamp = if row.has_timestamp then max row.last_timestamp now else now;
      has_timestamp = true;
    } in
    let counted = (do n ← add_checked row.late_packets 1; ok (record timed { late_packets = n })) in
    let missing = (do
      n ← add_checked row.missing_timestamps 1
      ok (record row { missing_timestamps = n })) in
    if not input.stamp.has_timestamp then missing else if late then counted else ok timed

abbrev pub flag_side : ℕ → Bool → FlowSummary → FlowSummary
flag_side flags true row = record row {
  orig = record row.orig { flags = bit_or row.orig.flags flags };
}
flag_side flags false row = record row {
  resp = record row.resp { flags = bit_or row.resp.flags flags };
}

-- The flags seen, and whether the handshake is behind.
unfoldable pub flag_state : DecodedPacket → Bool → State → State
flag_state p side state =
    let flags = p.tcp_flags in
    let row = flag_side flags side state.row in
    record state {
      handshake_closed =
          state.handshake_closed
          || not (flag flags tcp_syn) && (flag flags tcp_ack || not (p.payload_length == 0));
      row = record row {
        syn_seen = row.syn_seen || flag flags tcp_syn;
        fin_seen = row.fin_seen || flag flags tcp_fin;
        reset_seen = row.reset_seen || flag flags tcp_rst;
      };
    }

-- The acknowledgment of the other side's SYN.
abbrev pub acknowledges : DecodedPacket → Bool → State → Bool
acknowledges p side state = p.tcp_ack == u32 (at_side state.sequence (not side) + 1)

-- The steps of the handshake.
unfoldable pub shake : DecodedPacket → Bool → State → State
shake p side state =
    let flags = p.tcp_flags in
    let row = state.row in
    let opened = at_side state.syn (not side) in
    let begun = record state {
      row = record row { simultaneous_open = row.simultaneous_open || opened };
      syn = set_side state.syn side true;
      sequence = set_side state.sequence side p.tcp_seq;
    } in
    let answered = record state {
      syn_ack = set_side state.syn_ack side true;
      sequence = set_side state.sequence side p.tcp_seq;
    } in
    let completed = record state { row = record row { handshake_complete = true } } in
    if flag flags tcp_syn && not (flag flags tcp_ack)
    then begun
    else if flag flags tcp_syn && flag flags tcp_ack
    then if opened && acknowledges p side state then answered else state
    else if flag flags tcp_ack
        && at_side state.syn side
        && at_side state.syn_ack (not side)
        && acknowledges p side state
        && p.tcp_seq == u32 (at_side state.sequence side + 1)
    then completed
    else state

-- `Account`: the pending packet on its session.
unfoldable pub account : FlowInput → Bool → State → Bool → Result State
account input late state from_low = do
  counted ← count_side input (is_orig state.row from_low) state.row
  row ← clock_row input late (record counted { last_packet = input.stamp.number })
  let p = input.packet
  let side = is_orig state.row from_low
  let state' = record state { row = row }
  ok (if p.tcp then shake p side (flag_state p side state') else state')

unfoldable pub reused : DecodedPacket → State → Bool → Bool
reused p state from_low =
    let side = is_orig state.row from_low in
    let active =
      not state.handshake_closed && not state.row.handshake_complete && not state.row.fin_seen in
    let retransmit = active && at_side state.syn side && at_side state.sequence side == p.tcp_seq in
    let simultaneous =
      active
      && not (at_side state.syn side)
      && at_side state.syn (not side)
      && not (at_side state.syn_ack side) in
    not retransmit && not simultaneous

abbrev pub basis_of : DecodedPacket → OriginatorBasis
basis_of p =
    if p.tcp && flag p.tcp_flags tcp_syn
    then if flag p.tcp_flags tcp_ack then by_syn_ack else by_syn
    else by_first_packet

-- The state that `Open` puts into the table.
unfoldable pub new_state : ℕ → FlowInput → SessionKey → Bool → State
new_state section input key from_low =
    let p = input.packet in
    let answers = p.tcp && flag p.tcp_flags tcp_syn && flag p.tcp_flags tcp_ack in
    record {
      row = record {
        key = key;
        section = section;
        first_packet = input.stamp.number;
        last_packet = 0;
        orig_is_low = if answers then not from_low else from_low;
        has_timestamp = false;
        first_timestamp = 2 ^ 63;
        last_timestamp = 2 ^ 63;
        missing_timestamps = 0;
        late_packets = 0;
        orig = no_counters;
        resp = no_counters;
        handshake_complete = false;
        simultaneous_open = false;
        equal_endpoints = endpoint_same key.low key.high;
        syn_seen = false;
        fin_seen = false;
        reset_seen = false;
        originator_basis = basis_of p;
        finalized_by = not_final;
      };
      syn = record { originator = false; responder = false };
      syn_ack = record { originator = false; responder = false };
      sequence = record { originator = 0; responder = 0 };
      scheduled = false;
      handshake_closed = false;
      deadline = 2 ^ 63;
      queued = 2 ^ 63;
    }
