-- ===== src/Flow/Aggregator/Moved.antt =====
-- `Account` of src/flow_aggregator.cpp throws at a counter's limit only, and leaves alone what a
-- session's queue goes by, but for its last timestamp.
use packet_quapture.Base.{◌≤◌, ◌≡◌, Bool, true, false, if◌then◌else◌, arith}
use packet_quapture.Flow.Types.{State, FlowInput, FlowSummary, FlowCounters, Result, ok, ◌>>=◌}
use packet_quapture.Flow.Account.{
  account, count_side, count_packet, clock_row, add_checked, shake, flag_state, is_orig,
}
use packet_quapture.Flow.Table.Consistent.{Safe, Safe->>=}

-- Each counter is at its limit, or the packet is counted.
count_packet-Safe :
    (input : FlowInput) (counts : FlowCounters) → Safe (λ _. Unit {0}) (count_packet input counts)
unfolding count_packet add_checked
count_packet-Safe input counts = ground arith

-- The parts of a session's state that its queue goes by.
pub record Moved (s t : State) : Type 0 where
  pub own : t.row.key ≡ s.row.key
  pub scheduled : t.scheduled ≡ s.scheduled
  pub queued : t.queued ≡ s.queued
  pub deadline : t.deadline ≡ s.deadline
  pub timed : s.row.has_timestamp ≡ true → t.row.has_timestamp ≡ true
  pub later : s.row.has_timestamp ≡ true → s.row.last_timestamp ≤ t.row.last_timestamp

pub record RowMoved (s t : FlowSummary) : Type 0 where
  pub own : t.key ≡ s.key
  pub timed : s.has_timestamp ≡ true → t.has_timestamp ≡ true
  pub later : s.has_timestamp ≡ true → s.last_timestamp ≤ t.last_timestamp

count_side-Safe :
    (input : FlowInput) (side : Bool) (row : FlowSummary)
    → Safe (RowMoved row) (count_side input side row)
unfolding count_side
count_side-Safe input true row =
    Safe->>= (λ _. Unit {0}) (RowMoved row) (count_packet input row.orig)
      (λ counts. ok (record row { orig = counts })) (count_packet-Safe input row.orig)
      (λ counts _. ground arith)
count_side-Safe input false row =
    Safe->>= (λ _. Unit {0}) (RowMoved row) (count_packet input row.resp)
      (λ counts. ok (record row { resp = counts })) (count_packet-Safe input row.resp)
      (λ counts _. ground arith)

clock_row-Safe :
    (input : FlowInput) (late : Bool) (row : FlowSummary)
    → Safe (RowMoved row) (clock_row input late row)
unfolding clock_row add_checked
clock_row-Safe input late row = ground arith

flag_state-Moved :
    (input : FlowInput) (side : Bool) (s : State) → Moved s (flag_state input.packet side s)
unfolding flag_state
flag_state-Moved input side s = ground arith

shake-Moved : (input : FlowInput) (side : Bool) (s : State) → Moved s (shake input.packet side s)
unfolding shake
shake-Moved input side s = ground arith

pub account-Safe :
    (input : FlowInput) (late : Bool) (s : State) (from_low : Bool)
    → Safe (Moved s) (account input late s from_low)
unfolding account
account-Safe input late s from_low =
    let side = is_orig s.row from_low in
    let marked : FlowSummary → FlowSummary =
      λ row. record row { last_packet = input.stamp.number } in
    let handshake : FlowSummary → Result State = λ row.
      let s' = record s { row = row } in
      ok (
        if input.packet.tcp
        then shake input.packet side (flag_state input.packet side s')
        else s') in
    Safe->>= (RowMoved s.row) (Moved s) (count_side input side s.row)
      (λ row. clock_row input late (marked row) >>= handshake) (count_side-Safe input side s.row)
      (λ row m.
        Safe->>= (RowMoved (marked row)) (Moved s) (clock_row input late (marked row)) handshake
          (clock_row-Safe input late (marked row))
          (λ row' m'.
            let s' : State = record s { row = row' } in
            let f = flag_state-Moved input side s' in
            let g = shake-Moved input side (flag_state input.packet side s') in
            ground (arith, m, m', f, g)))
