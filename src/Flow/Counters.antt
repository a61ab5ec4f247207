-- ===== src/Flow/Counters.antt =====
-- What the four counters of a session hold, and what `Account` of src/flow_aggregator.cpp adds.
use packet_quapture.Base.{
  ℕ, ◌+◌, Bool, true, false, ◌&&◌, if◌then◌else◌, Option, none, some, ◌≡◌, arith, inl, inr,
}
use packet_quapture.Base.Maps.{total}
use packet_quapture.Flow.Types.{
  SessionKey, FlowInput, FlowCounters, FlowSummary, State, ok, Result-cases,
}
use packet_quapture.Flow.Account.{
  add_checked, count_packet, count_side, clock_row, flag_state, shake, account, is_orig, new_state,
}
use packet_quapture.Flow.Table.{FlowAggregator}
use packet_quapture.Flow.Aggregator.{is_eligible}

pub data Counter : Type 0 where
  of_packets of_captured of_reported of_payload : Counter

abbrev pub counted : Counter → FlowCounters → ℕ
counted of_packets counts = counts.packets
counted of_captured counts = counts.captured_bytes
counted of_reported counts = counts.reported_bytes
counted of_payload counts = counts.payload_bytes

-- What a packet adds to a counter.
abbrev pub amount : Counter → FlowInput → ℕ
amount of_packets input = 1
amount of_captured input = input.captured_length
amount of_reported input = input.original_length
amount of_payload input = input.packet.payload_length

abbrev pub row_count : Counter → FlowSummary → ℕ
row_count c row = counted c row.orig + counted c row.resp

abbrev pub state_count : Counter → State → ℕ
state_count c state = row_count c state.row

-- What the sessions in the table have counted.
abbrev pub held : Counter → FlowAggregator → ℕ
held c a = total (state_count c) a.states

-- What the pending packet will add.
abbrev pub owed : Counter → FlowAggregator → ℕ
owed c a = if a.pending && is_eligible a.pending_input.packet then amount c a.pending_input else 0

-- What the row of a call of `Next` has counted.
abbrev pub emitted : Counter → Option FlowSummary → ℕ
emitted c none = 0
emitted c (some row) = row_count c row

count_packet-amount :
    (c : Counter) (input : FlowInput) (old new : FlowCounters)
    → count_packet input old ≡ ok new
    → counted c new ≡ counted c old + amount c input
unfolding count_packet add_checked
count_packet-amount c input old new e = ground (arith, e)

count_side-amount :
    (c : Counter) (input : FlowInput) (side : Bool) (old new : FlowSummary)
    → count_side input side old ≡ ok new
    → row_count c new ≡ row_count c old + amount c input
unfolding count_side
count_side-amount c input true old new e = elim (Result-cases (count_packet input old.orig)) [
  | inl (f, n) ↦ absurd (ground (arith, e, n))
  | inr (counts, n) ↦ ground (arith, e, n, count_packet-amount c input old.orig counts n)
]
count_side-amount c input false old new e = elim (Result-cases (count_packet input old.resp)) [
  | inl (f, n) ↦ absurd (ground (arith, e, n))
  | inr (counts, n) ↦ ground (arith, e, n, count_packet-amount c input old.resp counts n)
]

clock_row_count :
    (c : Counter) (input : FlowInput) (late : Bool) (old new : FlowSummary)
    → clock_row input late old ≡ ok new
    → row_count c new ≡ row_count c old
unfolding clock_row add_checked
clock_row_count c input late old new e = ground (arith, e)

flag_state_count :
    (c : Counter) (input : FlowInput) (side : Bool) (s : State)
    → state_count c (flag_state input.packet side s) ≡ state_count c s
unfolding flag_state
flag_state_count c input side s = ground arith

shake_count :
    (c : Counter) (input : FlowInput) (side : Bool) (s : State)
    → state_count c (shake input.packet side s) ≡ state_count c s
unfolding shake
shake_count c input side s = ground arith

pub account-amount :
    (c : Counter) (input : FlowInput) (late from_low : Bool) (old new : State)
    → account input late old from_low ≡ ok new
    → state_count c new ≡ state_count c old + amount c input
unfolding account
account-amount c input late from_low old new e =
    let side = is_orig old.row from_low in
    elim (Result-cases (count_side input side old.row)) [
      | inl (f, n) ↦ absurd (ground (arith, e, n))
      | inr (row, n) ↦
          let row' : FlowSummary = record row { last_packet = input.stamp.number } in
          elim (Result-cases (clock_row input late row')) [
            | inl (f, m) ↦ absurd (ground (arith, e, n, m))
            | inr (timed, m) ↦
                let old' : State = record old { row = timed } in
                ground (
                  arith,
                  e,
                  n,
                  m,
                  count_side-amount c input side old.row row n,
                  clock_row_count c input late row' timed m,
                  flag_state_count c input side old',
                  shake_count c input side (flag_state input.packet side old'),
                )
          ]
    ]

pub new_state_count :
    (c : Counter) (section : ℕ) (input : FlowInput) (key : SessionKey) (from_low : Bool)
    → state_count c (new_state section input key from_low) ≡ 0
unfolding new_state
new_state_count c section input key from_low = ground arith
