-- ===== src/Flow/Scan.antt =====
-- The loop of `FlowsScan` in src/packetquapture_extension.cpp over one file, from its aggregator to
-- the last row. The records of the file are a list: its reader is not modelled.
pub mod Complete
pub mod Failures
use packet_quapture.Base.{
  ℕ, zero, suc, ◌+◌, Bool, true, false, List, [], ◌∷◌, Option, none, some, length,
}
use packet_quapture.Flow.Types.{FlowInput, FlowSummary, FlowLimits, Failure, Result, ok, throws}
use packet_quapture.Flow.Table.{FlowAggregator, create}
use packet_quapture.Flow.Aggregator.{push, finish, next}

-- How the loop ends: with the rows of the file, or with an exception.
pub data Scan : Type 0 where
  complete : List FlowSummary → Scan
  threw : Failure → Scan
  unfinished : Scan

abbrev pub add_row : FlowSummary → Scan → Scan
add_row row (complete rows) = complete (row ∷ rows)
add_row row (threw e) = threw e
add_row row unfinished = unfinished

-- What follows where `Next` gives no row: the file is done, or the loop goes on behind `Finish` or
-- `Push`.
pub data Turn : Type 0 where
  done : Turn
  raised : Failure → Turn
  resumed : List FlowInput → Bool → FlowAggregator → Turn

abbrev pub resume : List FlowInput → Bool → Result FlowAggregator → Turn
resume inputs finished (throws e) = raised e
resume inputs finished (ok a) = resumed inputs finished a

unfoldable pub turn : ℕ → List FlowInput → Bool → FlowAggregator → Turn
turn section inputs true a = done
turn section [] false a = resume [] true (finish section a)
turn section (input ∷ inputs) false a = resume inputs false (push input a)

unfoldable pub scan_loop : ℕ → ℕ → List FlowInput → Bool → FlowAggregator → Scan
scan_loop zero section inputs finished a = unfinished
scan_loop (suc fuel) section inputs finished a = elim (next a) [
  | throws e ↦ threw e
  | ok (some row, b) ↦ add_row row (scan_loop fuel section inputs finished b)
  | ok (none, b) ↦ elim (turn section inputs finished b) [
    | done ↦ complete []
    | raised e ↦ threw e
    | resumed inputs' finished' d ↦ scan_loop fuel section inputs' finished' d
  ]
]

-- Each record is pushed once and opens at most one session.
abbrev pub scan_fuel : List FlowInput → ℕ
scan_fuel inputs = suc (suc (length inputs + length inputs))

unfoldable pub scan_file : FlowLimits → ℕ → List FlowInput → Scan
scan_file limits section inputs = elim (create limits) [
  | throws e ↦ threw e
  | ok a ↦ scan_loop (scan_fuel inputs) section inputs false a
]
