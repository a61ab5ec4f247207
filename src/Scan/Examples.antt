-- ===== src/Scan/Examples.antt =====
-- Runs of src/include/scan_budget.hpp.
use packet_quapture.Base.{ℕ, ◌*◌, ◌^◌, ◌≤◌, ◌<◌, ◌≡◌, refl, true, false, some, arith}
use packet_quapture.Scan.Budget.{
  BudgetKind, stream_budget, worker_bytes, ScanQueryBudget, acquire, release, scan_row_id, mebibyte,
}
use packet_quapture.Scan.Leases.{Holds, fresh, granted, refused, Holds-used, scan_row_id-injective}

abbrev small_budget : ℕ → ScanQueryBudget
small_budget used = record { kind = stream_budget; limit = 200 * mebibyte; used = used }

first_granted : acquire (small_budget 0) true ≡ some (true, small_budget (128 * mebibyte))
unfolding acquire worker_bytes
first_granted = refl

second_refused :
    acquire (small_budget (128 * mebibyte)) true ≡ some (false, small_budget (128 * mebibyte))
unfolding acquire worker_bytes
second_refused = refl

-- One lease is held, and a second is refused.
one-Holds : Holds stream_budget (200 * mebibyte) (small_budget (128 * mebibyte)) 1
one-Holds = refused (granted fresh true first_granted) true second_refused

Holds-used_example :
    (128 * mebibyte ≡ 1 * worker_bytes stream_budget)
    × (128 * mebibyte ≤ 200 * mebibyte)
    × (200 * mebibyte ≡ 200 * mebibyte)
    × (stream_budget ≡ stream_budget)
Holds-used_example =
    Holds-used stream_budget (200 * mebibyte) (small_budget (128 * mebibyte)) 1 (omega arith)
      one-Holds

abbrev second : ℕ
second = 2

row_six : scan_row_id 2 2 3 ≡ some 6
unfolding scan_row_id packet_quapture.Scan.Budget.row_id_fits
row_six = refl

scan_row_id-injective_example : (second ≡ 2) × (second ≡ 2) × (6 < 2 ^ 64)
scan_row_id-injective_example = scan_row_id-injective 2 2 2 2 3 6 (omega arith) row_six row_six
