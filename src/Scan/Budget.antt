-- ===== src/Scan/Budget.antt =====
-- src/include/scan_budget.hpp: the row ids of a scan, and the memory that its workers may take. The
-- buffer manager's answer to a reservation is an argument. The lock makes each operation one step.
-- `none` is an exception.
use packet_quapture.Base.{
  ℕ, ◌+◌, ◌-◌, ◌*◌, ◌/◌, ◌^◌, min, Bool, true, false, not, ◌||◌, ◌==◌, ltb, leb, if◌then◌else◌,
  Option, none, some, ◌>>=◌, ◌>>◌, guard, u64,
}

pub data BudgetKind : Type 0 where
  stream_budget flow_budget inventory_budget : BudgetKind

abbrev pub mebibyte : ℕ
mebibyte = 1024 * 1024

unfoldable pub worker_bytes : BudgetKind → ℕ
worker_bytes stream_budget = 128 * mebibyte
worker_bytes flow_budget = 48 * mebibyte
worker_bytes inventory_budget = 32 * mebibyte

-- The guard of `ScanRowId`.
unfoldable pub row_id_fits : ℕ → ℕ → ℕ → Bool
row_id_fits local_id file_index file_count = not (
    local_id == 0
    || file_count == 0
    || leb file_count file_index
    || ltb ((2 ^ 64 - 1 - (file_index + 1)) / file_count) (local_id - 1))

unfoldable pub scan_row_id : ℕ → ℕ → ℕ → Option ℕ
scan_row_id local_id file_index file_count =
    if row_id_fits local_id file_index file_count
    then some (u64 ((local_id - 1) * file_count + file_index + 1))
    else none

pub record ScanQueryBudget : Type 0 where
  pub kind : BudgetKind
  pub limit : ℕ
  pub used : ℕ

-- The constructor: the setting in MiB, null or not, and the memory of the buffer manager.
unfoldable pub open_budget : BudgetKind → Option ℕ → ℕ → Option ScanQueryBudget
open_budget kind setting memory = do
  mib ← setting
  guard (not (ltb ((2 ^ 64 - 1) / mebibyte) mib))
  some (record { kind = kind; limit = min (mib * 1024 * 1024) (memory / 2); used = 0 })

unfoldable pub slots : ScanQueryBudget → ℕ
slots b = b.limit / worker_bytes b.kind

-- `Acquire`; `reserved` is whether the buffer manager had the memory.
unfoldable pub acquire : ScanQueryBudget → Bool → Option (Bool × ScanQueryBudget)
acquire b reserved =
    let next = record b { used = u64 (b.used + worker_bytes b.kind) } in
    let granted = guard (leb next.used next.limit) >> some (true, next) in
    guard (leb b.used b.limit)
    >> (if ltb (b.limit - b.used) (worker_bytes b.kind) || not reserved
        then some (false, b)
        else granted)

unfoldable pub release : ScanQueryBudget → Option ScanQueryBudget
release b =
    guard (leb (worker_bytes b.kind) b.used)
    >> some (record b { used = b.used - worker_bytes b.kind })
