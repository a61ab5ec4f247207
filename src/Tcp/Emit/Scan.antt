-- ===== src/Tcp/Emit/Scan.antt =====
-- Where the scans of `Emit` end.
use packet_quapture.Base.{ℕ, zero, suc, ◌+◌, ◌≤◌, ◌<◌, ◌≡◌, Bool, true, false, arith}
use packet_quapture.Tcp.Emit.{scan}

-- The scan ends within its rounds, and the test holds of all that it passed.
pub scan_passes :
    (test : ℕ → Bool) (rounds offset : ℕ)
    → (offset ≤ scan test rounds offset)
      × (scan test rounds offset ≤ offset + rounds)
      × ((p : ℕ) → offset ≤ p → p < scan test rounds offset → test p ≡ true)
unfolding scan
scan_passes test zero offset = (omega arith, omega arith, λ p l h. absurd (omega arith))
scan_passes test (suc rounds) offset =
    let (a, b, f) = scan_passes test rounds (offset + 1) in
    (ground (arith, a), ground (arith, b), λ p l h. ground (arith, f p))

-- It stops at its last round, or where the test fails.
pub scan_stops :
    (test : ℕ → Bool) (rounds offset : ℕ)
    → scan test rounds offset < offset + rounds
    → test (scan test rounds offset) ≡ false
unfolding scan
scan_stops test zero offset h = absurd (omega arith)
scan_stops test (suc rounds) offset h = ground (arith, scan_stops test rounds (offset + 1))

-- It passes the first place if the test holds there.
pub scan_starts :
    (test : ℕ → Bool) (rounds offset : ℕ)
    → 0 < rounds
    → test offset ≡ true
    → offset < scan test rounds offset
unfolding scan
scan_starts test zero offset l h = absurd (omega arith)
scan_starts test (suc rounds) offset l h = ground (arith, scan_passes test rounds (offset + 1))
