-- ===== src/Flow/Scan/Failures.antt =====
-- With what the loop of `FlowsScan` in src/packetquapture_extension.cpp can fail.
use packet_quapture.Base.{
  ℕ, zero, suc, ◌≡◌, ◌≢◌, refl, Bool, true, false, List, [], ◌∷◌, none, some, arith, All, inl, inr,
}
use packet_quapture.Flow.Types.{FlowInput, FlowLimits, Failure, ok, Result-cases}
use packet_quapture.Flow.Table.{FlowAggregator, create}
use packet_quapture.Flow.Table.Consistent.{Safe-result, is_allowed}
use packet_quapture.Flow.Aggregator.{push, finish, next}
use packet_quapture.Flow.Aggregator.Steps.{next-Step}
use packet_quapture.Flow.Aggregator.Sound.{Sound, SoundOutput}
use packet_quapture.Flow.Aggregator.Safety.{next-Sound, create-Sound, push-Sound, finish-Sound}
use packet_quapture.Flow.Counters.{Counter}
use packet_quapture.Flow.Scan.{threw, raised, resumed, turn, scan_loop, scan_file, scan_fuel}
use packet_quapture.Flow.Scan.Complete.{Finished, Turn-cases, Scan-cases, turn-Finished, begins}

-- A record has a number, counted from 1.
abbrev pub IsNumbered : FlowInput → Type 0
IsNumbered input = input.stamp.number ≢ 0

-- `Push` and `Finish` find nothing pending where `Next` has given no row.
turn-Sound :
    (section : ℕ) (inputs : List FlowInput) (finished : Bool) (a : FlowAggregator)
    (inputs' : List FlowInput) (finished' : Bool) (b : FlowAggregator)
    → turn section inputs finished a ≡ resumed inputs' finished' b
    → Sound a
    → All IsNumbered inputs
    → Sound b × All IsNumbered inputs'
unfolding turn
turn-Sound section inputs true a inputs' finished' b e h n = absurd (ground (arith, e))
turn-Sound section [] false a inputs' finished' b e h n = elim (Result-cases (finish section a)) [
  | inl (f, m) ↦ absurd (ground (arith, e, m))
  | inr (d, m) ↦
      let s = finish-Sound section a d h m in
      let x : d ≡ b = ground (arith, e, m) in
      let y : [] ≡ inputs' = ground (arith, e, m) in (rw x at s, rw (← y) tt)
]
turn-Sound section (input ∷ inputs) false a inputs' finished' b e h n =
    elim (Result-cases (push input a)) [
      | inl (f, m) ↦ absurd (ground (arith, e, m))
      | inr (d, m) ↦
          let s = push-Sound input a d h m in
          let x : d ≡ b = ground (arith, e, m) in
          let y : inputs ≡ inputs' = ground (arith, e, m) in (rw x at s, rw (← y) n.1)
    ]

turn_never_raises :
    (section : ℕ) (inputs : List FlowInput) (finished : Bool) (a : FlowAggregator) (e : Failure)
    → Finished inputs finished a
    → (a.finishing ≡ false → a.pending ≡ false)
    → All IsNumbered inputs
    → turn section inputs finished a ≢ raised e
unfolding turn finish push
turn_never_raises section inputs true a e h p n r = ground (arith, r)
turn_never_raises section [] false a e h p n r = ground (arith, r, h, p)
turn_never_raises section (input ∷ inputs) false a e h p n r = ground (arith, r, h, p, n.0)

scan_loop_allowed :
    (fuel section : ℕ) (inputs : List FlowInput) (finished : Bool) (a : FlowAggregator)
    (e : Failure)
    → Sound a
    → Finished inputs finished a
    → All IsNumbered inputs
    → scan_loop fuel section inputs finished a ≡ threw e
    → is_allowed e ≡ true
unfolding scan_loop
scan_loop_allowed zero section inputs finished a e h f n r = absurd (ground (arith, r))
scan_loop_allowed (suc fuel) section inputs finished a e h f n r =
    let safe = next-Sound a h (λ p. (f.1 (ground (arith, p, f))).0) in
    elim (Result-cases (next a)) [
      | inl (x, m) ↦
          let allowed : is_allowed x ≡ true = rw m at safe in ground (arith, r, m, allowed)
      | inr ((some row, b), m) ↦
          let sound = Safe-result SoundOutput (next a) (some row, b) m safe in
          let step = next-Step Counter.of_packets a (some row) b m in
          let rest =
            scan_loop_allowed fuel section inputs finished b e sound (ground (arith, f, step)) n in
          elim (Scan-cases (scan_loop fuel section inputs finished b)) [
            | inl s ↦ absurd (ground (arith, r, m, s))
            | inr (inl (y, s)) ↦ ground (arith, r, m, s, rest)
            | inr (inr (rows, s)) ↦ absurd (ground (arith, r, m, s))
          ]
      | inr ((none, b), m) ↦
          let sound = Safe-result SoundOutput (next a) (none, b) m safe in
          let step = next-Step Counter.of_packets a none b m in
          let still : Finished inputs finished b = ground (arith, f, step) in
          let quiet : b.finishing ≡ false → b.pending ≡ false =
            λ q. step.settled refl (ground (arith, q, step)) in
          elim (Turn-cases (turn section inputs finished b)) [
            | inl s ↦ absurd (ground (arith, r, m, s))
            | inr (inl (y, s)) ↦
                absurd (turn_never_raises section inputs finished b y still quiet n s)
            | inr (inr (inputs', finished', d, s)) ↦
                let (good, numbered) =
                  turn-Sound section inputs finished b inputs' finished' d s sound n in
                let passed = turn-Finished section inputs finished b inputs' finished' d s still in
                ground (
                  arith,
                  r,
                  m,
                  s,
                  scan_loop_allowed fuel section inputs' finished' d e good passed numbered,
                )
          ]
    ]

-- The scan of a file under limits that the constructor takes, over records that are numbered from 1,
-- fails only with a counter at its limit or with more interfaces than its limit: no assertion
-- fails, no scope or session is missing, and no call comes at the wrong time.
pub scan_file_allowed :
    (limits : FlowLimits) (section : ℕ) (inputs : List FlowInput) (a : FlowAggregator) (e : Failure)
    → create limits ≡ ok a
    → All IsNumbered inputs
    → scan_file limits section inputs ≡ threw e
    → is_allowed e ≡ true
unfolding scan_file
scan_file_allowed limits section inputs a e c n r =
    let start : Finished inputs false a = begins limits inputs a c in
    scan_loop_allowed (scan_fuel inputs) section inputs false a e (create-Sound limits a c) start n
      (ground (arith, r, c))
