-- ===== src/Flow/Scan/Complete.antt =====
-- The loop of `FlowsScan` in src/packetquapture_extension.cpp ends, and its rows count each packet
-- once.
use packet_quapture.Base.{
  ℕ, zero, suc, ◌+◌, ◌<◌, ◌≡◌, ◌≢◌, refl, Bool, true, false, List, [], ◌∷◌, none, some, length,
  arith, if◌then◌else◌, inl, inr, ◌⊎◌,
}
use packet_quapture.Flow.Types.{FlowInput, FlowSummary, FlowLimits, Failure, ok, Result-cases}
use packet_quapture.Flow.Table.{FlowAggregator, create}
use packet_quapture.Flow.Aggregator.{push, finish, next, is_eligible}
use packet_quapture.Flow.Aggregator.Steps.{next-Step, work, rows, next_final-none}
use packet_quapture.Flow.Counters.{Counter, amount, row_count, held, owed}
use packet_quapture.Flow.Scan.{
  Scan, complete, threw, unfinished, done, raised, resumed, Turn, turn, scan_loop, scan_file,
  scan_fuel,
}

-- What the records of a file amount to.
unfoldable pub input_count : Counter → List FlowInput → ℕ
input_count c [] = 0
input_count c (input ∷ inputs) =
    (if is_eligible input.packet then amount c input else 0) + input_count c inputs

-- What the rows of a file have counted.
unfoldable pub rows_count : Counter → List FlowSummary → ℕ
rows_count c [] = 0
rows_count c (row ∷ rows) = row_count c row + rows_count c rows

pub Turn-cases :
    (t : Turn)
    → (t ≡ done)
      ⊎ (((e : Failure) × (t ≡ raised e))
          ⊎ ((inputs : List FlowInput) × (finished : Bool) × (a : FlowAggregator) × (t
                ≡ resumed inputs finished a)))
Turn-cases done = inl refl
Turn-cases (raised e) = inr (inl (e, refl))
Turn-cases (resumed inputs finished a) = inr (inr (inputs, finished, a, refl))

pub Scan-cases :
    (s : Scan)
    → (s ≡ unfinished)
      ⊎ (((e : Failure) × (s ≡ threw e)) ⊎ ((found : List FlowSummary) × (s ≡ complete found)))
Scan-cases unfinished = inl refl
Scan-cases (threw e) = inr (inl (e, refl))
Scan-cases (complete found) = inr (inr (found, refl))

push-owed :
    (c : Counter) (input : FlowInput) (a b : FlowAggregator)
    → push input a ≡ ok b
    → (held c b ≡ held c a)
      × (work b ≡ suc (work a))
      × (b.finishing ≡ a.finishing)
      × (owed c a ≡ 0)
      × (owed c b ≡ (if is_eligible input.packet then amount c input else 0))
unfolding push
push-owed c input a b e = ground (arith, e)

finish-owed :
    (c : Counter) (section : ℕ) (a b : FlowAggregator)
    → finish section a ≡ ok b
    → (held c b ≡ held c a)
      × (work b ≡ work a)
      × (b.finishing ≡ true)
      × (owed c a ≡ 0)
      × (owed c b ≡ 0)
unfolding finish
finish-owed c section a b e = ground (arith, e)

-- What is left to do: the rows, the records, the call of `Finish` and the last call of `Next`.
abbrev left : List FlowInput → Bool → FlowAggregator → ℕ
left inputs finished a = work a + (length inputs + length inputs) + (if finished then 0 else 1)

-- A turn of the loop leaves less to do, and passes on what the records amount to.
turn_less :
    (c : Counter) (section : ℕ) (inputs : List FlowInput) (finished : Bool) (a : FlowAggregator)
    (inputs' : List FlowInput) (finished' : Bool) (b : FlowAggregator)
    → turn section inputs finished a ≡ resumed inputs' finished' b
    → (left inputs' finished' b < left inputs finished a)
      × (held c b + owed c b + input_count c inputs' ≡ held c a + owed c a + input_count c inputs)
unfolding turn input_count
turn_less c section inputs true a inputs' finished' b e = absurd (ground (arith, e))
turn_less c section [] false a inputs' finished' b e = elim (Result-cases (finish section a)) [
  | inl (f, n) ↦ absurd (ground (arith, e, n))
  | inr (d, n) ↦ ground (arith, e, n, finish-owed c section a d n)
]
turn_less c section (input ∷ inputs) false a inputs' finished' b e =
    elim (Result-cases (push input a)) [
      | inl (f, n) ↦ absurd (ground (arith, e, n))
      | inr (d, n) ↦ ground (arith, e, n, push-owed c input a d n)
    ]

scan_loop_ends :
    (fuel section : ℕ) (inputs : List FlowInput) (finished : Bool) (a : FlowAggregator)
    → left inputs finished a < fuel
    → scan_loop fuel section inputs finished a ≢ unfinished
unfolding scan_loop
scan_loop_ends zero section inputs finished a h e = absurd (omega arith)
scan_loop_ends (suc fuel) section inputs finished a h e = elim (Result-cases (next a)) [
  | inl (f, n) ↦ ground (arith, e, n)
  | inr ((some row, b), n) ↦
      let step = next-Step Counter.of_packets a (some row) b n in
      ground (arith, e, n, scan_loop_ends fuel section inputs finished b (ground (arith, h, step)))
  | inr ((none, b), n) ↦ elim (Turn-cases (turn section inputs finished b)) [
    | inl m ↦ ground (arith, e, n, m)
    | inr (inl (f, m)) ↦ ground (arith, e, n, m)
    | inr (inr (inputs', finished', d, m)) ↦
        let step = next-Step Counter.of_packets a none b n in
        let l = (turn_less Counter.of_packets section inputs finished b inputs' finished' d m).0 in
        ground (
          arith,
          e,
          n,
          m,
          scan_loop_ends fuel section inputs' finished' d (ground (arith, h, step, l)),
        )
  ]
]

-- The scan of a file ends within two calls of `Next` for each record and two more, with the rows or
-- with an exception.
pub scan_file_ends :
    (limits : FlowLimits) (section : ℕ) (inputs : List FlowInput)
    → scan_file limits section inputs ≢ unfinished
unfolding scan_file create
scan_file_ends limits section inputs e = elim (Result-cases (create limits)) [
  | inl (f, n) ↦ ground (arith, e, n)
  | inr (a, n) ↦ ground (arith, e, n, scan_loop_ends (scan_fuel inputs) section inputs false a)
]

-- Whether the loop has called `Finish`, behind which nothing is pending.
abbrev pub Finished : List FlowInput → Bool → FlowAggregator → Type 0
Finished inputs finished a =
    (a.finishing ≡ finished) × (finished ≡ true → (a.pending ≡ false) × (inputs ≡ []))

pub turn-Finished :
    (section : ℕ) (inputs : List FlowInput) (finished : Bool) (a : FlowAggregator)
    (inputs' : List FlowInput) (finished' : Bool) (b : FlowAggregator)
    → turn section inputs finished a ≡ resumed inputs' finished' b
    → Finished inputs finished a
    → Finished inputs' finished' b
unfolding turn finish push
turn-Finished section inputs true a inputs' finished' b e h = absurd (ground (arith, e))
turn-Finished section [] false a inputs' finished' b e h = ground (arith, e, h)
turn-Finished section (input ∷ inputs) false a inputs' finished' b e h = ground (arith, e, h)

turn-done :
    (section : ℕ) (inputs : List FlowInput) (finished : Bool) (a : FlowAggregator)
    → turn section inputs finished a ≡ done
    → finished ≡ true
unfolding turn finish push
turn-done section inputs true a e = refl
turn-done section [] false a e = absurd (ground (arith, e))
turn-done section (input ∷ inputs) false a e = absurd (ground (arith, e))

scan_loop-balance :
    (c : Counter) (fuel section : ℕ) (inputs : List FlowInput) (finished : Bool)
    (a : FlowAggregator) (found : List FlowSummary)
    → Finished inputs finished a
    → scan_loop fuel section inputs finished a ≡ complete found
    → rows_count c found ≡ held c a + owed c a + input_count c inputs
unfolding scan_loop rows_count input_count
scan_loop-balance c zero section inputs finished a found h e = absurd (ground (arith, e))
scan_loop-balance c (suc fuel) section inputs finished a found h e = elim (Result-cases (next a)) [
  | inl (f, n) ↦ absurd (ground (arith, e, n))
  | inr ((some row, b), n) ↦ elim (Scan-cases (scan_loop fuel section inputs finished b)) [
    | inl f ↦ absurd (ground (arith, e, n, f))
    | inr (inl (x, f)) ↦ absurd (ground (arith, e, n, f))
    | inr (inr (more, f)) ↦
        let step = next-Step c a (some row) b n in
        let rest =
          scan_loop-balance c fuel section inputs finished b more (ground (arith, h, step)) f in
        ground (arith, e, n, f, step, rest)
  ]
  | inr ((none, b), n) ↦ elim (Turn-cases (turn section inputs finished b)) [
    | inl m ↦
        let step = next-Step c a none b n in
        let t = turn-done section inputs finished b m in
        let empty = next_final-none a b (ground (arith, h, t)) n in
        ground (arith, e, n, m, step, t, h, empty)
    | inr (inl (f, m)) ↦ absurd (ground (arith, e, n, m))
    | inr (inr (inputs', finished', d, m)) ↦
        let step = next-Step c a none b n in
        let (_, passed) = turn_less c section inputs finished b inputs' finished' d m in
        let behind =
          turn-Finished section inputs finished b inputs' finished' d m (ground (arith, h, step)) in
        ground (
          arith,
          e,
          n,
          m,
          step,
          passed,
          scan_loop-balance c fuel section inputs' finished' d found behind,
        )
  ]
]

pub begins :
    (limits : FlowLimits) (inputs : List FlowInput) (a : FlowAggregator)
    → create limits ≡ ok a
    → Finished inputs false a
unfolding create
begins limits inputs a e = ground (arith, e)

-- If the scan of a file gives its rows, then in each of the four counters the rows add up to what
-- the eligible packets of the file add up to: each packet is counted in exactly one row.
pub scan_file_count :
    (c : Counter) (limits : FlowLimits) (section : ℕ) (inputs : List FlowInput)
    (found : List FlowSummary)
    → scan_file limits section inputs ≡ complete found
    → rows_count c found ≡ input_count c inputs
unfolding scan_file create
scan_file_count c limits section inputs found e = elim (Result-cases (create limits)) [
  | inl (f, n) ↦ absurd (ground (arith, e, n))
  | inr (a, n) ↦
      let start = begins limits inputs a n in
      ground
        (arith, e, n, scan_loop-balance c (scan_fuel inputs) section inputs false a found start)
]
