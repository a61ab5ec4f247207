-- ===== src/Flow/Table/Safety.antt =====
-- `Unschedule`, `Schedule` and `Emit` of src/flow_aggregator.cpp fail no assertion on consistent
-- tables.
pub mod Refreshing
pub mod Evicting
pub mod Soonest
use packet_quapture.Base.{
  ℕ, ◌+◌, ◌≤◌, ◌≡◌, refl, Bool, true, false, not, ◌&&◌, ◌||◌, List, [], ◌∷◌, ltb, ◌==◌,
  if◌then◌else◌, Option, none, some, arith, Option-cases, Bool-cases, inl, inr,
}
use packet_quapture.Base.Maps.{find, put, erase, find-put}
use packet_quapture.Base.Orders.{IsOrder, same, same→≡}
use packet_quapture.Flow.Types.{
  SessionKey, State, FlowSummary, FinalizedBy, FlowLimits, Result, ok, throws, ◌>>=◌,
}
use packet_quapture.Flow.Key.{session_less}
use packet_quapture.Flow.Key.Ordered.{session_less-IsOrder}
use packet_quapture.Flow.Table.{
  entry_less, Scope, FlowAggregator, timeout_of, unschedule, schedule, postpone, never_expires,
  emit,
}
use packet_quapture.Flow.Table.Queues.{Queues, set_slot, Queues-cong, added-Queues, removed-Queues}
use packet_quapture.Flow.Table.Consistent.{
  Safe, Safe->>=, Safe-mono, Safe-ok, slot_of, slots, Fits, Consistent, erase-Consistent,
}

-- The tables behind a change of the queues alone: `key` has another slot.
pub record Slotted (a : FlowAggregator) (key : SessionKey) (slot : Option ℕ) (b : FlowAggregator)
    : Type 0 where
  pub queues : Queues (set_slot key slot (slots a.states)) b.scopes
  pub states : b.states ≡ a.states
  pub limits : b.limits ≡ a.limits

-- Nothing changes where the slot is the one that the key has.
Slotted-refl :
    (a : FlowAggregator) (key : SessionKey) (slot : Option ℕ)
    → Consistent a
    → slots a.states key ≡ slot
    → Slotted a key slot a
Slotted-refl a key slot h e = record {
  queues =
      Queues-cong (slots a.states) (set_slot key slot (slots a.states)) a.scopes
        (λ j. elim (Bool-cases (same session_less j key)) [
          | inl r ↦
              let d = same→≡ session_less-IsOrder j key r in
              let f : slots a.states j ≡ slot = rw d e in ground (arith, r, f)
          | inr r ↦ ground (arith, r)
        ])
        h.queues;
  states = refl;
  limits = refl;
}

-- A session, in the table or changed since, is queued as the table says.
abbrev pub InPlace : FlowAggregator → State → Type 0
InPlace a s = slots a.states s.row.key ≡ slot_of (some s)

abbrev pub Unscheduled : FlowAggregator → State → FlowAggregator × State → Type 0
Unscheduled a s (b, t) = Slotted a s.row.key none b × (t ≡ record s { scheduled = false })

pub unschedule-Safe :
    (a : FlowAggregator) (s : State)
    → Consistent a
    → InPlace a s
    → Safe (Unscheduled a s) (unschedule a s)
unfolding unschedule
unschedule-Safe a s h i = elim (Bool-cases s.scheduled) [
  | inr n ↦ rw n (Slotted-refl a s.row.key none h (ground (arith, i, n)), refl)
  | inl n ↦
      let key = s.row.key in
      let q = h.queues.agrees key.interface_id s.queued key in
      elim (Option-cases (find ltb key.interface_id a.scopes)) [
        | inl f ↦ absurd (ground (arith, i, n, q, f))
        | inr (scope, f) ↦ elim (Option-cases (find entry_less (s.queued, key) scope.expiry)) [
          | inl e ↦ absurd (ground (arith, i, n, q, f, e))
          | inr (_, e) ↦
              let r : Queues (set_slot key none (slots a.states)) (
                  put ltb key.interface_id
                    (record scope { expiry = erase entry_less (s.queued, key) scope.expiry })
                    a.scopes) =
                removed-Queues (slots a.states) a.scopes h.queues scope s.queued key f
                  (ground (arith, i, n)) in
              rw (n, f, e) (record { queues = r; states = refl; limits = refl }, refl)
        ]
      ]
]

-- A session's deadline is its last timestamp and the idle timeout, or was before the timestamp
-- moved on.
pub record Due (limits : FlowLimits) (s : State) : Type 0 where
  pub timed : s.scheduled ≡ true → s.row.has_timestamp ≡ true
  pub due : s.scheduled ≡ true → s.deadline ≤ s.row.last_timestamp + timeout_of limits s.row.key
  pub waits : s.scheduled ≡ true → s.queued ≤ s.deadline

-- The tables behind `Schedule`.
abbrev pub Scheduled : FlowAggregator → State → FlowAggregator × State → Type 0
Scheduled a s (b, t) =
    Slotted a s.row.key (slot_of (some t)) b × Fits a.limits s.row.key t × (t.row ≡ s.row)

postpone-Safe :
    (a : FlowAggregator) (s : State)
    → Consistent a
    → InPlace a s
    → (scope : Scope) × (find ltb s.row.key.interface_id a.scopes ≡ some scope)
    → Due a.limits s
    → s.row.has_timestamp ≡ true
    → Safe (Scheduled a s) (postpone a s (s.row.last_timestamp + timeout_of a.limits s.row.key))
unfolding postpone
postpone-Safe a s h i (scope, f) d k =
    let deadline = s.row.last_timestamp + timeout_of a.limits s.row.key in
    elim (Bool-cases s.scheduled) [
      | inl n ↦
          let g : not (ltb deadline s.deadline) ≡ true = ground (arith, d.due n) in
          let t : State = record s { deadline = deadline } in
          let fits : Fits a.limits s.row.key t = ground (arith, d, n, k) in
          Safe-ok (Scheduled a s) (postpone a s deadline) (a, t) (ground (arith, n, g))
            (Slotted-refl a s.row.key (slot_of (some t)) h i, fits, refl)
      | inr n ↦
          let t : State = record s { deadline = deadline; queued = deadline; scheduled = true } in
          let r =
            added-Queues (slots a.states) a.scopes h.queues scope deadline s.row.key f
              (ground (arith, i, n)) in
          let fits : Fits a.limits s.row.key t = ground (arith, k) in
          rw (n, f) (record { queues = r; states = refl; limits = refl }, fits, refl)
    ]

never_Fits :
    (limits : FlowLimits) (s : State) → Fits limits s.row.key (record s { scheduled = false })
never_Fits limits s = ground arith

pub schedule-Safe :
    (a : FlowAggregator) (s : State)
    → Consistent a
    → InPlace a s
    → (scope : Scope) × (find ltb s.row.key.interface_id a.scopes ≡ some scope)
    → Due a.limits s
    → Safe (Scheduled a s) (schedule a s)
unfolding schedule
schedule-Safe a s h i f d =
    elim (Bool-cases (never_expires (timeout_of a.limits s.row.key) s.row)) [
      | inl n ↦ rw n (
          Safe-mono (Unscheduled a s) (Scheduled a s) (unschedule a s) (unschedule-Safe a s h i)
            (λ (b, t) (q, e). rw e (q, never_Fits a.limits s, refl)))
      | inr n ↦ rw n (postpone-Safe a s h i f d (ground (arith, n)))
    ]

pub emit-Safe :
    (a : FlowAggregator) (key : SessionKey) (s : State) (why : FinalizedBy)
    → Consistent a
    → find session_less key a.states ≡ some s
    → Safe (λ (o, b). Consistent b × (b.limits ≡ a.limits)) (emit a key s why)
unfolding emit
emit-Safe a key s why h f =
    let own = (h.fits key s f).own in
    let i : InPlace a s = rw (own, f) refl in
    Safe->>= (Unscheduled a s) (λ (o, b). Consistent b × (b.limits ≡ a.limits)) (unschedule a s)
      (λ (b, t). ok (
        some (record t.row { finalized_by = why }),
        record b { states = erase session_less key b.states },
      ))
      (unschedule-Safe a s h i)
      (λ (b, t) (q, e).
        let r = erase-Consistent a key b.scopes h (rw own at q.queues) in
        (rw (q.states, q.limits) r, q.limits))
