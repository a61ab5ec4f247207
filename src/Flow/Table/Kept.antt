-- ===== src/Flow/Table/Kept.antt =====
-- What the operations on the queues leave alone, and why the loop of `Refresh` ends.
use packet_quapture.Base.{
  ℕ, zero, suc, ◌+◌, ◌≡◌, List, [], ◌∷◌, ltb, Option, none, some, length, arith, Option-cases,
  Bool-cases, inl, inr,
}
use packet_quapture.Base.Maps.{find, total, total-put, length-put, find-head}
use packet_quapture.Flow.Types.{SessionKey, State, ok, Result-cases}
use packet_quapture.Flow.Key.{session_less, session_less-irreflexive}
use packet_quapture.Flow.Table.{
  Entry, Scope, FlowAggregator, unschedule, schedule, postpone, never_expires, timeout_of, over,
  again, refresh_entry, refresh_first, refresh_pass, refresh_loop, refresh, soonest_loop,
  soonest_entry, evicted, evictable, first_state, first_entry, sooner,
}

-- All but the queues is the same.
pub record Queued (a a' : FlowAggregator) : Type 0 where
  pub limits : a'.limits ≡ a.limits
  pub states : a'.states ≡ a.states
  pub pending_input : a'.pending_input ≡ a.pending_input
  pub pending : a'.pending ≡ a.pending
  pub finishing : a'.finishing ≡ a.finishing
  pub prepared : a'.prepared ≡ a.prepared
  pub section : a'.section ≡ a.section
  pub have_section : a'.have_section ≡ a.have_section

pub unschedule-Queued :
    (a : FlowAggregator) (s : State) (a' : FlowAggregator) (s' : State)
    → unschedule a s ≡ ok (a', s')
    → Queued a a' × (s'.row ≡ s.row)
unfolding unschedule
unschedule-Queued a s a' s' e = ground (arith, e)

postpone-Queued :
    (a : FlowAggregator) (s : State) (deadline : ℕ) (a' : FlowAggregator) (s' : State)
    → postpone a s deadline ≡ ok (a', s')
    → Queued a a' × (s'.row ≡ s.row)
unfolding postpone
postpone-Queued a s deadline a' s' e = ground (arith, e)

pub schedule-Queued :
    (a : FlowAggregator) (s : State) (a' : FlowAggregator) (s' : State)
    → schedule a s ≡ ok (a', s')
    → Queued a a' × (s'.row ≡ s.row)
unfolding schedule
schedule-Queued a s a' s' e =
    let deadline = s.row.last_timestamp + timeout_of a.limits s.row.key in
    elim (Bool-cases (never_expires (timeout_of a.limits s.row.key) s.row)) [
      | inl n ↦ unschedule-Queued a s a' s' (rw n at e)
      | inr n ↦ postpone-Queued a s deadline a' s' (rw n at e)
    ]

-- All but the queues and where the sessions are queued is the same, for a measure of the sessions
-- that does not look there.
pub record Refreshed (w : State → ℕ) (a a' : FlowAggregator) : Type 0 where
  pub limits : a'.limits ≡ a.limits
  pub pending_input : a'.pending_input ≡ a.pending_input
  pub pending : a'.pending ≡ a.pending
  pub finishing : a'.finishing ≡ a.finishing
  pub prepared : a'.prepared ≡ a.prepared
  pub section : a'.section ≡ a.section
  pub have_section : a'.have_section ≡ a.have_section
  pub size : length a'.states ≡ length a.states
  pub measure : total w a'.states ≡ total w a.states

entry_over :
    (a : FlowAggregator) (id : ℕ) (scope : Scope) (at : ℕ) (key : SessionKey)
    (rest : List (Entry × Unit {0})) (a' : FlowAggregator)
    → refresh_entry a id scope (at, key) rest ≡ ok (over a')
    → a' ≡ a
unfolding refresh_entry
entry_over a id scope at key rest a' e = elim (Option-cases (find session_less key a.states)) [
  | inl n ↦ absurd (ground (arith, e, n))
  | inr (s, n) ↦ ground (arith, e, n)
]

first_over :
    (a : FlowAggregator) (id : ℕ) (scope : Scope) (entries : List (Entry × Unit {0}))
    (a' : FlowAggregator)
    → refresh_first a id scope entries ≡ ok (over a')
    → a' ≡ a
unfolding refresh_first
first_over a id scope [] a' e = ground (arith, e)
first_over a id scope (((at, key), _) ∷ rest) a' e = entry_over a id scope at key rest a' e

pub pass_over : (id : ℕ) (a a' : FlowAggregator) → refresh_pass id a ≡ ok (over a') → a' ≡ a
unfolding refresh_pass
pass_over id a a' e = elim (Option-cases (find ltb id a.scopes)) [
  | inl n ↦ absurd (ground (arith, e, n))
  | inr (scope, n) ↦ first_over a id scope scope.expiry a' (rw n at e)
]

pub first_state_found :
    (states : List (SessionKey × State)) (key : SessionKey) (s : State)
    → first_state states ≡ ok (key, s)
    → find session_less key states ≡ some s
first_state_found [] key s e = absurd (ground (arith, e))
first_state_found ((k, t) ∷ states) key s e =
    let h = find-head session_less k t states (session_less-irreflexive k) in
    let p : k ≡ key = ground (arith, e) in let q : t ≡ s = ground (arith, e) in rw (← p, ← q) h

pub evicted_found :
    (a : FlowAggregator) (soonest : Option Entry) (key : SessionKey) (s : State)
    → evicted a soonest ≡ ok (key, s)
    → find session_less key a.states ≡ some s
unfolding evicted
evicted_found a none key s e = first_state_found a.states key s e
evicted_found a (some (at, k)) key s e = elim (Option-cases (find session_less k a.states)) [
  | inl n ↦ absurd (ground (arith, e, n))
  | inr (t, n) ↦ ground (arith, e, n)
]

module _ (w : State → ℕ) (w-queued : (s : State) (t : ℕ) → w (record s { queued = t }) ≡ w s) where
  Refreshed-refl : (a : FlowAggregator) → Refreshed w a a
  Refreshed-refl a = ground arith

  Refreshed-trans : (a b c : FlowAggregator) → Refreshed w a b → Refreshed w b c → Refreshed w a c
  Refreshed-trans a b c h k = ground (arith, h, k)

  entry-Refreshed :
      (a : FlowAggregator) (id : ℕ) (scope : Scope) (at : ℕ) (key : SessionKey)
      (rest : List (Entry × Unit {0})) (a' : FlowAggregator)
      → refresh_entry a id scope (at, key) rest ≡ ok (again a')
      → Refreshed w a a'
  unfolding refresh_entry
  entry-Refreshed a id scope at key rest a' e =
      elim (Option-cases (find session_less key a.states)) [
        | inl n ↦ absurd (ground (arith, e, n))
        | inr (s, n) ↦
            let t : State = record s { queued = s.deadline } in
            ground (
              arith,
              e,
              n,
              w-queued s s.deadline,
              total-put session_less key w s t a.states n,
              length-put session_less key s t a.states n,
            )
      ]

  first-Refreshed :
      (a : FlowAggregator) (id : ℕ) (scope : Scope) (entries : List (Entry × Unit {0}))
      (a' : FlowAggregator)
      → refresh_first a id scope entries ≡ ok (again a')
      → Refreshed w a a'
  unfolding refresh_first
  first-Refreshed a id scope [] a' e = absurd (ground (arith, e))
  first-Refreshed a id scope (((at, key), _) ∷ rest) a' e =
      entry-Refreshed a id scope at key rest a' e

  pass-Refreshed :
      (id : ℕ) (a a' : FlowAggregator) → refresh_pass id a ≡ ok (again a') → Refreshed w a a'
  unfolding refresh_pass
  pass-Refreshed id a a' e = elim (Option-cases (find ltb id a.scopes)) [
    | inl n ↦ absurd (ground (arith, e, n))
    | inr (scope, n) ↦ first-Refreshed a id scope scope.expiry a' (rw n at e)
  ]

  loop-Refreshed :
      (fuel id : ℕ) (a a' : FlowAggregator) → refresh_loop fuel id a ≡ ok a' → Refreshed w a a'
  unfolding refresh_loop
  loop-Refreshed zero id a a' e = absurd (ground (arith, e))
  loop-Refreshed (suc fuel) id a a' e = elim (Result-cases (refresh_pass id a)) [
    | inl (f, n) ↦ absurd (ground (arith, e, n))
    | inr (over b, n) ↦ let o = pass_over id a b n in ground (arith, e, n, o)
    | inr (again b, n) ↦
        Refreshed-trans a b a' (pass-Refreshed id a b n) (loop-Refreshed fuel id b a' (rw n at e))
  ]

  pub refresh-Refreshed : (id : ℕ) (a a' : FlowAggregator) → refresh id a ≡ ok a' → Refreshed w a a'
  unfolding refresh
  refresh-Refreshed id a a' e = loop-Refreshed (suc (length a.states)) id a a' e

  soonest_loop-Refreshed :
      (scopes : List (ℕ × Scope)) (a : FlowAggregator) (soonest : Option Entry)
      (a' : FlowAggregator) (soonest' : Option Entry)
      → soonest_loop scopes a soonest ≡ ok (a', soonest')
      → Refreshed w a a'
  unfolding soonest_loop
  soonest_loop-Refreshed [] a soonest a' soonest' e = ground (arith, e)
  soonest_loop-Refreshed ((id, _) ∷ scopes) a soonest a' soonest' e =
      elim (Result-cases (refresh id a)) [
        | inl (f, n) ↦ absurd (ground (arith, e, n))
        | inr (b, n) ↦ elim (Option-cases (find ltb id b.scopes)) [
          | inl m ↦ absurd (ground (arith, e, n, m))
          | inr (scope, m) ↦
              let found = sooner soonest (first_entry scope.expiry) in
              Refreshed-trans a b a' (refresh-Refreshed id a b n)
                (soonest_loop-Refreshed scopes b found a' soonest' (rw (n, m) at e))
        ]
      ]

  soonest_entry-Refreshed :
      (id : ℕ) (a a' : FlowAggregator) (soonest : Option Entry)
      → soonest_entry id a ≡ ok (a', soonest)
      → Refreshed w a a'
  unfolding soonest_entry
  soonest_entry-Refreshed id a a' soonest e =
      ground
        (arith, e, soonest_loop-Refreshed a.scopes a none a' soonest, refresh-Refreshed id a a')

  -- The session to give up is in the table.
  pub evictable-Refreshed :
      (id : ℕ) (a a' : FlowAggregator) (key : SessionKey) (s : State)
      → evictable id a ≡ ok (a', key, s)
      → Refreshed w a a' × (find session_less key a'.states ≡ some s)
  unfolding evictable
  evictable-Refreshed id a a' key s e = elim (Result-cases (soonest_entry id a)) [
    | inl (f, n) ↦ absurd (ground (arith, e, n))
    | inr ((b, soonest), n) ↦ elim (Result-cases (evicted b soonest)) [
      | inl (f, m) ↦ absurd (ground (arith, e, n, m))
      | inr ((k, t), m) ↦
          ground (
            arith,
            e,
            n,
            m,
            soonest_entry-Refreshed id a b soonest n,
            evicted_found b soonest k t m,
          )
    ]
  ]
