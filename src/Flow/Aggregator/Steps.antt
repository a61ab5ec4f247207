-- ===== src/Flow/Aggregator/Steps.antt =====
-- What one call of `Next` of src/flow_aggregator.cpp does to the packets and the sessions counted.
use packet_quapture.Base.{
  ℕ, suc, ◌+◌, ◌≤◌, ◌≡◌, refl, List, [], ◌∷◌, Bool, true, false, not, ◌&&◌, ltb, leb, ◌==◌,
  if◌then◌else◌, Option, none, some, length, arith, Option-cases, Bool-cases, inl, inr,
}
use packet_quapture.Base.Maps.{
  find, put, total, total-put, total-put-new, total-erase, length-put, length-put-new, length-erase,
  find-head, find-put,
}
use packet_quapture.Flow.Types.{
  SessionKey, FinalizedBy, FlowSummary, State, ok, Result-cases, reset, limit, tuple_reuse,
  idle_timeout, section_boundary, eof,
}
use packet_quapture.Flow.Key.{session_less, session_less-irreflexive, make_key, travels_from_low}
use packet_quapture.Flow.Account.{account, reused, new_state}
use packet_quapture.Flow.Table.{FlowAggregator, unschedule, schedule, refresh, evictable, emit}
use packet_quapture.Flow.Table.Kept.{
  Queued, unschedule-Queued, schedule-Queued, refresh-Refreshed, evictable-Refreshed,
}
use packet_quapture.Flow.Aggregator.{
  next, next_final, next_pending, next_section, enter_section, next_record, overdue, next_expired,
  next_packet, next_session, is_syn, is_eligible, account_packet, evict, prepare, prepare_scope,
}
use packet_quapture.Flow.Counters.{
  Counter, state_count, held, owed, emitted, account-amount, new_state_count,
}

abbrev pub rows : Option FlowSummary → ℕ
rows none = 0
rows (some _) = 1

-- What is left to put out: the sessions, and the one that the pending packet may open.
abbrev pub work : FlowAggregator → ℕ
work a = length a.states + (if a.pending then 1 else 0)

abbrev pub IsBounded : FlowAggregator → Type 0
IsBounded a = length a.states ≤ a.limits.max_flows

-- A step that gives `o`.
pub record Step (c : Counter) (a : FlowAggregator) (o : Option FlowSummary) (a' : FlowAggregator)
    : Type 0 where
  pub balance : emitted c o + held c a' + owed c a' ≡ held c a + owed c a
  pub less : rows o + work a' ≤ work a
  pub limits : a'.limits ≡ a.limits
  pub finishing : a'.finishing ≡ a.finishing
  pub bounded : IsBounded a → IsBounded a'
  pub quiet : a.pending ≡ false → a'.pending ≡ false
  pub settled : o ≡ none → a.finishing ≡ false → a'.pending ≡ false

module _ (c : Counter) where
  emit-Step :
      (a : FlowAggregator) (key : SessionKey) (s : State) (why : FinalizedBy)
      (o : Option FlowSummary) (a' : FlowAggregator)
      → find session_less key a.states ≡ some s
      → emit a key s why ≡ ok (o, a')
      → Step c a o a' × (rows o ≡ 1)
  unfolding emit
  emit-Step a key s why o a' f e = elim (Result-cases (unschedule a s)) [
    | inl (x, n) ↦ absurd (ground (arith, e, n))
    | inr ((b, t), n) ↦
        let k = unschedule-Queued a s b t n in
        ground (
          arith,
          e,
          n,
          k,
          total-erase session_less key (state_count c) s a.states f,
          length-erase session_less key s a.states f,
        )
  ]

  -- The session may stand in the table already or not.
  account_packet-Step :
      (a : FlowAggregator) (key : SessionKey) (s : State) (from_low : Bool) (o : Option FlowSummary)
      (a' : FlowAggregator)
      → a.pending ≡ true
      → is_eligible a.pending_input.packet ≡ true
      → ((t : State)
          → total (state_count c) (put session_less key t a.states) + state_count c s
            ≡ total (state_count c) a.states + state_count c t)
      → ((t : State) → length (put session_less key t a.states) ≤ suc (length a.states))
      → ((t : State) → IsBounded a → length (put session_less key t a.states) ≤ a.limits.max_flows)
      → account_packet a key s from_low ≡ ok (o, a')
      → Step c a o a'
  unfolding account_packet
  account_packet-Step a key s from_low o a' p q grow size fits e =
      elim (Result-cases (account a.pending_input a.late s from_low)) [
        | inl (x, n) ↦ absurd (ground (arith, e, n))
        | inr (t, n) ↦ elim (Result-cases (schedule a t)) [
          | inl (x, m) ↦ absurd (ground (arith, e, n, m))
          | inr ((b, u), m) ↦
              let k = schedule-Queued a t b u m in
              let added = account-amount c a.pending_input a.late from_low s t n in
              let b' : FlowAggregator = record b {
                states = put session_less key u b.states;
                pending = false;
              } in
              let at : find session_less key b'.states ≡ some u =
                find-put session_less key u b.states (session_less-irreflexive key) in
              ground
                (arith, e, n, m, k, added, grow u, size u, fits u, emit-Step b' key u reset o a' at)
        ]
      ]

  next_session-Step :
      (a : FlowAggregator) (key : SessionKey) (from_low : Bool) (state : Option State)
      (o : Option FlowSummary) (a' : FlowAggregator)
      → a.pending ≡ true
      → is_eligible a.pending_input.packet ≡ true
      → find session_less key a.states ≡ state
      → next_session a key from_low state ≡ ok (o, a')
      → Step c a o a'
  unfolding next_session evict
  next_session-Step a key from_low (some s) o a' p q f e =
      elim (Bool-cases
        (is_syn a.pending_input.packet && reused a.pending_input.packet s from_low)) [
          | inl r ↦ (emit-Step a key s tuple_reuse o a' f (rw r at e)).0
          | inr r ↦
              account_packet-Step a key s from_low o a' p q
                (λ t. total-put session_less key (state_count c) s t a.states f)
                (λ t. omega (arith, length-put session_less key s t a.states f))
                (λ t h. omega (arith, length-put session_less key s t a.states f)) (rw r at e)
        ]
  next_session-Step a key from_low none o a' p q f e =
      elim (Bool-cases (leb a.limits.max_flows (length a.states))) [
        | inl r ↦ elim (Result-cases (evictable a.pending_input.interface_id a)) [
          | inl (x, n) ↦ absurd (ground (arith, e, r, n))
          | inr ((b, k, s), n) ↦
              let (same, at) =
                evictable-Refreshed (state_count c) (λ _ _. refl) a.pending_input.interface_id a b k
                  s n in
              let out = emit-Step b k s limit o a' at (rw (r, n) at e) in ground (arith, same, out)
        ]
        | inr r ↦
            let s = new_state a.section a.pending_input key from_low in
            let zero = new_state_count c a.section a.pending_input key from_low in
            account_packet-Step a key s from_low o a' p q
              (λ t.
                omega (arith, zero, total-put-new session_less key (state_count c) t a.states f))
              (λ t. omega (arith, length-put-new session_less key t a.states f))
              (λ t h. ground (arith, r, length-put-new session_less key t a.states f)) (rw r at e)
      ]

  next_packet-Step :
      (a : FlowAggregator) (o : Option FlowSummary) (a' : FlowAggregator)
      → a.pending ≡ true
      → next_packet a ≡ ok (o, a')
      → Step c a o a'
  unfolding next_packet
  next_packet-Step a o a' p e =
      let key = make_key a.pending_input in
      let from_low = travels_from_low a.pending_input.packet in
      let s = find session_less key a.states in
      elim (Bool-cases (is_eligible a.pending_input.packet)) [
        | inl q ↦ next_session-Step a key from_low s o a' p q refl (rw q at e)
        | inr q ↦ ground (arith, e, q, p)
      ]

  next_expired-Step :
      (a : FlowAggregator) (key : Option SessionKey) (o : Option FlowSummary) (a' : FlowAggregator)
      → a.pending ≡ true
      → next_expired a key ≡ ok (o, a')
      → Step c a o a'
  unfolding next_expired
  next_expired-Step a none o a' p e = next_packet-Step a o a' p e
  next_expired-Step a (some key) o a' p e = elim (Option-cases (find session_less key a.states)) [
    | inl n ↦ absurd (ground (arith, e, n))
    | inr (s, n) ↦ (emit-Step a key s idle_timeout o a' n (rw n at e)).0
  ]

  prepared-Queued :
      (a b : FlowAggregator)
      → (if a.prepared then ok a else prepare a) ≡ ok b
      → Queued a (record b { prepared = a.prepared })
  unfolding prepare prepare_scope
  prepared-Queued a b e = ground (arith, e)

  next_record-Step :
      (a : FlowAggregator) (o : Option FlowSummary) (a' : FlowAggregator)
      → a.pending ≡ true
      → next_record a ≡ ok (o, a')
      → Step c a o a'
  unfolding next_record
  next_record-Step a o a' p e =
      let id = a.pending_input.interface_id in
      elim (Result-cases (if a.prepared then ok a else prepare a)) [
        | inl (x, n) ↦ absurd (ground (arith, e, n))
        | inr (b, n) ↦ elim (Option-cases (find ltb id b.scopes)) [
          | inl m ↦ absurd (ground (arith, e, n, m))
          | inr (_, m) ↦ elim (Result-cases (refresh id b)) [
            | inl (x, l) ↦ absurd (ground (arith, e, n, m, l))
            | inr (d, l) ↦ elim (Option-cases (find ltb id d.scopes)) [
              | inl k ↦ absurd (ground (arith, e, n, m, l, k))
              | inr (scope, k) ↦
                  let ready = prepared-Queued a b n in
                  let same = refresh-Refreshed (state_count c) (λ _ _. refl) id b d l in
                  let step =
                    next_expired-Step d (overdue scope scope.expiry) o a'
                      (ground (arith, p, ready, same)) (rw (n, m, l, k) at e) in
                  ground (arith, ready, same, step)
            ]
          ]
        ]
      ]

  entered-Step :
      (a : FlowAggregator) (o : Option FlowSummary) (a' : FlowAggregator)
      → a.pending ≡ true
      → next_record (enter_section a) ≡ ok (o, a')
      → Step c a o a'
  entered-Step a o a' p e = ground (arith, next_record-Step (enter_section a) o a' p e)

  next_section-Step :
      (a : FlowAggregator) (states : List (SessionKey × State)) (o : Option FlowSummary)
      (a' : FlowAggregator)
      → a.pending ≡ true
      → a.states ≡ states
      → next_section a states ≡ ok (o, a')
      → Step c a o a'
  unfolding next_section
  next_section-Step a [] o a' p f e =
      ground (arith, entered-Step (record a { scopes = [] }) o a' p e)
  next_section-Step a ((key, s) ∷ states) o a' p f e =
      let at : find session_less key a.states ≡ some s =
        rw f (find-head session_less key s states (session_less-irreflexive key)) in
      (emit-Step a key s section_boundary o a' at e).0

  -- A section's end empties the queues, which count nothing.
  next_pending-Step :
      (a : FlowAggregator) (o : Option FlowSummary) (a' : FlowAggregator)
      → a.pending ≡ true
      → next_pending a ≡ ok (o, a')
      → Step c a o a'
  unfolding next_pending
  next_pending-Step a o a' p e =
      elim (Bool-cases (a.have_section && not (a.section == a.pending_input.section))) [
        | inl n ↦ next_section-Step a a.states o a' p refl (rw n at e)
        | inr n ↦ entered-Step a o a' p (rw n at e)
      ]

  next_final-Step :
      (a : FlowAggregator) (states : List (SessionKey × State)) (o : Option FlowSummary)
      (a' : FlowAggregator)
      → a.states ≡ states
      → next_final a states ≡ ok (o, a')
      → a.finishing ≡ true
      → Step c a o a' × (o ≡ none → a'.states ≡ [])
  unfolding next_final
  next_final-Step a [] o a' f e h = ground (arith, f, e, h)
  next_final-Step a ((key, s) ∷ states) o a' f e h =
      let why = if a.final_section == a.section then eof else section_boundary in
      let at : find session_less key a.states ≡ some s =
        rw f (find-head session_less key s states (session_less-irreflexive key)) in
      let (step, row) = emit-Step a key s why o a' at e in
      (step, λ n. absurd (ground (arith, n, row)))

-- Each call of `Next` that does not throw.
pub next-Step :
    (c : Counter) (a : FlowAggregator) (o : Option FlowSummary) (a' : FlowAggregator)
    → next a ≡ ok (o, a')
    → Step c a o a'
unfolding next
next-Step c a o a' e = elim (Bool-cases a.finishing) [
  | inl f ↦ (next_final-Step c a a.states o a' refl (ground (arith, f, e)) f).0
  | inr f ↦ elim (Bool-cases a.pending) [
    | inl p ↦ next_pending-Step c a o a' p (ground (arith, e, f, p))
    | inr p ↦ ground (arith, e, f, p)
  ]
]

-- The last call behind `Finish` leaves no session.
pub next_final-none :
    (a a' : FlowAggregator) → a.finishing ≡ true → next a ≡ ok (none, a') → a'.states ≡ []
unfolding next
next_final-none a a' f e =
    (next_final-Step Counter.of_packets a a.states none a' refl (ground (arith, f, e)) f).1 refl
