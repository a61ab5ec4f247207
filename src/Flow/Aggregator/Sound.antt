-- ===== src/Flow/Aggregator/Sound.antt =====
-- What holds of the aggregator of src/flow_aggregator.cpp between calls, and how the steps that put a
-- row out or count the pending packet keep it.
use packet_quapture.Base.{
  ℕ, ◌<◌, ◌≡◌, refl, Bool, true, false, ltb, if◌then◌else◌, Option, none, some, arith, Option-cases,
  inl, inr,
}
use packet_quapture.Base.Maps.{find, put, erase, find-put}
use packet_quapture.Base.Maps.Sorted.{find-put-at, Leads}
use packet_quapture.Base.Orders.{same, ltb-IsOrder}
use packet_quapture.Flow.Types.{
  SessionKey, State, FlowSummary, FinalizedBy, FlowLimits, Result, ok, Result-cases, reset, limit,
  ◌>>=◌,
}
use packet_quapture.Flow.Key.{session_less}
use packet_quapture.Flow.Key.Ordered.{session_less-IsOrder}
use packet_quapture.Flow.Account.{account}
use packet_quapture.Flow.Table.{
  Entry, entry_less, FlowAggregator, Scope, unschedule, emit, schedule, evictable, first_state,
}
use packet_quapture.Flow.Table.Kept.{unschedule-Queued, Refreshed, evictable-Refreshed}
use packet_quapture.Flow.Table.Consistent.{
  Safe, Safe->>=, Safe-result, Safe-if, slot_of, Fits, Consistent, put-Consistent,
}
use packet_quapture.Flow.Table.Safety.{emit-Safe, schedule-Safe, Scheduled, Due, InPlace}
use packet_quapture.Flow.Table.Safety.Refreshing.{Follows, known_standing}
use packet_quapture.Flow.Table.Safety.Evicting.{Evicted, evictable-Safe}
use packet_quapture.Flow.Aggregator.{Output, account_packet, evict}
use packet_quapture.Flow.Aggregator.Moved.{Moved, account-Safe}

-- The interface has a scope.
abbrev pub IsKnown : FlowAggregator → ℕ → Type 0
IsKnown a = Leads ltb-IsOrder a.scopes

-- The tables are consistent, there is room for a session, and a pending packet that has moved its
-- clock on is in the section and of a known interface.
pub record Sound (a : FlowAggregator) : Type 0 where
  pub consistent : Consistent a
  pub room : 0 < a.limits.max_flows
  pub entered : a.pending ≡ true → a.prepared ≡ true → a.section ≡ a.pending_input.section
  pub known : a.pending ≡ true → a.prepared ≡ true → IsKnown a a.pending_input.interface_id

-- What a row that is put out leaves alone.
record Leaves (a b : FlowAggregator) : Type 0 where
  pub pending : b.pending ≡ a.pending
  pub prepared : b.prepared ≡ a.prepared
  pub section : b.section ≡ a.section
  pub pending_input : b.pending_input ≡ a.pending_input
  pub known : (id : ℕ) → IsKnown a id → IsKnown b id

unschedule-Known :
    (a : FlowAggregator) (s : State) (b : FlowAggregator) (t : State)
    → Consistent a
    → unschedule a s ≡ ok (b, t)
    → (id : ℕ) → IsKnown a id
    → IsKnown b id
unfolding unschedule
unschedule-Known a s b t h e id (scope, f) = elim (Option-cases (find ltb id b.scopes)) [
  | inr found ↦ found
  | inl n ↦
      let here = s.row.key.interface_id in
      elim (Option-cases (find ltb here a.scopes)) [
        | inl m ↦ absurd (ground (arith, e, f, n, m))
        | inr (scope', m) ↦
            let entry : Entry = (s.queued, s.row.key) in
            let left : Scope = record scope' { expiry = erase entry_less entry scope'.expiry } in
            let p = find-put-at ltb-IsOrder id here left a.scopes h.queues.sorted in
            elim (Option-cases (find entry_less entry scope'.expiry)) [
              | inl k ↦ absurd (ground (arith, e, f, n, m, k))
              | inr (_, k) ↦ absurd (ground (arith, e, f, n, m, k, p))
            ]
      ]
]

emit-Leaves :
    (a : FlowAggregator) (key : SessionKey) (s : State) (why : FinalizedBy) (o : Option FlowSummary)
    (b : FlowAggregator)
    → Consistent a
    → emit a key s why ≡ ok (o, b)
    → Leaves a b
unfolding emit
emit-Leaves a key s why o b h e = elim (Result-cases (unschedule a s)) [
  | inl (x, n) ↦ absurd (ground (arith, e, n))
  | inr ((d, t), n) ↦
      let k = unschedule-Queued a s d t n in
      let j = unschedule-Known a s d t h n in
      let same_scopes : b.scopes ≡ d.scopes = ground (arith, e, n) in
      record {
        pending = ground (arith, e, n, k);
        prepared = ground (arith, e, n, k);
        section = ground (arith, e, n, k);
        pending_input = ground (arith, e, n, k);
        known = λ id w. rw same_scopes (j id w);
      }
]

pub emit-Sound :
    (a : FlowAggregator) (key : SessionKey) (s : State) (why : FinalizedBy)
    → Sound a
    → find session_less key a.states ≡ some s
    → Safe (λ (o, b). Sound b) (emit a key s why)
emit-Sound a key s why h f =
    let safe = emit-Safe a key s why h.consistent f in
    elim (Result-cases (emit a key s why)) [
      | inl (x, n) ↦ rw n (rw n at safe)
      | inr ((o, b), n) ↦
          let l = emit-Leaves a key s why o b h.consistent n in
          let (c, same) =
            Safe-result (λ (o, b). Consistent b × (b.limits ≡ a.limits)) (emit a key s why) (o, b) n
              safe in
          rw n (record {
            consistent = c;
            room = ground (arith, same, h.room);
            entered = λ p q.
                ground (arith, l, p, q, h.entered (ground (arith, l, p)) (ground (arith, l, q)));
            known = λ p q.
                let k = h.known (ground (arith, l, p)) (ground (arith, l, q)) in
                rw l.pending_input (l.known a.pending_input.interface_id k);
          })
    ]

-- The sessions queued again leave what holds.
pub Follows-Sound :
    (w : State → ℕ) (a b : FlowAggregator) → Sound a → Follows a b → Refreshed w a b → Sound b
Follows-Sound w a b h m r = record {
  consistent = m.consistent;
  room = ground (arith, m.limits, h.room);
  entered = λ p q. ground (arith, r, p, q, h.entered (ground (arith, r, p)) (ground (arith, r, q)));
  known = λ p q.
      let (scope, f) = h.known (ground (arith, r, p)) (ground (arith, r, q)) in
      rw r.pending_input (known_standing a b a.pending_input.interface_id scope m f);
}

pub evict-Sound :
    (a : FlowAggregator) (key : SessionKey) (s : State)
    → Sound a
    → first_state a.states ≡ ok (key, s)
    → Safe (λ (o, b). Sound b) (evict a)
unfolding evict
evict-Sound a key s h f =
    let id = a.pending_input.interface_id in
    let safe = evictable-Safe id a key s h.consistent f in
    elim (Result-cases (evictable id a)) [
      | inl (x, n) ↦ rw n (rw n at safe)
      | inr ((b, k, t), n) ↦
          let (m, g) = Safe-result (Evicted a) (evictable id a) (b, k, t) n safe in
          rw n (
            emit-Sound b k t limit
              (Follows-Sound (λ _. 0) a b h m
                (evictable-Refreshed (λ _. 0) (λ _ _. refl) id a b k t n).0)
              g)
    ]

abbrev pub SoundOutput : Output → Type 0
SoundOutput (o, b) = Sound b

counted-Sound :
    (a : FlowAggregator) (key : SessionKey) (t : State) (b : FlowAggregator) (u : State)
    → Sound a
    → t.row.key ≡ key
    → Scheduled a t (b, u)
    → Sound (record b { states = put session_less key u b.states; pending = false })
counted-Sound a key t b u h own (q, fits, row) =
    let fits' : Fits a.limits key u = rw own at fits in
    let queues = rw own at q.queues in
    let c = put-Consistent a key u b.scopes h.consistent fits' queues in
    record {
      consistent = rw (q.states, q.limits) c;
      room = ground (arith, q.limits, h.room);
      entered = λ p. absurd (ground (arith, p));
      known = λ p. absurd (ground (arith, p));
    }

Moved-Due : (limits : FlowLimits) (s t : State) → Moved s t → Due limits s → Due limits t
Moved-Due limits s t m d = record {
  timed = λ e. m.timed (d.timed (ground (arith, m, e)));
  due = λ e.
      let e' : s.scheduled ≡ true = ground (arith, m, e) in
      let l = m.later (d.timed e') in
      let before = d.due e' in rw (m.deadline, m.own) (omega (arith, l, before));
  waits = λ e. ground (arith, m, d.waits (ground (arith, m, e)));
}

pub account_packet-Sound :
    (a : FlowAggregator) (key : SessionKey) (s : State) (from_low : Bool)
    → Sound a
    → s.row.key ≡ key
    → InPlace a s
    → IsKnown a s.row.key.interface_id
    → Due a.limits s
    → Safe SoundOutput (account_packet a key s from_low)
unfolding account_packet
account_packet-Sound a key s from_low h own i k d =
    let settle : FlowAggregator × State → Result Output = λ (b, u).
      let b' : FlowAggregator = record b {
        states = put session_less key u b.states;
        pending = false;
      } in
      if u.row.reset_seen then emit b' key u reset else ok (none, b') in
    Safe->>= (Moved s) SoundOutput (account a.pending_input a.late s from_low)
      (λ t. schedule a t >>= settle) (account-Safe a.pending_input a.late s from_low)
      (λ t m.
        let own' : t.row.key ≡ key = ground (arith, m, own) in
        let slot : slot_of (some t) ≡ slot_of (some s) = ground (arith, m.scheduled, m.queued) in
        let i' : InPlace a t = rw (m.own, slot) i in
        let k' : IsKnown a t.row.key.interface_id = rw m.own k in
        let d' = Moved-Due a.limits s t m d in
        Safe->>= (Scheduled a t) SoundOutput (schedule a t) settle
          (schedule-Safe a t h.consistent i' k' d')
          (λ (b, u) safe.
            let b' : FlowAggregator = record b {
              states = put session_less key u b.states;
              pending = false;
            } in
            let sound = counted-Sound a key t b u h own' safe in
            let at = find-put session_less key u b.states (session_less-IsOrder.irreflexive key) in
            Safe-if SoundOutput u.row.reset_seen (emit b' key u reset) (ok (none, b'))
              (emit-Sound b' key u reset sound at) sound))
