-- ===== src/Flow/Aggregator/Safety.antt =====
-- `Next`, `Push` and `Finish` of src/flow_aggregator.cpp fail no assertion.
use packet_quapture.Base.{
  ℕ, ◌≡◌, refl, Bool, true, false, not, ◌&&◌, List, [], ◌∷◌, ltb, leb, ◌==◌, if◌then◌else◌, Option,
  none, some, arith, Option-cases, Bool-cases, inl, inr, length,
}
use packet_quapture.Base.Maps.{find, find-head, find-put, find-AllValues}
use packet_quapture.Base.Orders.{ltb-IsOrder}
use packet_quapture.Flow.Types.{
  SessionKey, State, FlowInput, FlowLimits, Result, Result-cases, ok, throws, runtime_error,
  tuple_reuse, idle_timeout, section_boundary, eof, ◌>>=◌,
}
use packet_quapture.Flow.Key.{session_less, make_key, travels_from_low}
use packet_quapture.Flow.Key.Ordered.{session_less-IsOrder}
use packet_quapture.Flow.Account.{new_state, reused}
use packet_quapture.Flow.Table.{
  FlowAggregator, Scope, no_scope, refresh, emit, scope_at, first_state, create,
}
use packet_quapture.Flow.Table.Kept.{refresh-Refreshed}
use packet_quapture.Flow.Table.Queues.{OrderedQueue, has_entry, is_queued, clock-Queues}
use packet_quapture.Flow.Table.Safety.Evicting.{Queue-cases}
use packet_quapture.Flow.Table.Consistent.{
  Safe, Safe->>=, Safe-result, Safe-if, Safe-split, slots, Fits, IsConsistent, first_found,
}
use packet_quapture.Flow.Table.Safety.{Due, InPlace}
use packet_quapture.Flow.Table.Safety.Refreshing.{Follows, known_standing, refresh-Safe}
use packet_quapture.Flow.Aggregator.{
  Output, push, finish, next, next_final, next_pending, next_section, enter_section, next_record,
  overdue, next_expired, next_packet, next_session, is_syn, is_eligible, account_packet, prepare,
  prepare_scope, clock_scope,
}
use packet_quapture.Flow.Aggregator.Sound.{
  IsKnown, Sound, SoundOutput, emit-Sound, evict-Sound, account_packet-Sound, Follows-Sound,
}

Fits-Due : (limits : FlowLimits) (key : SessionKey) (s : State) → Fits limits key s → Due limits s
Fits-Due limits key s f = record {
  timed = f.timed;
  due = λ e. let d = f.due e in rw f.own (omega (arith, d));
  waits = f.waits;
}

full_first :
    (a : FlowAggregator)
    → Sound a
    → leb a.limits.max_flows (length a.states) ≡ true
    → (key : SessionKey) × (s : State) × (first_state a.states ≡ ok (key, s))
full_first a h e = go a.states e
  where
    go :
        (states : List (SessionKey × State))
        → leb a.limits.max_flows (length states) ≡ true
        → (key : SessionKey) × (s : State) × (first_state states ≡ ok (key, s))
    go [] f = absurd (ground (arith, h.room, f))
    go ((key, s) ∷ states) f = (key, s, refl)

next_session-Sound :
    (a : FlowAggregator) (key : SessionKey) (from_low : Bool) (state : Option State)
    → Sound a
    → IsKnown a key.interface_id
    → find session_less key a.states ≡ state
    → Safe SoundOutput (next_session a key from_low state)
unfolding next_session new_state
next_session-Sound a key from_low (some s) h k f =
    let fits = h.consistent.fits key s f in
    let own = fits.own in
    let i : InPlace a s = rw (own, f) refl in
    Safe-if SoundOutput (is_syn a.pending_input.packet && reused a.pending_input.packet s from_low)
      (emit a key s tuple_reuse) (account_packet a key s from_low)
      (emit-Sound a key s tuple_reuse h f)
      (account_packet-Sound a key s from_low h own i (rw own k) (Fits-Due a.limits key s fits))
next_session-Sound a key from_low none h k f =
    let s = new_state a.section a.pending_input key from_low in
    let i : InPlace a s = rw f refl in
    let d : Due a.limits s = ground arith in
    let counted = account_packet-Sound a key s from_low h refl i k d in
    elim (Bool-cases (leb a.limits.max_flows (length a.states))) [
      | inl e ↦ let (first, t, g) = full_first a h e in rw e (evict-Sound a first t h g)
      | inr e ↦ rw e counted
    ]

next_packet-Sound :
    (a : FlowAggregator)
    → Sound a
    → IsKnown a a.pending_input.interface_id
    → Safe SoundOutput (next_packet a)
unfolding next_packet make_key
next_packet-Sound a h k =
    let key = make_key a.pending_input in
    let from_low = travels_from_low a.pending_input.packet in
    let s = find session_less key a.states in
    let over : FlowAggregator = record a { pending = false } in
    let sound : Sound over = record {
      consistent = h.consistent;
      room = h.room;
      entered = λ p. absurd (ground (arith, p));
      known = λ p. absurd (ground (arith, p));
    } in
    Safe-if SoundOutput (is_eligible a.pending_input.packet) (next_session a key from_low s)
      (ok (none, over)) (next_session-Sound a key from_low s h k refl) sound

next_expired-Sound :
    (a : FlowAggregator) (scope : Scope)
    → Sound a
    → find ltb a.pending_input.interface_id a.scopes ≡ some scope
    → Safe SoundOutput (next_expired a (overdue scope scope.expiry))
unfolding next_expired
next_expired-Sound a scope h f =
    let on = next_packet-Sound a h (scope, f) in
    elim (Queue-cases scope.expiry) [
      | inl n ↦ rw n on
      | inr (at, key, rest, n) ↦ elim (Bool-cases (scope.has_watermark && ltb at scope.watermark)) [
        | inr w ↦ rw (n, w) on
        | inl w ↦
            let (s, g, _, _, _) =
              first_found a a.pending_input.interface_id scope at key rest h.consistent f n in
            rw (n, w, g) (emit-Sound a key s idle_timeout h g)
      ]
    ]

-- The aggregator with the clock moved on.
abbrev Ready : FlowAggregator → FlowAggregator → Type 0
Ready a b = Sound b × (b.pending_input ≡ a.pending_input) × IsKnown b a.pending_input.interface_id

prepare_scope-Ready :
    (a : FlowAggregator) (scope : Scope)
    → Sound a
    → a.section ≡ a.pending_input.section
    → OrderedQueue scope
    → ((t : ℕ) (key : SessionKey)
        → has_entry t key (some scope) ≡ is_queued a.scopes a.pending_input.interface_id t key)
    → Ready a (prepare_scope a scope)
unfolding prepare_scope
prepare_scope-Ready a scope h e o q =
    let id = a.pending_input.interface_id in
    let scope' = clock_scope a.pending_input scope in
    let same : scope'.expiry ≡ scope.expiry = ground arith in
    let found = find-put ltb id scope' a.scopes (ltb-IsOrder.irreflexive id) in
    let queues =
      clock-Queues (slots a.states) a.scopes id scope' h.consistent.queues (rw same o)
        (λ t key. rw same (q t key)) in
    (
      record {
        consistent = record {
          sorted = h.consistent.sorted;
          queues = queues;
          fits = h.consistent.fits;
        };
        room = h.room;
        entered = λ _ _. e;
        known = λ _ _. (scope', found);
      },
      refl,
      (scope', found),
    )

no_scope_empty : (t : ℕ) (key : SessionKey) → has_entry t key (some no_scope) ≡ false
unfolding find
no_scope_empty t key = refl

prepare-Safe :
    (a : FlowAggregator)
    → Sound a
    → a.section ≡ a.pending_input.section
    → Safe (Ready a) (prepare a)
unfolding prepare
prepare-Safe a h e =
    let id = a.pending_input.interface_id in
    elim (Option-cases (find ltb id a.scopes)) [
      | inl f ↦
          rw (f, prepare)
            (Safe-if (Ready a) (leb a.limits.max_scopes (length a.scopes)) (throws runtime_error)
              (ok (prepare_scope a no_scope)) refl
              (prepare_scope-Ready a no_scope h e tt
                (λ t key. ground (arith, f, no_scope_empty t key))))
      | inr (scope, f) ↦
          rw (f, prepare)
            (prepare_scope-Ready a scope h e
              (find-AllValues ltb id OrderedQueue scope a.scopes h.consistent.queues.ordered f)
              (λ t key. ground (arith, f)))
    ]

next_record-Sound :
    (a : FlowAggregator)
    → Sound a
    → a.pending ≡ true
    → a.section ≡ a.pending_input.section
    → Safe SoundOutput (next_record a)
unfolding next_record
next_record-Sound a h p e =
    let id = a.pending_input.interface_id in
    let ready =
      Safe-split (Ready a) a.prepared (ok a) (prepare a) (λ r. (h, refl, h.known p r))
        (λ _. prepare-Safe a h e) in
    let clocked : FlowAggregator → Result Output =
      λ fresh. scope_at fresh id >>= λ scope. next_expired fresh (overdue scope scope.expiry) in
    Safe->>= (Ready a) SoundOutput (if a.prepared then ok a else prepare a)
      (λ b. scope_at b id >>= λ _. refresh id b >>= clocked) ready
      (λ b (sound, same_input, (scope, f)).
        let safe = refresh-Safe id b scope sound.consistent f in
        elim (Result-cases (refresh id b)) [
          | inl (x, n) ↦ rw (f, n) (rw n at safe)
          | inr (d, n) ↦
              let m = Safe-result (Follows b) (refresh id b) d n safe in
              let r = refresh-Refreshed (λ _. 0) (λ _ _. refl) id b d n in
              let (scope', g) = known_standing b d id scope m f in
              let g' : find ltb d.pending_input.interface_id d.scopes ≡ some scope' =
                rw (r.pending_input, same_input) g in
              let fresh = Follows-Sound (λ _. 0) b d sound m r in
              rw (f, n, g) (next_expired-Sound d scope' fresh g')
        ])

empty-IsConsistent : (limits : FlowLimits) → IsConsistent limits [] []
unfolding find
empty-IsConsistent limits = record {
  sorted = tt;
  queues = record { sorted = tt; ordered = tt; agrees = λ id t key. ground arith };
  fits = λ key s e. absurd (ground (arith, e));
}

-- The tables are empty where a section begins.
cleared-Sound :
    (a : FlowAggregator)
    → Sound a
    → a.states ≡ []
    → (a.pending ≡ true → a.prepared ≡ false)
    → Sound (record a { scopes = [] })
cleared-Sound a h e fresh = record {
  consistent = rw e (empty-IsConsistent a.limits);
  room = h.room;
  entered = h.entered;
  known = λ p q. absurd (ground (arith, q, fresh p));
}

enter_section-Sound : (a : FlowAggregator) → Sound a → Sound (enter_section a)
enter_section-Sound a h = record {
  consistent = h.consistent;
  room = h.room;
  entered = λ _ _. refl;
  known = h.known;
}

next_section-Sound :
    (a : FlowAggregator) (states : List (SessionKey × State))
    → Sound a
    → a.pending ≡ true
    → a.prepared ≡ false
    → a.states ≡ states
    → Safe SoundOutput (next_section a states)
unfolding next_section
next_section-Sound a [] h p q e =
    let b : FlowAggregator = record a { scopes = [] } in
    next_record-Sound (enter_section b) (enter_section-Sound b (cleared-Sound a h e (λ _. q))) p
      refl
next_section-Sound a ((key, s) ∷ states) h p q e =
    let at : find session_less key a.states ≡ some s =
      rw e (find-head session_less key s states (session_less-IsOrder.irreflexive key)) in
    emit-Sound a key s section_boundary h at

next_pending-Sound :
    (a : FlowAggregator) → Sound a → a.pending ≡ true → Safe SoundOutput (next_pending a)
unfolding next_pending
next_pending-Sound a h p =
    Safe-split SoundOutput (a.have_section && not (a.section == a.pending_input.section))
      (next_section a a.states) (next_record (enter_section a))
      (λ n.
        let q : a.prepared ≡ false = elim (Bool-cases a.prepared) [
          | inl r ↦ absurd (ground (arith, n, h.entered p r))
          | inr r ↦ r
        ] in
        next_section-Sound a a.states h p q refl)
      (λ _. next_record-Sound (enter_section a) (enter_section-Sound a h) p refl)

next_final-Sound :
    (a : FlowAggregator) (states : List (SessionKey × State))
    → Sound a
    → a.states ≡ states
    → a.pending ≡ false
    → Safe SoundOutput (next_final a states)
unfolding next_final
next_final-Sound a [] h e p = cleared-Sound a h e (λ q. absurd (ground (arith, p, q)))
next_final-Sound a ((key, s) ∷ states) h e p =
    let at : find session_less key a.states ≡ some s =
      rw e (find-head session_less key s states (session_less-IsOrder.irreflexive key)) in
    emit-Sound a key s (if a.final_section == a.section then eof else section_boundary) h at

-- Next fails no assertion and finds every scope and session that it looks for, where the tables are
-- consistent and no packet is pending behind `Finish`: it throws only at a counter's limit or at
-- the limit of scopes, and what it leaves is sound again.
pub next-Sound :
    (a : FlowAggregator)
    → Sound a
    → (a.finishing ≡ true → a.pending ≡ false)
    → Safe SoundOutput (next a)
unfolding next
next-Sound a h f =
    Safe-split SoundOutput a.finishing (next_final a a.states)
      (if a.pending then next_pending a else ok (none, a))
      (λ e. next_final-Sound a a.states h refl (f e))
      (λ _.
        Safe-split SoundOutput a.pending (next_pending a) (ok (none, a)) (next_pending-Sound a h)
          (λ _. h))

-- A new aggregator is sound.
pub create-Sound : (limits : FlowLimits) (a : FlowAggregator) → create limits ≡ ok a → Sound a
unfolding create
create-Sound limits a e = record {
  consistent =
      let s : a.states ≡ [] = ground (arith, e) in
      let t : a.scopes ≡ [] = ground (arith, e) in rw (s, t) (empty-IsConsistent a.limits);
  room = ground (arith, e);
  entered = λ p. absurd (ground (arith, e, p));
  known = λ p. absurd (ground (arith, e, p));
}

-- A pushed packet has not moved the clock on.
pub push-Sound :
    (input : FlowInput) (a b : FlowAggregator) → Sound a → push input a ≡ ok b → Sound b
unfolding push
push-Sound input a b h e = record {
  consistent =
      let l : b.limits ≡ a.limits = ground (arith, e) in
      let s : b.states ≡ a.states = ground (arith, e) in
      let t : b.scopes ≡ a.scopes = ground (arith, e) in rw (l, s, t) h.consistent;
  room = ground (arith, e, h.room);
  entered = λ p q. absurd (ground (arith, e, q));
  known = λ p q. absurd (ground (arith, e, q));
}

pub finish-Sound :
    (section : ℕ) (a b : FlowAggregator) → Sound a → finish section a ≡ ok b → Sound b
unfolding finish
finish-Sound section a b h e = record {
  consistent =
      let l : b.limits ≡ a.limits = ground (arith, e) in
      let s : b.states ≡ a.states = ground (arith, e) in
      let t : b.scopes ≡ a.scopes = ground (arith, e) in rw (l, s, t) h.consistent;
  room = ground (arith, e, h.room);
  entered = λ p. absurd (ground (arith, e, p));
  known = λ p. absurd (ground (arith, e, p));
}
