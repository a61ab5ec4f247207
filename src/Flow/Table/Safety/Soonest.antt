-- ===== src/Flow/Table/Safety/Soonest.antt =====
-- What `Refresh` of src/flow_aggregator.cpp leaves at the front of a queue.
use packet_quapture.Base.{
  ℕ, zero, suc, ◌≤◌, ◌≡◌, refl, true, false, List, [], ◌∷◌, ltb, some, arith, Bool-cases, inl, inr,
  length,
}
use packet_quapture.Base.Maps.{find}
use packet_quapture.Flow.Types.{SessionKey, State, ok, Result-cases}
use packet_quapture.Flow.Key.{session_less}
use packet_quapture.Flow.Table.{
  Entry, entry_less, Scope, FlowAggregator, over, again, refresh_entry, refresh_first, refresh_pass,
  refresh_loop, refresh,
}
use packet_quapture.Flow.Table.Kept.{pass_over}
use packet_quapture.Flow.Table.Queues.{holds}
use packet_quapture.Flow.Table.Consistent.{Consistent, Safe-result, first_found}
use packet_quapture.Flow.Table.Safety.Refreshing.{Follows, refresh-Safe}

-- The loop ends with a pass that leaves the aggregator alone.
loop_settled :
    (fuel id : ℕ) (a b : FlowAggregator)
    → refresh_loop fuel id a ≡ ok b
    → refresh_pass id b ≡ ok (over b)
unfolding refresh_loop
loop_settled zero id a b e = absurd (ground (arith, e))
loop_settled (suc fuel) id a b e = elim (Result-cases (refresh_pass id a)) [
  | inl (x, n) ↦ absurd (ground (arith, e, n))
  | inr (over c, n) ↦
      let p : c ≡ a = pass_over id a c n in
      let q : c ≡ b = ground (arith, e, n) in let r : a ≡ b = rw (← p) q in rw (← r) (rw p at n)
  | inr (again c, n) ↦ loop_settled fuel id c b (ground (arith, e, n))
]

-- The session at the front is due where it is queued.
front_due :
    (id : ℕ) (a : FlowAggregator) (scope : Scope) (at : ℕ) (key : SessionKey) (s : State)
    (rest : List (Entry × Unit {0}))
    → refresh_pass id a ≡ ok (over a)
    → find ltb id a.scopes ≡ some scope
    → scope.expiry ≡ ((at, key), tt) ∷ rest
    → find session_less key a.states ≡ some s
    → s.deadline ≡ at
unfolding refresh_pass refresh_first refresh_entry
front_due id a scope at key s rest e f g h = ground (arith, e, f, g, h)

-- No entry is before the first.
first_least :
    (at t : ℕ) (key j : SessionKey) (entries : List (Entry × Unit {0}))
    → holds (find entry_less (t, j) (((at, key), tt) ∷ entries)) ≡ true
    → at ≤ t
unfolding find
first_least at t key j entries e = ground (arith, e)

-- The front of a queue: nothing is queued on the interface, or one of the sessions that are due
-- first is.
pub record IsSoonest (id : ℕ) (a : FlowAggregator) (expiry : List (Entry × Unit {0})) : Type 0 where
  pub none_queued :
      expiry ≡ []
      → (j : SessionKey) (t : State) → find session_less j a.states ≡ some t
      → j.interface_id ≡ id
      → t.scheduled ≡ false
  pub first_due :
      (at : ℕ) (key : SessionKey) (rest : List (Entry × Unit {0}))
      → expiry ≡ ((at, key), tt) ∷ rest
      → (s : State) × (find session_less key a.states ≡ some s)
        × (s.scheduled ≡ true)
        × (s.deadline ≡ at)
        × ((j : SessionKey) (t : State)
            → find session_less j a.states ≡ some t
            → j.interface_id ≡ id
            → t.scheduled ≡ true
            → s.deadline ≤ t.deadline)

-- A scheduled session has an entry in the queue of its interface.
entry_there :
    (a : FlowAggregator) (scope : Scope) (j : SessionKey) (t : State)
    → Consistent a
    → find ltb j.interface_id a.scopes ≡ some scope
    → find session_less j a.states ≡ some t
    → t.scheduled ≡ true
    → holds (find entry_less (t.queued, j) scope.expiry) ≡ true
entry_there a scope j t h f g s = ground (arith, f, g, s, h.queues.agrees j.interface_id t.queued j)

no_entry : (t : ℕ) (j : SessionKey) → holds (find {V = Unit {0}} entry_less (t, j) []) ≡ false
unfolding find
no_entry t j = refl

settled-IsSoonest :
    (id : ℕ) (a : FlowAggregator) (scope : Scope)
    → Consistent a
    → refresh_pass id a ≡ ok (over a)
    → find ltb id a.scopes ≡ some scope
    → IsSoonest id a scope.expiry
settled-IsSoonest id a scope h e f = record {
  none_queued = λ n j t g i.
      let f' : find ltb j.interface_id a.scopes ≡ some scope = rw i f in
      elim (Bool-cases t.scheduled) [
        | inr s ↦ s
        | inl s ↦
            let there = entry_there a scope j t h f' g s in
            absurd (ground (arith, rw n at there, no_entry t.queued j))
      ];
  first_due = λ at key rest n.
      let (s, g, on, q, i) = first_found a id scope at key rest h f n in
      let due = front_due id a scope at key s rest e f n g in
      (
        s,
        g,
        on,
        due,
        λ j t g' i' on'.
            let f' : find ltb j.interface_id a.scopes ≡ some scope = rw i' f in
            let there = entry_there a scope j t h f' g' on' in
            let least = first_least at t.queued key j rest (rw n at there) in
            let waits = (h.fits j t g').waits on' in omega (arith, due, least, waits),
      );
}

-- Refresh, on consistent tables: behind it, an empty queue means that no session of the interface is
-- scheduled, and the first entry is that of a session whose deadline is the earliest of all
-- sessions scheduled on the interface, though the queue keeps entries at earlier times.
pub refresh-IsSoonest :
    (id : ℕ) (a b : FlowAggregator) (scope scope' : Scope)
    → Consistent a
    → find ltb id a.scopes ≡ some scope
    → refresh id a ≡ ok b
    → find ltb id b.scopes ≡ some scope'
    → IsSoonest id b scope'.expiry
unfolding refresh
refresh-IsSoonest id a b scope scope' h f e g =
    let follows = Safe-result (Follows a) (refresh id a) b e (refresh-Safe id a scope h f) in
    settled-IsSoonest id b scope' follows.consistent (loop_settled (suc (length a.states)) id a b e)
      g
