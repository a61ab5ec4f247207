-- ===== src/Flow/Table/Safety/Evicting.antt =====
-- `Evictable` of src/flow_aggregator.cpp fails no assertion on consistent tables, and finds a session.
use packet_quapture.Base.{
  ℕ, ◌≡◌, refl, true, List, [], ◌∷◌, ltb, Option, none, some, arith, Option-cases, Bool-cases, inl,
  inr, ◌⊎◌,
}
use packet_quapture.Base.Maps.{find}
use packet_quapture.Base.Maps.Sorted.{Leads, AllKeys, AllKeys-mono, Sorted-Leads}
use packet_quapture.Base.Orders.{ltb-IsOrder}
use packet_quapture.Flow.Types.{SessionKey, State, Result, ok, found, out_of_range, ◌>>=◌}
use packet_quapture.Flow.Key.{session_less}
use packet_quapture.Flow.Table.{
  Entry, entry_less, Scope, FlowAggregator, refresh, first_entry, sooner, soonest_loop,
  soonest_entry, evicted, evictable, first_state, scope_at,
}
use packet_quapture.Flow.Table.Consistent.{Safe, Safe->>=, Safe-mono, Consistent, first_found}
use packet_quapture.Flow.Table.Kept.{first_state_found, evicted_found}
use packet_quapture.Flow.Table.Safety.Refreshing.{
  Follows, Follows-refl, Follows-trans, known_standing, present, refresh-Safe,
}

pub Queue-cases :
    (entries : List (Entry × Unit {0}))
    → (entries ≡ [])
      ⊎ ((at : ℕ) × (key : SessionKey) × (rest : List (Entry × Unit {0})) × (entries
            ≡ ((at, key), tt) ∷ rest))
Queue-cases [] = inl refl
Queue-cases (((at, key), tt) ∷ rest) = inr (at, key, rest, refl)

first-known :
    (a : FlowAggregator) (id : ℕ) (scope : Scope) (key : SessionKey) (at : ℕ)
    → Consistent a
    → find ltb id a.scopes ≡ some scope
    → first_entry scope.expiry ≡ some (at, key)
    → present (find session_less key a.states) ≡ true
first-known a id scope key at h f e = elim (Queue-cases scope.expiry) [
  | inl n ↦ absurd (ground (arith, e, n))
  | inr (u, j, rest, n) ↦
      let (s, g, _, _, _) = first_found a id scope u j rest h f n in
      let k : j ≡ key = ground (arith, e, n) in rw (← k, g) refl
]

abbrev IsKnown : FlowAggregator → ℕ → Type 0
IsKnown a = Leads ltb-IsOrder a.scopes

Follows-IsKnown : (a b : FlowAggregator) → Follows a b → (id : ℕ) → IsKnown a id → IsKnown b id
Follows-IsKnown a b h id (scope, f) = known_standing a b id scope h f

-- The sooner of two entries of sessions in the table is one.
abbrev IsPresent : FlowAggregator → Option Entry → Type 0
IsPresent a none = Unit {0}
IsPresent a (some (at, key)) = present (find session_less key a.states) ≡ true

sooner-IsPresent :
    (a : FlowAggregator) (x y : Option Entry)
    → IsPresent a x
    → IsPresent a y
    → IsPresent a (sooner x y)
sooner-IsPresent a x none h k = h
sooner-IsPresent a none (some y) h k = k
sooner-IsPresent a (some x) (some y) h k = elim (Bool-cases (entry_less y x)) [
  | inl e ↦ rw e k
  | inr e ↦ rw e h
]

first-IsPresent :
    (a : FlowAggregator) (id : ℕ) (scope : Scope)
    → Consistent a
    → find ltb id a.scopes ≡ some scope
    → IsPresent a (first_entry scope.expiry)
first-IsPresent a id scope h f = elim (Option-cases (first_entry scope.expiry)) [
  | inl n ↦ rw n tt
  | inr ((at, key), n) ↦ rw n (first-known a id scope key at h f n)
]

Follows-IsPresent :
    (a b : FlowAggregator) (x : Option Entry) → Follows a b → IsPresent a x → IsPresent b x
Follows-IsPresent a b none h p = tt
Follows-IsPresent a b (some (at, key)) h p = ground (arith, h.states key, p)

abbrev Chosen : FlowAggregator → FlowAggregator × Option Entry → Type 0
Chosen a (b, soonest) = Follows a b × IsPresent b soonest

soonest_loop-Safe :
    (scopes : List (ℕ × Scope)) (a : FlowAggregator) (soonest : Option Entry)
    → Consistent a
    → AllKeys (IsKnown a) scopes
    → IsPresent a soonest
    → Safe (Chosen a) (soonest_loop scopes a soonest)
unfolding soonest_loop
soonest_loop-Safe [] a soonest h k p = (Follows-refl a h, p)
soonest_loop-Safe ((id, _) ∷ scopes) a soonest h ((scope, f), k) p =
    Safe->>= (Follows a) (Chosen a) (refresh id a)
      (λ b. scope_at b id >>= λ s. soonest_loop scopes b (sooner soonest (first_entry s.expiry)))
      (refresh-Safe id a scope h f)
      (λ b m.
        let (s, g) = known_standing a b id scope m f in
        let first = first-IsPresent b id s m.consistent g in
        let next = sooner soonest (first_entry s.expiry) in
        let present =
          sooner-IsPresent b soonest (first_entry s.expiry) (Follows-IsPresent a b soonest m p)
            first in
        let known = AllKeys-mono (IsKnown a) (IsKnown b) scopes (Follows-IsKnown a b m) k in
        let rest = soonest_loop-Safe scopes b next m.consistent known present in
        rw g (
          Safe-mono (Chosen b) (Chosen a) (soonest_loop scopes b next) rest
            (λ (d, x) (n, q). (Follows-trans a b d m n, q))))

IsKnown-AllKeys : (a : FlowAggregator) → Consistent a → AllKeys (IsKnown a) a.scopes
IsKnown-AllKeys a h = Sorted-Leads ltb-IsOrder a.scopes h.queues.sorted

own-Safe :
    (id : ℕ) (a : FlowAggregator) (scope : Scope) (entry : Entry × Unit {0})
    (rest : List (Entry × Unit {0}))
    → Consistent a
    → find ltb id a.scopes ≡ some scope
    → scope.expiry ≡ entry ∷ rest
    → Safe (Chosen a) (
        refresh id a >>= λ b.
        scope_at b id >>= λ s. found out_of_range (first_entry s.expiry) >>= λ e. ok (b, some e))
own-Safe id a scope entry rest h f e =
    Safe->>= (Follows a) (Chosen a) (refresh id a)
      (λ b.
        scope_at b id >>= λ s. found out_of_range (first_entry s.expiry) >>= λ e. ok (b, some e))
      (refresh-Safe id a scope h f)
      (λ b m.
        let (s, g) = known_standing a b id scope m f in
        let first = first-IsPresent b id s m.consistent g in
        elim (Queue-cases s.expiry) [
          | inl n ↦ absurd (ground (arith, f, g, n, e, m.scopes id))
          | inr (at, key, more, n) ↦
              let p : IsPresent b (some (at, key)) = rw n at first in rw (g, n) (m, p)
        ])

soonest_entry-Safe :
    (id : ℕ) (a : FlowAggregator) → Consistent a → Safe (Chosen a) (soonest_entry id a)
unfolding soonest_entry
soonest_entry-Safe id a h =
    let all = soonest_loop-Safe a.scopes a none h (IsKnown-AllKeys a h) tt in
    elim (Option-cases (find ltb id a.scopes)) [
      | inl f ↦ rw (f, soonest_entry) all
      | inr (scope, f) ↦ elim (Queue-cases scope.expiry) [
        | inl e ↦ rw (f, e, soonest_entry) all
        | inr (at, key, rest, e) ↦
            rw (f, e, soonest_entry) (own-Safe id a scope ((at, key), tt) rest h f e)
      ]
    ]

-- A session in the table is there, and so is a first one.
states_first :
    (states : List (SessionKey × State)) (key : SessionKey)
    → present (find session_less key states) ≡ true
    → (first : SessionKey × State) × (first_state states ≡ ok first)
unfolding find
states_first [] key p = absurd (ground (arith, p))
states_first (entry ∷ states) key p = (entry, refl)

evicted_ok :
    (a : FlowAggregator) (soonest : Option Entry) (key : SessionKey)
    → IsPresent a soonest
    → present (find session_less key a.states) ≡ true
    → (k : SessionKey) × (s : State) × (evicted a soonest ≡ ok (k, s))
unfolding evicted
evicted_ok a none key p h = let ((k, s), e) = states_first a.states key h in (k, s, e)
evicted_ok a (some (at, k)) key p h = elim (Option-cases (find session_less k a.states)) [
  | inl n ↦ absurd (ground (arith, p, n))
  | inr (s, n) ↦ (k, s, ground (arith, n))
]

-- The session to give up is in the table.
abbrev pub Evicted : FlowAggregator → FlowAggregator × SessionKey × State → Type 0
Evicted a (b, key, s) = Follows a b × (find session_less key b.states ≡ some s)

pub evictable-Safe :
    (id : ℕ) (a : FlowAggregator) (key : SessionKey) (s : State)
    → Consistent a
    → first_state a.states ≡ ok (key, s)
    → Safe (Evicted a) (evictable id a)
unfolding evictable
evictable-Safe id a key s h f =
    let there = first_state_found a.states key s f in
    let body : FlowAggregator × Option Entry → Result (FlowAggregator × SessionKey × State) =
      λ (b, soonest). evicted b soonest >>= λ (k, t). ok (b, k, t) in
    let chosen =
      Safe->>= (Chosen a) (Evicted a) (soonest_entry id a) body (soonest_entry-Safe id a h)
        (λ (b, soonest) (m, p).
          let (k, t, e) = evicted_ok b soonest key p (ground (arith, m.states key, there)) in
          let g = evicted_found b soonest k t e in rw e (m, g)) in
    rw f chosen
