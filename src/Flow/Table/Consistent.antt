-- ===== src/Flow/Table/Consistent.antt =====
-- What holds of the tables of src/flow_aggregator.cpp between two steps.
use packet_quapture.Base.{
  ℕ, ◌+◌, ◌≤◌, ◌≡◌, refl, Bool, true, false, List, ◌∷◌, ltb, if◌then◌else◌, Option, none, some,
  arith, Option-cases, Bool-cases, inl, inr,
}
use packet_quapture.Base.Maps.{find, put, erase, find-head}
use packet_quapture.Base.Maps.Sorted.{Sorted, find-put-at, find-erase-at, put-Sorted, erase-Sorted}
use packet_quapture.Base.Orders.{same, same→≡}
use packet_quapture.Flow.Types.{
  SessionKey, State, FlowLimits, Failure, Result, ok, throws, overflow_error, runtime_error, ◌>>=◌,
}
use packet_quapture.Flow.Key.{session_less}
use packet_quapture.Flow.Key.Ordered.{session_less-IsOrder, entry_less-IsOrder}
use packet_quapture.Flow.Table.{Entry, entry_less, Scope, FlowAggregator, timeout_of}
use packet_quapture.Flow.Table.Queues.{Queues, set_slot, holds, Queues-cong}

-- The failures that hostile input can cause: a counter at its limit, and too many interfaces.
abbrev pub is_allowed : Failure → Bool
is_allowed overflow_error = true
is_allowed runtime_error = true
is_allowed _ = false

-- The result satisfies the predicate, or the failure is an allowed one.
abbrev pub Safe {ℓ} : {A : Type ℓ} → (A → Type 0) → Result A → Type 0
Safe P (ok a) = P a
Safe P (throws e) = is_allowed e ≡ true

pub Safe->>= {ℓ κ} :
    {A : Type ℓ} {B : Type κ} (P : A → Type 0) (Q : B → Type 0) (r : Result A) (f : A → Result B)
    → Safe P r
    → ((a : A) → P a → Safe Q (f a))
    → Safe Q (r >>= f)
Safe->>= P Q (ok a) f h k = k a h
Safe->>= P Q (throws e) f h k = h

pub Safe-mono {ℓ} :
    {A : Type ℓ} (P Q : A → Type 0) (r : Result A) → Safe P r → ((a : A) → P a → Q a) → Safe Q r
Safe-mono P Q (ok a) h k = k a h
Safe-mono P Q (throws e) h k = h

pub Safe-ok {ℓ} : {A : Type ℓ} (P : A → Type 0) (r : Result A) (a : A) → r ≡ ok a → P a → Safe P r
Safe-ok P r a e h = rw e h

pub Safe-result {ℓ} :
    {A : Type ℓ} (P : A → Type 0) (r : Result A) (a : A) → r ≡ ok a → Safe P r → P a
Safe-result P r a e h = rw e at h

pub Safe-if {ℓ} :
    {A : Type ℓ} (P : A → Type 0) (b : Bool) (x y : Result A)
    → Safe P x
    → Safe P y
    → Safe P (if b then x else y)
Safe-if P true x y h k = h
Safe-if P false x y h k = k

-- Each branch under its condition.
pub Safe-split {ℓ} :
    {A : Type ℓ} (P : A → Type 0) (b : Bool) (x y : Result A)
    → (b ≡ true → Safe P x)
    → (b ≡ false → Safe P y)
    → Safe P (if b then x else y)
Safe-split P true x y h k = h refl
Safe-split P false x y h k = k refl

abbrev pub slot_of : Option State → Option ℕ
slot_of none = none
slot_of (some s) = if s.scheduled then some s.queued else none

-- Where each session is queued.
abbrev pub slots : List (SessionKey × State) → SessionKey → Option ℕ
slots states key = slot_of (find session_less key states)

-- A session under its key. If it is queued, it is due at its last timestamp and the idle timeout,
-- and not before it is queued.
pub record Fits (limits : FlowLimits) (key : SessionKey) (s : State) : Type 0 where
  pub own : s.row.key ≡ key
  pub timed : s.scheduled ≡ true → s.row.has_timestamp ≡ true
  pub due : s.scheduled ≡ true → s.deadline ≡ s.row.last_timestamp + timeout_of limits key
  pub waits : s.scheduled ≡ true → s.queued ≤ s.deadline

pub record IsConsistent (limits : FlowLimits) (states : List (SessionKey × State))
    (scopes : List (ℕ × Scope)) : Type 0 where
  pub sorted : Sorted session_less states
  pub queues : Queues (slots states) scopes
  pub fits :
      (key : SessionKey) (s : State) → find session_less key states ≡ some s → Fits limits key s

abbrev pub Consistent : FlowAggregator → Type 0
Consistent a = IsConsistent a.limits a.states a.scopes

slots-put :
    (states : List (SessionKey × State)) (key : SessionKey) (s : State) (j : SessionKey)
    → Sorted session_less states
    → slots (put session_less key s states) j ≡ set_slot key (slot_of (some s)) (slots states) j
slots-put states key s j h = ground (arith, find-put-at session_less-IsOrder j key s states h)

slots-erase :
    (states : List (SessionKey × State)) (key : SessionKey) (j : SessionKey)
    → Sorted session_less states
    → slots (erase session_less key states) j ≡ set_slot key none (slots states) j
slots-erase states key j h = ground (arith, find-erase-at session_less-IsOrder j key states h)

-- A session is put under its key: the queues have to hold its time.
pub put-Consistent :
    (a : FlowAggregator) (key : SessionKey) (s : State) (scopes : List (ℕ × Scope))
    → Consistent a
    → Fits a.limits key s
    → Queues (set_slot key (slot_of (some s)) (slots a.states)) scopes
    → IsConsistent a.limits (put session_less key s a.states) scopes
put-Consistent a key s scopes h f q = record {
  sorted = put-Sorted session_less-IsOrder key s a.states h.sorted;
  queues =
      Queues-cong (set_slot key (slot_of (some s)) (slots a.states))
        (slots (put session_less key s a.states)) scopes (λ j. slots-put a.states key s j h.sorted)
        q;
  fits = λ j t e.
      let p = find-put-at session_less-IsOrder j key s a.states h.sorted in
      elim (Bool-cases (same session_less j key)) [
        | inl r ↦
            let d = same→≡ session_less-IsOrder j key r in
            let u : s ≡ t = ground (arith, p, e, r) in rw (d, ← u) f
        | inr r ↦ h.fits j t (ground (arith, p, e, r))
      ];
}

-- A session is taken out, and so is its time.
pub erase-Consistent :
    (a : FlowAggregator) (key : SessionKey) (scopes : List (ℕ × Scope))
    → Consistent a
    → Queues (set_slot key none (slots a.states)) scopes
    → IsConsistent a.limits (erase session_less key a.states) scopes
erase-Consistent a key scopes h q = record {
  sorted = erase-Sorted session_less-IsOrder key a.states h.sorted;
  queues =
      Queues-cong (set_slot key none (slots a.states)) (slots (erase session_less key a.states))
        scopes (λ j. slots-erase a.states key j h.sorted) q;
  fits = λ j t e.
      let p = find-erase-at session_less-IsOrder j key a.states h.sorted in
      h.fits j t (ground (arith, p, e));
}

-- The session of the first entry of a queue is in the table, and queued there.
pub first_found :
    (a : FlowAggregator) (id : ℕ) (scope : Scope) (at : ℕ) (key : SessionKey)
    (rest : List (Entry × Unit {0}))
    → Consistent a
    → find ltb id a.scopes ≡ some scope
    → scope.expiry ≡ ((at, key), tt) ∷ rest
    → (s : State) × (find session_less key a.states ≡ some s)
      × (s.scheduled ≡ true)
      × (s.queued ≡ at)
      × (key.interface_id ≡ id)
first_found a id scope at key rest h f e =
    let head = find-head entry_less (at, key) tt rest (entry_less-IsOrder.irreflexive (at, key)) in
    let here : holds (find entry_less (at, key) scope.expiry) ≡ true = rw (e, head) refl in
    let q = h.queues.agrees id at key in
    elim (Option-cases (find session_less key a.states)) [
      | inl n ↦ absurd (ground (arith, f, here, q, n))
      | inr (s, n) ↦ (
        s,
        n,
        ground (arith, f, here, q, n),
        ground (arith, f, here, q, n),
        ground (arith, f, here, q, n),
      )
    ]
