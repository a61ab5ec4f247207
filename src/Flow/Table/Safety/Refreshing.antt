-- ===== src/Flow/Table/Safety/Refreshing.antt =====
-- `Refresh` and `Evictable` of src/flow_aggregator.cpp fail no assertion on consistent tables, and
-- their loops end.
use packet_quapture.Base.{
  ℕ, zero, suc, ◌≤◌, ◌<◌, ◌≡◌, refl, Bool, true, false, List, [], ◌∷◌, ltb, ◌==◌, if◌then◌else◌,
  Option, none, some, arith, Option-cases, Bool-cases, inl, inr, length, sym,
}
use mathlib.Core.Path.{subst}
use packet_quapture.Base.Maps.{find, put, erase, find-put, put-put, erase-head, total, total-put}
use packet_quapture.Base.Maps.Sorted.{find-put-at}
use packet_quapture.Base.Orders.{same, same→≡, ltb-IsOrder}
use packet_quapture.Flow.Types.{SessionKey, State, ok}
use packet_quapture.Flow.Key.{session_less}
use packet_quapture.Flow.Key.Ordered.{session_less-IsOrder, entry_less-IsOrder}
use packet_quapture.Flow.Table.{
  Entry, entry_less, Scope, FlowAggregator, Pass, over, again, requeue, refresh_entry,
  refresh_first, refresh_pass, refresh_loop, refresh,
}
use packet_quapture.Flow.Table.Queues.{Queues, set_slot, Queues-cong, added-Queues, removed-Queues}
use packet_quapture.Flow.Table.Consistent.{
  Safe, Safe->>=, Safe-mono, Safe-ok, slot_of, slots, Fits, Consistent, put-Consistent, first_found,
}

-- An interface is unknown, has an empty queue, or has a session queued.
abbrev pub standing : Option Scope → ℕ
standing none = 0
standing (some scope) = elim scope.expiry [ [] ↦ 1 | _ ∷ _ ↦ 2 ]

abbrev pub present : Option State → Bool
present none = false
present (some _) = true

-- How often a session can still be queued again.
abbrev pub stale : State → ℕ
stale s = if ltb s.queued s.deadline then 1 else 0

-- Sessions are queued again, and no more.
pub record Follows (a b : FlowAggregator) : Type 0 where
  pub consistent : Consistent b
  pub limits : b.limits ≡ a.limits
  pub scopes : (id : ℕ) → standing (find ltb id b.scopes) ≡ standing (find ltb id a.scopes)
  pub states :
      (key : SessionKey)
      → present (find session_less key b.states) ≡ present (find session_less key a.states)

pub Follows-refl : (a : FlowAggregator) → Consistent a → Follows a a
Follows-refl a h = record {
  consistent = h;
  limits = refl;
  scopes = λ id. refl;
  states = λ key. refl;
}

pub Follows-trans : (a b c : FlowAggregator) → Follows a b → Follows b c → Follows a c
Follows-trans a b c h k = record {
  consistent = k.consistent;
  limits = ground (arith, h.limits, k.limits);
  scopes = λ id. ground (arith, h.scopes id, k.scopes id);
  states = λ key. ground (arith, h.states key, k.states key);
}

-- The entry at the front moves to the deadline of its session.
requeue-Queues :
    (a : FlowAggregator) (scope : Scope) (at : ℕ) (key : SessionKey)
    (rest : List (Entry × Unit {0})) (s : State)
    → Consistent a
    → find ltb key.interface_id a.scopes ≡ some scope
    → scope.expiry ≡ ((at, key), tt) ∷ rest
    → find session_less key a.states ≡ some s
    → s.scheduled ≡ true
    → s.queued ≡ at
    → Queues (set_slot key (some s.deadline) (slots a.states)) (
        put ltb key.interface_id
          (record scope { expiry = put entry_less (s.deadline, key) tt rest })
          a.scopes)
requeue-Queues a scope at key rest s h f e g n w =
    let id = key.interface_id in
    let was : slots a.states key ≡ some at = ground (arith, g, n, w) in
    let empty : Scope = record scope { expiry = rest } in
    let out = removed-Queues (slots a.states) a.scopes h.queues scope at key f was in
    let taken : erase entry_less (at, key) scope.expiry ≡ rest =
      rw e (erase-head entry_less (at, key) tt rest (entry_less-IsOrder.irreflexive (at, key))) in
    let out' : Queues (set_slot key none (slots a.states)) (put ltb id empty a.scopes) =
      rw taken at out in
    let found = find-put ltb id empty a.scopes (ltb-IsOrder.irreflexive id) in
    let free : set_slot key none (slots a.states) key ≡ none =
      ground (arith, session_less-IsOrder.irreflexive key) in
    let back =
      added-Queues (set_slot key none (slots a.states)) (put ltb id empty a.scopes) out' empty
        s.deadline key found free in
    let scope' : Scope = record scope { expiry = put entry_less (s.deadline, key) tt rest } in
    let once = put-put ltb id empty scope' a.scopes (ltb-IsOrder.irreflexive id) in
    Queues-cong (set_slot key (some s.deadline) (set_slot key none (slots a.states)))
      (set_slot key (some s.deadline) (slots a.states)) (put ltb id scope' a.scopes)
      (λ j. ground arith) (rw once at back)

put-standing :
    (entry : Entry) (entries : List (Entry × Unit {0})) (scope : Scope)
    → standing (some (record scope { expiry = put entry_less entry tt entries })) ≡ 2
unfolding put
put-standing entry [] scope = refl
put-standing entry ((e, x) ∷ entries) scope = ground arith

-- A pass that goes on.
abbrev Passed : FlowAggregator → Pass → Type 0
Passed a (over b) = b ≡ a
Passed a (again b) = Follows a b × (total stale b.states < total stale a.states)

requeue-Follows :
    (a : FlowAggregator) (scope : Scope) (at : ℕ) (key : SessionKey)
    (rest : List (Entry × Unit {0})) (s : State)
    → Consistent a
    → find ltb key.interface_id a.scopes ≡ some scope
    → scope.expiry ≡ ((at, key), tt) ∷ rest
    → find session_less key a.states ≡ some s
    → s.scheduled ≡ true
    → s.queued ≡ at
    → at < s.deadline
    → Passed a (again (requeue a key.interface_id scope key s rest))
requeue-Follows a scope at key rest s h f e g n w l =
    let id = key.interface_id in
    let t : State = record s { queued = s.deadline } in
    let scope' : Scope = record scope { expiry = put entry_less (s.deadline, key) tt rest } in
    let q = requeue-Queues a scope at key rest s h f e g n w in
    let fit = h.fits key s g in
    let fit' : Fits a.limits key t = ground (arith, fit) in
    let q' : Queues (set_slot key (slot_of (some t)) (slots a.states))
        (put ltb id scope' a.scopes) =
      let time : slot_of (some t) ≡ some s.deadline = ground (arith, n) in rw time q in
    let same_time = put-standing (s.deadline, key) rest scope in
    (
      record {
        consistent = put-Consistent a key t (put ltb id scope' a.scopes) h fit' q';
        limits = refl;
        scopes = λ i.
            let p = find-put-at ltb-IsOrder i id scope' a.scopes h.queues.sorted in
            elim (Bool-cases (same ltb i id)) [
              | inl m ↦
                  let d = same→≡ ltb-IsOrder i id m in
                  let f' : find ltb i a.scopes ≡ some scope = rw d f in
                  ground (arith, p, m, f', e, same_time)
              | inr m ↦ ground (arith, p, m)
            ];
        states = λ j.
            let p = find-put-at session_less-IsOrder j key t a.states h.sorted in
            elim (Bool-cases (same session_less j key)) [
              | inl m ↦
                  let d = same→≡ session_less-IsOrder j key m in
                  let g' : find session_less j a.states ≡ some s = rw d g in
                  ground (arith, p, m, g')
              | inr m ↦ ground (arith, p, m)
            ];
      },
      ground (arith, w, l, total-put session_less key stale s t a.states g),
    )

first-Safe :
    (a : FlowAggregator) (id : ℕ) (scope : Scope) (expiry : List (Entry × Unit {0}))
    → Consistent a
    → find ltb id a.scopes ≡ some scope
    → scope.expiry ≡ expiry
    → Safe (Passed a) (refresh_first a id scope expiry)
unfolding refresh_first refresh_entry
first-Safe a id scope [] h f e = refl
first-Safe a id scope (((at, key), _) ∷ rest) h f e =
    let (s, g, n, w, i) = first_found a id scope at key rest h f e in
    let fit = h.fits key s g in
    elim (Bool-cases (s.deadline == at)) [
      | inl m ↦
          Safe-ok (Passed a) (refresh_first a id scope (((at, key), tt) ∷ rest)) (over a)
            (ground (arith, g, n, w, m)) refl
      | inr m ↦
          let l : at < s.deadline = ground (arith, fit, n, w, m) in
          let r =
            requeue-Follows a scope at key rest s h
              (subst (λ x. find ltb x a.scopes ≡ some scope) (sym i) f) e g n w l in
          Safe-ok (Passed a) (refresh_first a id scope (((at, key), tt) ∷ rest))
            (again (requeue a id scope key s rest)) (ground (arith, g, n, w, m, l))
            (subst (λ x. Passed a (again (requeue a x scope key s rest))) i r)
    ]

pass-Safe :
    (a : FlowAggregator) (id : ℕ) (scope : Scope)
    → Consistent a
    → find ltb id a.scopes ≡ some scope
    → Safe (Passed a) (refresh_pass id a)
unfolding refresh_pass
pass-Safe a id scope h f = rw f (first-Safe a id scope scope.expiry h f refl)

pub known_standing :
    (a b : FlowAggregator) (id : ℕ) (scope : Scope)
    → Follows a b
    → find ltb id a.scopes ≡ some scope
    → (scope' : Scope) × (find ltb id b.scopes ≡ some scope')
known_standing a b id scope h f = elim (Option-cases (find ltb id b.scopes)) [
  | inl n ↦ absurd (ground (arith, f, n, h.scopes id))
  | inr (scope', n) ↦ (scope', n)
]

loop-Safe :
    (fuel id : ℕ) (a : FlowAggregator) (scope : Scope)
    → Consistent a
    → find ltb id a.scopes ≡ some scope
    → total stale a.states < fuel
    → Safe (Follows a) (refresh_loop fuel id a)
unfolding refresh_loop
loop-Safe zero id a scope h f l = absurd (omega arith)
loop-Safe (suc fuel) id a scope h f l =
    Safe->>= (Passed a) (Follows a) (refresh_pass id a)
      (λ pass. elim pass [ over b ↦ ok b | again b ↦ refresh_loop fuel id b ])
      (pass-Safe a id scope h f)
      (λ pass.
        elim pass
          as (λ k.
            Passed a k
            → Safe (Follows a) (elim k [ over b ↦ ok b | again b ↦ refresh_loop fuel id b ])) [
              | over b ↦ λ p. rw p (Follows-refl a h)
              | again b ↦ λ (k, less).
                  let (scope', f') = known_standing a b id scope k f in
                  let rest = loop-Safe fuel id b scope' k.consistent f' (omega (arith, l, less)) in
                  Safe-mono (Follows b) (Follows a) (refresh_loop fuel id b) rest
                    (λ d m. Follows-trans a b d k m)
            ])

stale-le : (states : List (SessionKey × State)) → total stale states ≤ length states
stale-le [] = omega arith
stale-le ((k, s) ∷ states) = ground (arith, stale-le states)

pub refresh-Safe :
    (id : ℕ) (a : FlowAggregator) (scope : Scope)
    → Consistent a
    → find ltb id a.scopes ≡ some scope
    → Safe (Follows a) (refresh id a)
unfolding refresh
refresh-Safe id a scope h f =
    loop-Safe (suc (length a.states)) id a scope h f (omega (arith, stale-le a.states))
