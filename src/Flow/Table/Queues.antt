-- ===== src/Flow/Table/Queues.antt =====
-- The queues of src/flow_aggregator.cpp against what they stand for: where each session is queued.
use packet_quapture.Base.{
  ℕ, ◌≡◌, refl, Bool, true, false, ◌&&◌, List, ltb, ◌==◌, if◌then◌else◌, Option, none, some, arith,
  Bool-cases, inl, inr,
}
use packet_quapture.Base.Maps.{find, put, erase, AllValues, find-AllValues, put-AllValues}
use packet_quapture.Base.Maps.Sorted.{Sorted, find-put-at, find-erase-at, put-Sorted, erase-Sorted}
use packet_quapture.Base.Orders.{same, same→≡, ltb-IsOrder}
use packet_quapture.Flow.Types.{SessionKey}
use packet_quapture.Flow.Key.{session_less}
use packet_quapture.Flow.Key.Ordered.{session_less-IsOrder, entry_less-IsOrder}
use packet_quapture.Flow.Table.{Entry, entry_less, Scope}

abbrev pub holds : Option (Unit {0}) → Bool
holds none = false
holds (some _) = true

abbrev pub has_entry : ℕ → SessionKey → Option Scope → Bool
has_entry t key none = false
has_entry t key (some scope) = holds (find entry_less (t, key) scope.expiry)

abbrev pub is_queued : List (ℕ × Scope) → ℕ → ℕ → SessionKey → Bool
is_queued scopes id t key = has_entry t key (find ltb id scopes)

abbrev pub is_at : Option ℕ → ℕ → Bool
is_at none t = false
is_at (some u) t = u == t

abbrev pub OrderedQueue : Scope → Type 0
OrderedQueue scope = Sorted entry_less scope.expiry

-- The queues hold exactly the sessions that `slots` has a time for, each in the queue of its
-- interface at that time.
pub record Queues (slots : SessionKey → Option ℕ) (scopes : List (ℕ × Scope)) : Type 0 where
  pub sorted : Sorted ltb scopes
  pub ordered : AllValues OrderedQueue scopes
  pub agrees :
      (id t : ℕ) (key : SessionKey)
      → is_queued scopes id t key ≡ (key.interface_id == id && is_at (slots key) t)

-- The times of all sessions, with another one for the key.
abbrev pub set_slot : SessionKey → Option ℕ → (SessionKey → Option ℕ) → SessionKey → Option ℕ
set_slot key slot slots j = if same session_less j key then slot else slots j

module _ (slots : SessionKey → Option ℕ) (scopes : List (ℕ × Scope)) (q : Queues slots scopes)
    (scope : Scope) (t : ℕ) (key : SessionKey)
    (at : find ltb key.interface_id scopes ≡ some scope) where
  ordered-here : OrderedQueue scope
  ordered-here = find-AllValues ltb key.interface_id OrderedQueue scope scopes q.ordered at

  -- The key's entry is put in, or taken out where `there` is false.
  changed-Queues :
      (there : Bool) (expiry : List (Entry × Unit {0}))
      → Sorted entry_less expiry
      → ((u : ℕ) (j : SessionKey)
          → holds (find entry_less (u, j) expiry) ≡ (
              if same entry_less (u, j) (t, key)
              then there
              else holds (find entry_less (u, j) scope.expiry)))
      → slots key ≡ (if there then none else some t)
      → Queues
          (set_slot key (if there then some t else none) slots)
          (put ltb key.interface_id (record scope { expiry = expiry }) scopes)
  changed-Queues there expiry sorted changes was =
      let scope' : Scope = record scope { expiry = expiry } in
      record {
        sorted = put-Sorted ltb-IsOrder key.interface_id scope' scopes q.sorted;
        ordered = put-AllValues ltb key.interface_id OrderedQueue scope' scopes q.ordered sorted;
        agrees = λ id u j.
            let s = find-put-at ltb-IsOrder id key.interface_id scope' scopes q.sorted in
            let e = changes u j in
            let old = q.agrees id u j in
            elim (Bool-cases (same session_less j key)) [
              | inl r ↦
                  let d = same→≡ session_less-IsOrder j key r in
                  let f : slots j ≡ (if there then none else some t) = rw d was in
                  let i : j.interface_id ≡ key.interface_id = rw d refl in
                  elim (Bool-cases (same ltb id key.interface_id)) [
                    | inl m ↦
                        let w = same→≡ ltb-IsOrder id key.interface_id m in
                        let at' : find ltb id scopes ≡ some scope = rw w at in
                        ground (arith, s, e, old, r, f, i, m, w, at')
                    | inr m ↦ ground (arith, s, old, r, f, i, m)
                  ]
              | inr r ↦ elim (Bool-cases (same ltb id key.interface_id)) [
                | inl m ↦
                    let w = same→≡ ltb-IsOrder id key.interface_id m in
                    let at' : find ltb id scopes ≡ some scope = rw w at in
                    ground (arith, s, e, old, r, m, w, at')
                | inr m ↦ ground (arith, s, old, r, m)
              ]
            ];
      }

  pub added-Queues :
      slots key ≡ none
      → Queues (set_slot key (some t) slots) (
          put ltb key.interface_id
            (record scope { expiry = put entry_less (t, key) tt scope.expiry })
            scopes)
  added-Queues =
      changed-Queues true (put entry_less (t, key) tt scope.expiry)
        (put-Sorted entry_less-IsOrder (t, key) tt scope.expiry ordered-here)
        (λ u j.
          let e = find-put-at entry_less-IsOrder (u, j) (t, key) tt scope.expiry ordered-here in
          ground (arith, e))

  pub removed-Queues :
      slots key ≡ some t
      → Queues (set_slot key none slots) (
          put ltb key.interface_id
            (record scope { expiry = erase entry_less (t, key) scope.expiry })
            scopes)
  removed-Queues =
      changed-Queues false (erase entry_less (t, key) scope.expiry)
        (erase-Sorted entry_less-IsOrder (t, key) scope.expiry ordered-here)
        (λ u j.
          let e = find-erase-at entry_less-IsOrder (u, j) (t, key) scope.expiry ordered-here in
          ground (arith, e))

-- The times that sessions are queued at matter only where they are asked for.
pub Queues-cong :
    (slots slots' : SessionKey → Option ℕ) (scopes : List (ℕ × Scope))
    → ((key : SessionKey) → slots' key ≡ slots key)
    → Queues slots scopes
    → Queues slots' scopes
Queues-cong slots slots' scopes e q = record {
  sorted = q.sorted;
  ordered = q.ordered;
  agrees = λ id t key. rw (e key) (q.agrees id t key);
}

-- A scope whose queue holds what it held.
pub clock-Queues :
    (slots : SessionKey → Option ℕ) (scopes : List (ℕ × Scope)) (id : ℕ) (scope : Scope)
    → Queues slots scopes
    → OrderedQueue scope
    → ((t : ℕ) (key : SessionKey) → has_entry t key (some scope) ≡ is_queued scopes id t key)
    → Queues slots (put ltb id scope scopes)
clock-Queues slots scopes id scope q o e = record {
  sorted = put-Sorted ltb-IsOrder id scope scopes q.sorted;
  ordered = put-AllValues ltb id OrderedQueue scope scopes q.ordered o;
  agrees = λ i t key.
      let p = find-put-at ltb-IsOrder i id scope scopes q.sorted in
      let old = q.agrees i t key in
      elim (Bool-cases (same ltb i id)) [
        | inl m ↦
            let d = same→≡ ltb-IsOrder i id m in
            let f : is_queued scopes i t key ≡ has_entry t key (some scope) =
              rw (d, e t key) refl in
            ground (arith, p, m, old, f)
        | inr m ↦ ground (arith, p, m, old)
      ];
}
