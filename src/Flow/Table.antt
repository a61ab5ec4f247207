-- ===== src/Flow/Table.antt =====
-- The tables of `FlowAggregator`, and `Unschedule`, `Schedule`, `Refresh`, `Evictable` and `Emit` of
-- src/flow_aggregator.cpp. A reference to an element of a table is its key, and what is changed
-- through the reference is put back under it.
pub mod Kept
pub mod Queues
pub mod Consistent
pub mod Safety
use packet_quapture.Base.{
  ℕ, zero, suc, ◌+◌, ◌-◌, ◌^◌, Bool, true, false, not, ◌&&◌, ◌||◌, List, [], ◌∷◌, ◌==◌, ltb,
  if◌then◌else◌, Option, none, some, length,
}
use packet_quapture.Base.Maps.{find, put, erase}
use packet_quapture.Tcp.Key.{tie}
use packet_quapture.Flow.Types.{
  SessionKey, FlowInput, no_input, FinalizedBy, FlowSummary, FlowLimits, State, Result, ok, throws,
  invalid_argument, out_of_range, failed_assertion, require, found, ◌>>=◌, ◌>>◌,
}
use packet_quapture.Flow.Key.{session_less}

-- A session in the queue of its interface: where it is queued.
abbrev pub Entry : Type 0
Entry = ℕ × SessionKey

abbrev pub entry_less : Entry → Entry → Bool
entry_less (a, k) (b, l) = tie (ltb a b) (ltb b a) (session_less k l)

pub record Scope : Type 0 where
  pub has_watermark : Bool
  pub watermark : ℕ
  pub expiry : List (Entry × Unit {0})

-- `Scope {}`
abbrev pub no_scope : Scope
no_scope = record { has_watermark = false; watermark = 2 ^ 63; expiry = [] }

pub record FlowAggregator : Type 0 where
  pub limits : FlowLimits
  pub states : List (SessionKey × State)
  pub scopes : List (ℕ × Scope)
  pub pending_input : FlowInput
  pub pending : Bool
  pub section : ℕ
  pub final_section : ℕ
  pub have_section : Bool
  pub prepared : Bool
  pub late : Bool
  pub finishing : Bool

-- The constructor.
unfoldable pub create : FlowLimits → Result FlowAggregator
create limits =
    if ltb limits.tcp_idle_us (2 ^ 63)
      || ltb limits.udp_idle_us (2 ^ 63)
      || limits.max_flows == 0
      || limits.max_scopes == 0
    then throws invalid_argument
    else ok (record {
      limits = limits;
      states = [];
      scopes = [];
      pending_input = no_input;
      pending = false;
      section = 0;
      final_section = 0;
      have_section = false;
      prepared = false;
      late = false;
      finishing = false;
    })

abbrev pub active_count : FlowAggregator → ℕ
active_count a = length a.states

unfoldable pub expiry_sum : List (ℕ × Scope) → ℕ
expiry_sum [] = 0
expiry_sum ((_, scope) ∷ scopes) = length scope.expiry + expiry_sum scopes

unfoldable pub expiry_count : FlowAggregator → ℕ
expiry_count a = expiry_sum a.scopes

-- `scopes.at`
abbrev pub scope_at : FlowAggregator → ℕ → Result Scope
scope_at a id = found out_of_range (find ltb id a.scopes)

abbrev pub with_expiry : FlowAggregator → ℕ → Scope → List (Entry × Unit {0}) → FlowAggregator
with_expiry a id scope expiry = record a {
  scopes = put ltb id (record scope { expiry = expiry }) a.scopes;
}

unfoldable pub unschedule : FlowAggregator → State → Result (FlowAggregator × State)
unschedule a state =
    let id = state.row.key.interface_id in
    let entry : Entry = (state.queued, state.row.key) in
    let removed : Result (FlowAggregator × State) = (do
      scope ← scope_at a id
      _ ← found failed_assertion (find entry_less entry scope.expiry)
      ok (
        with_expiry a id scope (erase entry_less entry scope.expiry),
        record state { scheduled = false },
      )) in
    if state.scheduled then removed else ok (a, state)

-- The idle timeout of a session; the constructor has seen that it is not negative.
abbrev pub timeout_of : FlowLimits → SessionKey → ℕ
timeout_of limits key =
    (if key.protocol == 6 then limits.tcp_idle_us else limits.udp_idle_us) - 2 ^ 63

abbrev pub never_expires : ℕ → FlowSummary → Bool
never_expires timeout row =
    timeout == 0
    || not (row.missing_timestamps == 0)
    || not row.has_timestamp
    || ltb (2 ^ 64 - 1 - timeout) row.last_timestamp

-- The part of `Schedule` that sets the deadline.
unfoldable pub postpone : FlowAggregator → State → ℕ → Result (FlowAggregator × State)
postpone a state deadline =
    let id = state.row.key.interface_id in
    let moved : Result (FlowAggregator × State) = (do
      require failed_assertion (not (ltb deadline state.deadline))
      ok (a, record state { deadline = deadline })) in
    let queued : Result (FlowAggregator × State) = (do
      scope ← scope_at a id
      ok (
        with_expiry a id scope (put entry_less (deadline, state.row.key) tt scope.expiry),
        record state { deadline = deadline; queued = deadline; scheduled = true },
      )) in
    if state.scheduled then moved else queued

unfoldable pub schedule : FlowAggregator → State → Result (FlowAggregator × State)
schedule a state =
    let timeout = timeout_of a.limits state.row.key in
    if never_expires timeout state.row
    then unschedule a state
    else postpone a state (state.row.last_timestamp + timeout)

-- How a pass of the loop in `Refresh` ends.
pub data Pass : Type 0 where
  over : FlowAggregator → Pass
  again : FlowAggregator → Pass

-- The entry moves to the deadline of its session.
abbrev pub requeue :
    FlowAggregator → ℕ → Scope → SessionKey → State → List (Entry × Unit {0}) → FlowAggregator
requeue a id scope key state rest = record a {
  scopes =
      put ltb id (record scope { expiry = put entry_less (state.deadline, key) tt rest }) a.scopes;
  states = put session_less key (record state { queued = state.deadline }) a.states;
}

-- The body of the loop, at the first entry of the queue.
unfoldable pub refresh_entry :
    FlowAggregator → ℕ → Scope → Entry → List (Entry × Unit {0}) → Result Pass
refresh_entry a id scope (at, key) rest =
    found failed_assertion (find session_less key a.states) >>= λ state.
    require failed_assertion (state.scheduled && state.queued == at)
    >> (if state.deadline == at
        then ok (over a)
        else require failed_assertion (ltb at state.deadline)
          >> ok (again (requeue a id scope key state rest)))

unfoldable pub refresh_first : FlowAggregator → ℕ → Scope → List (Entry × Unit {0}) → Result Pass
refresh_first a id scope [] = ok (over a)
refresh_first a id scope ((entry, _) ∷ rest) = refresh_entry a id scope entry rest

unfoldable pub refresh_pass : ℕ → FlowAggregator → Result Pass
refresh_pass id a = do scope ← scope_at a id; refresh_first a id scope scope.expiry

unfoldable pub refresh_loop : ℕ → ℕ → FlowAggregator → Result FlowAggregator
refresh_loop zero id a = throws failed_assertion
refresh_loop (suc fuel) id a = do
  pass ← refresh_pass id a
  elim pass [ over a' ↦ ok a' | again a' ↦ refresh_loop fuel id a' ]

-- Each session is queued again at most once.
unfoldable pub refresh : ℕ → FlowAggregator → Result FlowAggregator
refresh id a = refresh_loop (suc (length a.states)) id a

abbrev pub first_entry : List (Entry × Unit {0}) → Option Entry
first_entry [] = none
first_entry ((entry, _) ∷ _) = some entry

-- The sooner of the entry found so far and the first of one more queue.
abbrev pub sooner : Option Entry → Option Entry → Option Entry
sooner soonest none = soonest
sooner none (some entry) = some entry
sooner (some soonest) (some entry) = if entry_less entry soonest then some entry else some soonest

-- The loop over all scopes.
unfoldable pub soonest_loop :
    List (ℕ × Scope) → FlowAggregator → Option Entry → Result (FlowAggregator × Option Entry)
soonest_loop [] a soonest = ok (a, soonest)
soonest_loop ((id, _) ∷ scopes) a soonest = do
  a' ← refresh id a
  scope ← scope_at a' id
  soonest_loop scopes a' (sooner soonest (first_entry scope.expiry))

-- The entry to give up: that of the packet's interface, where one is queued there.
unfoldable pub soonest_entry : ℕ → FlowAggregator → Result (FlowAggregator × Option Entry)
soonest_entry id a =
    let all = soonest_loop a.scopes a none in
    elim (find ltb id a.scopes) [
      | none ↦ all
      | some scope ↦ elim scope.expiry [
        | [] ↦ all
        | _ ∷ _ ↦ do
          a' ← refresh id a
          scope' ← scope_at a' id
          entry ← found out_of_range (first_entry scope'.expiry)
          ok (a', some entry)
      ]
    ]

-- The first session in the order of the keys.
abbrev pub first_state : List (SessionKey × State) → Result (SessionKey × State)
first_state [] = throws failed_assertion
first_state (entry ∷ _) = ok entry

unfoldable pub evicted : FlowAggregator → Option Entry → Result (SessionKey × State)
evicted a none = first_state a.states
evicted a (some (_, key)) = do
  state ← found failed_assertion (find session_less key a.states)
  ok (key, state)

unfoldable pub evictable : ℕ → FlowAggregator → Result (FlowAggregator × SessionKey × State)
evictable id a = do
  _ ← first_state a.states
  (a', soonest) ← soonest_entry id a
  (key, state) ← evicted a' soonest
  ok (a', key, state)

unfoldable pub emit :
    FlowAggregator → SessionKey → State → FinalizedBy → Result (Option FlowSummary × FlowAggregator)
emit a key state reason = do
  (a', state') ← unschedule a state
  ok (
    some (record state'.row { finalized_by = reason }),
    record a' { states = erase session_less key a'.states },
  )
