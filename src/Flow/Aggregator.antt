-- ===== src/Flow/Aggregator.antt =====
-- `Push`, `Finish` and `Next` of src/flow_aggregator.cpp.
pub mod Steps
pub mod Moved
pub mod Sound
pub mod Safety
use packet_quapture.Base.{
  ℕ, Bool, true, false, not, ◌&&◌, ◌||◌, List, [], ◌∷◌, ◌==◌, ltb, leb, if◌then◌else◌, Option, none,
  some, length, max,
}
use packet_quapture.Base.Maps.{find, put, emplace}
use packet_quapture.Packet.Types.{DecodedPacket}
use packet_quapture.Tcp.Reassembler.Packets.{flag, tcp_syn, tcp_ack}
use packet_quapture.Flow.Types.{
  SessionKey, FlowInput, FinalizedBy, FlowSummary, State, Result, ok, throws, logic_error,
  invalid_argument, runtime_error, out_of_range, failed_assertion, require, found, eof,
  section_boundary, idle_timeout, tuple_reuse, limit, reset, ◌>>=◌, ◌>>◌,
}
use packet_quapture.Flow.Key.{session_less, make_key, travels_from_low}
use packet_quapture.Flow.Account.{account, reused, new_state}
use packet_quapture.Flow.Table.{
  FlowAggregator, Scope, no_scope, Entry, scope_at, refresh, schedule, evictable, emit, first_state,
}

unfoldable pub push : FlowInput → FlowAggregator → Result FlowAggregator
push input a =
    if a.pending || a.finishing
    then throws logic_error
    else if input.stamp.number == 0
    then throws invalid_argument
    else ok (record a { pending_input = input; pending = true; prepared = false })

unfoldable pub finish : ℕ → FlowAggregator → Result FlowAggregator
finish final_section a =
    if a.pending
    then throws logic_error
    else ok (record a { finishing = true; final_section = final_section })

-- A scope's clock at a record.
abbrev pub clock_scope : FlowInput → Scope → Scope
clock_scope input scope =
    let now = input.stamp.timestamp in
    if input.stamp.has_timestamp
    then record scope {
      watermark = if scope.has_watermark then max scope.watermark now else now;
      has_watermark = true;
    }
    else scope

unfoldable pub prepare_scope : FlowAggregator → Scope → FlowAggregator
prepare_scope a scope =
    let input = a.pending_input in
    record a {
      late =
          input.stamp.has_timestamp
          && scope.has_watermark
          && ltb input.stamp.timestamp scope.watermark;
      scopes = put ltb input.interface_id (clock_scope input scope) a.scopes;
      prepared = true;
    }

unfoldable pub prepare : FlowAggregator → Result FlowAggregator
prepare a = elim (find ltb a.pending_input.interface_id a.scopes) [
  | none ↦
      if leb a.limits.max_scopes (length a.scopes)
      then throws runtime_error
      else ok (prepare_scope a no_scope)
  | some scope ↦ ok (prepare_scope a scope)
]

-- What a call of `Next` gives: the row, where it returns true, and the aggregator behind it.
abbrev pub Output : Type 0
Output = Option FlowSummary × FlowAggregator

unfoldable pub is_eligible : DecodedPacket → Bool
is_eligible p =
    p.has_transport && (p.tcp || p.udp) && p.ip_fragment_offset == 0 && not p.ip_more_fragments

abbrev pub is_syn : DecodedPacket → Bool
is_syn p = p.tcp && flag p.tcp_flags tcp_syn && not (flag p.tcp_flags tcp_ack)

-- The pending packet on its session, which is in the table or was opened for it.
unfoldable pub account_packet : FlowAggregator → SessionKey → State → Bool → Result Output
account_packet a key state from_low = do
  counted ← account a.pending_input a.late state from_low
  (a', timed) ← schedule a counted
  let a'' = record a' { states = put session_less key timed a'.states; pending = false }
  if timed.row.reset_seen then emit a'' key timed reset else ok (none, a'')

unfoldable pub evict : FlowAggregator → Result Output
evict a = do (a', key, state) ← evictable a.pending_input.interface_id a; emit a' key state limit

-- The pending packet, which is eligible, with what the table has under its key.
unfoldable pub next_session : FlowAggregator → SessionKey → Bool → Option State → Result Output
next_session a key from_low (some state) =
    if is_syn a.pending_input.packet && reused a.pending_input.packet state from_low
    then emit a key state tuple_reuse
    else account_packet a key state from_low
next_session a key from_low none =
    if leb a.limits.max_flows (length a.states)
    then evict a
    else account_packet a key (new_state a.section a.pending_input key from_low) from_low

unfoldable pub next_packet : FlowAggregator → Result Output
next_packet a =
    let input = a.pending_input in
    let key = make_key input in
    let session =
      next_session a key (travels_from_low input.packet) (find session_less key a.states) in
    if is_eligible input.packet then session else ok (none, record a { pending = false })

-- Whether the first entry of the queue is behind the clock: the key of its session.
abbrev pub overdue : Scope → List (Entry × Unit {0}) → Option SessionKey
overdue scope [] = none
overdue scope (((at, key), _) ∷ _) =
    if scope.has_watermark && ltb at scope.watermark then some key else none

unfoldable pub next_expired : FlowAggregator → Option SessionKey → Result Output
next_expired a none = next_packet a
next_expired a (some key) = do
  state ← found failed_assertion (find session_less key a.states)
  emit a key state idle_timeout

-- The record's clock, and the sessions that it finds idle.
unfoldable pub next_record : FlowAggregator → Result Output
next_record a = do
  ready ← if a.prepared then ok a else prepare a
  _ ← scope_at ready a.pending_input.interface_id
  fresh ← refresh a.pending_input.interface_id ready
  scope ← scope_at fresh a.pending_input.interface_id
  next_expired fresh (overdue scope scope.expiry)

abbrev pub enter_section : FlowAggregator → FlowAggregator
enter_section a = record a { section = a.pending_input.section; have_section = true }

-- A record of another section finds an empty table or empties it.
unfoldable pub next_section : FlowAggregator → List (SessionKey × State) → Result Output
next_section a [] = next_record (enter_section (record a { scopes = [] }))
next_section a ((key, state) ∷ _) = emit a key state section_boundary

unfoldable pub next_pending : FlowAggregator → Result Output
next_pending a =
    if a.have_section && not (a.section == a.pending_input.section)
    then next_section a a.states
    else next_record (enter_section a)

unfoldable pub next_final : FlowAggregator → List (SessionKey × State) → Result Output
next_final a [] = ok (none, record a { scopes = [] })
next_final a ((key, state) ∷ _) =
    emit a key state (if a.final_section == a.section then eof else section_boundary)

unfoldable pub next : FlowAggregator → Result Output
next a =
    if a.finishing
    then next_final a a.states
    else if a.pending
    then next_pending a
    else ok (none, a)
