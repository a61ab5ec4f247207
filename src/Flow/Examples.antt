-- ===== src/Flow/Examples.antt =====
-- A small capture through the flow table.
use packet_quapture.Base.{
  ℕ, ◌^◌, ◌+◌, suc, not, ◌≢◌, ◌⊎◌, arith, ltb, Bool, true, false, List, [], ◌∷◌, ◌≡◌, refl, some,
  none, length,
}
use packet_quapture.Packet.Types.{DecodedPacket, no_packet}
use packet_quapture.Flow.Types.{
  FlowInput, FlowLimits, FlowSummary, no_input, Result, ok, throws, runtime_error, ◌>>=◌,
}
use packet_quapture.Flow.Key.Symmetric.{reversed, make_key_symmetric}
use packet_quapture.Flow.Scan.{Scan, complete, threw, unfinished, scan_file, scan_loop, turn}
use packet_quapture.Flow.Scan.Complete.{scan_file_count, scan_file_ends, rows_count, input_count}
use packet_quapture.Flow.Scan.Failures.{scan_file_allowed}
use packet_quapture.Flow.Counters.{of_captured}
use packet_quapture.Flow.Table.Consistent.{is_allowed, Safe, Safe-result}
use packet_quapture.Flow.Table.Safety.Soonest.{IsSoonest, refresh-IsSoonest}
use packet_quapture.Flow.Aggregator.Sound.{Sound, SoundOutput}
use packet_quapture.Flow.Aggregator.Safety.{next-Sound, create-Sound, push-Sound}
use packet_quapture.Base.Maps.{find, put, erase}
use packet_quapture.Tcp.Key.{list_less}
use packet_quapture.Flow.Key.{
  src_endpoint, dst_endpoint, travels_from_low, endpoint_less, make_key, endpoint_same,
  session_less,
}
use packet_quapture.Flow.Account.{
  account, count_side, new_state, count_packet, add_checked, clock_row, shake, flag_state, reused,
}
use packet_quapture.Flow.Table.{
  FlowAggregator, Scope, no_scope, create, refresh, refresh_loop, refresh_pass, refresh_first,
  refresh_entry, schedule, postpone, emit, evictable, evicted, soonest_entry, soonest_loop,
  unschedule,
}
use packet_quapture.Flow.Aggregator.{
  push, next, finish, Output, next_pending, next_record, prepare, prepare_scope, next_expired,
  next_packet, is_eligible, next_session, account_packet, evict, next_final, next_section,
}

abbrev limits : FlowLimits
limits = record { tcp_idle_us = 2 ^ 63 + 1000; udp_idle_us = 2 ^ 63; max_flows = 2; max_scopes = 2 }

abbrev packet : ℕ → ℕ → ℕ → DecodedPacket
packet src dst flags = record no_packet {
  has_network = true;
  has_transport = true;
  tcp = true;
  ip_version = 4;
  ip_protocol = 6;
  src_ip = 10 ∷ 0 ∷ 0 ∷ 1 ∷ [];
  dst_ip = 10 ∷ 0 ∷ 0 ∷ 2 ∷ [];
  src_port = src;
  dst_port = dst;
  tcp_flags = flags;
  payload_length = 4;
}

abbrev input : ℕ → DecodedPacket → ℕ → FlowInput
input number p at = record {
  section = 0;
  interface_id = 0;
  captured_length = 58;
  original_length = 60;
  stamp = record { number = number; has_timestamp = true; timestamp = 2 ^ 63 + at };
  packet = p;
}

-- The capture is pushed one record at a time, each behind one call of `Next`.
fed : FlowAggregator → List FlowInput → Result FlowAggregator
fed a [] = ok a
fed a (i ∷ inputs) = do b ← push i a; (o, c) ← next b; fed c inputs

abbrev watched : Result FlowAggregator → Result (ℕ × Bool)
watched r = r >>= λ a. ok (length a.states, a.pending)

abbrev begun : Result FlowAggregator
begun = create limits

-- A SYN and its answer are one session, and a third packet on other ports another.
two_sessions :
    watched (
      begun >>= λ a. fed a (
        input 1 (packet 9 80 2) 5
        ∷ input 2 (reversed (packet 9 80 18)) 6
        ∷ input 3 (packet 10 80 2) 7
        ∷ []))
    ≡ ok (2, false)
unfolding create fed push next next_pending next_record prepare find prepare_scope put erase refresh
    refresh_loop refresh_pass refresh_first refresh_entry next_expired next_packet is_eligible
    next_session account_packet account count_side travels_from_low endpoint_less list_less
    new_state count_packet add_checked clock_row schedule shake flag_state make_key postpone reused
    evict endpoint_same session_less emit evictable evicted soonest_entry soonest_loop unschedule
    next_final next_section
two_sessions = refl

-- Three packets of two sessions, of which the second is ended by a reset.
abbrev capture : List FlowInput
capture =
    input 1 (packet 9 80 2) 5
    ∷ input 2 (packet 10 80 2) 6
    ∷ input 3 (reversed (packet 10 80 20)) 7
    ∷ []

abbrev rows_of : Scan → List FlowSummary
rows_of (complete found) = found
rows_of _ = []

capture_complete : scan_file limits 0 capture ≡ complete (rows_of (scan_file limits 0 capture))
unfolding create push next next_pending next_record prepare find prepare_scope put erase refresh
    refresh_loop refresh_pass refresh_first refresh_entry next_expired next_packet is_eligible
    next_session account_packet account count_side travels_from_low endpoint_less list_less
    new_state count_packet add_checked clock_row schedule shake flag_state make_key postpone reused
    evict endpoint_same session_less emit evictable evicted soonest_entry soonest_loop unschedule
    next_final next_section scan_file scan_loop turn finish
capture_complete = refl

scan_file_count_example :
    rows_count of_captured (rows_of (scan_file limits 0 capture)) ≡ input_count of_captured capture
scan_file_count_example =
    scan_file_count of_captured limits 0 capture (rows_of (scan_file limits 0 capture))
      capture_complete

counted_capture : input_count of_captured capture ≡ 174
unfolding input_count is_eligible
counted_capture = refl

scan_file_ends_example : scan_file limits 0 capture ≢ unfinished
scan_file_ends_example = scan_file_ends limits 0 capture

abbrev on_interface : ℕ → FlowInput
on_interface id = record (input (id + 1) (packet 9 80 2) 5) { interface_id = id }

-- Three interfaces, of which two are allowed.
abbrev crowded : List FlowInput
crowded = on_interface 0 ∷ on_interface 1 ∷ on_interface 2 ∷ []

crowded_throws : scan_file limits 0 crowded ≡ threw runtime_error
unfolding create push next next_pending next_record prepare find prepare_scope put erase refresh
    refresh_loop refresh_pass refresh_first refresh_entry next_expired next_packet is_eligible
    next_session account_packet account count_side travels_from_low endpoint_less list_less
    new_state count_packet add_checked clock_row schedule shake flag_state make_key postpone reused
    evict endpoint_same session_less emit evictable evicted soonest_entry soonest_loop unschedule
    next_final next_section scan_file scan_loop turn finish
crowded_throws = refl

abbrev start : FlowAggregator
start = record {
  limits = limits;
  states = [];
  scopes = [];
  pending_input = no_input;
  pending = false;
  section = 0;
  final_section = 0;
  have_section = false;
  prepared = false;
  late = false;
  finishing = false;
}

starts : create limits ≡ ok start
unfolding create
starts = refl

one_or_more : (n : ℕ) → suc n ≢ 0
one_or_more n e = ground (arith, e)

scan_file_allowed_example : is_allowed runtime_error ≡ true
scan_file_allowed_example =
    scan_file_allowed limits 0 crowded start runtime_error starts
      (one_or_more 0, (one_or_more 1, (one_or_more 2, tt))) crowded_throws

abbrev pushed : FlowInput → FlowAggregator → FlowAggregator
pushed i a = record a { pending_input = i; pending = true; prepared = false }

first_pushed :
    push (input 1 (packet 9 80 2) 5) start ≡ ok (pushed (input 1 (packet 9 80 2) 5) start)
unfolding push
first_pushed = refl

one-Sound : Sound (pushed (input 1 (packet 9 80 2) 5) start)
one-Sound =
    push-Sound (input 1 (packet 9 80 2) 5) start (pushed (input 1 (packet 9 80 2) 5) start)
      (create-Sound limits start starts) first_pushed

next-Sound_example : Safe SoundOutput (next (pushed (input 1 (packet 9 80 2) 5) start))
next-Sound_example =
    next-Sound (pushed (input 1 (packet 9 80 2) 5) start) one-Sound
      (λ e. absurd (ground (arith, e)))

make_key_symmetric_example :
    (make_key (input 1 (reversed (packet 9 80 2)) 5) ≡ make_key (input 1 (packet 9 80 2) 5))
    × ((src_endpoint (packet 9 80 2) ≡ dst_endpoint (packet 9 80 2))
        ⊎ (travels_from_low (reversed (packet 9 80 2)) ≡ not (travels_from_low (packet 9 80 2))))
make_key_symmetric_example = make_key_symmetric (input 1 (packet 9 80 2) 5)

abbrev behind : Result Output → FlowAggregator
behind (ok (_, a)) = a
behind (throws _) = start

abbrev one : FlowAggregator
one = pushed (input 1 (packet 9 80 2) 5) start

-- A later packet of the session moves its deadline on, and not its entry.
abbrev two : FlowAggregator
two = pushed (input 2 (packet 9 80 16) 8) (behind (next one))

abbrev stale : FlowAggregator
stale = behind (next two)

one_counted : next one ≡ ok (none, behind (next one))
unfolding create push next next_pending next_record prepare find prepare_scope put erase refresh
    refresh_loop refresh_pass refresh_first refresh_entry next_expired next_packet is_eligible
    next_session account_packet account count_side travels_from_low endpoint_less list_less
    new_state count_packet add_checked clock_row schedule shake flag_state make_key postpone reused
    evict endpoint_same session_less emit evictable evicted soonest_entry soonest_loop unschedule
    next_final next_section
one_counted = refl

two_counted : next two ≡ ok (none, stale)
unfolding create push next next_pending next_record prepare find prepare_scope put erase refresh
    refresh_loop refresh_pass refresh_first refresh_entry next_expired next_packet is_eligible
    next_session account_packet account count_side travels_from_low endpoint_less list_less
    new_state count_packet add_checked clock_row schedule shake flag_state make_key postpone reused
    evict endpoint_same session_less emit evictable evicted soonest_entry soonest_loop unschedule
    next_final next_section
two_counted = refl

two-Sound : Sound two
unfolding create push next next_pending next_record prepare find prepare_scope put erase refresh
    refresh_loop refresh_pass refresh_first refresh_entry next_expired next_packet is_eligible
    next_session account_packet account count_side travels_from_low endpoint_less list_less
    new_state count_packet add_checked clock_row schedule shake flag_state make_key postpone reused
    evict endpoint_same session_less emit evictable evicted soonest_entry soonest_loop unschedule
    next_final next_section
two-Sound =
    push-Sound (input 2 (packet 9 80 16) 8) (behind (next one)) two
      (Safe-result SoundOutput (next one) (none, behind (next one)) one_counted
        (next-Sound one one-Sound (λ e. absurd (ground (arith, e)))))
      refl

stale-Sound : Sound stale
unfolding create push next next_pending next_record prepare find prepare_scope put erase refresh
    refresh_loop refresh_pass refresh_first refresh_entry next_expired next_packet is_eligible
    next_session account_packet account count_side travels_from_low endpoint_less list_less
    new_state count_packet add_checked clock_row schedule shake flag_state make_key postpone reused
    evict endpoint_same session_less emit evictable evicted soonest_entry soonest_loop unschedule
    next_final next_section
stale-Sound =
    Safe-result SoundOutput (next two) (none, stale) two_counted
      (next-Sound two two-Sound (λ e. absurd (ground (arith, e))))

abbrev scope_of : FlowAggregator → Scope
scope_of a = elim (find ltb 0 a.scopes) [ none ↦ no_scope | some scope ↦ scope ]

abbrev refreshed : Result FlowAggregator → FlowAggregator
refreshed (ok a) = a
refreshed (throws _) = start

abbrev fresh : FlowAggregator
fresh = refreshed (refresh 0 stale)

stale_scope : find ltb 0 stale.scopes ≡ some (scope_of stale)
unfolding create push next next_pending next_record prepare find prepare_scope put erase refresh
    refresh_loop refresh_pass refresh_first refresh_entry next_expired next_packet is_eligible
    next_session account_packet account count_side travels_from_low endpoint_less list_less
    new_state count_packet add_checked clock_row schedule shake flag_state make_key postpone reused
    evict endpoint_same session_less emit evictable evicted soonest_entry soonest_loop unschedule
    next_final next_section
stale_scope = refl

fresh_scope : find ltb 0 fresh.scopes ≡ some (scope_of fresh)
unfolding create push next next_pending next_record prepare find prepare_scope put erase refresh
    refresh_loop refresh_pass refresh_first refresh_entry next_expired next_packet is_eligible
    next_session account_packet account count_side travels_from_low endpoint_less list_less
    new_state count_packet add_checked clock_row schedule shake flag_state make_key postpone reused
    evict endpoint_same session_less emit evictable evicted soonest_entry soonest_loop unschedule
    next_final next_section
fresh_scope = refl

freshened : refresh 0 stale ≡ ok fresh
unfolding create push next next_pending next_record prepare find prepare_scope put erase refresh
    refresh_loop refresh_pass refresh_first refresh_entry next_expired next_packet is_eligible
    next_session account_packet account count_side travels_from_low endpoint_less list_less
    new_state count_packet add_checked clock_row schedule shake flag_state make_key postpone reused
    evict endpoint_same session_less emit evictable evicted soonest_entry soonest_loop unschedule
    next_final next_section
freshened = refl

refresh-IsSoonest_example : IsSoonest 0 fresh (scope_of fresh).expiry
refresh-IsSoonest_example =
    refresh-IsSoonest 0 stale fresh (scope_of stale) (scope_of fresh) stale-Sound.consistent
      stale_scope freshened fresh_scope
