-- ===== src/Tcp/Reassembler/Packets.antt =====
-- `Add`, `Track`, `Buffer` and `FinishNext` of src/tcp_reassembly.cpp. A payload with its captured
-- length is the list of its captured bytes. The segments that repeat a sequence number and a length
-- lie next to each other in the sorted index, which the binary search and the scan behind it find.
use packet_quapture.Base.{
  ℕ, ◌+◌, ◌-◌, ◌*◌, ◌/◌, ◌%◌, ◌^◌, Bool, true, false, not, ◌&&◌, ◌||◌, List, [], ◌∷◌, ◌++◌, ◌==◌,
  ltb, leb, if◌then◌else◌, u32, u64, u64_sub, Option, none, some, length, get_elem?, ◌>>=◌,
}
use packet_quapture.Base.Maps.{find, put, emplace}
use packet_quapture.Tcp.Types.{
  TcpFlowKey, reverse_key, PacketStamp, conflict, limit, TcpReassemblyLimits, Segment, Flow,
  no_flow, is_empty, conflicting_fin, captured_exceeds_declared, segment_exceeds_limits,
  limit_reached, directions_exhausted, tuple_reuse, reset, eof, by_limit,
}
use packet_quapture.Tcp.Key.{key_less}
use packet_quapture.Tcp.Finish.{diagnostic}
use packet_quapture.Tcp.Reassembler.{TcpReassembler, fail, schedule, Run, remove, expire}

abbrev pub tcp_fin : ℕ
tcp_fin = 1

abbrev pub tcp_syn : ℕ
tcp_syn = 2

abbrev pub tcp_rst : ℕ
tcp_rst = 4

abbrev pub tcp_ack : ℕ
tcp_ack = 16

-- `(flags & mask) != 0` for a mask of one bit.
abbrev pub flag : ℕ → ℕ → Bool
flag flags mask = flags / mask % 2 == 1

abbrev pub bytes_equal : List ℕ → List ℕ → Bool
bytes_equal [] [] = true
bytes_equal (x ∷ xs) (y ∷ ys) = x == y && bytes_equal xs ys
bytes_equal [] (_ ∷ _) = false
bytes_equal (_ ∷ _) [] = false

abbrev pub order_less : ℕ × ℕ → ℕ × ℕ → Bool
order_less (p, i) (q, j) = ltb p q || (not (ltb q p) && ltb i j)

-- std::lower_bound: what is left from the first entry on that is not less.
unfoldable pub lower_bound : ℕ × ℕ → List (ℕ × ℕ) → List (ℕ × ℕ)
lower_bound entry [] = []
lower_bound entry (e ∷ rest) =
    let later = lower_bound entry rest in if order_less e entry then later else e ∷ rest

-- Whether an entry from here on with the same position has a segment with the same bytes.
unfoldable pub is_repeated : ℕ → List ℕ → List Segment → List (ℕ × ℕ) → Bool
is_repeated position payload segments [] = false
is_repeated position payload segments ((p, i) ∷ rest) =
    let here : Bool = elim (get_elem? segments i) [
      | none ↦ false
      | some s ↦ bytes_equal s.bytes payload
    ] in
    p == position && (here || is_repeated position payload segments rest)

-- The insertion at std::upper_bound, behind each entry that is not greater.
unfoldable pub insert_order : ℕ × ℕ → List (ℕ × ℕ) → List (ℕ × ℕ)
insert_order (position, i) [] = (position, i) ∷ []
insert_order (position, i) (e ∷ rest) =
    let later = insert_order (position, i) rest in
    if order_less (position, 2 ^ 32 - 1) e then (position, i) ∷ e ∷ rest else e ∷ later

-- The part of `Buffer` that keeps a segment.
unfoldable pub keep : TcpReassembler → Flow → ℕ → Segment → TcpReassembler × Flow
keep r flow position segment = (
  record r {
    buffered_segments = u64 (r.buffered_segments + 1);
    buffered_bytes = u64 (r.buffered_bytes + length segment.bytes);
  },
  record flow {
    segments = flow.segments ++ segment ∷ [];
    segment_order = insert_order (position, u32 (length flow.segments)) flow.segment_order;
    bytes = u64 (flow.bytes + length segment.bytes);
  },
)

-- The guards of `Buffer` against its limits, for a segment that is new.
unfoldable pub has_room : TcpReassemblyLimits → TcpReassembler → Flow → ℕ → Bool
has_room limits r flow captured =
    ltb (length flow.segments) limits.max_segments
    && ltb r.buffered_segments limits.max_total_segments
    && leb captured (u64_sub limits.max_stream_bytes flow.bytes)
    && leb captured (u64_sub limits.max_total_bytes r.buffered_bytes)

unfoldable pub buffer :
    TcpReassemblyLimits → TcpReassembler → Flow → Segment → TcpReassembler × Flow
buffer limits r flow segment =
    let captured = length segment.bytes in
    let position = segment.sequence * 2 ^ 32 + segment.declared in
    if ltb limits.max_stream_bytes captured || ltb limits.max_total_bytes captured
    then fail r flow segment_exceeds_limits limit
    else if is_repeated position segment.bytes flow.segments
        (lower_bound (position, 0) flow.segment_order)
    then (r, flow)
    else if not (has_room limits r flow captured)
    then fail r flow limit_reached limit
    else keep r flow position segment

-- How the search for the direction of a packet ends: the packet is dealt with, or its direction
-- is tracked.
pub data Tracked : Type 0 where
  handled : Run → Tracked
  tracking : Run → Flow → Tracked

abbrev pub new_flow : ℕ → PacketStamp → Flow
new_flow id stamp = record no_flow { id = id; first = stamp; last = stamp }

unfoldable pub track :
    TcpReassemblyLimits → TcpFlowKey → Bool → ℕ → PacketStamp → Run → Option Tracked
track limits key syn sequence stamp (r, output) =
    let id = r.next_id in
    let flow = new_flow id stamp in
    let overflow = record flow { has_syn = syn; syn_sequence = sequence } in
    let stream = record (diagnostic key overflow limit directions_exhausted) {
      finalized_by = by_limit;
    } in
    let r' = record r { next_id = u64 (id + 1) } in
    if id == 2 ^ 64 - 1
    then none
    else if leb limits.max_flows (length r.flows)
    then some (handled (r', output ++ stream ∷ []))
    else let (kept, flows) = emplace key_less key flow r.flows in
      some (tracking (record r' { flows = flows }, output) kept)

-- A SYN that starts another connection on the same addresses.
abbrev pub is_new_syn : Bool → ℕ → Option Flow → Bool
is_new_syn syn sequence none = syn
is_new_syn syn sequence (some flow) = syn && flow.has_syn && not (flow.syn_sequence == sequence)

unfoldable pub forget : TcpReassemblyLimits → TcpFlowKey → ℕ → Run → Option Run
forget limits key flags run = do
  run' ← remove limits key tuple_reuse run
  if flag flags tcp_ack then some run' else remove limits (reverse_key key) tuple_reuse run'

-- A packet of no direction: an empty one without a SYN starts none.
unfoldable pub begin :
    TcpReassemblyLimits → TcpFlowKey → ℕ → ℕ → ℕ → ℕ → PacketStamp → Run → Option Tracked
begin limits key sequence flags captured declared stamp run =
    let closed = (do
      run' ← if flag flags tcp_rst then remove limits (reverse_key key) reset run else some run
      some (handled run')) in
    if not (flag flags tcp_syn) && declared == 0 && captured == 0
    then closed
    else track limits key (flag flags tcp_syn) sequence stamp run

unfoldable pub locate :
    TcpReassemblyLimits → TcpFlowKey → ℕ → ℕ → ℕ → ℕ → PacketStamp → Run → Option Tracked
locate limits key sequence flags captured declared stamp (r, output) =
    let reopened = (do
      run ← forget limits key flags (r, output)
      begin limits key sequence flags captured declared stamp run) in
    if is_new_syn (flag flags tcp_syn) sequence (find key_less key r.flows)
    then reopened
    else elim (find key_less key r.flows) [
      | none ↦ begin limits key sequence flags captured declared stamp (r, output)
      | some flow ↦ some (tracking (r, output) flow)
    ]

abbrev pub with_syn : Bool → ℕ → Flow → Flow
with_syn syn sequence flow =
    if syn then record flow { has_syn = true; syn_sequence = sequence } else flow

abbrev pub set_fin : ℕ → TcpReassembler × Flow → TcpReassembler × Flow
set_fin fin (r, flow) = (r, record flow { has_fin = true; fin_sequence = fin })

unfoldable pub with_fin : Bool → ℕ → TcpReassembler × Flow → TcpReassembler × Flow
with_fin false fin (r, flow) = (r, flow)
with_fin true fin (r, flow) = set_fin fin (
    if flow.has_fin && not (flow.fin_sequence == fin)
    then fail r flow conflicting_fin conflict
    else (r, flow))

unfoldable pub check_captured : ℕ → ℕ → TcpReassembler × Flow → TcpReassembler × Flow
check_captured captured declared (r, flow) =
    if is_empty flow.failure && ltb declared captured
    then fail r flow captured_exceeds_declared conflict
    else (r, flow)

unfoldable pub add_segment :
    TcpReassemblyLimits → Segment → TcpReassembler × Flow → TcpReassembler × Flow
add_segment limits segment (r, flow) =
    if is_empty flow.failure && ltb 0 segment.declared
    then buffer limits r flow segment
    else (r, flow)

-- What a packet does to its direction behind `Schedule`.
unfoldable pub receive :
    TcpReassemblyLimits
    → ℕ
    → ℕ
    → List ℕ
    → ℕ
    → PacketStamp
    → TcpReassembler × Flow
    → TcpReassembler × Flow
receive limits sequence flags payload declared stamp (r, flow) =
    let syn = flag flags tcp_syn in
    let data_sequence = u32 (sequence + (if syn then 1 else 0)) in
    let segment : Segment = record {
      sequence = data_sequence;
      declared = declared;
      stamp = stamp;
      bytes = payload;
    } in
    add_segment limits segment (
      check_captured (length payload) declared (
        with_fin (flag flags tcp_fin) (u32 (data_sequence + declared))
          (r, with_syn syn sequence flow)))

-- The direction goes back to its place in the table.
abbrev pub store : TcpFlowKey → TcpReassembler × Flow → TcpReassembler
store key (r, flow) = record r { flows = put key_less key flow r.flows }

unfoldable pub close : TcpReassemblyLimits → TcpFlowKey → Bool → Run → Option Run
close limits key false run = some run
close limits key true run = do
  run' ← remove limits key reset run
  remove limits (reverse_key key) reset run'

unfoldable pub add_tracked :
    TcpReassemblyLimits → TcpFlowKey → ℕ → ℕ → List ℕ → ℕ → PacketStamp → Tracked → Option Run
add_tracked limits key sequence flags payload declared stamp (handled run) = some run
add_tracked limits key sequence flags payload declared stamp (tracking (r, output) flow) = do
  scheduled ← schedule limits key r (record flow { last = stamp }) stamp
  close limits key (flag flags tcp_rst)
      (store key (receive limits sequence flags payload declared stamp scheduled), output)

unfoldable pub add :
    TcpReassemblyLimits
    → TcpFlowKey
    → ℕ
    → ℕ
    → List ℕ
    → ℕ
    → PacketStamp
    → TcpReassembler
    → Option Run
add limits key sequence flags payload declared stamp r = do
  run ← expire limits key stamp r
  tracked ← locate limits key sequence flags (length payload) declared stamp run
  add_tracked limits key sequence flags payload declared stamp tracked

-- `FinishNext`: the direction with the smallest key.
unfoldable pub finish_next : TcpReassemblyLimits → TcpReassembler → Option Run
finish_next limits r = elim r.flows [
  | [] ↦ some (r, [])
  | (key, _) ∷ _ ↦ remove limits key eof (r, [])
]
