-- ===== src/Tcp/Reassembler.antt =====
-- The state of `TcpReassembler` and the operations on its tables: `Fail`, `Remove`, `Unschedule`,
-- `Schedule` and `Expire` of src/tcp_reassembly.cpp. A counter of the source is 64 bits wide. The
-- result `none` is an exception: a failed PQ_ASSERT, or the identifiers that ran out.
pub mod Packets
pub mod Clock
pub mod Accounts
use packet_quapture.Base.{
  ℕ, zero, suc, ◌+◌, ◌-◌, ◌^◌, max, Bool, true, false, not, ◌&&◌, ◌||◌, List, [], ◌∷◌, ◌++◌, map,
  ◌==◌, ltb, leb, if◌then◌else◌, u64, u64_sub, Option, none, some, length, ◌>>=◌, ◌>>◌, guard,
}
use packet_quapture.Base.Maps.{find, put, erase}
use packet_quapture.Tcp.Types.{
  TcpFlowKey, PacketStamp, TcpStream, TcpStreamStatus, Reason, FinalizedBy, TcpReassemblyLimits,
  Flow, idle_timeout,
}
use packet_quapture.Tcp.Key.{key_less, tie}
use packet_quapture.Tcp.Finish.{finish, is_nil}

-- A direction in the queue of its interface: when it is due.
abbrev pub Entry : Type 0
Entry = ℕ × TcpFlowKey

abbrev pub entry_less : Entry → Entry → Bool
entry_less (a, k) (b, l) = tie (ltb a b) (ltb b a) (key_less k l)

pub record Scope : Type 0 where
  pub watermark : ℕ
  pub expiry : List (Entry × Unit {0})

abbrev pub ScopeKey : Type 0
ScopeKey = ℕ × ℕ

abbrev pub scope_less : ScopeKey → ScopeKey → Bool
scope_less (s, i) (t, j) = tie (ltb s t) (ltb t s) (ltb i j)

abbrev pub scope_of : TcpFlowKey → ScopeKey
scope_of key = (key.section, key.interface_id)

pub record TcpReassembler : Type 0 where
  pub buffered_bytes : ℕ
  pub buffered_segments : ℕ
  pub next_id : ℕ
  pub flows : List (TcpFlowKey × Flow)
  pub scopes : List (ScopeKey × Scope)

abbrev pub no_reassembler : TcpReassembler
no_reassembler = record {
  buffered_bytes = 0;
  buffered_segments = 0;
  next_id = 1;
  flows = [];
  scopes = [];
}

-- `Fail`, on the direction and on the two counters.
unfoldable pub fail : TcpReassembler → Flow → Reason → TcpStreamStatus → TcpReassembler × Flow
fail r flow reason status = (
  record r {
    buffered_bytes = u64_sub r.buffered_bytes flow.bytes;
    buffered_segments = u64_sub r.buffered_segments (length flow.segments);
  },
  record flow {
    bytes = 0;
    segments = [];
    segment_order = [];
    failure = reason;
    failure_status = status;
  },
)

-- A scope without its entry; without any entry it goes.
unfoldable pub without_entry :
    ScopeKey → Entry → Scope → List (ScopeKey × Scope) → List (ScopeKey × Scope)
without_entry id entry scope scopes =
    let expiry = erase entry_less entry scope.expiry in
    if is_nil expiry
    then erase scope_less id scopes
    else put scope_less id (record scope { expiry = expiry }) scopes

unfoldable pub unschedule : TcpFlowKey → TcpReassembler → Flow → Option (TcpReassembler × Flow)
unschedule key r flow =
    let queued = (do
      scope ← find scope_less (scope_of key) r.scopes
      _ ← find entry_less (flow.queued, key) scope.expiry
      some (
        record r { scopes = without_entry (scope_of key) (flow.queued, key) scope r.scopes },
        record flow { scheduled = false },
      )) in
    if not flow.scheduled then some (r, flow) else queued

-- The clock of the packet's interface behind the packet; a new one starts at the packet.
abbrev pub scope_at : PacketStamp → Option Scope → Scope
scope_at stamp none = record { watermark = stamp.timestamp; expiry = [] }
scope_at stamp (some scope) = record scope { watermark = max scope.watermark stamp.timestamp }

abbrev pub is_known {ℓ} : {A : Type ℓ} → Option A → Bool
is_known none = false
is_known (some _) = true

-- The part of `Schedule` that moves the deadline.
unfoldable pub postpone :
    TcpFlowKey → TcpReassembler → Flow → PacketStamp → ℕ → Option (TcpReassembler × Flow)
postpone key r flow stamp deadline =
    let known = find scope_less (scope_of key) r.scopes in
    let scope = scope_at stamp known in
    let queue = record scope { expiry = put entry_less (deadline, key) tt scope.expiry } in
    let moved = (do
      guard (is_known known && ltb flow.queued deadline)
      some (
        record r { scopes = put scope_less (scope_of key) scope r.scopes },
        record flow { deadline = deadline },
      )) in
    if flow.scheduled
    then moved
    else some (
      record r { scopes = put scope_less (scope_of key) queue r.scopes },
      record flow { deadline = deadline; queued = deadline; scheduled = true },
    )

-- The greatest timestamp.
abbrev pub last_timestamp : ℕ
last_timestamp = 2 ^ 64 - 1

abbrev pub untime : Flow → PacketStamp → Flow
untime flow stamp = if stamp.has_timestamp then flow else record flow { untimed = true }

unfoldable pub schedule :
    TcpReassemblyLimits
    → TcpFlowKey
    → TcpReassembler
    → Flow
    → PacketStamp
    → Option (TcpReassembler × Flow)
schedule limits key r old stamp =
    let timeout = limits.tcp_idle_us in
    let flow = untime old stamp in
    let deadline = stamp.timestamp + timeout in
    if flow.untimed || timeout == 0 || ltb (last_timestamp - timeout) stamp.timestamp
    then unschedule key r flow
    else if flow.scheduled && leb deadline flow.deadline
    then some (r, flow)
    else postpone key r flow stamp deadline

-- The state, and the streams put out so far.
abbrev pub Run : Type 0
Run = TcpReassembler × List TcpStream

abbrev pub finalize : FinalizedBy → TcpStream → TcpStream
finalize reason stream = record stream { finalized_by = reason }

-- The part of `Remove` behind `Unschedule`.
abbrev pub drop_flow : TcpFlowKey → Flow → TcpReassembler → TcpReassembler
drop_flow key flow r = record r {
  buffered_bytes = u64_sub r.buffered_bytes flow.bytes;
  buffered_segments = u64_sub r.buffered_segments (length flow.segments);
  flows = erase key_less key r.flows;
}

unfoldable pub remove_found :
    TcpReassemblyLimits → TcpFlowKey → FinalizedBy → Run → Flow → Option Run
remove_found limits key reason (r, output) flow = do
  guard (leb flow.bytes r.buffered_bytes && leb (length flow.segments) r.buffered_segments)
  streams ← finish limits key flow
  (r', flow') ← unschedule key r flow
  some (drop_flow key flow' r', output ++ map (finalize reason) streams)

unfoldable pub remove : TcpReassemblyLimits → TcpFlowKey → FinalizedBy → Run → Option Run
remove limits key reason (r, output) = elim (find key_less key r.flows) [
  | none ↦ some (r, output)
  | some flow ↦ remove_found limits key reason (r, output) flow
]

-- How one pass of the loop in `Expire` ends.
pub data Pass : Type 0 where
  over : Run → Pass
  again : Run → Pass

-- An entry that its direction has outlived moves to the direction's deadline.
abbrev pub requeue : ScopeKey → Entry → Scope → Flow → TcpReassembler → TcpReassembler
requeue id entry scope flow r = record r {
  scopes =
      put scope_less id
        (record scope {
          expiry = put entry_less (flow.deadline, entry.1) tt (erase entry_less entry scope.expiry);
        })
        r.scopes;
  flows = put key_less entry.1 (record flow { queued = flow.deadline }) r.flows;
}

-- The body of the loop, at the first entry of the queue.
unfoldable pub expire_entry : TcpReassemblyLimits → ScopeKey → Scope → Entry → Run → Option Pass
expire_entry limits id scope (due, key) (r, output) =
    let removed = (do run ← remove limits key idle_timeout (r, output); some (again run)) in
    find key_less key r.flows >>= λ flow.
    guard (flow.scheduled && flow.queued == due && leb flow.queued flow.deadline)
    >> (if ltb due flow.deadline
        then some (again (requeue id (due, key) scope flow r, output))
        else removed)

-- The condition of the loop on the queue of a scope, then its body. The first entry of an empty
-- queue does not exist.
unfoldable pub expire_first :
    TcpReassemblyLimits → ScopeKey → ℕ → Run → Scope → List (Entry × Unit {0}) → Option Pass
expire_first limits id watermark run scope [] = none
expire_first limits id watermark run scope (((due, key), _) ∷ _) =
    let pass = expire_entry limits id scope (due, key) run in
    if ltb due watermark then pass else some (over run)

unfoldable pub expire_pass : TcpReassemblyLimits → ScopeKey → ℕ → Run → Option Pass
expire_pass limits id watermark (r, output) = elim (find scope_less id r.scopes) [
  | none ↦ some (over (r, output))
  | some scope ↦ expire_first limits id watermark (r, output) scope scope.expiry
]

-- How the loop ends: with its run, by a failed assertion, or, out of fuel, not at all.
pub data Ending : Type 0 where
  ended : Run → Ending
  failed : Ending
  unfinished : Ending

unfoldable pub expire_loop : ℕ → TcpReassemblyLimits → ScopeKey → ℕ → Run → Ending
expire_loop zero limits id watermark run = unfinished
expire_loop (suc fuel) limits id watermark run = elim (expire_pass limits id watermark run) [
  | none ↦ failed
  | some (over run') ↦ ended run'
  | some (again run') ↦ expire_loop fuel limits id watermark run'
]

-- The run of a loop that ends with one. `Clock.expire_loop_ends` is about the others.
abbrev pub ended_run : Ending → Option Run
ended_run (ended run) = some run
ended_run failed = none
ended_run unfinished = none

-- The clock at a packet: one too far behind it sets the clock back.
abbrev pub clock_at : TcpReassemblyLimits → ℕ → ℕ → ℕ
clock_at limits clock now =
    if ltb now clock && ltb limits.tcp_idle_us (clock - now) then now else max clock now

-- Each direction is queued again at most once and removed at most once.
abbrev pub expire_fuel : TcpReassembler → ℕ
expire_fuel r = suc (length r.flows + length r.flows)

unfoldable pub expire : TcpReassemblyLimits → TcpFlowKey → PacketStamp → TcpReassembler → Option Run
expire limits key stamp r = elim (find scope_less (scope_of key) r.scopes) [
  | none ↦ some (r, [])
  | some scope ↦
      let clock = clock_at limits scope.watermark stamp.timestamp in
      let r' = record r {
        scopes = put scope_less (scope_of key) (record scope { watermark = clock }) r.scopes;
      } in
      let loop = ended_run (expire_loop (expire_fuel r') limits (scope_of key) clock (r', [])) in
      if not stamp.has_timestamp then some (r, []) else loop
]
