-- ===== src/Tcp/Reassembler/Clock.antt =====
-- The queue of directions, and the loop of `Expire`: what scheduling leaves alone, and why the
-- loop ends.
use packet_quapture.Base.{
  ℕ, zero, suc, ◌+◌, ◌≤◌, ◌<◌, ◌≡◌, List, [], ◌∷◌, ltb, if◌then◌else◌, some, length, arith,
  Option-cases, inl, inr,
}
use packet_quapture.Base.Maps.{find, total, total-put, total-erase}
use packet_quapture.Tcp.Types.{
  TcpFlowKey, PacketStamp, TcpStream, FinalizedBy, TcpReassemblyLimits, Flow, idle_timeout,
}
use packet_quapture.Tcp.Key.{key_less}
use packet_quapture.Tcp.Reassembler.{
  Entry, Scope, ScopeKey, scope_less, TcpReassembler, unschedule, postpone, untime, schedule,
  remove_found, remove, over, again, expire_entry, expire_first, expire_pass, expire_loop,
  unfinished, expire_fuel,
}

-- What a direction holds and the counters of what all hold are the same.
pub record Kept (r : TcpReassembler) (flow : Flow) (r' : TcpReassembler) (flow' : Flow)
    : Type 0 where
  pub flows : r'.flows ≡ r.flows
  pub buffered_bytes : r'.buffered_bytes ≡ r.buffered_bytes
  pub buffered_segments : r'.buffered_segments ≡ r.buffered_segments
  pub bytes : flow'.bytes ≡ flow.bytes
  pub segments : flow'.segments ≡ flow.segments
  pub failure : flow'.failure ≡ flow.failure

pub unschedule-Kept :
    (key : TcpFlowKey) (r : TcpReassembler) (flow : Flow) (r' : TcpReassembler) (flow' : Flow)
    → unschedule key r flow ≡ some (r', flow')
    → Kept r flow r' flow'
unfolding unschedule
unschedule-Kept key r flow r' flow' e = ground (arith, e)

pub postpone-Kept :
    (key : TcpFlowKey) (r : TcpReassembler) (flow : Flow) (stamp : PacketStamp) (deadline : ℕ)
    (r' : TcpReassembler) (flow' : Flow)
    → postpone key r flow stamp deadline ≡ some (r', flow')
    → Kept r flow r' flow'
unfolding postpone
postpone-Kept key r flow stamp deadline r' flow' e = ground (arith, e)

pub schedule-Kept :
    (limits : TcpReassemblyLimits) (key : TcpFlowKey) (r : TcpReassembler) (flow : Flow)
    (stamp : PacketStamp) (r' : TcpReassembler) (flow' : Flow)
    → schedule limits key r flow stamp ≡ some (r', flow')
    → Kept r flow r' flow'
unfolding schedule
schedule-Kept limits key r flow stamp r' flow' e =
    let deadline = stamp.timestamp + limits.tcp_idle_us in
    let one = unschedule-Kept key r (untime flow stamp) r' flow' in
    let two = postpone-Kept key r (untime flow stamp) stamp deadline r' flow' in
    ground (arith, e, one, two)

-- How often a direction can still be queued again or removed.
abbrev due : Flow → ℕ
due flow = 1 + (if ltb flow.queued flow.deadline then 1 else 0)

-- Removing a direction takes it out of the table.
remove-due :
    (limits : TcpReassemblyLimits) (key : TcpFlowKey) (reason : FinalizedBy) (r : TcpReassembler)
    (output : List TcpStream) (flow : Flow) (r' : TcpReassembler) (output' : List TcpStream)
    → find key_less key r.flows ≡ some flow
    → remove limits key reason (r, output) ≡ some (r', output')
    → total due r'.flows < total due r.flows
unfolding remove remove_found
remove-due limits key reason r output flow r' output' h e =
    elim (Option-cases (unschedule key r flow)) [
      | inl n ↦ absurd (ground (arith, e, h, n))
      | inr ((q, flow'), n) ↦
          let k = (unschedule-Kept key r flow q flow' n).flows in
          ground (arith, e, h, n, k, total-erase key_less key due flow r.flows h)
    ]

entry-due :
    (limits : TcpReassemblyLimits) (id : ScopeKey) (scope : Scope) (at : ℕ) (key : TcpFlowKey)
    (r : TcpReassembler) (output : List TcpStream) (r' : TcpReassembler) (output' : List TcpStream)
    → expire_entry limits id scope (at, key) (r, output) ≡ some (again (r', output'))
    → total due r'.flows < total due r.flows
unfolding expire_entry
entry-due limits id scope at key r output r' output' e =
    elim (Option-cases (find key_less key r.flows)) [
      | inl n ↦ absurd (ground (arith, e, n))
      | inr (flow, n) ↦ elim (Option-cases (remove limits key idle_timeout (r, output))) [
        | inl m ↦ ground (
          arith,
          e,
          n,
          m,
          total-put key_less key due flow (record flow { queued = flow.deadline }) r.flows n,
        )
        | inr ((q, o), m) ↦
            let d = remove-due limits key idle_timeout r output flow q o n m in
            ground (
              arith,
              e,
              n,
              m,
              d,
              total-put key_less key due flow (record flow { queued = flow.deadline }) r.flows n,
            )
      ]
    ]

first-due :
    (limits : TcpReassemblyLimits) (id : ScopeKey) (watermark : ℕ) (r : TcpReassembler)
    (output : List TcpStream) (scope : Scope) (entries : List (Entry × Unit {0}))
    (r' : TcpReassembler) (output' : List TcpStream)
    → expire_first limits id watermark (r, output) scope entries ≡ some (again (r', output'))
    → total due r'.flows < total due r.flows
unfolding expire_first
first-due limits id watermark r output scope [] r' output' e = absurd (ground (arith, e))
first-due limits id watermark r output scope (((at, key), _) ∷ _) r' output' e =
    ground (arith, e, entry-due limits id scope at key r output r' output')

-- Each pass of the loop that goes on leaves less to do.
pass-due :
    (limits : TcpReassemblyLimits) (id : ScopeKey) (watermark : ℕ) (r : TcpReassembler)
    (output : List TcpStream) (r' : TcpReassembler) (output' : List TcpStream)
    → expire_pass limits id watermark (r, output) ≡ some (again (r', output'))
    → total due r'.flows < total due r.flows
unfolding expire_pass
pass-due limits id watermark r output r' output' e =
    elim (Option-cases (find scope_less id r.scopes)) [
      | inl n ↦ absurd (ground (arith, e, n))
      | inr (scope, n) ↦
          ground (arith, e, n, first-due limits id watermark r output scope scope.expiry r' output')
    ]

due-le : (flows : List (TcpFlowKey × Flow)) → total due flows ≤ length flows + length flows
due-le [] = omega arith
due-le ((k, f) ∷ flows) = ground (arith, due-le flows)

loop_ends :
    (limits : TcpReassemblyLimits) (id : ScopeKey) (watermark fuel : ℕ) (r : TcpReassembler)
    (output : List TcpStream)
    → total due r.flows < fuel
    → ¬ (expire_loop fuel limits id watermark (r, output) ≡ unfinished)
unfolding expire_loop
loop_ends limits id watermark zero r output h = absurd (omega arith)
loop_ends limits id watermark (suc fuel) r output h =
    elim (Option-cases (expire_pass limits id watermark (r, output))) [
      | inl e ↦ rw (e, expire_loop) (λ p. absurd (ground (arith, p)))
      | inr (over run, e) ↦ rw (e, expire_loop) (λ p. absurd (ground (arith, p)))
      | inr (again (r', output'), e) ↦
          let d = pass-due limits id watermark r output r' output' e in
          rw (e, expire_loop) (loop_ends limits id watermark fuel r' output' (omega (arith, d)))
    ]

-- The loop of `Expire` ends on two passes for each direction and one more, whatever the tables hold:
-- with its run, or by a failed assertion.
pub expire_loop_ends :
    (limits : TcpReassemblyLimits) (id : ScopeKey) (watermark fuel : ℕ) (r : TcpReassembler)
    (output : List TcpStream)
    → expire_fuel r ≤ fuel
    → ¬ (expire_loop fuel limits id watermark (r, output) ≡ unfinished)
expire_loop_ends limits id watermark fuel r output h =
    loop_ends limits id watermark fuel r output (omega (arith, due-le r.flows))
