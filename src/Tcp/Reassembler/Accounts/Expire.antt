-- ===== src/Tcp/Reassembler/Accounts/Expire.antt =====
-- `Remove` and `Expire` under the invariant of what is buffered.
use packet_quapture.Base.{
  ℕ, zero, suc, ◌≡◌, ◌&&◌, List, [], ◌∷◌, ◌==◌, ltb, leb, Option, none, some, length, arith,
  Bool-cases, Option-cases, inl, inr,
}
use packet_quapture.Base.Maps.{
  find, total-erase, total-put, length-put, length-erase, put-AllValues, erase-AllValues,
  find-AllValues,
}
use packet_quapture.Tcp.Types.{
  TcpFlowKey, PacketStamp, TcpStream, FinalizedBy, TcpReassemblyLimits, Flow, idle_timeout,
}
use packet_quapture.Tcp.Key.{key_less}
use packet_quapture.Tcp.Finish.{finish}
use packet_quapture.Tcp.Reassembler.{
  TcpReassembler, unschedule, Run, remove, remove_found, Pass, over, again, requeue, expire_entry,
  expire_first, expire_pass, ended_run, expire_loop, expire, Scope, ScopeKey, Entry, scope_less,
  scope_of,
}
use packet_quapture.Tcp.Reassembler.Packets.{Tracked, handled, tracking}
use packet_quapture.Tcp.Reassembler.Clock.{unschedule-Kept}
use packet_quapture.Tcp.Reassembler.Accounts.{IsSized, bytes_of, segments_of, IsFlow, IsAccounted}

-- Unless an exception is thrown, the invariant holds of the state.
abbrev pub RunIsAccounted : TcpReassemblyLimits → Option Run → Type 0
RunIsAccounted limits none = Unit {0}
RunIsAccounted limits (some (r, output)) = IsAccounted limits r

abbrev pub PassIsAccounted : TcpReassemblyLimits → Option Pass → Type 0
PassIsAccounted limits none = Unit {0}
PassIsAccounted limits (some (over (r, output))) = IsAccounted limits r
PassIsAccounted limits (some (again (r, output))) = IsAccounted limits r

abbrev pub TrackedIsAccounted : TcpReassemblyLimits → TcpFlowKey → Option Tracked → Type 0
TrackedIsAccounted limits key none = Unit {0}
TrackedIsAccounted limits key (some (handled (r, output))) = IsAccounted limits r
TrackedIsAccounted limits key (some (tracking (r, output) flow)) =
    IsAccounted limits r × (find key_less key r.flows ≡ some flow)

module _ (limits : TcpReassemblyLimits) (sized : IsSized limits) where
  pub remove-IsAccounted :
      (key : TcpFlowKey) (why : FinalizedBy) (r : TcpReassembler) (output : List TcpStream)
      → IsAccounted limits r
      → RunIsAccounted limits (remove limits key why (r, output))
  unfolding remove remove_found
  remove-IsAccounted key why r output h = elim (Option-cases (find key_less key r.flows)) [
    | inl e ↦ rw (e, remove) h
    | inr (flow, e) ↦
        elim (Bool-cases
          (leb flow.bytes r.buffered_bytes && leb (length flow.segments) r.buffered_segments)) [
            | inr g ↦ rw (e, remove, g) tt
            | inl g ↦ elim (Option-cases (finish limits key flow)) [
              | inl m ↦ rw (e, remove, g, m) tt
              | inr (streams, m) ↦ elim (Option-cases (unschedule key r flow)) [
                | inl n ↦ rw (e, remove, g, m, n) tt
                | inr ((q, f), n) ↦
                    rw (e, remove, g, m, n)
                      (let k = unschedule-Kept key r flow q f n in
                        let b = total-erase key_less key bytes_of flow r.flows e in
                        let s = total-erase key_less key segments_of flow r.flows e in
                        record {
                          bytes =
                              rw (k.flows, k.buffered_bytes, k.bytes)
                                (omega (arith, h.bytes, h.bytes_fit, b, sized.bytes_fit));
                          segments =
                              rw (k.flows, k.buffered_segments, k.segments)
                                (omega (arith, h.segments, h.segments_fit, s, sized.segments_fit));
                          bytes_fit =
                              rw (k.buffered_bytes, k.bytes)
                                (omega (arith, h.bytes, h.bytes_fit, b, sized.bytes_fit));
                          segments_fit =
                              rw (k.buffered_segments, k.segments)
                                (omega (arith, h.segments, h.segments_fit, s, sized.segments_fit));
                          flows_fit = rw k.flows (
                              omega (arith, h.flows_fit, length-erase key_less key flow r.flows e));
                          each =
                              rw k.flows
                                (erase-AllValues key_less key (IsFlow limits) r.flows h.each);
                        })
              ]
            ]
          ]
  ]

  -- Removing a direction leaves the others.
  pub remove-length :
      (key : TcpFlowKey) (why : FinalizedBy) (r : TcpReassembler) (output : List TcpStream)
      (flow : Flow) (r' : TcpReassembler) (output' : List TcpStream)
      → find key_less key r.flows ≡ some flow
      → remove limits key why (r, output) ≡ some (r', output')
      → suc (length r'.flows) ≡ length r.flows
  unfolding remove remove_found
  remove-length key why r output flow r' output' h e = elim (Option-cases (unschedule key r flow)) [
    | inl n ↦ absurd (ground (arith, e, h, n))
    | inr ((q, f), n) ↦
        let k = (unschedule-Kept key r flow q f n).flows in
        ground (arith, e, h, n, k, length-erase key_less key flow r.flows h)
  ]

  pub requeue-IsAccounted :
      (id : ScopeKey) (entry : Entry) (scope : Scope) (flow : Flow) (r : TcpReassembler)
      → IsAccounted limits r
      → find key_less entry.1 r.flows ≡ some flow
      → IsAccounted limits (requeue id entry scope flow r)
  requeue-IsAccounted id entry scope flow r h e =
      let new = record flow { queued = flow.deadline } in
      let f = find-AllValues key_less entry.1 (IsFlow limits) flow r.flows h.each e in
      record {
        bytes = omega (arith, h.bytes, total-put key_less entry.1 bytes_of flow new r.flows e);
        segments =
            omega (arith, h.segments, total-put key_less entry.1 segments_of flow new r.flows e);
        bytes_fit = h.bytes_fit;
        segments_fit = h.segments_fit;
        flows_fit = omega (arith, h.flows_fit, length-put key_less entry.1 flow new r.flows e);
        each = put-AllValues key_less entry.1 (IsFlow limits) new r.flows h.each (record {
          counted = f.counted;
          bytes_fit = f.bytes_fit;
          segments_fit = f.segments_fit;
          captured = f.captured;
          failed = f.failed;
        });
      }

  pub expire_entry-IsAccounted :
      (id : ScopeKey) (scope : Scope) (due : ℕ) (key : TcpFlowKey) (r : TcpReassembler)
      (output : List TcpStream)
      → IsAccounted limits r
      → PassIsAccounted limits (expire_entry limits id scope (due, key) (r, output))
  unfolding expire_entry
  expire_entry-IsAccounted id scope due key r output h =
      elim (Option-cases (find key_less key r.flows)) [
        | inl e ↦ rw e tt
        | inr (flow, e) ↦
            elim (Bool-cases
              (flow.scheduled && flow.queued == due && leb flow.queued flow.deadline)) [
                | inr g ↦ rw (e, g) tt
                | inl g ↦ elim (Bool-cases (ltb due flow.deadline)) [
                  | inl l ↦ rw (e, g, l) (requeue-IsAccounted id (due, key) scope flow r h e)
                  | inr l ↦
                      let m = remove-IsAccounted key idle_timeout r output h in
                      elim (Option-cases (remove limits key idle_timeout (r, output))) [
                        | inl n ↦ rw (e, g, l, n) tt
                        | inr ((q, o), n) ↦ rw (e, g, l, n) (rw n at m)
                      ]
                ]
              ]
      ]

  pub expire_first-IsAccounted :
      (id : ScopeKey) (watermark : ℕ) (r : TcpReassembler) (output : List TcpStream) (scope : Scope)
      (entries : List (Entry × Unit {0}))
      → IsAccounted limits r
      → PassIsAccounted limits (expire_first limits id watermark (r, output) scope entries)
  unfolding expire_first
  expire_first-IsAccounted id watermark r output scope [] h = tt
  expire_first-IsAccounted id watermark r output scope (((due, key), _) ∷ _) h =
      elim (Bool-cases (ltb due watermark)) [
        | inl l ↦ rw l (expire_entry-IsAccounted id scope due key r output h)
        | inr l ↦ rw l h
      ]

  pub expire_pass-IsAccounted :
      (id : ScopeKey) (watermark : ℕ) (r : TcpReassembler) (output : List TcpStream)
      → IsAccounted limits r
      → PassIsAccounted limits (expire_pass limits id watermark (r, output))
  unfolding expire_pass
  expire_pass-IsAccounted id watermark r output h =
      elim (Option-cases (find scope_less id r.scopes)) [
        | inl e ↦ rw (e, expire_pass) h
        | inr (scope, e) ↦
            rw (e, expire_pass)
              (expire_first-IsAccounted id watermark r output scope scope.expiry h)
      ]

  pub expire_loop-IsAccounted :
      (fuel : ℕ) (id : ScopeKey) (watermark : ℕ) (r : TcpReassembler) (output : List TcpStream)
      → IsAccounted limits r
      → RunIsAccounted limits (ended_run (expire_loop fuel limits id watermark (r, output)))
  unfolding expire_loop
  expire_loop-IsAccounted zero id watermark r output h = tt
  expire_loop-IsAccounted (suc fuel) id watermark r output h =
      let p = expire_pass-IsAccounted id watermark r output h in
      elim (Option-cases (expire_pass limits id watermark (r, output))) [
        | inl e ↦ rw (e, expire_loop) tt
        | inr (over run, e) ↦ rw (e, expire_loop) (rw e at p)
        | inr (again (q, o), e) ↦
            rw (e, expire_loop) (expire_loop-IsAccounted fuel id watermark q o (rw e at p))
      ]

  pub expire-IsAccounted :
      (key : TcpFlowKey) (stamp : PacketStamp) (r : TcpReassembler)
      → IsAccounted limits r
      → RunIsAccounted limits (expire limits key stamp r)
  unfolding expire
  expire-IsAccounted key stamp r h = elim (Option-cases (find scope_less (scope_of key) r.scopes)) [
    | inl e ↦ rw (e, expire) h
    | inr (scope, e) ↦ elim (Bool-cases stamp.has_timestamp) [
      | inr s ↦ rw (e, expire, s) h
      | inl s ↦
          rw (e, expire, s)
            (expire_loop-IsAccounted _ (scope_of key) _ _ [] (record {
              bytes = h.bytes;
              segments = h.segments;
              bytes_fit = h.bytes_fit;
              segments_fit = h.segments_fit;
              flows_fit = h.flows_fit;
              each = h.each;
            }))
    ]
  ]
