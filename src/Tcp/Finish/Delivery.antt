-- ===== src/Tcp/Finish/Delivery.antt =====
-- What a receiver gets of a byte stream that was sent: `Finish` puts its pieces together, in
-- whichever order and however often they came.
pub mod Parts
use packet_quapture.Base.{
  ℕ, zero, suc, ◌+◌, ◌-◌, ◌^◌, ◌≤◌, ◌<◌, ◌≡◌, refl, sym, ◌∙◌, max, true, false, not, List, [], ◌∷◌,
  ltb, u32, none, some, length, arith, All, inl, inr, get_elem?, Option-cases, Bool-cases, ap,
}
use packet_quapture.Base.Int.{pos}
use packet_quapture.Tcp.Types.{
  TcpFlowKey, TcpReassemblyLimits, Segment, Flow, TcpGap, TcpStream, contiguous, no_reason,
}
use packet_quapture.Tcp.Sequence.{
  relative_sequence, stream_base, StartAt, relative_sequence_forward,
}
use packet_quapture.Tcp.Overlay.{Cells, blank, overlay, is_owned, unowned}
use packet_quapture.Tcp.Overlay.Laws.{byte_at, Covers, overlay_fails_iff, overlay_agrees}
use packet_quapture.Tcp.Emit.{emit, Emitted}
use packet_quapture.Tcp.Emit.View.{chunk_byte, in_gap, owned_count_run, emit_view}
use packet_quapture.Tcp.Finish.{
  place, placed, measure, is_nil, finish, finish_measured, assemble, complete, diagnostic,
}
use packet_quapture.Tcp.Finish.Inside.{Covers-lt, IsCaptured, place-Inside}
use packet_quapture.Tcp.Finish.Delivery.Parts.{
  IsPiece, Pieces, Pieces-IsCaptured, Pieces-Covers, reach, reach-le, place-reach, no_gaps,
  get_elem?-past,
}

-- A direction that carried `msg` from the sequence number after its SYN on: its segments hold
-- pieces of `msg` at the distances `ds`, which together cover it, in any order, and again and again
-- if they were sent again; its FIN, if seen, is where `msg` ends.
pub record Carries (limits : TcpReassemblyLimits) (flow : Flow) (msg : List ℕ) (ds : List ℕ)
    : Type 0 where
  pub healthy : flow.failure ≡ no_reason
  pub syn : flow.has_syn ≡ true
  pub starts : StartAt (u32 (flow.syn_sequence + 1)) flow.segments ds
  pub pieces : Pieces msg flow.segments ds
  pub whole : (p : ℕ) → p < length msg → (x : ℕ) × Covers flow.segments ds p x
  pub fin : flow.has_fin ≡ true → flow.fin_sequence ≡ u32 (u32 (flow.syn_sequence + 1) + length msg)
  pub nonempty : 0 < length msg
  pub fits : length msg ≤ limits.max_stream_bytes
  pub short : length msg < 2 ^ 31
  pub few : length flow.segments ≤ unowned

module _ (limits : TcpReassemblyLimits) (flow : Flow) (msg : List ℕ) (ds : List ℕ)
    (h : Carries limits flow msg ds) where
  abbrev start : ℕ
  start = u32 (flow.syn_sequence + 1)

  start-lt : start < 2 ^ 32
  start-lt = omega arith

  places : place limits start 0 flow.segments ≡ some (ds, length msg)
  places =
      let e = place-reach limits msg start 0 flow.segments ds start-lt h.fits h.starts h.pieces in
      let (_, _, i) =
        place-Inside limits start 0 flow.segments ds (reach 0 flow.segments ds) (omega arith) e in
      let (x, c) = h.whole (length msg - 1) (omega (arith, h.nonempty)) in
      let l =
        Covers-lt flow.segments ds (reach 0 flow.segments ds) (length msg - 1) x i
          (Pieces-IsCaptured msg flow.segments ds h.pieces) c in
      let r : reach 0 flow.segments ds ≡ length msg =
        omega (arith, l, reach-le msg 0 flow.segments ds (omega arith) h.pieces) in
      rw r at e

  measures : measure limits flow start ≡ placed ds (length msg)
  unfolding measure
  measures = elim (Bool-cases flow.has_fin) [
    | inr f ↦ ground (arith, places)
    | inl f ↦
        let e : relative_sequence flow.fin_sequence start ≡ pos (length msg) =
          rw (h.fin f) (relative_sequence_forward start (length msg) start-lt h.short) in
        ground (arith, places, h.fits, e)
  ]

  agrees :
      (c : Cells)
      → overlay 0 flow.segments ds blank ≡ some c
      → (p : ℕ) → p < length msg
      → (is_owned c p ≡ true) × (get_elem? msg p ≡ some (c.bytes p))
  agrees c e p l =
      let (x, v) = h.whole p l in
      let (o, b) = overlay_agrees 0 flow.segments ds blank c p x (omega (arith, h.few)) e v in
      (o, rw b (Pieces-Covers msg flow.segments ds p x h.pieces v))

  lays : (c : Cells) × (overlay 0 flow.segments ds blank ≡ some c)
  lays = elim (Option-cases (overlay 0 flow.segments ds blank)) [
    | inr q ↦ q
    | inl e ↦
        let (p, x, y, v, w, n) = (overlay_fails_iff flow.segments ds h.few).0 e in
        absurd (
          n (
            ground (
              arith,
              Pieces-Covers msg flow.segments ds p x h.pieces v,
              Pieces-Covers msg flow.segments ds p y h.pieces w,
            )))
  ]

  abbrev out : Emitted
  out = emit flow.segments start (length msg) lays.0

  emits_bytes : (p : ℕ) → chunk_byte out.chunks p ≡ get_elem? msg p
  emits_bytes p = elim (Bool-cases (ltb p (length msg))) [
    | inl l ↦
        let l' : p < length msg = ground arith in
        let b =
          ((emit_view flow.segments start (length msg) lays.0 (omega (arith, h.short))).0 p l').0 in
        let (o, m) = agrees lays.0 lays.1 p l' in b ∙ (rw o (sym m))
    | inr k ↦
        let (_, z, _, _, _) =
          emit_view flow.segments start (length msg) lays.0 (omega (arith, h.short)) in
        (z p (ground arith)).0 ∙ sym (get_elem?-past msg p (ground arith))
  ]

  emits_no_gap : out.gaps ≡ []
  emits_no_gap =
      let (v, z, n, _, g) =
        emit_view flow.segments start (length msg) lays.0 (omega (arith, h.short)) in
      no_gaps out.gaps g (λ p. elim (Bool-cases (ltb p (length msg))) [
        | inl l ↦
            let l' : p < length msg = ground arith in
            (v p l').1 ∙ ap not ((agrees lays.0 lays.1 p l').0)
        | inr k ↦ (z p (ground arith)).1
      ])

  emits_all : out.captured_bytes ≡ length msg
  emits_all =
      let (v, z, n, _, g) =
        emit_view flow.segments start (length msg) lays.0 (omega (arith, h.short)) in
      let r =
        owned_count_run lays.0 true (length msg) (length msg) 0 (length msg) (omega arith)
          (omega arith) (λ p _ l. (agrees lays.0 lays.1 p l).0) in
      let w : length msg - length msg ≡ 0 = omega arith in
      let w' : length msg - 0 ≡ length msg = omega arith in omega (arith, n, rw (w, w') at r)

  abbrev delivered : TcpFlowKey → TcpStream
  delivered key = record (diagnostic key flow contiguous no_reason) {
    sequence = start;
    expected_bytes = u32 (length msg);
    chunks = out.chunks;
    gaps = out.gaps;
    captured_bytes = out.captured_bytes;
  }

  completes : (key : TcpFlowKey) → complete key flow start (length msg) out ≡ delivered key
  unfolding complete
  completes key = rw (h.syn, emits_no_gap) refl

  based : stream_base flow ≡ start
  unfolding stream_base
  based = rw h.syn refl

  not_nil : is_nil flow.segments ≡ false
  not_nil = holds flow.segments (h.whole 0 h.nonempty)
    where
      holds : (segments : List Segment) → (x : ℕ) × Covers segments ds 0 x → is_nil segments ≡ false
      holds [] (x, c) = absurd c
      holds (_ ∷ _) c = refl

  finishes : (key : TcpFlowKey) → finish limits key flow ≡ some (delivered key ∷ [])
  unfolding finish finish_measured assemble
  finishes key =
      rw (based, measures)
        (ground (arith, h.healthy, not_nil, lays.1, completes key, h.nonempty, h.fits))

  -- Of a direction that carried `msg`, whose segments arrived in any order, repeated or
  -- overlapping, `Finish` fails no assertion and delivers one contiguous stream with exactly the bytes of `msg`, each at
  -- its offset, and no gap.
  pub finish_delivers :
      (key : TcpFlowKey)
      → (s : TcpStream) × (finish limits key flow ≡ some (s ∷ []))
        × (s.status ≡ contiguous)
        × (s.sequence ≡ u32 (flow.syn_sequence + 1))
        × (s.expected_bytes ≡ length msg)
        × (s.captured_bytes ≡ length msg)
        × (s.gaps ≡ [])
        × ((p : ℕ) → chunk_byte s.chunks p ≡ get_elem? msg p)
  unfolding diagnostic
  finish_delivers key =
      let size : u32 (length msg) ≡ length msg = omega (arith, h.short) in
      (delivered key, finishes key, refl, refl, size, emits_all, emits_no_gap, emits_bytes)
