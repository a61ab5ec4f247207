-- ===== src/Pcap/Writer/Appends.antt =====
-- What `PcapWriter` writes, on an output that stores what it is given.
pub mod Output
use packet_quapture.Base.{
  ℕ, zero, suc, ◌+◌, ◌-◌, ◌≤◌, ◌<◌, ◌^◌, ◌≡◌, refl, sym, ap, ◌∙◌, min, Bool, true, ◌&&◌, ◌||◌, List,
  [], ◌∷◌, ◌++◌, ◌==◌, ltb, if◌then◌else◌, Option, none, some, length, take, drop, length-append,
  length-take, length-drop, arith, Bool-cases, Option-cases, inl, inr,
}
use packet_quapture.Base.Splits.{overwrite, overwrite-overwrite, take-drop, take-append}
use mathlib.Core.List.{append-nil}
use packet_quapture.Pcap.Writer.{
  PcapOutput, PcapWriterOptions, PcapWriter, WriterState, writing, finished, failed, put32,
  write_chunk_size, file_header, packet_header, write_loop, write_all, is_writable, wrote,
  try_packet, returned, when_open, write_packet, snaplen_of, create, patch_snaplen, try_finish,
  finish_writer,
}
use packet_quapture.Pcap.Writer.Appends.Output.{
  IsOutput, take-take, length-overwrite, length-inside, overwrite-nil, overwrite-end,
}

module _ {O : Type 0} (interface : PcapOutput O) (contents : O → List ℕ) (position : O → ℕ)
    (law : IsOutput interface contents position) where
  write_loop-overwrites :
      (fuel : ℕ) (o : O) (bytes : List ℕ) (o' : O)
      → write_loop interface fuel o bytes ≡ some o'
      → position o ≤ length (contents o)
      → (contents o' ≡ overwrite (position o) bytes (contents o))
        × (position o' ≡ position o + length bytes)
  unfolding write_loop
  write_loop-overwrites fuel o [] o' e h =
      let s : o ≡ o' = ground (arith, e) in
      rw (← s) (sym (overwrite-nil (position o) (contents o)), omega arith)
  write_loop-overwrites zero o (b ∷ bs) o' e h = absurd (ground (arith, e))
  write_loop-overwrites (suc fuel) o (b ∷ bs) o' e h =
      let bytes = b ∷ bs in
      let requested = min (length bytes) write_chunk_size in
      elim (Option-cases (interface.write o (take requested bytes))) [
        | inl w ↦ absurd (ground (arith, e, w))
        | inr ((amount, o1), w) ↦ elim (Bool-cases (amount == 0 || ltb requested amount)) [
          | inl g ↦ absurd (ground (arith, e, w, g))
          | inr g ↦
              let small : amount ≤ requested = ground (arith, g) in
              let (c, p) =
                law.writes o (take requested bytes) amount o1 w
                  (omega (arith, length-take requested bytes)) in
              let c' : contents o1 ≡ overwrite (position o) (take amount bytes) (contents o) =
                rw (take-take amount requested bytes small) at c in
              let n : length (take amount bytes) ≡ amount =
                omega (arith, length-take amount bytes) in
              let inside : position o1 ≤ length (contents o1) =
                rw (c', p)
                  (omega
                    (arith, n, length-overwrite (position o) (take amount bytes) (contents o) h)) in
              let (d, q) =
                write_loop-overwrites fuel o1 (drop amount bytes) o' (ground (arith, e, w, g))
                  inside in
              let r : position o1 ≡ position o + length (take amount bytes) = omega (arith, p, n) in
              let whole =
                overwrite-overwrite (position o) (take amount bytes) (drop amount bytes)
                  (contents o) h in
              let joined : overwrite (position o1) (drop amount bytes) (contents o1)
                  ≡ overwrite (position o) bytes (contents o) =
                rw (c', r) (rw (take-drop amount bytes) at whole) in
              (d ∙ joined, omega (arith, q, p, n, length-drop amount bytes))
        ]
      ]

  write_all-appends :
      (o : O) (bytes : List ℕ) (o' : O)
      → write_all interface o bytes ≡ some o'
      → position o ≡ length (contents o)
      → (contents o' ≡ contents o ++ bytes) × (position o' ≡ length (contents o'))
  unfolding write_all
  write_all-appends o bytes o' e h =
      let (c, p) = write_loop-overwrites (length bytes) o bytes o' e (omega (arith, h)) in
      let d : contents o' ≡ contents o ++ bytes = (rw h at c) ∙ overwrite-end bytes (contents o) in
      (d, rw d (omega (arith, p, h, length-append (contents o) bytes)))

  -- The writer stands at the end of what it has written, and counts it.
  pub record IsAppending (w : PcapWriter O) : Type 0 where
    pub at_end : position w.output ≡ length (contents w.output)
    pub counted : w.written ≡ length (contents w.output)
    pub fits : w.written < 2 ^ 64

  length-put32 : (value : ℕ) → length (put32 value) ≡ 4
  unfolding put32
  length-put32 value = refl

  length-packet_header :
      (time captured original : ℕ) → length (packet_header time captured original) ≡ 16
  unfolding packet_header put32
  length-packet_header time captured original = refl

  -- What the checks let through.
  writable :
      (w : PcapWriter O) (timestamp captured original link_type : ℕ) (is_null : Bool)
      (payload : List ℕ)
      → is_writable interface w timestamp captured original link_type is_null payload ≡ true
      → (captured ≡ length payload)
        × (captured ≤ original)
        × (captured < 2 ^ 32)
        × (w.written + (16 + captured) < 2 ^ 64)
  unfolding is_writable
  writable w timestamp captured original link_type is_null payload g = ground (arith, g)

  open_returned :
      (w : PcapWriter O) (s : WriterState) (body : Option (PcapWriter O)) (w' : PcapWriter O)
      → when_open w s body ≡ returned w'
      → body ≡ some w'
  open_returned w writing none w' e = absurd (ground (arith, e))
  open_returned w writing (some v) w' e = ground (arith, e)
  open_returned w finished body w' e = absurd (ground (arith, e))
  open_returned w failed body w' e = absurd (ground (arith, e))

  -- A writer after its two writes.
  wrote-IsAppending :
      (w : PcapWriter O) (header payload : List ℕ) (captured : ℕ) (o o' : O)
      → IsAppending w
      → length header ≡ 16
      → captured ≡ length payload
      → w.written + (16 + captured) < 2 ^ 64
      → write_all interface w.output header ≡ some o
      → write_all interface o payload ≡ some o'
      → (contents o' ≡ (contents w.output ++ header) ++ payload)
        × IsAppending (wrote interface w o' captured)
  wrote-IsAppending w header payload captured o o' h n c f e d =
      let (a, p) = write_all-appends w.output header o e h.at_end in
      let (b, q) = write_all-appends o payload o' d p in
      let b' : contents o' ≡ (contents w.output ++ header) ++ payload = rw a at b in
      (
        b',
        record {
          at_end = q;
          counted = rw b' (
              omega (
                arith,
                h.counted,
                n,
                c,
                length-append (contents w.output ++ header) payload,
                length-append (contents w.output) header,
              ));
          fits = f;
        },
      )

  abbrev Written : PcapWriter O → ℕ → ℕ → ℕ → List ℕ → PcapWriter O → Type 0
  Written w timestamp captured original payload w' =
      (contents w'.output
        ≡ (contents w.output ++ packet_header (timestamp - 2 ^ 63) captured original) ++ payload)
      × IsAppending w'
      × (w'.packets ≡ w.packets + 1)
      × (length payload ≤ w'.maximum_capture)
      × (captured ≤ original)

  try_packet-Written :
      (w : PcapWriter O) (timestamp captured original link_type : ℕ) (is_null : Bool)
      (payload : List ℕ) (w' : PcapWriter O)
      → IsAppending w
      → try_packet interface w timestamp captured original link_type is_null payload ≡ some w'
      → Written w timestamp captured original payload w'
  unfolding try_packet
  try_packet-Written w timestamp captured original link_type is_null payload w' h e =
      let header = packet_header (timestamp - 2 ^ 63) captured original in
      elim (Bool-cases
        (is_writable interface w timestamp captured original link_type is_null payload)) [
          | inr g ↦ absurd (ground (arith, e, g))
          | inl g ↦ elim (Option-cases (write_all interface w.output header)) [
            | inl a ↦ absurd (ground (arith, e, g, a))
            | inr (o, a) ↦ elim (Option-cases (write_all interface o payload)) [
              | inl b ↦ absurd (ground (arith, e, g, a, b))
              | inr (o', b) ↦
                  let (c, l, _, f) =
                    writable w timestamp captured original link_type is_null payload g in
                  let s : wrote interface w o' captured ≡ w' = ground (arith, e, g, a, b) in
                  let (x, y) =
                    wrote-IsAppending w header payload captured o o' h
                      (length-packet_header (timestamp - 2 ^ 63) captured original) c f a b in
                  let z : Written w timestamp captured original payload
                      (wrote interface w o' captured) =
                    (x, y, refl, omega (arith, c), l) in
                  rw (← s) z
            ]
          ]
        ]

  -- The output is a lawful one and the writer has appended so far: if `WritePacket` returns, the file
  -- has grown by exactly the packet's header and its payload, the writer still appends and counts
  -- what it wrote, one more packet is counted, and the inferred snaplen covers the payload.
  pub write_packet-IsAppending :
      (w : PcapWriter O) (timestamp captured original link_type : ℕ) (is_null : Bool)
      (payload : List ℕ) (w' : PcapWriter O)
      → IsAppending w
      → write_packet interface w timestamp captured original link_type is_null payload ≡ returned w'
      → (contents w'.output
          ≡ (contents w.output ++ packet_header (timestamp - 2 ^ 63) captured original) ++ payload)
        × IsAppending w'
        × (w'.packets ≡ w.packets + 1)
        × (length payload ≤ w'.maximum_capture)
        × (captured ≤ original)
  unfolding write_packet
  write_packet-IsAppending w timestamp captured original link_type is_null payload w' h e =
      try_packet-Written w timestamp captured original link_type is_null payload w' h (
        open_returned w w.state
          (try_packet interface w timestamp captured original link_type is_null payload) w' e)

  -- A new writer on an empty output has written the file's header and appends behind it.
  pub create-IsAppending :
      (o : O) (options : PcapWriterOptions) (w : PcapWriter O)
      → contents o ≡ []
      → position o ≡ 0
      → create interface o options ≡ some w
      → (contents w.output ≡ file_header (snaplen_of options 1) options.link_type) × IsAppending w
  unfolding create file_header put32
  create-IsAppending o options w c p e =
      elim (Bool-cases
        (ltb 65535 options.link_type || options.has_snaplen && options.snaplen == 0)) [
          | inl g ↦ absurd (ground (arith, e, g))
          | inr g ↦
              elim (Option-cases
                (write_all interface o (file_header (snaplen_of options 1) options.link_type))) [
                  | inl a ↦ absurd (ground (arith, e, g, a))
                  | inr (o', a) ↦
                      let (d, q) =
                        write_all-appends o (file_header (snaplen_of options 1) options.link_type)
                          o' a (p ∙ sym (ap length c)) in
                      let d' : contents o' ≡ file_header (snaplen_of options 1) options.link_type =
                        rw c at d in
                      let n : length (contents o') ≡ 24 =
                        ap length d'
                        ∙ length-file_header (snaplen_of options 1) options.link_type in
                      let s : w.output ≡ o' = ground (arith, e, g, a) in
                      let t : w.written ≡ 24 = ground (arith, e, g, a) in
                      (
                        rw s d',
                        record {
                          at_end = rw s q;
                          counted = rw s (t ∙ sym n);
                          fits = omega (arith, t);
                        },
                      )
                ]
        ]
    where
      length-file_header : (snaplen link_type : ℕ) → length (file_header snaplen link_type) ≡ 24
      length-file_header snaplen link_type = refl

  patch_snaplen-overwrites :
      (w : PcapWriter O) (o : O)
      → IsAppending w
      → 20 ≤ length (contents w.output)
      → patch_snaplen interface w ≡ some o
      → (contents o ≡ overwrite 16 (put32 w.maximum_capture) (contents w.output))
        × (position o ≡ w.written)
  unfolding patch_snaplen write_all
  patch_snaplen-overwrites w o h l e = elim (Option-cases (interface.seek w.output 16)) [
    | inl a ↦ absurd (ground (arith, e, a))
    | inr (o1, a) ↦ elim (Option-cases (write_all interface o1 (put32 w.maximum_capture))) [
      | inl b ↦ absurd (ground (arith, e, a, b))
      | inr (o2, b) ↦
          let (c, p) = law.seeks w.output 16 o1 a in
          let inside : position o1 ≤ length (contents o1) = rw (c, p) (omega (arith, l)) in
          let (d, q) =
            write_loop-overwrites (length (put32 w.maximum_capture)) o1 (put32 w.maximum_capture) o2
              b inside in
          let (k, r) = law.seeks o2 w.written o (ground (arith, e, a, b)) in
          (k ∙ (rw (c, p) at d), r)
    ]
  ]

  -- On a lawful output, with a file that holds the whole header: if `Finish` returns, the file has
  -- the inferred snaplen in its header if none was given, and is as it was otherwise; the output
  -- stands at its end again, and the writer is finished.
  pub finish_writer-overwrites :
      (w w' : PcapWriter O)
      → IsAppending w
      → 20 ≤ length (contents w.output)
      → finish_writer interface w ≡ returned w'
      → (contents w'.output ≡ (
          if w.options.has_snaplen
          then contents w.output
          else overwrite 16 (put32 w.maximum_capture) (contents w.output)))
        × (position w'.output ≡ length (contents w'.output))
        × (w'.state ≡ finished)
  unfolding finish_writer try_finish
  finish_writer-overwrites w w' h l e =
      let e' = open_returned w w.state (try_finish interface w) w' e in
      elim (Bool-cases w.options.has_snaplen) [
        | inl s ↦
            let o : w'.output ≡ w.output = ground (arith, e', s) in
            rw (o, s) (refl, h.at_end, ground (arith, e', s))
        | inr s ↦ elim (Option-cases (patch_snaplen interface w)) [
          | inl a ↦ absurd (ground (arith, e', s, a))
          | inr (o1, a) ↦
              let (c, p) = patch_snaplen-overwrites w o1 h l a in
              let o : w'.output ≡ o1 = ground (arith, e', s, a) in
              let n : length (overwrite 16 (put32 w.maximum_capture) (contents w.output))
                  ≡ length (contents w.output) =
                length-inside 16 (put32 w.maximum_capture) (contents w.output)
                  (omega (arith, l, length-put32 w.maximum_capture)) in
              rw (o, s) (c, p ∙ h.counted ∙ sym n ∙ sym (ap length c), ground (arith, e', s, a))
        ]
      ]
