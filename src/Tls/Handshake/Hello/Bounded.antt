-- ===== src/Tls/Handshake/Hello/Bounded.antt =====
-- Hellos of src/tls_handshake.cpp: the limits on their lists, and the assertions of the list readers
-- and of the walk over the extensions.
use packet_quapture.Base.{
  ℕ, zero, suc, ◌+◌, ◌-◌, ◌<◌, ◌≡◌, refl, Bool, true, false, not, ◌||◌, List, [], ◌∷◌, ◌==◌, ltb,
  leb, if◌then◌else◌, Option, some, length as count, ◌>>=◌, Yields, Yields->>=, Yields-if,
  Yields-guard, arith, Option-cases, Bool-cases, inl, inr, length-append, Bytes,
}
use packet_quapture.Tls.Reader.{
  TlsReader, start, remaining, u8_of, u16_of, skip, sub, take_bytes, skip_vector,
}
use packet_quapture.Tls.Handshake.Types.{
  TlsHandshakeLimits, no_list, limited_list, TlsHandshake, no_handshake, ListBudget,
}
use packet_quapture.Tls.Handshake.Lists.{ListRead, read_codes}
use packet_quapture.Tls.Handshake.Lists.Bounded.{
  IsListed, IsCodes, no_list-IsListed, limited-IsListed, read_codes-IsCodes,
}
use packet_quapture.Tls.Handshake.Extensions.{
  Parsed, parse_body, types_of, set_types, add_type, Walked, end_walk, extensions_loop,
  parse_extensions,
}
use packet_quapture.Tls.Handshake.Hello.{
  Hello, broken, with_version, end_hello, parse_tail, parse_client_suites, parse_server_suite,
  parse_suites, parse_hello,
}
use packet_quapture.Tls.Handshake.Extensions.Bounded.{IsWithin, IsBody, parse_body-IsBody}

-- The types of the extensions so far, as many as were counted.
record IsCounted (client : Bool) (number : ℕ) (h : TlsHandshake) : Type 0 where
  pub present : (types_of client h).present ≡ true
  pub counted : count (types_of client h).values ≡ number

add_type-IsWithin :
    (limits : TlsHandshakeLimits) (client : Bool) (type number : ℕ) (h : TlsHandshake)
    → IsWithin limits h
    → IsCounted client number h
    → number < limits.max_extensions
    → IsWithin limits (add_type client type h)
      × IsCounted client (number + 1) (add_type client type h)
add_type-IsWithin limits true type number h w c l =
    ground (arith, w, c, l, length-append h.client_extensions.values (type ∷ []))
add_type-IsWithin limits false type number h w c l =
    ground (arith, w, c, l, length-append h.server_extensions.values (type ∷ []))

limited-IsWithin :
    (limits : TlsHandshakeLimits) (client : Bool) (h : TlsHandshake)
    → IsWithin limits h
    → IsWithin limits (set_types client h limited_list)
limited-IsWithin limits true h w =
    let l = limited-IsListed {A = ℕ} limits.max_extensions in ground (arith, w, l)
limited-IsWithin limits false h w =
    let l = limited-IsListed {A = ℕ} limits.max_extensions in ground (arith, w, l)

body-IsCounted :
    (limits : TlsHandshakeLimits) (client : Bool) (number : ℕ) (h : TlsHandshake) (p : Parsed)
    → IsBody limits h p
    → IsCounted client number h
    → IsCounted client number p.1
body-IsCounted limits true number h p b c = ground (arith, b.client_types, c)
body-IsCounted limits false number h p b c = ground (arith, b.server_types, c)

abbrev IsWalked : TlsHandshakeLimits → Walked → Type 0
IsWalked limits w = IsWithin limits w.handshake

end_walk-IsWalked :
    (limits : TlsHandshakeLimits) (client : Bool) (r : TlsReader) (budget : ListBudget)
    (h : TlsHandshake)
    → IsWithin limits h
    → Yields (IsWalked limits) (end_walk limits client r budget h)
unfolding end_walk
end_walk-IsWalked limits true r budget h w =
    Yields-guard (IsWalked limits) (leb (count h.client_extensions.values) limits.max_extensions)
      (some (record { complete = not r.overrun; budget = budget; handshake = h }))
      (ground (arith, w.client_types)) w
end_walk-IsWalked limits false r budget h w =
    Yields-guard (IsWalked limits) (leb (count h.server_extensions.values) limits.max_extensions)
      (some (record { complete = not r.overrun; budget = budget; handshake = h }))
      (ground (arith, w.server_types)) w

extensions_loop-IsWalked :
    (limits : TlsHandshakeLimits) (client : Bool) (fuel : ℕ) (r : TlsReader)
    (extensions_length consumed number : ℕ) (budget : ListBudget) (h : TlsHandshake)
    → extensions_length - consumed < fuel
    → budget.cap_entries ≡ limits.max_list_entries
    → IsWithin limits h
    → IsCounted client number h
    → Yields
        (IsWalked limits)
        (extensions_loop fuel limits client r extensions_length consumed number budget h)
unfolding extensions_loop
extensions_loop-IsWalked limits client zero r n consumed number budget h l room w c =
    absurd (omega arith)
extensions_loop-IsWalked limits client (suc fuel) r n consumed number budget h l room w c =
    let type = (u16_of r).0 in
    let length = (u16_of (u16_of r).1).0 in
    let r2 = (u16_of (u16_of r).1).1 in
    elim (Bool-cases (leb (consumed + 4) n)) [
      | inr a ↦ rw a (end_walk-IsWalked limits client r budget h w)
      | inl a ↦ elim (Bool-cases (r2.overrun || ltb (n - (consumed + 4)) length)) [
        | inl b ↦ rw (a, b) w
        | inr b ↦ elim (Bool-cases (ltb limits.max_extensions (number + 1))) [
          | inl d ↦ rw (a, b, d) (limited-IsWithin limits client h w)
          | inr d ↦ elim (Option-cases (sub r2 length).0) [
            | inl e ↦ rw (a, b, d, e) w
            | inr (inner, e) ↦
                let (w', c') =
                  add_type-IsWithin limits client type number h w c (ground (arith, d)) in
                let h' = add_type client type h in
                let body = parse_body-IsBody limits budget room h' w' type inner client in
                rw (a, b, d, e)
                  (Yields->>= (IsBody limits h') (IsWalked limits)
                    (parse_body type inner client budget h')
                    (λ (b', h'').
                      extensions_loop fuel limits client (sub r2 length).1 n (consumed + 4 + length)
                        (number + 1) b' h'')
                    body
                    (λ (b', h'') p.
                      let k = body-IsCounted limits client (number + 1) h' (b', h'') p c' in
                      extensions_loop-IsWalked limits client fuel (sub r2 length).1 n
                        (consumed + 4 + length) (number + 1) b' h'' (ground (arith, l, a)) p.cap
                        p.within k))
          ]
        ]
      ]
    ]

extensions-IsWalked :
    (r : TlsReader) (client : Bool) (limits : TlsHandshakeLimits) (budget : ListBudget)
    (h : TlsHandshake)
    → budget.cap_entries ≡ limits.max_list_entries
    → IsWithin limits h
    → IsCounted client 0 h
    → Yields (IsWalked limits) (parse_extensions r client limits budget h)
unfolding parse_extensions
extensions-IsWalked r client limits budget h room w c =
    let length = (u16_of r).0 in
    let r1 = (u16_of r).1 in
    elim (Bool-cases r1.overrun) [
      | inl e ↦ rw (e, parse_extensions) w
      | inr e ↦
          rw (e, parse_extensions)
            (extensions_loop-IsWalked limits client (suc length) r1 length 0 0 budget h
              (omega arith) room w c)
    ]

-- A hello's handshake is within the limits.
abbrev pub IsParsed : TlsHandshakeLimits → Hello → Type 0
IsParsed limits hello = IsWithin limits hello.handshake

end_hello-IsParsed :
    (limits : TlsHandshakeLimits) (session_id : List ℕ) (walk : Walked)
    → IsWithin limits walk.handshake
    → Yields (IsParsed limits) (end_hello session_id walk)
end_hello-IsParsed limits session_id walk w = ground (arith, w)

-- No type of an extension is known yet.
abbrev NoTypes : TlsHandshake → Type 0
NoTypes h = (h.client_extensions ≡ no_list) × (h.server_extensions ≡ no_list)

known-IsWithin :
    (limits : TlsHandshakeLimits) (client : Bool) (h : TlsHandshake)
    → IsWithin limits h
    → NoTypes h
    → IsWithin limits (set_types client h (record (types_of client h) { present = true }))
      × IsCounted client 0 (set_types client h (record (types_of client h) { present = true }))
known-IsWithin limits true h w n = ground (arith, w, n)
known-IsWithin limits false h w n = ground (arith, w, n)

tail-IsParsed :
    (client : Bool) (limits : TlsHandshakeLimits) (r : TlsReader) (budget : ListBudget)
    (h : TlsHandshake) (session_id : List ℕ)
    → budget.cap_entries ≡ limits.max_list_entries
    → IsWithin limits h
    → NoTypes h
    → Yields (IsParsed limits) (parse_tail client limits r budget h session_id)
unfolding parse_tail
tail-IsParsed client limits r budget h session_id room w n =
    let known = set_types client h (record (types_of client h) { present = true }) in
    let (w', c) = known-IsWithin limits client h w n in
    let nothing : Walked = record { complete = true; budget = budget; handshake = known } in
    let walk = extensions-IsWalked r client limits budget known room w' c in
    Yields-if (IsParsed limits) (remaining r == 0) (end_hello session_id nothing)
      (parse_extensions r client limits budget known >>= end_hello session_id)
      (λ _. end_hello-IsParsed limits session_id nothing w')
      (λ _.
        Yields->>= (IsWalked limits) (IsParsed limits)
          (parse_extensions r client limits budget known) (end_hello session_id) walk
          (λ x y. end_hello-IsParsed limits session_id x y))

client-IsParsed :
    (limits : TlsHandshakeLimits) (r : TlsReader) (budget : ListBudget) (h : TlsHandshake)
    (session_id : List ℕ)
    → budget.cap_entries ≡ limits.max_list_entries
    → IsWithin limits h
    → NoTypes h
    → Yields (IsParsed limits) (parse_client_suites limits r budget h session_id)
unfolding parse_client_suites
client-IsParsed limits r budget h session_id room w n =
    let tail : ListRead ℕ → Option Hello = λ suites.
      let h' = record h { client_cipher_suites = suites.list } in
      let (skipped, r') = skip_vector suites.reader 1 in
      if not suites.complete || not skipped
      then broken h' session_id
      else parse_tail true limits r' suites.budget h' session_id in
    Yields->>= (IsCodes budget.cap_entries) (IsParsed limits) (read_codes r 2 false budget) tail
      (read_codes-IsCodes r 2 false budget)
      (λ suites p.
        let h' : TlsHandshake = record h { client_cipher_suites = suites.list } in
        let l : IsListed limits.max_list_entries suites.list = rw room at p.listed in
        let w' : IsWithin limits h' = ground (arith, w, l) in
        let n' : NoTypes h' = n in
        let r' = (skip_vector suites.reader 1).1 in
        Yields-if (IsParsed limits) (not suites.complete || not (skip_vector suites.reader 1).0)
          (broken h' session_id) (parse_tail true limits r' suites.budget h' session_id) (λ _. w')
          (λ _.
            tail-IsParsed true limits r' suites.budget h' session_id
              (ground (arith, room, p.cap_kept)) w' n'))

server-IsParsed :
    (limits : TlsHandshakeLimits) (r : TlsReader) (budget : ListBudget) (h : TlsHandshake)
    (session_id : List ℕ)
    → budget.cap_entries ≡ limits.max_list_entries
    → IsWithin limits h
    → NoTypes h
    → Yields (IsParsed limits) (parse_server_suite limits r budget h session_id)
unfolding parse_server_suite
server-IsParsed limits r budget h session_id room w n =
    let suite = (u16_of r).0 in
    let r1 = (u16_of r).1 in
    let h' : TlsHandshake = record h { has_cipher_suite = true; cipher_suite = suite } in
    let w' : IsWithin limits h' = ground (arith, w) in
    let r2 = (skip r1 1).1 in
    let rest = parse_tail false limits r2 budget h' session_id in
    Yields-if (IsParsed limits) r1.overrun (broken h session_id)
      (if not (skip r1 1).0 then broken h' session_id else rest) (λ _. w)
      (λ _.
        Yields-if (IsParsed limits) (not (skip r1 1).0) (broken h' session_id) rest (λ _. w')
          (λ _. tail-IsParsed false limits r2 budget h' session_id room w' n))

blank-IsWithin : (limits : TlsHandshakeLimits) → IsWithin limits no_handshake
blank-IsWithin limits =
    let entries = limits.max_list_entries in
    record {
      suites = no_list-IsListed entries;
      groups = no_list-IsListed entries;
      signatures = no_list-IsListed entries;
      offered = no_list-IsListed entries;
      formats = no_list-IsListed entries;
      client_protocols = no_list-IsListed entries;
      server_protocols = no_list-IsListed entries;
      selected = no_list-IsListed 1;
      client_types = no_list-IsListed limits.max_extensions;
      server_types = no_list-IsListed limits.max_extensions;
    }

version-IsWithin :
    (limits : TlsHandshakeLimits) (client : Bool) (version : ℕ)
    → IsWithin limits (with_version client version no_handshake)
      × NoTypes (with_version client version no_handshake)
version-IsWithin limits true version = (ground (arith, blank-IsWithin limits), (refl, refl))
version-IsWithin limits false version = (ground (arith, blank-IsWithin limits), (refl, refl))

suites-IsParsed :
    (client : Bool) (limits : TlsHandshakeLimits) (r : TlsReader) (budget : ListBudget)
    (h : TlsHandshake) (session_id : List ℕ)
    → budget.cap_entries ≡ limits.max_list_entries
    → IsWithin limits h
    → NoTypes h
    → Yields (IsParsed limits) (parse_suites client limits r budget h session_id)
suites-IsParsed true = client-IsParsed
suites-IsParsed false = server-IsParsed

-- ParseHello on a new handshake gives a result for any bytes and limits: none of the assertions in its
-- readers of lists and in its walk over the extensions fails, and each list of the
-- result has at most as many values as its limit, values only if it is present, and is then neither
-- malformed nor over the limit.
pub parse_hello-IsParsed :
    (body : Bytes) (size : ℕ) (client : Bool) (limits : TlsHandshakeLimits) (session_id : List ℕ)
    → Yields (IsParsed limits) (parse_hello body size client limits no_handshake session_id)
unfolding parse_hello
parse_hello-IsParsed body size client limits session_id =
    let r = start body size in
    let version = (u16_of r).0 in
    let r1 = (u16_of r).1 in
    let h = with_version client version no_handshake in
    let (w, n) = version-IsWithin limits client version in
    let r2 = (skip r1 32).1 in
    let length = (u8_of r2).0 in
    let r3 = (u8_of r2).1 in
    let budget : ListBudget = record { cap_entries = limits.max_list_entries; exceeded = false } in
    elim (Bool-cases r1.overrun) [
      | inl a ↦ rw (a, parse_hello) (blank-IsWithin limits)
      | inr a ↦ elim (Bool-cases (not (skip r1 32).0 || r3.overrun)) [
        | inl b ↦ rw (a, b, parse_hello) w
        | inr b ↦ elim (Option-cases (take_bytes r3 length).0) [
          | inl e ↦ rw (a, b, e, parse_hello) w
          | inr (id, e) ↦
              rw (a, b, e, parse_hello)
                (suites-IsParsed client limits (take_bytes r3 length).1 budget h id refl w n)
        ]
      ]
    ]
