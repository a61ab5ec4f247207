-- ===== src/Tls/Handshake/Extensions/Bounded.antt =====
-- The bodies of extensions in src/tls_handshake.cpp: the limits on their lists, and the assertions of
-- the list readers.
use packet_quapture.Base.{
  ℕ, ◌≡◌, refl, Bool, true, false, not, ◌&&◌, ◌||◌, List, [], ◌∷◌, ◌==◌, Option, some, ◌>>=◌,
  Yields, Yields->>=, arith, Bool-cases, inl, inr,
}
use packet_quapture.Tls.Reader.{TlsReader, remaining, u16_of}
use packet_quapture.Tls.Handshake.Types.{TlsHandshakeLimits, TlsList, TlsHandshake, ListBudget}
use packet_quapture.Tls.Handshake.Lists.{
  read_codes, Listed, read_point_formats, read_alpn, is_seen, unless_duplicate, read_server_name,
}
use packet_quapture.Tls.Handshake.Lists.Bounded.{
  IsListed, IsRead, IsCodes, malformed-IsListed, present-IsListed, read_codes-IsCodes,
  read_point_formats-IsRead, read_alpn-IsRead, unless_duplicate-IsRead,
}
use packet_quapture.Tls.Handshake.Extensions.{
  Parsed, read_code_list, select_version, parse_supported_versions, parse_groups, parse_signatures,
  parse_point_formats, alpn_of, set_alpn, parse_alpn, parse_body,
}

-- Every list is within its limit.
pub record IsWithin (limits : TlsHandshakeLimits) (h : TlsHandshake) : Type 0 where
  pub suites : IsListed limits.max_list_entries h.client_cipher_suites
  pub groups : IsListed limits.max_list_entries h.client_supported_groups
  pub signatures : IsListed limits.max_list_entries h.client_signature_algorithms
  pub offered : IsListed limits.max_list_entries h.client_supported_versions
  pub formats : IsListed limits.max_list_entries h.client_ec_point_formats
  pub client_protocols : IsListed limits.max_list_entries h.client_alpn
  pub server_protocols : IsListed limits.max_list_entries h.server_alpn
  pub selected : IsListed 1 h.server_supported_versions
  pub client_types : IsListed limits.max_extensions h.client_extensions
  pub server_types : IsListed limits.max_extensions h.server_extensions

-- Behind an extension's body: the limit stands, and so do the types of the extensions.
pub record IsBody (limits : TlsHandshakeLimits) (h : TlsHandshake) (p : Parsed) : Type 0 where
  pub cap : p.0.cap_entries ≡ limits.max_list_entries
  pub within : IsWithin limits p.1
  pub client_types : p.1.client_extensions ≡ h.client_extensions
  pub server_types : p.1.server_extensions ≡ h.server_extensions

module _ (limits : TlsHandshakeLimits) (budget : ListBudget)
    (cap : budget.cap_entries ≡ limits.max_list_entries) (h : TlsHandshake)
    (w : IsWithin limits h) where
  -- A list that was read is put in its place.
  listed-IsBody :
      {A : Type 0} (read : Option (Listed A)) (place : TlsList A → TlsHandshake)
      → Yields (IsRead budget.cap_entries) read
      → ((list : TlsList A)
          → IsListed limits.max_list_entries list
          → IsBody limits h (budget, place list))
      → Yields (IsBody limits h) (read >>= λ (b, list). some (b, place list))
  listed-IsBody read place y f =
      Yields->>= (IsRead budget.cap_entries) (IsBody limits h) read
        (λ (b, list). some (b, place list)) y
        (λ (b, list) r.
          let l : IsListed limits.max_list_entries list = rw cap at r.listed in
          let body = f list l in
          record {
            cap = ground (arith, r.cap_kept, cap);
            within = body.within;
            client_types = body.client_types;
            server_types = body.server_types;
          })

  read_code_list-IsRead :
      (r : TlsReader) (length_bytes : ℕ) (list : TlsList ℕ)
      → Yields (IsRead budget.cap_entries) (read_code_list r length_bytes budget list)
  unfolding read_code_list
  read_code_list-IsRead r length_bytes list =
      unless_duplicate-IsRead list budget
        (read_codes r length_bytes true budget >>= λ l. some (l.budget, l.list))
        (Yields->>= (IsCodes budget.cap_entries) (IsRead budget.cap_entries)
          (read_codes r length_bytes true budget) (λ l. some (l.budget, l.list))
          (read_codes-IsCodes r length_bytes true budget) (λ l p. p))

  groups-IsBody : (r : TlsReader) → Yields (IsBody limits h) (parse_groups r budget h)
  unfolding parse_groups
  groups-IsBody r =
      listed-IsBody (read_code_list r 2 budget h.client_supported_groups)
        (λ list. record h { client_supported_groups = list })
        (read_code_list-IsRead r 2 h.client_supported_groups)
        (λ list l. record {
          cap = cap;
          within = ground (arith, w, l);
          client_types = refl;
          server_types = refl;
        })

  signatures-IsBody : (r : TlsReader) → Yields (IsBody limits h) (parse_signatures r budget h)
  unfolding parse_signatures
  signatures-IsBody r =
      listed-IsBody (read_code_list r 2 budget h.client_signature_algorithms)
        (λ list. record h { client_signature_algorithms = list })
        (read_code_list-IsRead r 2 h.client_signature_algorithms)
        (λ list l. record {
          cap = cap;
          within = ground (arith, w, l);
          client_types = refl;
          server_types = refl;
        })

  formats-IsBody : (r : TlsReader) → Yields (IsBody limits h) (parse_point_formats r budget h)
  unfolding parse_point_formats
  formats-IsBody r =
      listed-IsBody
        (unless_duplicate h.client_ec_point_formats budget (read_point_formats r budget))
        (λ list. record h { client_ec_point_formats = list })
        (unless_duplicate-IsRead h.client_ec_point_formats budget (read_point_formats r budget)
          (read_point_formats-IsRead r budget))
        (λ list l. record {
          cap = cap;
          within = ground (arith, w, l);
          client_types = refl;
          server_types = refl;
        })

  set_alpn-IsBody :
      (client : Bool) (list : TlsList (List ℕ))
      → IsListed limits.max_list_entries list
      → IsBody limits h (budget, set_alpn client h list)
  set_alpn-IsBody true list l = record {
    cap = cap;
    within = ground (arith, w, l);
    client_types = refl;
    server_types = refl;
  }
  set_alpn-IsBody false list l = record {
    cap = cap;
    within = ground (arith, w, l);
    client_types = refl;
    server_types = refl;
  }

  alpn-IsBody :
      (r : TlsReader) (client : Bool) → Yields (IsBody limits h) (parse_alpn r client budget h)
  unfolding parse_alpn
  alpn-IsBody r client =
      listed-IsBody (unless_duplicate (alpn_of client h) budget (read_alpn r client budget))
        (set_alpn client h)
        (unless_duplicate-IsRead (alpn_of client h) budget (read_alpn r client budget)
          (read_alpn-IsRead r client budget))
        (set_alpn-IsBody client)

  select-IsBody : (r : TlsReader) → IsBody limits h (select_version r budget h)
  unfolding select_version
  select-IsBody r =
      let bad = malformed-IsListed {A = ℕ} 1 in
      let good = present-IsListed 1 ((u16_of r).0 ∷ []) (omega arith) in
      elim (Bool-cases (
        is_seen h.server_supported_versions
        || (u16_of r).1.overrun
        || not (remaining (u16_of r).1 == 0))) [
          | inl e ↦
              rw (e, select_version)
                (record {
                  cap = cap;
                  within = ground (arith, w, bad);
                  client_types = refl;
                  server_types = refl;
                })
          | inr e ↦
              rw (e, select_version)
                (record {
                  cap = cap;
                  within = ground (arith, w, good);
                  client_types = refl;
                  server_types = refl;
                })
        ]

  versions-IsBody :
      (r : TlsReader) (client : Bool)
      → Yields (IsBody limits h) (parse_supported_versions r client budget h)
  unfolding parse_supported_versions
  versions-IsBody r client =
      let offered =
        listed-IsBody (read_code_list r 1 budget h.client_supported_versions)
          (λ list. record h { client_supported_versions = list })
          (read_code_list-IsRead r 1 h.client_supported_versions)
          (λ list l. record {
            cap = cap;
            within = ground (arith, w, l);
            client_types = refl;
            server_types = refl;
          }) in
      elim (Bool-cases client) [
        | inl e ↦ rw (e, parse_supported_versions) offered
        | inr e ↦ rw (e, parse_supported_versions) (select-IsBody r)
      ]

  name-IsBody : (r : TlsReader) → IsBody limits h (budget, read_server_name r h)
  unfolding read_server_name
  name-IsBody r = record {
    cap = cap;
    within = ground (arith, w);
    client_types = ground arith;
    server_types = ground arith;
  }

  pub parse_body-IsBody :
      (type : ℕ) (r : TlsReader) (client : Bool)
      → Yields (IsBody limits h) (parse_body type r client budget h)
  unfolding parse_body
  parse_body-IsBody type r client = elim (Bool-cases (type == 0 && client)) [
    | inl a ↦ rw (a, parse_body) (name-IsBody r)
    | inr a ↦ elim (Bool-cases (type == 43)) [
      | inl b ↦ rw (a, b, parse_body) (versions-IsBody r client)
      | inr b ↦ elim (Bool-cases (client && type == 10)) [
        | inl c ↦ rw (a, b, c, parse_body) (groups-IsBody r)
        | inr c ↦ elim (Bool-cases (client && type == 13)) [
          | inl d ↦ rw (a, b, c, d, parse_body) (signatures-IsBody r)
          | inr d ↦ elim (Bool-cases (client && type == 11)) [
            | inl e ↦ rw (a, b, c, d, e, parse_body) (formats-IsBody r)
            | inr e ↦ elim (Bool-cases (type == 16)) [
              | inl f ↦ rw (a, b, c, d, e, f, parse_body) (alpn-IsBody r client)
              | inr f ↦
                  rw (a, b, c, d, e, f, parse_body)
                    (record { cap = cap; within = w; client_types = refl; server_types = refl })
            ]
          ]
        ]
      ]
    ]
  ]
