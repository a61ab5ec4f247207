-- ===== src/Tls/Handshake/Extensions.antt =====
-- `ParseSupportedVersions` and `ParseExtensions` of src/tls_handshake.cpp.
pub mod Bounded
use packet_quapture.Base.{
  ℕ, zero, suc, ◌+◌, ◌-◌, Bool, true, false, not, ◌&&◌, ◌||◌, List, [], ◌∷◌, ◌++◌, ◌==◌, ltb, leb,
  if◌then◌else◌, Option, none, some, length as count, ◌>>=◌, ◌>>◌, guard,
}
use packet_quapture.Tls.Reader.{TlsReader, remaining, u16_of, sub}
use packet_quapture.Tls.Handshake.Types.{
  TlsHandshakeLimits, TlsList, limited_list, malformed_list, present_list, TlsHandshake, ListBudget,
  exceed,
}
use packet_quapture.Tls.Handshake.Lists.{
  read_server_name, ListRead, Listed, read_codes, read_point_formats, read_alpn, is_seen,
  unless_duplicate,
}

abbrev pub extension_supported_groups : ℕ
extension_supported_groups = 10

abbrev pub extension_ec_point_formats : ℕ
extension_ec_point_formats = 11

abbrev pub extension_signature_algorithms : ℕ
extension_signature_algorithms = 13

abbrev pub extension_alpn : ℕ
extension_alpn = 16

abbrev pub tls_extension_server_name : ℕ
tls_extension_server_name = 0

abbrev pub tls_extension_supported_versions : ℕ
tls_extension_supported_versions = 43

-- The budget and the handshake behind an extension.
abbrev pub Parsed : Type 0
Parsed = ListBudget × TlsHandshake

-- A list of code points that fills the body of an extension.
unfoldable pub read_code_list : TlsReader → ℕ → ListBudget → TlsList ℕ → Option (Listed ℕ)
read_code_list r length_bytes budget list =
    let read = read_codes r length_bytes true budget >>= λ l. some (l.budget, l.list) in
    unless_duplicate list budget read

-- The one version that a server selects.
unfoldable pub select_version : TlsReader → ListBudget → TlsHandshake → Parsed
select_version r budget h =
    let (version, r1) = u16_of r in
    if is_seen h.server_supported_versions || r1.overrun || not (remaining r1 == 0)
    then (
      budget,
      record h {
        server_supported_versions = malformed_list;
        has_negotiated_version = false;
        negotiated_version = 0;
      },
    )
    else (
      budget,
      record h {
        server_supported_versions = present_list (version ∷ []);
        has_negotiated_version = true;
        negotiated_version = version;
      },
    )

unfoldable pub parse_supported_versions :
    TlsReader → Bool → ListBudget → TlsHandshake → Option Parsed
parse_supported_versions r client budget h =
    let offered =
      (read_code_list r 1 budget h.client_supported_versions >>= λ (b, list).
      some (b, record h { client_supported_versions = list })) in
    if client then offered else some (select_version r budget h)

unfoldable pub parse_groups : TlsReader → ListBudget → TlsHandshake → Option Parsed
parse_groups r budget h = read_code_list r 2 budget h.client_supported_groups >>= λ (b, list).
    some (b, record h { client_supported_groups = list })

unfoldable pub parse_signatures : TlsReader → ListBudget → TlsHandshake → Option Parsed
parse_signatures r budget h =
    read_code_list r 2 budget h.client_signature_algorithms >>= λ (b, list).
    some (b, record h { client_signature_algorithms = list })

unfoldable pub parse_point_formats : TlsReader → ListBudget → TlsHandshake → Option Parsed
parse_point_formats r budget h =
    unless_duplicate h.client_ec_point_formats budget (read_point_formats r budget) >>= λ (b, list).
    some (b, record h { client_ec_point_formats = list })

abbrev pub alpn_of : Bool → TlsHandshake → TlsList (List ℕ)
alpn_of client h = if client then h.client_alpn else h.server_alpn

abbrev pub set_alpn : Bool → TlsHandshake → TlsList (List ℕ) → TlsHandshake
set_alpn true h list = record h { client_alpn = list }
set_alpn false h list = record h { server_alpn = list }

unfoldable pub parse_alpn : TlsReader → Bool → ListBudget → TlsHandshake → Option Parsed
parse_alpn r client budget h =
    unless_duplicate (alpn_of client h) budget (read_alpn r client budget) >>= λ (b, list).
    some (b, set_alpn client h list)

-- The body of one extension.
unfoldable pub parse_body : ℕ → TlsReader → Bool → ListBudget → TlsHandshake → Option Parsed
parse_body type r client budget h =
    if type == tls_extension_server_name && client
    then some (budget, read_server_name r h)
    else if type == tls_extension_supported_versions
    then parse_supported_versions r client budget h
    else if client && type == extension_supported_groups
    then parse_groups r budget h
    else if client && type == extension_signature_algorithms
    then parse_signatures r budget h
    else if client && type == extension_ec_point_formats
    then parse_point_formats r budget h
    else if type == extension_alpn
    then parse_alpn r client budget h
    else some (budget, h)

abbrev pub types_of : Bool → TlsHandshake → TlsList ℕ
types_of client h = if client then h.client_extensions else h.server_extensions

abbrev pub set_types : Bool → TlsHandshake → TlsList ℕ → TlsHandshake
set_types true h list = record h { client_extensions = list }
set_types false h list = record h { server_extensions = list }

abbrev pub add_type : Bool → ℕ → TlsHandshake → TlsHandshake
add_type client type h =
    let list = types_of client h in
    set_types client h (record list { values = list.values ++ type ∷ [] })

-- The return value of `ParseExtensions`, with the reader, the budget and the handshake.
pub record Walked : Type 0 where
  pub complete : Bool
  pub budget : ListBudget
  pub handshake : TlsHandshake

-- The end of the walk.
unfoldable pub end_walk :
    TlsHandshakeLimits → Bool → TlsReader → ListBudget → TlsHandshake → Option Walked
end_walk limits client r budget h =
    guard (leb (count (types_of client h).values) limits.max_extensions)
    >> some (record { complete = not r.overrun; budget = budget; handshake = h })

abbrev pub stop_walk : Bool → ListBudget → TlsHandshake → Option Walked
stop_walk complete budget h = some (record { complete = complete; budget = budget; handshake = h })

-- The loop over the extensions. A round adds four or more to `consumed`.
unfoldable pub extensions_loop :
    ℕ
    → TlsHandshakeLimits
    → Bool
    → TlsReader
    → ℕ
    → ℕ
    → ℕ
    → ListBudget
    → TlsHandshake
    → Option Walked
extensions_loop zero limits client r extensions_length consumed number budget h = none
extensions_loop (suc fuel) limits client r extensions_length consumed number budget h =
    let (type, r1) = u16_of r in
    let (length, r2) = u16_of r1 in
    let consumed' = consumed + 4 in
    let (inner, r3) = sub r2 length in
    if leb (consumed + 4) extensions_length
    then if r2.overrun || ltb (extensions_length - consumed') length
      then stop_walk false budget h
      else if ltb limits.max_extensions (number + 1)
      then stop_walk true (exceed budget) (set_types client h limited_list)
      else elim inner [
        | none ↦ stop_walk false budget h
        | some extension ↦
            parse_body type extension client budget (add_type client type h) >>= λ (b, h').
            extensions_loop fuel limits client r3 extensions_length (consumed' + length)
              (number + 1) b h'
      ]
    else end_walk limits client r budget h

unfoldable pub parse_extensions :
    TlsReader → Bool → TlsHandshakeLimits → ListBudget → TlsHandshake → Option Walked
parse_extensions r client limits budget h =
    let (extensions_length, r1) = u16_of r in
    if r1.overrun
    then stop_walk false budget h
    else extensions_loop (suc extensions_length) limits client r1 extensions_length 0 0 budget h
