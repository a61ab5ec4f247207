-- ===== src/Tls/Handshake/Lists.antt =====
-- `ReadServerName`, `ReadCodes`, `ReadPointFormats`, `ReadAlpn` and `Duplicate` of src/tls_handshake.cpp.
pub mod Bounded
pub mod Spelled
use packet_quapture.Base.{
  ℕ, zero, suc, ◌+◌, ◌/◌, ◌%◌, Bool, true, false, not, ◌&&◌, ◌||◌, List, [], ◌∷◌, ◌++◌, ◌==◌, ltb,
  leb, if◌then◌else◌, Option, none, some, length as count, ◌>>=◌, ◌>>◌, guard,
}
use packet_quapture.Tls.Reader.{
  TlsReader, ServerName, remaining, u8_of, u16_of, skip, sub, take_bytes, vector_length,
  parse_tls_server_name,
}
use packet_quapture.Tls.Handshake.Types.{
  TlsList, no_list, malformed_list, limited_list, present_list, TlsHandshake, ListBudget, exceed,
}

abbrev pub without_name : TlsHandshake → TlsHandshake
without_name h = record h { has_sni = false; sni = []; sni_malformed = true }

unfoldable pub read_server_name : TlsReader → TlsHandshake → TlsHandshake
read_server_name r h =
    let name = parse_tls_server_name r in
    let seen = record h { sni_seen = true } in
    if h.sni_seen
    then without_name h
    else if name.complete
    then record seen { has_sni = name.has_name; sni = name.name }
    else without_name seen

-- The loop over the code points, on fuel.
unfoldable pub codes_loop : ℕ → TlsReader → Option (List ℕ × TlsReader)
codes_loop zero r = none
codes_loop (suc fuel) r =
    let (code, r') = u16_of r in
    if remaining r == 0
    then some ([], r)
    else codes_loop fuel r' >>= λ (codes, r''). some (code ∷ codes, r'')

-- The result of a list's reader: the return value, the reader, the budget and the list.
pub record ListRead (A : Type 0) : Type 0 where
  pub complete : Bool
  pub reader : TlsReader
  pub budget : ListBudget
  pub list : TlsList A

-- The code points that `Sub` gave.
unfoldable pub read_values : ℕ → TlsReader → TlsReader → ListBudget → Option (ListRead ℕ)
read_values length codes r budget = codes_loop (suc length) codes >>= λ (values, behind).
    guard (not behind.overrun && leb (count values) budget.cap_entries)
    >> some (record { complete = true; reader = r; budget = budget; list = present_list values })

unfoldable pub read_codes : TlsReader → ℕ → Bool → ListBudget → Option (ListRead ℕ)
read_codes r length_bytes exact budget =
    let (length, r1) = vector_length r length_bytes in
    let (codes, r2) = sub r1 length in
    let failed : ListRead ℕ = record {
      complete = false;
      reader = r1;
      budget = budget;
      list = malformed_list;
    } in
    elim codes [
      | none ↦ some (record failed { reader = if r1.overrun then r1 else r2 })
      | some inner ↦
          if r1.overrun
          then some failed
          else if not (length % 2 == 0) || exact && not (remaining r2 == 0)
          then some (record failed { complete = true; reader = r2 })
          else if ltb budget.cap_entries (length / 2)
          then some
              (record { complete = true; reader = r2; budget = exceed budget; list = limited_list })
          else read_values length inner r2 budget
    ]

-- A list with what reading it leaves of the budget.
abbrev pub Listed : Type 0 → Type 0
Listed A = ListBudget × TlsList A

unfoldable pub read_point_formats : TlsReader → ListBudget → Option (Listed ℕ)
read_point_formats r budget =
    let (length, r1) = u8_of r in
    let (taken, r2) = take_bytes r1 length in
    if r1.overrun || not (remaining r1 == length)
    then some (budget, malformed_list)
    else if ltb budget.cap_entries length
    then some (exceed budget, limited_list)
    else taken >>= λ values.
        guard (leb (count values) budget.cap_entries) >> some (budget, present_list values)

-- How the walk over the protocol names ends: at a name that does not fit, or with the number of
-- names and those that are kept.
pub data Walk : Type 0 where
  broken : Walk
  walked : ℕ → List (List ℕ) → Walk

-- The loop over the protocol names, on fuel. A name past the cap is skipped.
unfoldable pub alpn_loop : ℕ → ℕ → TlsReader → ℕ → List (List ℕ) → Option Walk
alpn_loop zero cap r number protocols = none
alpn_loop (suc fuel) cap r number protocols =
    let (length, r1) = u8_of r in
    let (skipped, r2) = skip r1 length in
    let past = guard skipped >>= λ _. alpn_loop fuel cap r2 (number + 1) protocols in
    let kept = (take_bytes r1 length).0 >>= λ protocol.
    alpn_loop fuel cap (take_bytes r1 length).1 (number + 1) (protocols ++ protocol ∷ []) in
    if remaining r == 0
    then guard (not r.overrun) >> some (walked number protocols)
    else if r1.overrun || length == 0 || ltb (remaining r1) length
    then some broken
    else if ltb cap (number + 1)
    then past
    else kept

unfoldable pub alpn_list : Bool → ListBudget → Walk → Option (Listed (List ℕ))
alpn_list client budget broken = some (budget, malformed_list)
alpn_list client budget (walked number protocols) =
    if number == 0 || not client && not (number == 1)
    then some (budget, malformed_list)
    else if ltb budget.cap_entries number
    then some (exceed budget, limited_list)
    else guard (count protocols == number) >> some (budget, present_list protocols)

unfoldable pub read_alpn : TlsReader → Bool → ListBudget → Option (Listed (List ℕ))
read_alpn r client budget =
    let (list_length, r1) = u16_of r in
    let walk = alpn_loop (suc list_length) budget.cap_entries r1 0 [] >>= alpn_list client budget in
    if r1.overrun || not (remaining r1 == list_length) then some (budget, malformed_list) else walk

abbrev pub is_seen : {A : Type 0} → TlsList A → Bool
is_seen list = list.present || list.malformed || list.over_limit

-- `Duplicate`, then the read of the first copy.
unfoldable pub unless_duplicate :
    {A : Type 0} → TlsList A → ListBudget → Option (Listed A) → Option (Listed A)
unless_duplicate list budget read = if is_seen list then some (budget, malformed_list) else read
