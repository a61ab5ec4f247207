-- ===== src/Tls/Handshake/Examples.antt =====
-- Small hellos.
use packet_quapture.Base.{
  ℕ, ◌≡◌, refl, true, false, List, [], ◌∷◌, ◌++◌, Option, some, get_or, replicate, slice, Bytes,
  arith, Yields, ◌>>=◌,
}
use packet_quapture.Tls.Reader.{u8_of, u16_of, skip, sub, take_bytes, vector_length, skip_vector}
use packet_quapture.Tls.Record.{tls_record_header_valid}
use packet_quapture.Tls.Handshake.Types.{TlsHandshakeLimits, no_handshake, ListBudget, present_list}
use packet_quapture.Tls.Handshake.Lists.{
  read_codes, codes_loop, read_values, unless_duplicate, read_alpn, alpn_loop, alpn_list,
  read_point_formats, read_server_name,
}
use packet_quapture.Tls.Handshake.Lists.Spelled.{reading, read_codes-Spells}
use packet_quapture.Tls.Handshake.Extensions.{
  parse_extensions, extensions_loop, parse_body, parse_groups, parse_alpn, parse_signatures,
  parse_point_formats, parse_supported_versions, select_version, read_code_list, end_walk,
}
use packet_quapture.Tls.Handshake.Hello.{
  Hello, parse_hello, parse_tail, parse_client_suites, parse_server_suite, hello_at, hello_in,
}
use packet_quapture.Tls.Handshake.Hello.Bounded.{IsParsed, parse_hello-IsParsed}

abbrev bytes : List ℕ → Bytes
bytes octets i = get_or octets i 0

abbrev limits : TlsHandshakeLimits
limits = record { max_message_bytes = 65536; max_extensions = 4; max_list_entries = 3 }

-- A ClientHello with two cipher suites, one group and one protocol name, "h2".
abbrev hello_octets : List ℕ
hello_octets =
    3 ∷ 3 ∷ replicate 32 7
    ++ 0 ∷ 0 ∷ 4 ∷ 0x13 ∷ 1 ∷ 0x13 ∷ 2 ∷ 1 ∷ 0 ∷ 0 ∷ 17 ∷ 0 ∷ 10 ∷ 0 ∷ 4 ∷ 0 ∷ 2 ∷ 0 ∷ 29 ∷ 0 ∷ 16
      ∷ 0 ∷ 5 ∷ 0 ∷ 3 ∷ 2 ∷ 104 ∷ 50 ∷ []

abbrev parsed : Option Hello
parsed = parse_hello (bytes hello_octets) 62 true limits no_handshake []

abbrev groups_of : Option Hello → Option (List ℕ)
groups_of hello = hello >>= λ h. some h.handshake.client_supported_groups.values

abbrev protocols_of : Option Hello → Option (List (List ℕ))
protocols_of hello = hello >>= λ h. some h.handshake.client_alpn.values

groups_found : groups_of parsed ≡ some (29 ∷ [])
unfolding parse_hello u8_of u16_of skip take_bytes parse_client_suites read_codes sub vector_length
    read_values codes_loop skip_vector parse_tail parse_extensions extensions_loop parse_body
    parse_groups read_code_list end_walk parse_alpn unless_duplicate alpn_list alpn_loop read_alpn
    slice hello_at hello_in tls_record_header_valid parse_server_suite parse_signatures
    parse_point_formats parse_supported_versions select_version read_point_formats read_server_name
groups_found = refl

protocols_found : protocols_of parsed ≡ some ((104 ∷ 50 ∷ []) ∷ [])
unfolding parse_hello u8_of u16_of skip take_bytes parse_client_suites read_codes sub vector_length
    read_values codes_loop skip_vector parse_tail parse_extensions extensions_loop parse_body
    parse_groups read_code_list end_walk parse_alpn unless_duplicate alpn_list alpn_loop read_alpn
    slice hello_at hello_in tls_record_header_valid parse_server_suite parse_signatures
    parse_point_formats parse_supported_versions select_version read_point_formats read_server_name
protocols_found = refl

parse_hello-IsParsed_example : Yields (IsParsed limits) parsed
parse_hello-IsParsed_example = parse_hello-IsParsed (bytes hello_octets) 62 true limits []

abbrev budget : ListBudget
budget = record { cap_entries = 3; exceeded = false }

read_codes-Spells_example :
    read_codes (reading (bytes (0 ∷ 4 ∷ 0x13 ∷ 1 ∷ 0x13 ∷ 2 ∷ [])) 6 0) 2 true budget
    ≡ some (record {
      complete = true;
      reader = reading (bytes (0 ∷ 4 ∷ 0x13 ∷ 1 ∷ 0x13 ∷ 2 ∷ [])) 6 6;
      budget = budget;
      list = present_list (0x1301 ∷ 0x1302 ∷ []);
    })
read_codes-Spells_example =
    read_codes-Spells (bytes (0 ∷ 4 ∷ 0x13 ∷ 1 ∷ 0x13 ∷ 2 ∷ [])) 6 0 true budget
      (0x1301 ∷ 0x1302 ∷ []) refl (refl, (refl, tt)) (omega arith) (λ _. refl) (omega arith)

-- The hello in a record behind two bytes of a tunnel, and no hello where the record begins.
abbrev tunnelled : List ℕ
tunnelled = 5 ∷ 0 ∷ 22 ∷ 3 ∷ 1 ∷ 0 ∷ 66 ∷ 1 ∷ 0 ∷ 0 ∷ 62 ∷ hello_octets

hello_found : hello_at (bytes tunnelled) 73 2 limits ≡ some 1
unfolding parse_hello u8_of u16_of skip take_bytes parse_client_suites read_codes sub vector_length
    read_values codes_loop skip_vector parse_tail parse_extensions extensions_loop parse_body
    parse_groups read_code_list end_walk parse_alpn unless_duplicate alpn_list alpn_loop read_alpn
    slice hello_at hello_in tls_record_header_valid parse_server_suite parse_signatures
    parse_point_formats parse_supported_versions select_version read_point_formats read_server_name
hello_found = refl

hello_missed : hello_at (bytes tunnelled) 73 0 limits ≡ some 0
unfolding parse_hello u8_of u16_of skip take_bytes parse_client_suites read_codes sub vector_length
    read_values codes_loop skip_vector parse_tail parse_extensions extensions_loop parse_body
    parse_groups read_code_list end_walk parse_alpn unless_duplicate alpn_list alpn_loop read_alpn
    slice hello_at hello_in tls_record_header_valid parse_server_suite parse_signatures
    parse_point_formats parse_supported_versions select_version read_point_formats read_server_name
hello_missed = refl
