-- ===== src/Tls/Handshake/Types.antt =====
-- The types of src/include/tls_handshake.hpp that a hello fills.
use packet_quapture.Base.{
  ℕ, ◌+◌, ◌*◌, ◌/◌, ◌%◌, ◌^◌, Bool, true, false, not, ◌&&◌, List, [], ◌∷◌, ◌==◌,
}

-- What the hello parsers use of `TlsHandshakeLimits`.
pub record TlsHandshakeLimits : Type 0 where
  pub max_message_bytes : ℕ
  pub max_extensions : ℕ
  pub max_list_entries : ℕ

unfoldable pub is_tls_grease : ℕ → Bool
is_tls_grease value = value / 2 ^ 8 == value % 2 ^ 8 && value % 2 ^ 4 == 0x0A

unfoldable pub is_tls_grease_alpn : List ℕ → Bool
is_tls_grease_alpn (high ∷ low ∷ []) = is_tls_grease (high * 2 ^ 8 + low)
is_tls_grease_alpn _ = false

pub record TlsList (A : Type 0) : Type 0 where
  pub present : Bool
  pub malformed : Bool
  pub over_limit : Bool
  pub values : List A

-- `TlsList<T>()`
abbrev pub no_list : {A : Type 0} → TlsList A
no_list = record { present = false; malformed = false; over_limit = false; values = [] }

abbrev pub malformed_list : {A : Type 0} → TlsList A
malformed_list = record { present = false; malformed = true; over_limit = false; values = [] }

abbrev pub limited_list : {A : Type 0} → TlsList A
limited_list = record { present = false; malformed = false; over_limit = true; values = [] }

abbrev pub present_list : {A : Type 0} → List A → TlsList A
present_list values = record {
  present = true;
  malformed = false;
  over_limit = false;
  values = values;
}

-- `Known`
unfoldable pub is_known : {A : Type 0} → TlsList A → Bool
is_known list = not list.malformed && not list.over_limit

pub data TlsStatus : Type 0 where
  unset complete one_sided incomplete unanchored invalid conflict limit : TlsStatus

-- The error text of a hello.
pub data HelloError : Type 0 where
  no_error list_exceeds_limit : HelloError

-- The part of `TlsHandshake` that the hello parsers write.
pub record TlsHandshake : Type 0 where
  pub has_sni : Bool
  pub sni : List ℕ
  pub sni_seen : Bool
  pub sni_malformed : Bool
  pub has_client_version : Bool
  pub client_version : ℕ
  pub client_cipher_suites : TlsList ℕ
  pub client_extensions : TlsList ℕ
  pub client_supported_groups : TlsList ℕ
  pub client_signature_algorithms : TlsList ℕ
  pub client_supported_versions : TlsList ℕ
  pub client_ec_point_formats : TlsList ℕ
  pub client_alpn : TlsList (List ℕ)
  pub has_negotiated_version : Bool
  pub negotiated_version : ℕ
  pub has_server_legacy_version : Bool
  pub server_legacy_version : ℕ
  pub has_cipher_suite : Bool
  pub cipher_suite : ℕ
  pub server_extensions : TlsList ℕ
  pub server_alpn : TlsList (List ℕ)
  pub server_supported_versions : TlsList ℕ
  pub status : TlsStatus
  pub error : HelloError

-- `TlsHandshake {}`
abbrev pub no_handshake : TlsHandshake
no_handshake = record {
  has_sni = false;
  sni = [];
  sni_seen = false;
  sni_malformed = false;
  has_client_version = false;
  client_version = 0;
  client_cipher_suites = no_list;
  client_extensions = no_list;
  client_supported_groups = no_list;
  client_signature_algorithms = no_list;
  client_supported_versions = no_list;
  client_ec_point_formats = no_list;
  client_alpn = no_list;
  has_negotiated_version = false;
  negotiated_version = 0;
  has_server_legacy_version = false;
  server_legacy_version = 0;
  has_cipher_suite = false;
  cipher_suite = 0;
  server_extensions = no_list;
  server_alpn = no_list;
  server_supported_versions = no_list;
  status = unset;
  error = no_error;
}

-- Whether a list is longer than the per-list limit.
pub record ListBudget : Type 0 where
  pub cap_entries : ℕ
  pub exceeded : Bool

abbrev pub exceed : ListBudget → ListBudget
exceed budget = record budget { exceeded = true }
