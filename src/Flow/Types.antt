-- ===== src/Flow/Types.antt =====
-- The types of src/include/flow_aggregator.hpp. An int64_t is its value plus 2^63. Each text of
-- `originator_basis` and `finalized_by` is a constructor, the empty text one too.
use packet_quapture.Base.{ℕ, Bool, true, false, List, Option, none, some, ◌≡◌, refl, ◌⊎◌, inl, inr}
use packet_quapture.Packet.Types.{DecodedPacket, no_packet}
use packet_quapture.Tcp.Types.{PacketStamp, no_stamp}

pub record FlowEndpoint : Type 0 where
  pub ip : List ℕ
  pub port : ℕ

pub record SessionKey : Type 0 where
  pub interface_id : ℕ
  pub ip_version : ℕ
  pub protocol : ℕ
  pub vlan_count : ℕ
  pub vlans : List ℕ
  pub low : FlowEndpoint
  pub high : FlowEndpoint

pub record FlowInput : Type 0 where
  pub section : ℕ
  pub interface_id : ℕ
  pub captured_length : ℕ
  pub original_length : ℕ
  pub stamp : PacketStamp
  pub packet : DecodedPacket

-- `FlowInput {}`
abbrev pub no_input : FlowInput
no_input = record {
  section = 0;
  interface_id = 0;
  captured_length = 0;
  original_length = 0;
  stamp = no_stamp;
  packet = no_packet;
}

pub record FlowCounters : Type 0 where
  pub packets : ℕ
  pub captured_bytes : ℕ
  pub reported_bytes : ℕ
  pub payload_bytes : ℕ
  pub flags : ℕ

-- `FlowCounters {}`
abbrev pub no_counters : FlowCounters
no_counters = record {
  packets = 0;
  captured_bytes = 0;
  reported_bytes = 0;
  payload_bytes = 0;
  flags = 0;
}

pub data OriginatorBasis : Type 0 where
  no_basis by_first_packet by_syn by_syn_ack : OriginatorBasis

pub data FinalizedBy : Type 0 where
  not_final eof section_boundary idle_timeout tuple_reuse limit reset : FinalizedBy

pub record FlowSummary : Type 0 where
  pub key : SessionKey
  pub section : ℕ
  pub first_packet : ℕ
  pub last_packet : ℕ
  pub orig_is_low : Bool
  pub has_timestamp : Bool
  pub first_timestamp : ℕ
  pub last_timestamp : ℕ
  pub missing_timestamps : ℕ
  pub late_packets : ℕ
  pub orig : FlowCounters
  pub resp : FlowCounters
  pub handshake_complete : Bool
  pub simultaneous_open : Bool
  pub equal_endpoints : Bool
  pub syn_seen : Bool
  pub fin_seen : Bool
  pub reset_seen : Bool
  pub originator_basis : OriginatorBasis
  pub finalized_by : FinalizedBy

pub record FlowLimits : Type 0 where
  pub tcp_idle_us : ℕ
  pub udp_idle_us : ℕ
  pub max_flows : ℕ
  pub max_scopes : ℕ

-- An array of two, with the originator's element at index 0 and the responder's at index 1.
pub record Sides {ℓ} (A : Type ℓ) : Type ℓ where
  pub originator : A
  pub responder : A

-- The element of a side: `true` is index 0.
abbrev pub at_side {ℓ} : {A : Type ℓ} → Sides A → Bool → A
at_side s true = s.originator
at_side s false = s.responder

abbrev pub set_side {ℓ} : {A : Type ℓ} → Sides A → Bool → A → Sides A
set_side s true a = record s { originator = a }
set_side s false a = record s { responder = a }

pub record State : Type 0 where
  pub row : FlowSummary
  pub syn : Sides Bool
  pub syn_ack : Sides Bool
  pub sequence : Sides ℕ
  pub scheduled : Bool
  pub handshake_closed : Bool
  pub deadline : ℕ
  pub queued : ℕ

-- The exceptions of the source.
pub data Failure : Type 0 where
  overflow_error logic_error invalid_argument runtime_error out_of_range : Failure
  failed_assertion : Failure

pub data Result {ℓ} (A : Type ℓ) : Type ℓ where
  ok : A → Result A
  throws : Failure → Result A

infixl 5 ◌>>=◌ ◌>>◌
abbrev pub ◌>>=◌ {ℓ κ} : {A : Type ℓ} {B : Type κ} → Result A → (A → Result B) → Result B
ok a >>= f = f a
throws e >>= f = throws e

abbrev pub ◌>>◌ {ℓ} : {B : Type ℓ} → Result (Unit {0}) → Result B → Result B
m >> k = m >>= λ _. k

-- A check that throws where it fails.
abbrev pub require : Failure → Bool → Result (Unit {0})
require e true = ok tt
require e false = throws e

-- A lookup that throws where nothing is found.
abbrev pub found {ℓ} : {A : Type ℓ} → Failure → Option A → Result A
found e none = throws e
found e (some a) = ok a

-- To split on a result and keep the equation.
pub Result-cases {ℓ} :
    {A : Type ℓ} (r : Result A) → ((e : Failure) × (r ≡ throws e)) ⊎ ((a : A) × (r ≡ ok a))
Result-cases (throws e) = inl (e, refl)
Result-cases (ok a) = inr (a, refl)
