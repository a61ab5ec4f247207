-- ===== src/Tcp/Types.antt =====
-- The types of src/include/tcp_reassembly.hpp. Each error text of the source is a constructor of
-- `Reason` or `FinalizedBy`, the empty text one too. An int64_t timestamp is its value plus 2^63,
-- which keeps the order and the differences of timestamps.
use packet_quapture.Base.{ℕ, ◌-◌, ◌^◌, ◌<◌, Bool, true, false, List, []}

pub record TcpFlowKey : Type 0 where
  pub section : ℕ
  pub interface_id : ℕ
  pub ip_version : ℕ
  pub src_ip : List ℕ
  pub dst_ip : List ℕ
  pub src_port : ℕ
  pub dst_port : ℕ
  pub vlans : List ℕ

unfoldable pub reverse_key : TcpFlowKey → TcpFlowKey
reverse_key key = record key {
  src_ip = key.dst_ip;
  dst_ip = key.src_ip;
  src_port = key.dst_port;
  dst_port = key.src_port;
}

pub record PacketStamp : Type 0 where
  pub number : ℕ
  pub has_timestamp : Bool
  pub timestamp : ℕ

-- The value of `PacketStamp {}`; its timestamp is 0.
abbrev pub no_stamp : PacketStamp
no_stamp = record { number = 0; has_timestamp = false; timestamp = 2 ^ 63 }

pub record TcpByteOrigin : Type 0 where
  pub offset : ℕ
  pub length : ℕ
  pub stamp : PacketStamp

pub record TcpStreamChunk : Type 0 where
  pub offset : ℕ
  pub sequence : ℕ
  pub bytes : List ℕ
  pub origins : List TcpByteOrigin

pub record TcpGap : Type 0 where
  pub offset : ℕ
  pub length : ℕ

pub data TcpStreamStatus : Type 0 where
  unset contiguous gapped unanchored conflict limit : TcpStreamStatus

pub data Reason : Type 0 where
  no_reason : Reason
  conflicting_fin captured_exceeds_declared segment_exceeds_limits limit_reached : Reason
  span_exceeds_window fin_exceeds_window data_beyond_fin overlap_conflict : Reason
  syn_not_captured bytes_missing directions_exhausted : Reason

pub data FinalizedBy : Type 0 where
  not_final tuple_reuse reset idle_timeout eof by_limit : FinalizedBy

pub record TcpStream : Type 0 where
  pub key : TcpFlowKey
  pub stream_id : ℕ
  pub sequence : ℕ
  pub expected_bytes : ℕ
  pub captured_bytes : ℕ
  pub syn_seen : Bool
  pub fin_seen : Bool
  pub first : PacketStamp
  pub last : PacketStamp
  pub status : TcpStreamStatus
  pub error : Reason
  pub finalized_by : FinalizedBy
  pub chunks : List TcpStreamChunk
  pub gaps : List TcpGap

pub record TcpReassemblyLimits : Type 0 where
  pub max_flows : ℕ
  pub max_total_bytes : ℕ
  pub max_stream_bytes : ℕ
  pub max_segments : ℕ
  pub max_total_segments : ℕ
  pub tcp_idle_us : ℕ

-- What the constructor of `TcpReassembler` asserts of its limits.
pub record IsLimits (l : TcpReassemblyLimits) : Type 0 where
  pub stream_fits : l.max_stream_bytes < 2 ^ 32
  pub segments_fit : l.max_segments < 2 ^ 32 - 1

pub record Segment : Type 0 where
  pub sequence : ℕ
  pub declared : ℕ
  pub stamp : PacketStamp
  pub bytes : List ℕ

pub record Flow : Type 0 where
  pub id : ℕ
  pub has_syn : Bool
  pub has_fin : Bool
  pub syn_sequence : ℕ
  pub fin_sequence : ℕ
  pub first : PacketStamp
  pub last : PacketStamp
  pub bytes : ℕ
  pub failure : Reason
  pub failure_status : TcpStreamStatus
  pub segments : List Segment
  pub segment_order : List (ℕ × ℕ)
  pub scheduled : Bool
  pub untimed : Bool
  pub deadline : ℕ
  pub queued : ℕ

-- `Flow {}`
abbrev pub no_flow : Flow
no_flow = record {
  id = 0;
  has_syn = false;
  has_fin = false;
  syn_sequence = 0;
  fin_sequence = 0;
  first = no_stamp;
  last = no_stamp;
  bytes = 0;
  failure = no_reason;
  failure_status = unset;
  segments = [];
  segment_order = [];
  scheduled = false;
  untimed = false;
  deadline = 2 ^ 63;
  queued = 2 ^ 63;
}

-- `flow.failure.empty()`
abbrev pub is_empty : Reason → Bool
is_empty no_reason = true
is_empty _ = false
