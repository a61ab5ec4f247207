-- ===== src/Packet/Types.antt =====
-- The types of src/include/packet_decoder.hpp, and the prefix reader of src/packet_decoder.cpp.
use packet_quapture.Base.{
  ℕ, ◌+◌, ◌-◌, Bool, false, ◌&&◌, ◌||◌, List, [], ◌==◌, leb, if◌then◌else◌, Bytes, Option, none,
  some, length, replicate,
}

pub data DecodeDepth : Type 0 where
  nothing link network transport : DecodeDepth

pub data DecodeOutcome : Type 0 where
  not_requested decoded malformed unsupported fragment : DecodeOutcome

-- `VlanStack::CAPACITY`. A stack is the list of the tags in use, outermost first.
abbrev pub capacity : ℕ
capacity = 8

pub record DecodedPacket : Type 0 where
  pub outcome : DecodeOutcome
  pub ethernet : Bool
  pub has_network : Bool
  pub has_transport : Bool
  pub tcp : Bool
  pub udp : Bool
  pub src_mac : List ℕ
  pub dst_mac : List ℕ
  pub ether_type : ℕ
  pub vlan_ids : List ℕ
  pub ip_version : ℕ
  pub ip_protocol : ℕ
  pub ip_ttl : ℕ
  pub src_ip : List ℕ
  pub dst_ip : List ℕ
  pub ip_fragment_offset : ℕ
  pub ip_id : ℕ
  pub ip_more_fragments : Bool
  pub has_ip_id : Bool
  pub src_port : ℕ
  pub dst_port : ℕ
  pub tcp_flags : ℕ
  pub udp_length : ℕ
  pub tcp_seq : ℕ
  pub tcp_ack : ℕ
  pub tcp_header_length : ℕ
  pub payload_offset : ℕ
  pub payload_length : ℕ
  pub payload_declared_length : ℕ

-- `DecodedPacket()`
abbrev pub no_packet : DecodedPacket
no_packet = record {
  outcome = not_requested;
  ethernet = false;
  has_network = false;
  has_transport = false;
  tcp = false;
  udp = false;
  src_mac = replicate 6 0;
  dst_mac = replicate 6 0;
  ether_type = 0;
  vlan_ids = [];
  ip_version = 0;
  ip_protocol = 0;
  ip_ttl = 0;
  src_ip = replicate 16 0;
  dst_ip = replicate 16 0;
  ip_fragment_offset = 0;
  ip_id = 0;
  ip_more_fragments = false;
  has_ip_id = false;
  src_port = 0;
  dst_port = 0;
  tcp_flags = 0;
  udp_length = 0;
  tcp_seq = 0;
  tcp_ack = 0;
  tcp_header_length = 0;
  payload_offset = 0;
  payload_length = 0;
  payload_declared_length = 0;
}

-- `ReadPrefix(n)` gives a pointer of which the first `n` bytes may be read.
pub record PacketSource : Type 0 where
  pub size : ℕ
  pub read_prefix : ℕ → Bytes

-- A view of `size` bytes in memory: `MemorySource`, which gives its pointer whatever is asked.
abbrev pub memory_source : Bytes → ℕ → PacketSource
memory_source view size = record { size = size; read_prefix = λ _. view }

unfoldable pub has : ℕ → ℕ → ℕ → Bool
has size offset length = leb offset size && leb length (size - offset)

pub record PrefixReader : Type 0 where
  pub source : PacketSource
  pub bytes : Bytes

-- Before the first `Ensure` the pointer is null, and nothing is read through it.
abbrev pub reader_of : PacketSource → PrefixReader
reader_of s = record { source = s; bytes = λ _. 0 }

-- `none` is the result false, which leaves the reader as it was.
unfoldable pub ensure : PrefixReader → ℕ → ℕ → Option PrefixReader
ensure r start length =
    if has r.source.size start length
    then some (record r { bytes = r.source.read_prefix (start + length) })
    else none

unfoldable pub ensure_within : PrefixReader → ℕ → ℕ → ℕ → Option PrefixReader
ensure_within r end start length = if has end start length then ensure r start length else none

-- The field `type` of the source is `ether_type` here.
pub record Cursor : Type 0 where
  pub offset : ℕ
  pub end : ℕ
  pub ether_type : ℕ

unfoldable pub is_extension : ℕ → Bool
is_extension protocol =
    protocol == 0 || protocol == 43 || protocol == 60 || protocol == 44 || protocol == 51
