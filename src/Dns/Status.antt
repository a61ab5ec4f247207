-- ===== src/Dns/Status.antt =====
-- The names that SQL reports for the statuses of DNS messages: `DnsFrameStatusName` of
-- src/include/dns_tcp_framer.hpp.
use packet_quapture.Base.{ℕ, List, [], ◌∷◌}
use packet_quapture.Dns.Framer.{
  DnsFrameStatus, frame_unset, frame_complete, frame_incomplete, frame_invalid, frame_unanchored,
  frame_conflict, frame_limit,
}

unfoldable pub dns_frame_status_name : DnsFrameStatus → List ℕ
dns_frame_status_name frame_unset = []
dns_frame_status_name frame_complete = b'c' ∷ b'o' ∷ b'm' ∷ b'p' ∷ b'l' ∷ b'e' ∷ b't' ∷ b'e' ∷ []
dns_frame_status_name frame_incomplete =
    b'i' ∷ b'n' ∷ b'c' ∷ b'o' ∷ b'm' ∷ b'p' ∷ b'l' ∷ b'e' ∷ b't' ∷ b'e' ∷ []
dns_frame_status_name frame_invalid = b'i' ∷ b'n' ∷ b'v' ∷ b'a' ∷ b'l' ∷ b'i' ∷ b'd' ∷ []
dns_frame_status_name frame_unanchored =
    b'u' ∷ b'n' ∷ b'a' ∷ b'n' ∷ b'c' ∷ b'h' ∷ b'o' ∷ b'r' ∷ b'e' ∷ b'd' ∷ []
dns_frame_status_name frame_conflict = b'c' ∷ b'o' ∷ b'n' ∷ b'f' ∷ b'l' ∷ b'i' ∷ b'c' ∷ b't' ∷ []
dns_frame_status_name frame_limit = b'l' ∷ b'i' ∷ b'm' ∷ b'i' ∷ b't' ∷ []
