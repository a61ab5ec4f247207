-- ===== src/Tcp/Status.antt =====
-- The names that SQL reports for the statuses: `TcpStreamStatusName` of
-- src/include/tcp_reassembly.hpp. A text is the list of its characters.
use packet_quapture.Base.{ℕ, List, [], ◌∷◌}
use packet_quapture.Tcp.Types.{
  TcpStreamStatus, unset, contiguous, gapped, unanchored, conflict, limit,
}

unfoldable pub tcp_stream_status_name : TcpStreamStatus → List ℕ
tcp_stream_status_name unset = []
tcp_stream_status_name contiguous =
    b'c' ∷ b'o' ∷ b'n' ∷ b't' ∷ b'i' ∷ b'g' ∷ b'u' ∷ b'o' ∷ b'u' ∷ b's' ∷ []
tcp_stream_status_name gapped = b'g' ∷ b'a' ∷ b'p' ∷ b'p' ∷ b'e' ∷ b'd' ∷ []
tcp_stream_status_name unanchored =
    b'u' ∷ b'n' ∷ b'a' ∷ b'n' ∷ b'c' ∷ b'h' ∷ b'o' ∷ b'r' ∷ b'e' ∷ b'd' ∷ []
tcp_stream_status_name conflict = b'c' ∷ b'o' ∷ b'n' ∷ b'f' ∷ b'l' ∷ b'i' ∷ b'c' ∷ b't' ∷ []
tcp_stream_status_name limit = b'l' ∷ b'i' ∷ b'm' ∷ b'i' ∷ b't' ∷ []
