-- ===== src/Tcp/Sender/Inv.antt =====
-- What holds of the sending half of a TCP connection between two calls.
use xcm.Base.{ℕ, ◌+◌, ◌≡◌, ◌≤◌, ◌<◌, ◌⊎◌, List, [], ◌++◌, length, drop, All, refl, ◌∙◌}
use xcm.Mbuf.{wire_len, mbuf_msg_max}
use xcm.Mbuf.Frame.{frame, frames, IsShort}
use xcm.Tcp.Conn.{TcpConn}

-- The send buffer is empty, or holds the last of the accepted messages, not all of it sent; the
-- counters agree with the messages that tcp_send() has accepted, `msgs`.
abbrev pub Pending : {L : Type 0} → TcpConn L → List (List ℕ) → Type 0
Pending s msgs =
    ((s.send_mbuf.wire_data ≡ []) × (s.mbuf_sent ≡ 0) × (s.cnts.to_lower_msgs ≡ length msgs))
    ⊎ ((msg : List ℕ) × (s.send_mbuf.wire_data ≡ frame msg)
        × (length msg ≤ mbuf_msg_max)
        × (s.mbuf_sent < wire_len s.send_mbuf)
        × (s.cnts.to_lower_msgs + 1 ≡ length msgs))

-- What BTCP has accepted, and what is left in the send buffer, are the accepted messages in wire
-- format, in order.
pub record SendInv {L : Type 0} (sent : L → List ℕ) (s : TcpConn L) (msgs : List (List ℕ))
    : Type 0 where
  pub stream : sent s.btcp_socket ++ drop s.mbuf_sent s.send_mbuf.wire_data ≡ frames msgs
  pub pending : Pending s msgs
  pub short : All IsShort msgs
  pub counted : s.cnts.from_app_msgs ≡ length msgs

-- What a flush of the send buffer leaves as it was.
pub record SameReceiver {L : Type 0} (arrived : L → List ℕ) (s t : TcpConn L) : Type 0 where
  pub bad : t.bad ≡ s.bad
  pub receive_mbuf : t.receive_mbuf ≡ s.receive_mbuf
  pub arrived_bytes : arrived t.btcp_socket ≡ arrived s.btcp_socket
  pub to_app : t.cnts.to_app_msgs ≡ s.cnts.to_app_msgs
  pub from_lower : t.cnts.from_lower_msgs ≡ s.cnts.from_lower_msgs

pub SameReceiver-refl :
    {L : Type 0} (arrived : L → List ℕ) (s : TcpConn L) → SameReceiver arrived s s
SameReceiver-refl arrived s = record {
  bad = refl;
  receive_mbuf = refl;
  arrived_bytes = refl;
  to_app = refl;
  from_lower = refl;
}

pub SameReceiver-trans :
    {L : Type 0} (arrived : L → List ℕ) {s t u : TcpConn L}
    → SameReceiver arrived s t
    → SameReceiver arrived t u
    → SameReceiver arrived s u
SameReceiver-trans arrived p q = record {
  bad = q.bad ∙ p.bad;
  receive_mbuf = q.receive_mbuf ∙ p.receive_mbuf;
  arrived_bytes = q.arrived_bytes ∙ p.arrived_bytes;
  to_app = q.to_app ∙ p.to_app;
  from_lower = q.from_lower ∙ p.from_lower;
}
