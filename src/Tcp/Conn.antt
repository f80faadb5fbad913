-- ===== src/Tcp/Conn.antt =====
-- The state of a connection of libxcm/tp/tcp/xcm_tp_tcp.c, and its counters.
use xcm.Base.{ℕ, ◌+◌, Option, none, some, []}
use xcm.Errno.{Errno, Outcome, ret, fail}
use xcm.Socket.{SocketType, conn, server}
use xcm.Mbuf.{Mbuf, mbuf_init}

-- cnts[XCM_TP_NUM_MESSAGING_CNTS], by the names of `enum xcm_tp_cnt`.
pub record Cnts : Type 0 where
  pub to_app_bytes : ℕ
  pub from_app_bytes : ℕ
  pub to_lower_bytes : ℕ
  pub from_lower_bytes : ℕ
  pub to_app_msgs : ℕ
  pub from_app_msgs : ℕ
  pub to_lower_msgs : ℕ
  pub from_lower_msgs : ℕ

-- The part `conn` of struct tcp_socket, with the BTCP socket; `bad` is the badness reason, if bad.
pub record TcpConn (L : Type 0) : Type 0 where
  pub bad : Option Errno
  pub send_mbuf : Mbuf
  pub mbuf_sent : ℕ
  pub receive_mbuf : Mbuf
  pub cnts : Cnts
  pub btcp_socket : L

-- What a function leaves: its outcome and the connection, unless its fuel ran out.
abbrev pub Run : Type 0 → Type 0 → Type 0
Run L A = Option (Outcome A × TcpConn L)

-- XCM_TP_CNT_MSG_INC(cnts, from_app, len) and its three siblings.
abbrev pub inc_from_app : ℕ → Cnts → Cnts
inc_from_app len c = record c {
  from_app_bytes = c.from_app_bytes + len;
  from_app_msgs = c.from_app_msgs + 1;
}

abbrev pub inc_to_lower : ℕ → Cnts → Cnts
inc_to_lower len c = record c {
  to_lower_bytes = c.to_lower_bytes + len;
  to_lower_msgs = c.to_lower_msgs + 1;
}

abbrev pub inc_from_lower : ℕ → Cnts → Cnts
inc_from_lower len c = record c {
  from_lower_bytes = c.from_lower_bytes + len;
  from_lower_msgs = c.from_lower_msgs + 1;
}

abbrev pub inc_to_app : ℕ → Cnts → Cnts
inc_to_app len c = record c { to_app_bytes = c.to_app_bytes + len; to_app_msgs = c.to_app_msgs + 1 }

-- xcm_tp_socket_create() of a BTCP socket, which ends the process if no memory is left and so
-- never returns NULL, and xcm_tp_socket_init() with the parent: errno, if it fails.
pub record BtcpNew (L : Type 0) : Type 0 where
  pub create : SocketType → L
  pub init : L → Option L → Option Errno × L

-- struct tcp_socket as ut_calloc() leaves it, with no BTCP socket yet.
abbrev pub zeroed : TcpConn (Unit {0})
zeroed = record {
  bad = none;
  send_mbuf = record { wire_data = []; wire_capacity = 0 };
  mbuf_sent = 0;
  receive_mbuf = record { wire_data = []; wire_capacity = 0 };
  cnts = record {
    to_app_bytes = 0;
    from_app_bytes = 0;
    to_lower_bytes = 0;
    from_lower_bytes = 0;
    to_app_msgs = 0;
    from_app_msgs = 0;
    to_lower_msgs = 0;
    from_lower_msgs = 0;
  };
  btcp_socket = tt;
}

-- mbuf_init() of both buffers.
abbrev pub init_mbufs : TcpConn (Unit {0}) → TcpConn (Unit {0})
unfolding mbuf_init
init_mbufs ts = record ts { send_mbuf = mbuf_init; receive_mbuf = mbuf_init }

-- ts->btcp_socket = btcp_socket
abbrev pub with_btcp : {L : Type 0} → TcpConn (Unit {0}) → L → TcpConn L
with_btcp ts l = record {
  bad = ts.bad;
  send_mbuf = ts.send_mbuf;
  mbuf_sent = ts.mbuf_sent;
  receive_mbuf = ts.receive_mbuf;
  cnts = ts.cnts;
  btcp_socket = l;
}

-- TOTCP(parent)->btcp_socket, or NULL
abbrev pub parent_btcp : {L : Type 0} → Option (TcpConn L) → Option L
parent_btcp none = none
parent_btcp (some parent) = some parent.btcp_socket

-- tcp_init() of a socket of a type, whose memory is `ts`, with the TCP socket it is accepted from,
-- if any. The BTCP socket that cannot be initialised is destroyed.
unfoldable pub tcp_init :
    {L : Type 0}
    → BtcpNew L
    → SocketType
    → Option (TcpConn L)
    → TcpConn (Unit {0})
    → Outcome (TcpConn L)
tcp_init btcp type parent ts =
    let btcp_parent = parent_btcp parent in
    let (rc, btcp_socket) = btcp.init (btcp.create type) btcp_parent in
    elim rc [
      | some e ↦ fail e
      | none ↦ elim type [
        | conn ↦ ret (with_btcp (init_mbufs ts) btcp_socket)
        | server ↦ ret (with_btcp ts btcp_socket)
      ]
    ]
