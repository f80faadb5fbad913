-- ===== src/Tcp/Finish.antt =====
-- tcp_finish() of libxcm/tp/tcp/xcm_tp_tcp.c.
pub mod Result
use xcm.Base.{ℕ, none, some}
use xcm.Errno.{Outcome, fail, abort}
use xcm.Tcp.Interface.{Lower}
use xcm.Tcp.Conn.{TcpConn, Run}
use xcm.Tcp.Sender.{try_finish_send}

module _ {L : Type 0} (lower : Lower L) where
  -- The end of tcp_finish(): xcm_tp_socket_finish() of the BTCP socket, with what try_finish_send()
  -- left. If both fail, errno is that of the latter call.
  pub finish_lower : Outcome ℕ → TcpConn L → Outcome ℕ × TcpConn L
  finish_lower rc s =
      let (result, btcp) = lower.finish s.btcp_socket in
      (elim result [ none ↦ rc | some e ↦ fail e ], record s { btcp_socket = btcp })

  -- tcp_finish() of a connection.
  unfoldable pub tcp_finish : TcpConn L → Run L ℕ
  unfolding finish_lower
  tcp_finish s = elim s.bad [
    | some reason ↦ some (fail reason, s)
    | none ↦ elim (try_finish_send lower s) [
      | none ↦ none
      | some (abort, s') ↦ some (abort, s')
      | some (rc, s') ↦ some (finish_lower rc s')
    ]
  ]
