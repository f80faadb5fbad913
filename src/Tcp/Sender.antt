-- ===== src/Tcp/Sender.antt =====
-- The sending half of libxcm/tp/tcp/xcm_tp_tcp.c.
-- A result `none` means that the fuel of the loop of try_finish_send() ran out.
pub mod Inv
pub mod Flush
pub mod Send
use xcm.Base.{
  ℕ, zero, suc, ◌+◌, ◌-◌, Bool, true, false, not, Option, none, some, List, [], ◌∷◌, ◌++◌, ℤ, pos,
  negsuc, pos_part, length, take, drop, ltb, leb, ◌==◌, if◌then◌else◌,
}
use xcm.Errno.{
  Errno, eagain, einval, emsgsize, eproto, is_eagain, is_epipe, Outcome, ret, fail, abort,
}
use xcm.Mbuf.{
  Mbuf, mbuf_init, mbuf_reset, mbuf_wire_len, mbuf_is_empty, mbuf_set, mbuf_hdr_left,
  mbuf_has_complete_hdr, mbuf_is_hdr_valid, mbuf_complete_payload_len, mbuf_payload_left,
  mbuf_is_complete, mbuf_payload, mbuf_wire_ensure_spare_capacity, mbuf_wire_appended, mbuf_msg_max,
}
use xcm.Tcp.Interface.{Lower, SendResult, accepted, refused, ReceiveResult, received, not_received}
use xcm.Tcp.Conn.{Cnts, TcpConn, Run, inc_from_app, inc_to_lower, inc_from_lower, inc_to_app}

-- What tcp_send() returns after its second try_finish_send().
abbrev pub send_result : Outcome ℕ → Outcome ℕ
send_result (ret n) = ret 0
send_result (fail e) = if is_eagain e then ret 0 else fail e
send_result abort = abort

module _ {L : Type 0} (lower : Lower L) where
  -- The loop of try_finish_send(), on fuel.
  pub try_finish_send_loop : ℕ → TcpConn L → Run L ℕ
  unfolding mbuf_wire_len mbuf_complete_payload_len mbuf_reset
  try_finish_send_loop zero s = none
  try_finish_send_loop (suc fuel) s = elim (mbuf_complete_payload_len s.send_mbuf) [
    | none ↦ some (abort, s)
    | some compl_len ↦
        let (result, btcp) = lower.send (drop s.mbuf_sent s.send_mbuf.wire_data) s.btcp_socket in
        elim result [
          | refused e ↦ some (fail e, record s { btcp_socket = btcp })
          | accepted rc ↦
              let sent = s.mbuf_sent + rc in
              let rest =
                try_finish_send_loop fuel (record s { btcp_socket = btcp; mbuf_sent = sent }) in
              if sent == mbuf_wire_len s.send_mbuf
              then some (
                ret 0,
                record s {
                  btcp_socket = btcp;
                  cnts = inc_to_lower compl_len s.cnts;
                  send_mbuf = mbuf_reset s.send_mbuf;
                  mbuf_sent = 0;
                },
              )
              else rest
        ]
  ]

  -- try_finish_send(); every round of the loop sends at least one of the bytes left.
  unfoldable pub try_finish_send : TcpConn L → Run L ℕ
  unfolding try_finish_send_loop mbuf_is_empty
  try_finish_send s =
      if mbuf_is_empty s.send_mbuf
      then some (ret 0, s)
      else try_finish_send_loop (mbuf_wire_len s.send_mbuf - s.mbuf_sent + 1) s

  -- tcp_send() from the assertion that the buffer is empty on.
  pub send_accept : List ℕ → TcpConn L → Run L ℕ
  unfolding mbuf_is_empty mbuf_set
  send_accept buf s =
      if not (mbuf_is_empty s.send_mbuf) then some (abort, s) else elim (mbuf_set s.send_mbuf buf) [
        | none ↦ some (abort, s)
        | some filled ↦
            elim (try_finish_send
              (record s { send_mbuf = filled; cnts = inc_from_app (length buf) s.cnts })) [
                | none ↦ none
                | some (result, s') ↦ some (send_result result, s')
              ]
      ]

  -- tcp_send()
  unfoldable pub tcp_send : List ℕ → TcpConn L → Run L ℕ
  unfolding send_accept
  tcp_send buf s =
      if ltb mbuf_msg_max (length buf)
      then some (fail emsgsize, s)
      else if length buf == 0
      then some (fail einval, s)
      else elim s.bad [
        | some reason ↦ some (fail reason, s)
        | none ↦ elim (try_finish_send s) [
          | none ↦ none
          | some (ret n, s') ↦ send_accept buf s'
          | some (fail e, s') ↦ some (fail e, s')
          | some (abort, s') ↦ some (abort, s')
        ]
      ]
