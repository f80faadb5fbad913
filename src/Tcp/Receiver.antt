-- ===== src/Tcp/Receiver.antt =====
-- The receiving half of libxcm/tp/tcp/xcm_tp_tcp.c.
pub mod Inv
pub mod Buffer
pub mod Header
pub mod Payload
pub mod Receive
pub mod Order
pub mod Calls
pub mod Runs
pub mod Start
use xcm.Base.{
  ℕ, zero, suc, ◌+◌, ◌-◌, Bool, true, false, not, Option, none, some, List, [], ◌∷◌, ◌++◌, ℤ, pos,
  negsuc, pos_part, length, take, drop, ltb, leb, ◌==◌, if◌then◌else◌,
}
use xcm.Errno.{
  Errno, eagain, einval, emsgsize, eproto, is_eagain, is_epipe, Outcome, ret, fail, abort,
}
use xcm.Mbuf.{
  Mbuf, mbuf_init, mbuf_reset, mbuf_wire_len, mbuf_is_empty, mbuf_set, mbuf_hdr_left,
  mbuf_has_complete_hdr, mbuf_is_hdr_valid, mbuf_complete_payload_len, mbuf_payload_left,
  mbuf_is_complete, mbuf_payload, mbuf_wire_ensure_spare_capacity, mbuf_wire_appended, mbuf_msg_max,
}
use xcm.Tcp.Interface.{Lower, SendResult, accepted, refused, ReceiveResult, received, not_received}
use xcm.Tcp.Conn.{Cnts, TcpConn, Run, inc_from_app, inc_to_lower, inc_from_lower, inc_to_app}
use xcm.Tcp.Sender.{try_finish_send}

module _ {L : Type 0} (lower : Lower L) where
  -- buffer_receive()
  unfoldable pub buffer_receive : ℕ → TcpConn L → Outcome ℕ × TcpConn L
  unfolding mbuf_wire_ensure_spare_capacity mbuf_wire_appended
  buffer_receive len s = elim (mbuf_wire_ensure_spare_capacity s.receive_mbuf len) [
    | none ↦ (abort, s)
    | some rbuf ↦
        let (result, btcp) = lower.receive len s.btcp_socket in
        let s' = record s { receive_mbuf = rbuf; btcp_socket = btcp } in
        elim result [
          | not_received e ↦ (fail e, s')
          | received bytes ↦
              if length bytes == 0 then (ret 0, s') else elim (mbuf_wire_appended rbuf bytes) [
                | none ↦ (abort, s')
                | some filled ↦ (
                  if ltb (length bytes) len then fail eagain else ret 1,
                  record s' { receive_mbuf = filled },
                )
              ]
        ]
  ]

  -- buffer_hdr()
  unfoldable pub buffer_hdr : TcpConn L → Outcome ℕ × TcpConn L
  buffer_hdr s =
      let left = mbuf_hdr_left s.receive_mbuf in
      if left == 0 then (ret 1, s) else buffer_receive left s

  -- The end of buffer_payload(), after the payload has been received.
  unfoldable pub payload_received : TcpConn L → Outcome ℕ × TcpConn L
  unfolding mbuf_payload_left mbuf_complete_payload_len
  payload_received s = elim (mbuf_payload_left s.receive_mbuf) [
    | none ↦ (abort, s)
    | some left ↦
        if ltb 0 (pos_part left)
        then (fail eagain, s)
        else elim (mbuf_complete_payload_len s.receive_mbuf) [
          | none ↦ (abort, s)
          | some len ↦ (ret 1, record s { cnts = inc_from_lower len s.cnts })
        ]
  ]

  -- buffer_payload(). A negative number of bytes left, which no valid buffer has, would make
  -- buffer_receive() convert it to unsigned types; it stands for an end of the process here.
  unfoldable pub buffer_payload : TcpConn L → Outcome ℕ × TcpConn L
  buffer_payload s =
      if not (mbuf_has_complete_hdr s.receive_mbuf)
      then (abort, s)
      else if not (mbuf_is_hdr_valid s.receive_mbuf)
      then (fail eproto, record s { bad = some eproto })
      else elim (mbuf_payload_left s.receive_mbuf) [
        | none ↦ (abort, s)
        | some (negsuc n) ↦ (abort, s)
        | some (pos left) ↦
            let (rc, s') = buffer_receive left s in
            elim rc [
              | ret zero ↦ (ret 0, s')
              | ret (suc n) ↦ payload_received s'
              | fail e ↦ (fail e, s')
              | abort ↦ (abort, s')
            ]
      ]

  -- buffer_msg()
  unfoldable pub buffer_msg : TcpConn L → Outcome ℕ × TcpConn L
  buffer_msg s =
      let (rc, s') = buffer_hdr s in
      elim rc [
        | ret zero ↦ (ret 0, s')
        | ret (suc n) ↦ buffer_payload s'
        | fail e ↦ (fail e, s')
        | abort ↦ (abort, s')
      ]

  -- tcp_receive() after buffer_msg() has returned 1; the outcome holds the bytes stored in `buf`.
  unfoldable pub deliver : ℕ → TcpConn L → Outcome (List ℕ) × TcpConn L
  deliver capacity s =
      if not (mbuf_is_complete s.receive_mbuf)
      then (abort, s)
      else elim (mbuf_complete_payload_len s.receive_mbuf) [
        | none ↦ (abort, s)
        | some msg_len ↦
            let user_len = if ltb capacity msg_len then capacity else msg_len in
            (
              ret (take user_len (mbuf_payload s.receive_mbuf)),
              record s {
                receive_mbuf = mbuf_reset s.receive_mbuf;
                cnts = inc_to_app user_len s.cnts;
              },
            )
      ]

  -- tcp_receive() after its try_finish_send().
  unfoldable pub receive_msg : ℕ → TcpConn L → Outcome (List ℕ) × TcpConn L
  receive_msg capacity s =
      let (rc, s') = buffer_msg s in
      elim rc [
        | ret zero ↦ (ret [], s')
        | ret (suc n) ↦ deliver capacity s'
        | fail e ↦ (fail e, s')
        | abort ↦ (abort, s')
      ]

  -- tcp_receive()
  unfoldable pub tcp_receive : ℕ → TcpConn L → Run L (List ℕ)
  unfolding receive_msg
  tcp_receive capacity s = elim s.bad [
    | some reason ↦ some (fail reason, s)
    | none ↦ elim (try_finish_send lower s) [
      | none ↦ none
      | some (ret n, s') ↦ some (receive_msg capacity s')
      | some (fail e, s') ↦
          if is_eagain e
          then some (receive_msg capacity s')
          else some (if is_epipe e then ret [] else fail e, s')
      | some (abort, s') ↦ some (abort, s')
    ]
  ]
