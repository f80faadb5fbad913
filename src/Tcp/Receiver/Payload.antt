-- ===== src/Tcp/Receiver/Payload.antt =====
-- buffer_payload() and buffer_msg() of libxcm/tp/tcp/xcm_tp_tcp.c.
use xcm.Base.{
  ℕ, zero, suc, ◌+◌, ◌-◌, ◌≡◌, ◌≤◌, ◌<◌, ◌⊎◌, inl, inr, refl, sym, ap, ◌∙◌, some, List, ◌++◌,
  length, length-append, arith, pos, Bool-cases, subst, leb, leb→le, All,
}
use xcm.Errno.{Errno, eproto, Outcome, ret, fail, abort}
use xcm.Mbuf.{
  Mbuf, wire_len, mbuf_msg_max, mbuf_has_complete_hdr, mbuf_is_hdr_valid, mbuf_payload_left, ntohl,
}
use xcm.Mbuf.Frame.{frames, IsShort}
use xcm.Tcp.Conn.{TcpConn, inc_from_lower}
use xcm.Tcp.Interface.{Lower, Stream}
use xcm.Tcp.Receiver.{buffer_receive, buffer_hdr, buffer_payload, buffer_msg, payload_received}
use xcm.Tcp.Receiver.Inv.{AllBytes, ReceiveInv, SameSender, SameSender-trans, ntohl-append}
use xcm.Tcp.Receiver.Buffer.{Buffered, buffer_receive_lem}
use xcm.Tcp.Receiver.Header.{grown-ReceiveInv, buffer_hdr_lem}

-- The bytes still missing of a frame whose header is there.
payload_left_lem :
    (b : Mbuf)
    → 4 ≤ wire_len b
    → ntohl b.wire_data ≤ mbuf_msg_max
    → wire_len b ≤ ntohl b.wire_data + 4
    → mbuf_payload_left b ≡ some (pos (ntohl b.wire_data + 4 - wire_len b))
unfolding mbuf_payload_left
payload_left_lem b h n w = ground arith

module _ {L : Type 0} (lower : Lower L) (sent arrived : L → List ℕ)
    (stream : Stream lower sent arrived) where
  -- A whole frame in the receive buffer that has not been delivered.
  pub record Whole (s : TcpConn L) (got : List (List ℕ)) : Type 0 where
    pub delivered_stream : arrived s.btcp_socket ≡ frames got ++ s.receive_mbuf.wire_data
    pub bytes : AllBytes s.receive_mbuf.wire_data
    pub has_hdr : 4 ≤ wire_len s.receive_mbuf
    pub size : wire_len s.receive_mbuf ≡ ntohl s.receive_mbuf.wire_data + 4
    pub nonempty : 0 < ntohl s.receive_mbuf.wire_data
    pub short : ntohl s.receive_mbuf.wire_data ≤ mbuf_msg_max
    pub got_short : All IsShort got
    pub delivered : s.cnts.to_app_msgs ≡ length got
    pub buffered : s.cnts.from_lower_msgs ≡ length got + 1

  -- What buffer_payload() and buffer_msg() leave.
  pub record MsgBuffered (s : TcpConn L) (got : List (List ℕ)) (r : Outcome ℕ × TcpConn L)
      : Type 0 where
    pub same : SameSender sent s r.1
    pub rc :
        ((r.0 ≡ ret 0) × ReceiveInv arrived r.1 got)
        ⊎ ((e : Errno) × (r.0 ≡ fail e) × ReceiveInv arrived r.1 got)
        ⊎ ((r.0 ≡ ret 1) × Whole r.1 got)

  -- payload_received() after the last byte has come in.
  payload_received_lem :
      (s : TcpConn L)
      → 4 ≤ wire_len s.receive_mbuf
      → wire_len s.receive_mbuf ≡ ntohl s.receive_mbuf.wire_data + 4
      → ntohl s.receive_mbuf.wire_data ≤ mbuf_msg_max
      → payload_received lower s
        ≡ (ret 1, record s { cnts = inc_from_lower (ntohl s.receive_mbuf.wire_data) s.cnts })
  unfolding payload_received
  payload_received_lem s h size short = ground (arith)

  -- buffer_payload() with a valid header, as buffer_receive() of what is left and what follows it.
  abbrev after_payload : Outcome ℕ × TcpConn L → Outcome ℕ × TcpConn L
  after_payload r = elim r.0 [
    | ret zero ↦ (ret 0, r.1)
    | ret (suc n) ↦ payload_received lower r.1
    | fail e ↦ (fail e, r.1)
    | abort ↦ (abort, r.1)
  ]

  buffer_payload-valid :
      (s : TcpConn L)
      → 4 ≤ wire_len s.receive_mbuf
      → ntohl s.receive_mbuf.wire_data ≤ mbuf_msg_max
      → wire_len s.receive_mbuf ≤ ntohl s.receive_mbuf.wire_data + 4
      → buffer_payload lower s
        ≡ after_payload
            (buffer_receive lower (ntohl s.receive_mbuf.wire_data + 4 - wire_len s.receive_mbuf) s)
  unfolding buffer_payload mbuf_has_complete_hdr mbuf_is_hdr_valid
  buffer_payload-valid s h short partial =
      ground (arith, payload_left_lem s.receive_mbuf h short partial)

  -- A header with too large a length makes the connection bad and changes nothing else.
  buffer_payload-invalid :
      (s : TcpConn L)
      → 4 ≤ wire_len s.receive_mbuf
      → mbuf_msg_max < ntohl s.receive_mbuf.wire_data
      → buffer_payload lower s ≡ (fail eproto, record s { bad = some eproto })
  unfolding buffer_payload mbuf_has_complete_hdr mbuf_is_hdr_valid
  buffer_payload-invalid s h long = ground arith

  -- The frame that is complete once all bytes left have come in.
  whole :
      (s : TcpConn L) (got : List (List ℕ)) (len : ℕ) (r : Outcome ℕ × TcpConn L)
      (b : Buffered lower sent arrived stream len s r)
      → ReceiveInv arrived s got
      → 4 ≤ wire_len s.receive_mbuf
      → ntohl s.receive_mbuf.wire_data ≤ mbuf_msg_max
      → wire_len s.receive_mbuf + len ≡ ntohl s.receive_mbuf.wire_data + 4
      → length b.bytes ≡ len
      → 0 < len
      → (payload_received lower r.1 ≡ (
        ret 1,
        record r.1 { cnts = inc_from_lower (ntohl r.1.receive_mbuf.wire_data) r.1.cnts },
      ))
        × Whole
            (record r.1 { cnts = inc_from_lower (ntohl r.1.receive_mbuf.wire_data) r.1.cnts })
            got
  whole s got len r b inv h short goal all some_left =
      let same_hdr : ntohl r.1.receive_mbuf.wire_data ≡ ntohl s.receive_mbuf.wire_data =
        ap ntohl b.wire ∙ ntohl-append s.receive_mbuf.wire_data b.bytes h in
      let size : wire_len r.1.receive_mbuf ≡ wire_len s.receive_mbuf + length b.bytes =
        ap length b.wire ∙ length-append {0} s.receive_mbuf.wire_data b.bytes in
      let inv' =
        grown-ReceiveInv lower sent arrived stream len s got r b inv
          (λ _ _. omega (arith, size, same_hdr, all, goal)) in
      (
        payload_received_lem r.1 (omega (arith, size, h)) (omega (arith, size, same_hdr, all, goal))
            (omega (arith, same_hdr)),
        record {
          delivered_stream = inv'.stream;
          bytes = inv'.bytes;
          has_hdr = omega (arith, size, h);
          size = omega (arith, size, same_hdr, all, goal);
          nonempty = omega (arith, same_hdr);
          short = omega (arith, same_hdr);
          got_short = inv'.short;
          delivered = inv'.delivered;
          buffered = omega (arith, inv'.buffered);
        },
      )

  valid_lem :
      (s : TcpConn L) (got : List (List ℕ))
      → ReceiveInv arrived s got
      → 4 ≤ wire_len s.receive_mbuf
      → ntohl s.receive_mbuf.wire_data ≤ mbuf_msg_max
      → MsgBuffered s got (
          after_payload
            (buffer_receive lower (ntohl s.receive_mbuf.wire_data + 4 - wire_len s.receive_mbuf) s))
  valid_lem s got inv h short =
      let len : ℕ = ntohl s.receive_mbuf.wire_data + 4 - wire_len s.receive_mbuf in
      let partial = inv.partial h short in
      let r = buffer_receive lower len s in
      let b = buffer_receive_lem lower sent arrived stream len s (omega arith) in
      let same_hdr : ntohl r.1.receive_mbuf.wire_data ≡ ntohl s.receive_mbuf.wire_data =
        ap ntohl b.wire ∙ ntohl-append s.receive_mbuf.wire_data b.bytes h in
      let size : wire_len r.1.receive_mbuf ≡ wire_len s.receive_mbuf + length b.bytes =
        ap length b.wire ∙ length-append {0} s.receive_mbuf.wire_data b.bytes in
      let inv' =
        grown-ReceiveInv lower sent arrived stream len s got r b inv
          (λ _ _. omega (arith, size, same_hdr, b.within)) in
      elim b.rc [
        | inl z ↦
            subst (MsgBuffered s got) (sym (rw z)) (record { same = b.same; rc = inl (refl, inv') })
        | inr (inl (e, f)) ↦
            subst (MsgBuffered s got) (sym (rw f))
              (record { same = b.same; rc = inr (inl (e, refl, inv')) })
        | inr (inr (one, all, some_left)) ↦
            let (complete, w) = whole s got len r b inv h short (omega arith) all some_left in
            subst (MsgBuffered s got) (sym (rw one complete)) (record {
              same = record {
                send_mbuf = b.same.send_mbuf;
                mbuf_sent = b.same.mbuf_sent;
                sent_bytes = b.same.sent_bytes;
                from_app = b.same.from_app;
                to_lower = b.same.to_lower;
              };
              rc = inr (inr (refl, w));
            })
      ]

  -- buffer_payload() of a buffer with a header.
  buffer_payload_lem :
      (s : TcpConn L) (got : List (List ℕ))
      → ReceiveInv arrived s got
      → 4 ≤ wire_len s.receive_mbuf
      → MsgBuffered s got (buffer_payload lower s)
  buffer_payload_lem s got inv h =
      elim (Bool-cases (leb (ntohl s.receive_mbuf.wire_data) mbuf_msg_max)) [
        | inl short ↦
            subst (MsgBuffered s got)
              (sym (buffer_payload-valid s h (leb→le _ _ short) (inv.partial h (leb→le _ _ short))))
              (valid_lem s got inv h (leb→le _ _ short))
        | inr long ↦
            subst (MsgBuffered s got) (sym (buffer_payload-invalid s h (ground (arith, long))))
              (record {
                same = record {
                  send_mbuf = refl;
                  mbuf_sent = refl;
                  sent_bytes = refl;
                  from_app = refl;
                  to_lower = refl;
                };
                rc = inr (
                    inl (
                      eproto,
                      refl,
                      record {
                        stream = inv.stream;
                        bytes = inv.bytes;
                        partial = inv.partial;
                        short = inv.short;
                        delivered = inv.delivered;
                        buffered = inv.buffered;
                      },
                    ));
              })
      ]

  -- buffer_msg() does not abort.
  pub buffer_msg_lem :
      (s : TcpConn L) (got : List (List ℕ))
      → ReceiveInv arrived s got
      → MsgBuffered s got (buffer_msg lower s)
  unfolding buffer_msg
  buffer_msg_lem s got inv =
      let hdr = buffer_hdr_lem lower sent arrived stream s got inv in
      elim hdr.rc [
        | inl z ↦
            subst (MsgBuffered s got) (sym (rw (z, buffer_msg)))
              (record { same = hdr.same; rc = inl (refl, hdr.inv) })
        | inr (inl (e, f)) ↦
            subst (MsgBuffered s got) (sym (rw (f, buffer_msg)))
              (record { same = hdr.same; rc = inr (inl (e, refl, hdr.inv)) })
        | inr (inr (one, h)) ↦
            let payload = buffer_payload_lem (buffer_hdr lower s).1 got hdr.inv h in
            subst (MsgBuffered s got) (sym (rw (one, buffer_msg)))
              (record { same = SameSender-trans sent hdr.same payload.same; rc = payload.rc })
      ]
