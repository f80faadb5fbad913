-- ===== src/Tcp/Receiver/Buffer.antt =====
-- buffer_receive(), buffer_hdr() and buffer_payload() of libxcm/tp/tcp/xcm_tp_tcp.c.
use xcm.Base.{
  ℕ, ◌+◌, ◌≡◌, ◌≤◌, ◌<◌, ◌⊎◌, inl, inr, refl, sym, ap, ◌∙◌, some, List, [], ◌++◌, length,
  append-nil, arith, Bool-cases, ◌==◌, if◌then◌else◌, subst, ltb,
}
use xcm.Errno.{Errno, eagain, Outcome, ret, fail}
use xcm.Mbuf.{Mbuf, wire_len, mbuf_wire_max, mbuf_wire_ensure_spare_capacity}
use xcm.Tcp.Conn.{TcpConn}
use xcm.Tcp.Interface.{Lower, Stream, ReceiveResult, received, not_received}
use xcm.Tcp.Receiver.{buffer_receive}
use xcm.Tcp.Receiver.Inv.{AllBytes, SameSender}

ReceiveResult-cases :
    (r : ReceiveResult) → ((bs : List ℕ) × (r ≡ received bs)) ⊎ ((e : Errno) × (r ≡ not_received e))
ReceiveResult-cases (received bs) = inl (bs, refl)
ReceiveResult-cases (not_received e) = inr (e, refl)

spare_fits :
    (b : Mbuf) (n : ℕ)
    → wire_len b + n ≤ mbuf_wire_max
    → (b' : Mbuf) × (mbuf_wire_ensure_spare_capacity b n ≡ some b')
      × (b'.wire_data ≡ b.wire_data)
      × (wire_len b + n ≤ b'.wire_capacity)
unfolding mbuf_wire_ensure_spare_capacity
spare_fits b n h = (
  record b {
    wire_capacity =
        if ltb b.wire_capacity (wire_len b + n) then wire_len b + n else b.wire_capacity;
  },
  ground arith,
  refl,
  ground arith,
)

module _ {L : Type 0} (lower : Lower L) (sent arrived : L → List ℕ)
    (stream : Stream lower sent arrived) where
  -- What a call that receives at most `len` bytes into the receive buffer leaves: `bytes` are new.
  pub record Buffered (len : ℕ) (s : TcpConn L) (r : Outcome ℕ × TcpConn L) : Type 0 where
    pub same : SameSender sent s r.1
    pub to_app : r.1.cnts.to_app_msgs ≡ s.cnts.to_app_msgs
    pub from_lower : r.1.cnts.from_lower_msgs ≡ s.cnts.from_lower_msgs
    pub bytes : List ℕ
    pub wire : r.1.receive_mbuf.wire_data ≡ s.receive_mbuf.wire_data ++ bytes
    pub arrived_eq : arrived r.1.btcp_socket ≡ arrived s.btcp_socket ++ bytes
    pub in_range : AllBytes bytes
    pub within : length bytes ≤ len
    pub rc :
        (r.0 ≡ ret 0)
        ⊎ ((e : Errno) × (r.0 ≡ fail e))
        ⊎ ((r.0 ≡ ret 1) × (length bytes ≡ len) × (0 < len))

  -- No new bytes.
  nothing_new :
      (len : ℕ) (s : TcpConn L) (rbuf : Mbuf) (l' : L) (o : Outcome ℕ)
      → rbuf.wire_data ≡ s.receive_mbuf.wire_data
      → arrived l' ≡ arrived s.btcp_socket
      → sent l' ≡ sent s.btcp_socket
      → (o ≡ ret 0) ⊎ ((e : Errno) × (o ≡ fail e))
      → Buffered len s (o, record s { receive_mbuf = rbuf; btcp_socket = l' })
  nothing_new len s rbuf l' o kept quiet unsent which = record {
    same = record {
      send_mbuf = refl;
      mbuf_sent = refl;
      sent_bytes = unsent;
      from_app = refl;
      to_lower = refl;
    };
    to_app = refl;
    from_lower = refl;
    bytes = [];
    wire = kept ∙ sym (append-nil s.receive_mbuf.wire_data);
    arrived_eq = quiet ∙ sym (append-nil (arrived s.btcp_socket));
    in_range = tt;
    within = omega arith;
    rc = elim which [ inl z ↦ inl z | inr f ↦ inr (inl f) ];
  }

  some_new :
      (len : ℕ) (s : TcpConn L) (rbuf : Mbuf) (l' : L) (bs : List ℕ)
      → rbuf.wire_data ≡ s.receive_mbuf.wire_data ++ bs
      → arrived l' ≡ arrived s.btcp_socket ++ bs
      → sent l' ≡ sent s.btcp_socket
      → AllBytes bs
      → length bs ≤ len
      → 0 < length bs
      → Buffered len s (
        if ltb (length bs) len then fail eagain else ret 1,
        record s { receive_mbuf = rbuf; btcp_socket = l' },
      )
  some_new len s rbuf l' bs wire arrived_eq unsent range within nonempty = record {
    same = record {
      send_mbuf = refl;
      mbuf_sent = refl;
      sent_bytes = unsent;
      from_app = refl;
      to_lower = refl;
    };
    to_app = refl;
    from_lower = refl;
    bytes = bs;
    wire = wire;
    arrived_eq = arrived_eq;
    in_range = range;
    within = within;
    rc = elim (Bool-cases (ltb (length bs) len)) [
      | inl short ↦ inr (inl (eagain, rw short))
      | inr all ↦ inr (inr (rw all, ground (arith, within, all), ground (arith, all, nonempty)))
    ];
  }

  -- buffer_receive() of as many bytes as fit MBUF_WIRE_MAX does not abort.
  pub buffer_receive_lem :
      (len : ℕ) (s : TcpConn L)
      → wire_len s.receive_mbuf + len ≤ mbuf_wire_max
      → Buffered len s (buffer_receive lower len s)
  unfolding buffer_receive
  buffer_receive_lem len s h =
      let (rbuf, spare, kept, room) = spare_fits s.receive_mbuf len h in
      let l' : L = (lower.receive len s.btcp_socket).1 in
      let unsent : sent l' ≡ sent s.btcp_socket = stream.receive_keeps len s.btcp_socket in
      elim (ReceiveResult-cases (lower.receive len s.btcp_socket).0) [
        | inr (e, failed) ↦ subst (Buffered len s) (sym (ground (arith, spare, failed))) (
            nothing_new len s rbuf l' (fail e) kept
              (stream.receive_failed len s.btcp_socket e failed) unsent (inr (e, refl)))
        | inl (bs, got) ↦
            let (within, range, joined) = stream.receive_received len s.btcp_socket bs got in
            elim (Bool-cases (length bs == 0)) [
              | inl empty ↦ subst (Buffered len s) (sym (ground (arith, spare, got, empty))) (
                  nothing_new len s rbuf l' (ret 0) kept
                    (joined
                      ∙ ap (λ b. arrived s.btcp_socket ++ b) (ground (arith, empty))
                      ∙ append-nil (arrived s.btcp_socket))
                    unsent (inl refl))
              | inr some_bytes ↦
                  subst (Buffered len s)
                    (sym (
                      ground
                        (arith, spare, got, some_bytes, room, within, ap (λ w. length w) kept)))
                    (some_new len s (record rbuf { wire_data = rbuf.wire_data ++ bs }) l' bs
                      (ap (λ w. w ++ bs) kept) joined unsent range within
                      (ground (arith, some_bytes)))
            ]
      ]
