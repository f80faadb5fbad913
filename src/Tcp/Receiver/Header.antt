-- ===== src/Tcp/Receiver/Header.antt =====
-- buffer_hdr() of libxcm/tp/tcp/xcm_tp_tcp.c.
use xcm.Base.{
  ℕ, ◌+◌, ◌-◌, ◌≡◌, ◌≤◌, ◌⊎◌, inl, inr, refl, sym, ap, ◌∙◌, List, ◌++◌, length, length-append,
  append_assoc, arith, Bool-cases, subst, ltb, ltb-false,
}
use xcm.Errno.{Errno, Outcome, ret, fail}
use xcm.Mbuf.{wire_len, mbuf_msg_max, mbuf_hdr_left, ntohl}
use xcm.Mbuf.Frame.{frames}
use xcm.Tcp.Conn.{TcpConn}
use xcm.Tcp.Interface.{Lower, Stream}
use xcm.Tcp.Receiver.{buffer_receive, buffer_hdr}
use xcm.Tcp.Receiver.Inv.{AllBytes, ReceiveInv, SameSender, AllBytes-append}
use xcm.Tcp.Receiver.Buffer.{Buffered, buffer_receive_lem}

pub SameSender-refl : {L : Type 0} (sent : L → List ℕ) (s : TcpConn L) → SameSender sent s s
SameSender-refl sent s = record {
  send_mbuf = refl;
  mbuf_sent = refl;
  sent_bytes = refl;
  from_app = refl;
  to_lower = refl;
}

module _ {L : Type 0} (lower : Lower L) (sent arrived : L → List ℕ)
    (stream : Stream lower sent arrived) where
  -- The receive buffer after more bytes have come in, if it is still at most one frame.
  pub grown-ReceiveInv :
      (len : ℕ) (s : TcpConn L) (got : List (List ℕ)) (r : Outcome ℕ × TcpConn L)
      → Buffered lower sent arrived stream len s r
      → ReceiveInv arrived s got
      → (4 ≤ wire_len r.1.receive_mbuf
          → ntohl r.1.receive_mbuf.wire_data ≤ mbuf_msg_max
          → wire_len r.1.receive_mbuf ≤ ntohl r.1.receive_mbuf.wire_data + 4)
      → ReceiveInv arrived r.1 got
  grown-ReceiveInv len s got r b inv partial = record {
    stream =
        b.arrived_eq
        ∙ ap (λ a. a ++ b.bytes) inv.stream
        ∙ append_assoc (frames got) s.receive_mbuf.wire_data b.bytes
        ∙ ap (λ w. frames got ++ w) (sym b.wire);
    bytes =
        subst AllBytes (sym b.wire)
          (AllBytes-append s.receive_mbuf.wire_data b.bytes inv.bytes b.in_range);
    partial = partial;
    short = inv.short;
    delivered = b.to_app ∙ inv.delivered;
    buffered = b.from_lower ∙ inv.buffered;
  }

  -- What buffer_hdr() leaves.
  pub record HdrBuffered (s : TcpConn L) (got : List (List ℕ)) (r : Outcome ℕ × TcpConn L)
      : Type 0 where
    pub same : SameSender sent s r.1
    pub inv : ReceiveInv arrived r.1 got
    pub rc :
        (r.0 ≡ ret 0)
        ⊎ ((e : Errno) × (r.0 ≡ fail e))
        ⊎ ((r.0 ≡ ret 1) × (4 ≤ wire_len r.1.receive_mbuf))

  pub buffer_hdr_lem :
      (s : TcpConn L) (got : List (List ℕ))
      → ReceiveInv arrived s got
      → HdrBuffered s got (buffer_hdr lower s)
  unfolding buffer_hdr mbuf_hdr_left
  buffer_hdr_lem s got inv = elim (Bool-cases (ltb (wire_len s.receive_mbuf) 4)) [
    | inr complete ↦ subst (HdrBuffered s got) (sym (ground (arith, complete))) (record {
      same = SameSender-refl sent s;
      inv = inv;
      rc = inr (inr (refl, ltb-false _ _ complete));
    })
    | inl short ↦
        let left : ℕ = 4 - wire_len s.receive_mbuf in
        let b = buffer_receive_lem lower sent arrived stream left s (ground (arith, short)) in
        let size : wire_len (buffer_receive lower left s).1.receive_mbuf
            ≡ wire_len s.receive_mbuf + length b.bytes =
          ap length b.wire ∙ length-append {0} s.receive_mbuf.wire_data b.bytes in
        let most : wire_len (buffer_receive lower left s).1.receive_mbuf ≤ 4 =
          ground (arith, size, b.within, short) in
        subst (HdrBuffered s got) {x = buffer_receive lower left s} (sym (ground (arith, short)))
          (record {
            same = b.same;
            inv =
                grown-ReceiveInv left s got (buffer_receive lower left s) b inv
                  (λ _ _. omega arith);
            rc = elim b.rc [
              | inl z ↦ inl z
              | inr (inl f) ↦ inr (inl f)
              | inr (inr (one, all, some_left)) ↦ inr (inr (one, omega (arith, size, all)))
            ];
          })
  ]
