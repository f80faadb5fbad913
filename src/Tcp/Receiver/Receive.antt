-- ===== src/Tcp/Receiver/Receive.antt =====
-- tcp_receive() of libxcm/tp/tcp/xcm_tp_tcp.c.
use xcm.Base.{
  ℕ, ◌+◌, ◌≡◌, ◌≤◌, ◌<◌, ◌⊎◌, inl, inr, refl, sym, ap, ◌∙◌, some, List, [], ◌∷◌, ◌++◌, length,
  append-nil, drop, take, arith, Bool-cases, Option-cases, if◌then◌else◌, subst, ltb, ltb-false,
  take_all,
}
use xcm.Errno.{Errno, is_eagain, is_epipe, Outcome, ret, fail}
use xcm.Mbuf.{wire_len, mbuf_msg_max, mbuf_payload, mbuf_is_complete, mbuf_reset, ntohl}
use xcm.Mbuf.Frame.{frames, frames-snoc, length-snoc, All-snoc}
use xcm.Tcp.Conn.{TcpConn, Run, inc_to_app}
use xcm.Tcp.Interface.{Lower, Stream}
use xcm.Tcp.Sender.Inv.{SendInv, SameReceiver}
use xcm.Tcp.Sender.Flush.{try_finish_send_lem}
use xcm.Tcp.Receiver.{buffer_msg, deliver, receive_msg, tcp_receive}
use xcm.Tcp.Receiver.Inv.{
  AllBytes, ReceiveInv, SameSender, SameSender-trans, SameSender-SendInv, wire-frame,
}
use xcm.Tcp.Receiver.Payload.{Whole, buffer_msg_lem}

-- A flush of the send buffer keeps the receiving half.
pub SameReceiver-ReceiveInv :
    {L : Type 0} (arrived : L → List ℕ) (s t : TcpConn L) (got : List (List ℕ))
    → SameReceiver arrived s t
    → ReceiveInv arrived s got
    → ReceiveInv arrived t got
SameReceiver-ReceiveInv arrived s t got h inv = record {
  stream = h.arrived_bytes ∙ inv.stream ∙ ap (λ b. frames got ++ b.wire_data) (sym h.receive_mbuf);
  bytes = subst (λ b. AllBytes b.wire_data) (sym h.receive_mbuf) inv.bytes;
  partial =
      subst
        (λ b.
          4 ≤ wire_len b → ntohl b.wire_data ≤ mbuf_msg_max → wire_len b ≤ ntohl b.wire_data + 4)
        (sym h.receive_mbuf) inv.partial;
  short = inv.short;
  delivered = h.to_app ∙ inv.delivered;
  buffered = h.from_lower ∙ inv.buffered;
}

-- The bytes that are copied to the user's buffer.
copied :
    (capacity n : ℕ) (msg : List ℕ)
    → length msg ≡ n
    → take (if ltb capacity n then capacity else n) msg ≡ take capacity msg
copied capacity n msg h = elim (Bool-cases (ltb capacity n)) [
  | inl less ↦ rw less
  | inr more ↦ rw more (
      take_all n msg (omega (arith, h))
      ∙ sym (take_all capacity msg (omega (arith, h, ltb-false _ _ more))))
]

module _ {L : Type 0} (lower : Lower L) (sent arrived : L → List ℕ)
    (stream : Stream lower sent arrived) where
  -- What receive_msg() and, with its flush, tcp_receive() leave of the receiving half, and return.
  abbrev pub Delivery : ℕ → List (List ℕ) → Outcome (List ℕ) → TcpConn L → Type 0
  Delivery capacity got o t =
      ((o ≡ ret []) × ReceiveInv arrived t got)
      ⊎ ((e : Errno) × (o ≡ fail e) × ReceiveInv arrived t got)
      ⊎ ((msg : List ℕ) × (o ≡ ret (take capacity msg))
          × (0 < length msg)
          × (length msg ≤ mbuf_msg_max)
          × ReceiveInv arrived t (got ++ (msg ∷ [])))

  -- What is left besides by such a call on `s`.
  abbrev Handled : ℕ → TcpConn L → List (List ℕ) → Outcome (List ℕ) × TcpConn L → Type 0
  Handled capacity s got r = SameSender sent s r.1 × Delivery capacity got r.0 r.1

  deliver-whole :
      (capacity : ℕ) (s : TcpConn L)
      → 4 ≤ wire_len s.receive_mbuf
      → wire_len s.receive_mbuf ≡ ntohl s.receive_mbuf.wire_data + 4
      → (let n = ntohl s.receive_mbuf.wire_data in
          let user_len = if ltb capacity n then capacity else n in
          deliver lower capacity s ≡ (
            ret (take user_len (drop 4 s.receive_mbuf.wire_data)),
            record s {
              receive_mbuf = record s.receive_mbuf { wire_data = [] };
              cnts = inc_to_app user_len s.cnts;
            },
          ))
  unfolding deliver mbuf_is_complete mbuf_payload mbuf_reset
  deliver-whole capacity s h size = ground arith

  deliver_lem :
      (capacity : ℕ) (s : TcpConn L) (got : List (List ℕ))
      → Whole lower sent arrived stream s got
      → SameSender sent s (deliver lower capacity s).1
        × Delivery capacity got (deliver lower capacity s).0 (deliver lower capacity s).1
  deliver_lem capacity s got w =
      let msg : List ℕ = drop 4 s.receive_mbuf.wire_data in
      let n : ℕ = ntohl s.receive_mbuf.wire_data in
      let (wire, len) = wire-frame s.receive_mbuf.wire_data w.bytes w.has_hdr w.size in
      let user_len : ℕ = if ltb capacity n then capacity else n in
      let t : TcpConn L = record s {
        receive_mbuf = record s.receive_mbuf { wire_data = [] };
        cnts = inc_to_app user_len s.cnts;
      } in
      let result : deliver lower capacity s ≡ (ret (take user_len msg), t) =
        deliver-whole capacity s w.has_hdr w.size in
      subst (Handled capacity s got) (sym result) (
        record {
          send_mbuf = refl;
          mbuf_sent = refl;
          sent_bytes = refl;
          from_app = refl;
          to_lower = refl;
        },
        inr (
            inr (
              msg,
              ap ret (copied capacity n msg len),
              omega (arith, len, w.nonempty),
              omega (arith, len, w.short),
              record {
                stream =
                    w.delivered_stream
                    ∙ ap (λ b. frames got ++ b) wire
                    ∙ sym (frames-snoc got msg)
                    ∙ sym (append-nil (frames (got ++ (msg ∷ []))));
                bytes = tt;
                partial = λ h _. absurd (omega arith);
                short = All-snoc got msg w.got_short (omega (arith, len, w.short));
                delivered = omega (arith, w.delivered, length-snoc got msg);
                buffered = w.buffered ∙ sym (length-snoc got msg);
              },
            )),
      )

  receive_msg_lem :
      (capacity : ℕ) (s : TcpConn L) (got : List (List ℕ))
      → ReceiveInv arrived s got
      → SameSender sent s (receive_msg lower capacity s).1
        × Delivery capacity got (receive_msg lower capacity s).0 (receive_msg lower capacity s).1
  unfolding receive_msg
  receive_msg_lem capacity s got inv =
      let m = buffer_msg_lem lower sent arrived stream s got inv in
      elim m.rc [
        | inl (z, inv') ↦
            subst (Handled capacity s got) (sym (rw (z, receive_msg))) (m.same, inl (refl, inv'))
        | inr (inl (e, f, inv')) ↦
            subst (Handled capacity s got) (sym (rw (f, receive_msg)))
              (m.same, inr (inl (e, refl, inv')))
        | inr (inr (one, w)) ↦
            let (same, delivery) = deliver_lem capacity (buffer_msg lower s).1 got w in
            subst (Handled capacity s got) (sym (rw (one, receive_msg)))
              (SameSender-trans sent m.same same, delivery)
      ]

  -- What tcp_receive() leaves.
  pub record Received (capacity : ℕ) (s : TcpConn L) (msgs got : List (List ℕ))
      (result : Run L (List ℕ)) : Type 0 where
    pub outcome : Outcome (List ℕ)
    pub after : TcpConn L
    pub result_eq : result ≡ some (outcome, after)
    pub send_inv : SendInv sent after msgs
    pub delivery : Delivery capacity got outcome after

  -- From a state that meets both invariants, tcp_receive() ends, never aborts, and keeps them. It
  -- returns 0 or fails without losing a byte of what has
  -- arrived, or returns the first `capacity` bytes of the next message, which is not empty and at
  -- most MBUF_MSG_MAX long. What tcp_send() has accepted stays in order, each message once.
  pub tcp_receive_lem :
      (capacity : ℕ) (s : TcpConn L) (msgs got : List (List ℕ))
      → SendInv sent s msgs
      → ReceiveInv arrived s got
      → Received capacity s msgs got (tcp_receive lower capacity s)
  unfolding tcp_receive
  tcp_receive_lem capacity s msgs got send_inv inv = elim (Option-cases s.bad) [
    | inr (reason, bad) ↦ record {
      outcome = fail reason;
      after = s;
      result_eq = ground (arith, bad);
      send_inv = send_inv;
      delivery = inr (inl (reason, refl, inv));
    }
    | inl good ↦
        let flush = try_finish_send_lem lower sent arrived stream s msgs send_inv in
        let inv' = SameReceiver-ReceiveInv arrived s flush.after got flush.same inv in
        let (same, delivery) = receive_msg_lem capacity flush.after got inv' in
        let received_after : Received capacity s msgs got
            (some (receive_msg lower capacity flush.after)) =
          record {
            outcome = (receive_msg lower capacity flush.after).0;
            after = (receive_msg lower capacity flush.after).1;
            result_eq = refl;
            send_inv =
                SameSender-SendInv sent flush.after (receive_msg lower capacity flush.after).1 msgs
                  same flush.inv;
            delivery = delivery;
          } in
        elim flush.empty_or_failed [
          | inl (done, _) ↦
              subst (Received capacity s msgs got)
                (sym (ground (arith, good, flush.result_eq, done))) received_after
          | inr (e, failed) ↦ elim (Bool-cases (is_eagain e)) [
            | inl again ↦
                subst (Received capacity s msgs got)
                  (sym (ground (arith, good, flush.result_eq, failed, again))) received_after
            | inr other ↦ record {
              outcome = if is_epipe e then ret [] else fail e;
              after = flush.after;
              result_eq = ground (arith, good, flush.result_eq, failed, other);
              send_inv = flush.inv;
              delivery = elim (Bool-cases (is_epipe e)) [
                | inl pipe ↦ inl (rw pipe, inv')
                | inr not_pipe ↦ inr (inl (e, rw not_pipe, inv'))
              ];
            }
          ]
        ]
  ]
