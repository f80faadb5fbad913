-- ===== src/Tcp/Sender/Send.antt =====
-- tcp_send() of libxcm/tp/tcp/xcm_tp_tcp.c.
use xcm.Base.{
  drop_all, ℕ, ◌≡◌, ◌≤◌, ◌⊎◌, inl, inr, refl, sym, ap, ◌∙◌, false, some, List, [], ◌∷◌, ◌++◌,
  length, append-nil, drop, arith, Bool-cases, Option-cases, ◌==◌, ltb, ltb-false,
}
use xcm.Errno.{Errno, einval, emsgsize, is_eagain, Outcome, ret, fail}
use xcm.Mbuf.{Mbuf, mbuf_msg_max}
use xcm.Mbuf.Frame.{frame, frames, frames-snoc, mbuf_set_lem, length-frame, length-snoc, All-snoc}
use xcm.Tcp.Conn.{TcpConn, Run, inc_from_app}
use xcm.Tcp.Interface.{Lower, Stream}
use xcm.Tcp.Sender.{tcp_send, send_accept, send_result}
use xcm.Tcp.Sender.Inv.{SendInv, SameReceiver, SameReceiver-refl, SameReceiver-trans}
use xcm.Tcp.Sender.Flush.{try_finish_send_lem}

module _ {L : Type 0} (lower : Lower L) (sent arrived : L → List ℕ)
    (stream : Stream lower sent arrived) where
  -- What tcp_send() of `buf` leaves: the receiving half is as it was; if it returns 0 the message
  -- is accepted; if it fails the message is not accepted, but for a failure other than EAGAIN to
  -- send it on after it has been accepted.
  pub record Sent (buf : List ℕ) (s : TcpConn L) (msgs : List (List ℕ)) (result : Run L ℕ)
      : Type 0 where
    pub outcome : Outcome ℕ
    pub after : TcpConn L
    pub result_eq : result ≡ some (outcome, after)
    pub same : SameReceiver arrived s after
    pub cases :
        ((outcome ≡ ret 0) × SendInv sent after (msgs ++ (buf ∷ [])))
        ⊎ ((e : Errno) × (outcome ≡ fail e) × SendInv sent after msgs)
        ⊎ ((e : Errno) × (outcome ≡ fail e)
            × (is_eagain e ≡ false)
            × SendInv sent after (msgs ++ (buf ∷ [])))

  -- The state in which tcp_send() calls try_finish_send() for the second time.
  filled-SendInv :
      (buf : List ℕ) (s : TcpConn L) (msgs : List (List ℕ)) (filled : Mbuf)
      → length buf ≤ mbuf_msg_max
      → SendInv sent s msgs
      → s.send_mbuf.wire_data ≡ []
      → filled.wire_data ≡ frame buf
      → SendInv sent
          (record s { send_mbuf = filled; cnts = inc_from_app (length buf) s.cnts })
          (msgs ++ (buf ∷ []))
  filled-SendInv buf s msgs filled short inv nothing wire = elim inv.pending [
    | inr (msg, w, _, room, cnt) ↦ absurd (omega (arith, ap length nothing))
    | inl (_, at_start, cnt) ↦
        let flushed : sent s.btcp_socket ≡ frames msgs =
          sym (append-nil (sent s.btcp_socket))
          ∙ ap (λ b. sent s.btcp_socket ++ b)
              (sym (drop_all s.mbuf_sent s.send_mbuf.wire_data (omega (arith, ap length nothing))))
          ∙ inv.stream in
        record {
          stream =
              ap (λ k. sent s.btcp_socket ++ drop k filled.wire_data) at_start
              ∙ ap (λ w. sent s.btcp_socket ++ w) wire
              ∙ ap (λ b. b ++ frame buf) flushed
              ∙ sym (frames-snoc msgs buf);
          pending = inr (
            buf,
            wire,
            short,
            omega (arith, ap length wire, length-frame buf),
            ground (arith, cnt, length-snoc msgs buf),
          );
          short = All-snoc msgs buf inv.short short;
          counted = omega (arith, inv.counted, length-snoc msgs buf);
        }
  ]

  -- A failure that changes neither half.
  rejected :
      (buf : List ℕ) (s : TcpConn L) (msgs : List (List ℕ)) (result : Run L ℕ) (e : Errno)
      → SendInv sent s msgs
      → result ≡ some (fail e, s)
      → Sent buf s msgs result
  rejected buf s msgs result e inv h = record {
    outcome = fail e;
    after = s;
    result_eq = h;
    same = SameReceiver-refl arrived s;
    cases = inr (inl (e, refl, inv));
  }

  send_accept_lem :
      (buf : List ℕ) (s : TcpConn L) (msgs : List (List ℕ))
      → length buf ≤ mbuf_msg_max
      → SendInv sent s msgs
      → s.send_mbuf.wire_data ≡ []
      → Sent buf s msgs (send_accept lower buf s)
  unfolding send_accept
  send_accept_lem buf s msgs short inv nothing =
      let set = mbuf_set_lem s.send_mbuf buf short in
      let t : TcpConn L = record s { send_mbuf = set.0; cnts = inc_from_app (length buf) s.cnts } in
      let flush =
        try_finish_send_lem lower sent arrived stream t (msgs ++ (buf ∷ []))
          (filled-SendInv buf s msgs set.0 short inv nothing set.2) in
      let same : SameReceiver arrived s t = record {
        bad = refl;
        receive_mbuf = refl;
        arrived_bytes = refl;
        to_app = refl;
        from_lower = refl;
      } in
      record {
        outcome = send_result flush.outcome;
        after = flush.after;
        result_eq = ground (arith, set.1, flush.result_eq, nothing);
        same = SameReceiver-trans arrived same flush.same;
        cases = elim flush.empty_or_failed [
          | inl (done, _) ↦ inl (ap send_result done, flush.inv)
          | inr (e, failed) ↦ elim (Bool-cases (is_eagain e)) [
            | inl again ↦ inl (ap send_result failed ∙ rw again, flush.inv)
            | inr other ↦ inr (inr (e, ap send_result failed ∙ rw other, other, flush.inv))
          ]
        ];
      }

  -- From a state that meets the sending invariant, tcp_send() ends, never aborts, and keeps the
  -- invariant. If it returns 0 the message has joined the accepted messages:
  -- what BTCP has accepted, and what is left in the send buffer, are those in wire format, in
  -- order, each once. If it fails with EAGAIN the message has not joined them, and if it fails
  -- with another error either may be the case. The receiving half is left as it was.
  pub tcp_send_lem :
      (buf : List ℕ) (s : TcpConn L) (msgs : List (List ℕ))
      → SendInv sent s msgs
      → Sent buf s msgs (tcp_send lower buf s)
  unfolding tcp_send
  tcp_send_lem buf s msgs inv = elim (Bool-cases (ltb mbuf_msg_max (length buf))) [
    | inl long ↦ rejected buf s msgs (tcp_send lower buf s) emsgsize inv (ground arith)
    | inr short ↦ elim (Bool-cases (length buf == 0)) [
      | inl empty ↦ rejected buf s msgs (tcp_send lower buf s) einval inv (ground arith)
      | inr some_bytes ↦ elim (Option-cases s.bad) [
        | inr (reason, bad) ↦ rejected buf s msgs (tcp_send lower buf s) reason inv (ground arith)
        | inl good ↦
            let flush = try_finish_send_lem lower sent arrived stream s msgs inv in
            elim flush.empty_or_failed [
              | inr (e, failed) ↦ record {
                outcome = fail e;
                after = flush.after;
                result_eq = ground (arith, flush.result_eq, failed);
                same = flush.same;
                cases = inr (inl (e, refl, flush.inv));
              }
              | inl (done, nothing) ↦
                  let accept =
                    send_accept_lem buf flush.after msgs (ltb-false _ _ short) flush.inv nothing in
                  record {
                    outcome = accept.outcome;
                    after = accept.after;
                    result_eq = ground (arith, flush.result_eq, done, accept.result_eq);
                    same = SameReceiver-trans arrived flush.same accept.same;
                    cases = accept.cases;
                  }
            ]
      ]
    ]
  ]
