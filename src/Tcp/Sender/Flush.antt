-- ===== src/Tcp/Sender/Flush.antt =====
-- try_finish_send() of libxcm/tp/tcp/xcm_tp_tcp.c.
use xcm.Base.{
  ℕ, zero, suc, ◌+◌, ◌-◌, ◌≡◌, ◌≤◌, ◌<◌, ◌⊎◌, inl, inr, refl, sym, ap, ◌∙◌, some, List, [], ◌++◌,
  length, append_assoc, drop, take, arith, drop-add, drop_all, take-append-drop, length-drop,
  ne-nil_of_length, Bool-cases, ◌==◌, subst,
}
use xcm.Errno.{Errno, Outcome, ret, fail}
use xcm.Mbuf.{wire_len, mbuf_wire_len, mbuf_msg_max, mbuf_reset, mbuf_complete_payload_len}
use xcm.Mbuf.Frame.{frame, frames, frame_readers}
use xcm.Tcp.Conn.{TcpConn, Run, inc_to_lower}
use xcm.Tcp.Interface.{Lower, SendResult, accepted, refused, Stream}
use xcm.Tcp.Sender.{try_finish_send, try_finish_send_loop}
use xcm.Tcp.Sender.Inv.{SendInv, SameReceiver}

SendResult-cases : (r : SendResult) → ((n : ℕ) × (r ≡ accepted n)) ⊎ ((e : Errno) × (r ≡ refused e))
SendResult-cases (accepted n) = inl (n, refl)
SendResult-cases (refused e) = inr (e, refl)

module _ {L : Type 0} (lower : Lower L) (sent arrived : L → List ℕ)
    (stream : Stream lower sent arrived) where
  -- What try_finish_send() leaves.
  pub record Flushed (s : TcpConn L) (msgs : List (List ℕ)) (result : Run L ℕ) : Type 0 where
    pub outcome : Outcome ℕ
    pub after : TcpConn L
    pub result_eq : result ≡ some (outcome, after)
    pub inv : SendInv sent after msgs
    pub same : SameReceiver arrived s after
    pub empty_or_failed :
        ((outcome ≡ ret 0) × (after.send_mbuf.wire_data ≡ [])) ⊎ ((e : Errno) × (outcome ≡ fail e))

  -- The bytes that BTCP accepts move from the send buffer to its stream.
  moved :
      (s : TcpConn L) (msgs : List (List ℕ)) (n : ℕ)
      → SendInv sent s msgs
      → sent (lower.send (drop s.mbuf_sent s.send_mbuf.wire_data) s.btcp_socket).1
        ≡ sent s.btcp_socket ++ take n (drop s.mbuf_sent s.send_mbuf.wire_data)
      → sent (lower.send (drop s.mbuf_sent s.send_mbuf.wire_data) s.btcp_socket).1
          ++ drop (s.mbuf_sent + n) s.send_mbuf.wire_data
        ≡ frames msgs
  moved s msgs n inv joined =
      let start : List ℕ = drop s.mbuf_sent s.send_mbuf.wire_data in
      rw (joined, drop-add s.mbuf_sent n s.send_mbuf.wire_data)
        (append_assoc (sent s.btcp_socket) (take n start) (drop n start)
          ∙ ap (λ b. sent s.btcp_socket ++ b) (take-append-drop n start)
          ∙ inv.stream)

  flush_loop :
      (fuel : ℕ) (s : TcpConn L) (msgs : List (List ℕ)) (msg : List ℕ)
      → SendInv sent s msgs
      → s.send_mbuf.wire_data ≡ frame msg
      → length msg ≤ mbuf_msg_max
      → s.mbuf_sent < wire_len s.send_mbuf
      → s.cnts.to_lower_msgs + 1 ≡ length msgs
      → wire_len s.send_mbuf - s.mbuf_sent < fuel
      → Flushed s msgs (try_finish_send_loop lower fuel s)
  unfolding try_finish_send_loop
  flush_loop zero s msgs msg inv wire short room cnt h = elim h [ ]
  flush_loop (suc fuel) s msgs msg inv wire short room cnt h =
      let start : List ℕ = drop s.mbuf_sent s.send_mbuf.wire_data in
      let compl : mbuf_complete_payload_len s.send_mbuf ≡ some (length msg) =
        (frame_readers s.send_mbuf msg short wire).0 in
      let left : length start ≡ wire_len s.send_mbuf - s.mbuf_sent =
        length-drop s.mbuf_sent s.send_mbuf.wire_data in
      elim (SendResult-cases (lower.send start s.btcp_socket).0) [
        | inr (e, refusal) ↦ record {
          outcome = fail e;
          after = record s { btcp_socket = (lower.send start s.btcp_socket).1 };
          result_eq = ground (arith, compl, refusal);
          inv = record {
            stream =
                ap (λ b. b ++ start) (stream.send_refused start s.btcp_socket e refusal)
                ∙ inv.stream;
            pending = inr (msg, wire, short, room, cnt);
            counted = inv.counted;
            short = inv.short;
          };
          same = record {
            bad = refl;
            receive_mbuf = refl;
            arrived_bytes = stream.send_keeps start s.btcp_socket;
            to_app = refl;
            from_lower = refl;
          };
          empty_or_failed = inr (e, refl);
        }
        | inl (n, acceptance) ↦
            let (some_sent, within, joined) =
              stream.send_accepted start s.btcp_socket n (ne-nil_of_length start (omega arith))
                acceptance in
            let l' : L = (lower.send start s.btcp_socket).1 in
            let now : sent l' ++ drop (s.mbuf_sent + n) s.send_mbuf.wire_data ≡ frames msgs =
              moved s msgs n inv joined in
            elim (Bool-cases (s.mbuf_sent + n == mbuf_wire_len s.send_mbuf)) [
              | inl all ↦ record {
                outcome = ret 0;
                after = record s {
                  btcp_socket = l';
                  cnts = inc_to_lower (length msg) s.cnts;
                  send_mbuf = mbuf_reset s.send_mbuf;
                  mbuf_sent = 0;
                };
                result_eq = ground (arith, compl, acceptance, all);
                inv = record {
                  stream =
                      ap (λ b. sent l' ++ b)
                        (sym
                          (drop_all (s.mbuf_sent + n) s.send_mbuf.wire_data (ground (arith, all))))
                      ∙ now;
                  pending = inl (refl, refl, cnt);
                  counted = inv.counted;
                  short = inv.short;
                };
                same = record {
                  bad = refl;
                  receive_mbuf = refl;
                  arrived_bytes = stream.send_keeps start s.btcp_socket;
                  to_app = refl;
                  from_lower = refl;
                };
                empty_or_failed = inl (refl, refl);
              }
              | inr part ↦
                  let s1 : TcpConn L = record s { btcp_socket = l'; mbuf_sent = s.mbuf_sent + n } in
                  let room' : s1.mbuf_sent < wire_len s1.send_mbuf = ground (arith, part) in
                  let inv' : SendInv sent s1 msgs = record {
                    stream = now;
                    pending = inr (msg, wire, short, room', cnt);
                    counted = inv.counted;
                    short = inv.short;
                  } in
                  let ih = flush_loop fuel s1 msgs msg inv' wire short room' cnt (omega arith) in
                  record {
                    outcome = ih.outcome;
                    after = ih.after;
                    result_eq = ground (arith, compl, acceptance, part, ih.result_eq);
                    inv = ih.inv;
                    same = record {
                      bad = ih.same.bad;
                      receive_mbuf = ih.same.receive_mbuf;
                      arrived_bytes = ih.same.arrived_bytes ∙ stream.send_keeps start s.btcp_socket;
                      to_app = ih.same.to_app;
                      from_lower = ih.same.from_lower;
                    };
                    empty_or_failed = ih.empty_or_failed;
                  }
            ]
      ]

  -- try_finish_send() ends within its fuel and never aborts: it keeps what is left of the accepted
  -- messages in order, and either has sent all of it or has failed.
  pub try_finish_send_lem :
      (s : TcpConn L) (msgs : List (List ℕ))
      → SendInv sent s msgs
      → Flushed s msgs (try_finish_send lower s)
  unfolding try_finish_send
  try_finish_send_lem s msgs inv = elim inv.pending [
    | inl (none_left, at_start, cnt) ↦ record {
      outcome = ret 0;
      after = s;
      result_eq = ground (arith, none_left);
      inv = inv;
      same = record {
        bad = refl;
        receive_mbuf = refl;
        arrived_bytes = refl;
        to_app = refl;
        from_lower = refl;
      };
      empty_or_failed = inl (refl, none_left);
    }
    | inr (msg, wire, short, room, cnt) ↦ subst (Flushed s msgs) (ground arith) (
        flush_loop (wire_len s.send_mbuf - s.mbuf_sent + 1) s msgs msg inv wire short room cnt
          (omega arith))
  ]
