-- ===== src/Tcp/Finish/Result.antt =====
-- What tcp_finish() of libxcm/tp/tcp/xcm_tp_tcp.c leaves.
use xcm.Base.{
  ℕ, ◌≢◌, ◌≡◌, ◌⊎◌, inl, inr, refl, sym, ap, ◌∙◌, none, some, List, [], ◌++◌, append-nil, drop,
  length, drop_all, arith, Option-cases,
}
use xcm.Errno.{Errno, Outcome, ret, fail, abort}
use xcm.Mbuf.Frame.{frames}
use xcm.Tcp.Interface.{Lower, Stream}
use xcm.Tcp.Conn.{TcpConn, Run}
use xcm.Tcp.Sender.{try_finish_send}
use xcm.Tcp.Sender.Inv.{SendInv, SameReceiver, SameReceiver-refl, SameReceiver-trans}
use xcm.Tcp.Sender.Flush.{Flushed, try_finish_send_lem}
use xcm.Tcp.Finish.{tcp_finish, finish_lower}

module _ {L : Type 0} (lower : Lower L) (sent arrived : L → List ℕ)
    (stream : Stream lower sent arrived) where
  -- What tcp_finish() leaves: no message is lost or added, the receiving half is as it was, and if
  -- it returns 0 then BTCP has accepted the whole of the accepted messages.
  pub record Finished (s : TcpConn L) (msgs : List (List ℕ)) (result : Run L ℕ) : Type 0 where
    pub outcome : Outcome ℕ
    pub after : TcpConn L
    pub result_eq : result ≡ some (outcome, after)
    pub inv : SendInv sent after msgs
    pub same : SameReceiver arrived s after
    pub flushed_or_failed :
        ((outcome ≡ ret 0) × (sent after.btcp_socket ≡ frames msgs))
        ⊎ ((e : Errno) × (outcome ≡ fail e))

  lower-SendInv :
      (s : TcpConn L) (msgs : List (List ℕ))
      → SendInv sent s msgs
      → SendInv sent (record s { btcp_socket = (lower.finish s.btcp_socket).1 }) msgs
  lower-SendInv s msgs inv = record {
    stream =
        ap (λ b. b ++ drop s.mbuf_sent s.send_mbuf.wire_data) (stream.finish_keeps s.btcp_socket).0
        ∙ inv.stream;
    pending = inv.pending;
    short = inv.short;
    counted = inv.counted;
  }

  lower-SameReceiver :
      (s : TcpConn L)
      → SameReceiver arrived s (record s { btcp_socket = (lower.finish s.btcp_socket).1 })
  lower-SameReceiver s = record {
    bad = refl;
    receive_mbuf = refl;
    arrived_bytes = (stream.finish_keeps s.btcp_socket).1;
    to_app = refl;
    from_lower = refl;
  }

  -- With an empty send buffer, BTCP has accepted all of the messages.
  empty-frames :
      (s : TcpConn L) (msgs : List (List ℕ))
      → SendInv sent s msgs
      → s.send_mbuf.wire_data ≡ []
      → sent s.btcp_socket ≡ frames msgs
  empty-frames s msgs inv empty =
      sym (append-nil (sent s.btcp_socket))
      ∙ ap (λ b. sent s.btcp_socket ++ b)
          (sym (drop_all s.mbuf_sent s.send_mbuf.wire_data (omega (arith, ap length empty))))
      ∙ inv.stream

  finish_good :
      (s t : TcpConn L) (rc : Outcome ℕ)
      → s.bad ≡ none
      → try_finish_send lower s ≡ some (rc, t)
      → rc ≢ abort
      → tcp_finish lower s ≡ some (finish_lower lower rc t)
  unfolding tcp_finish
  finish_good s t (ret n) good flush h = ground (arith, good, flush)
  finish_good s t (fail e) good flush h = ground (arith, good, flush)
  finish_good s t abort good flush h = absurd (h refl)

  finish_bad :
      (s : TcpConn L) (reason : Errno)
      → s.bad ≡ some reason
      → tcp_finish lower s ≡ some (fail reason, s)
  unfolding tcp_finish
  finish_bad s reason bad = ground (arith, bad)

  never-abort :
      {s : TcpConn L} {msgs : List (List ℕ)} {r : Run L ℕ}
      → (f : Flushed lower sent arrived stream s msgs r) → f.outcome ≢ abort
  never-abort f = elim f.empty_or_failed [ inl (p, q) ↦ λ h. cc | inr (e, p) ↦ λ h. cc ]

  -- From a state that meets the sending invariant, tcp_finish() ends and never aborts. No accepted
  -- message is lost or added, and the receiving half is as it was. It returns 0 only if BTCP has accepted every byte of the accepted messages in wire
  -- format, and otherwise fails.
  pub tcp_finish_lem :
      (s : TcpConn L) (msgs : List (List ℕ))
      → SendInv sent s msgs
      → Finished s msgs (tcp_finish lower s)
  unfolding finish_lower
  tcp_finish_lem s msgs inv = elim (Option-cases s.bad) [
    | inr (reason, bad) ↦ record {
      outcome = fail reason;
      after = s;
      result_eq = finish_bad s reason bad;
      inv = inv;
      same = SameReceiver-refl arrived s;
      flushed_or_failed = inr (reason, refl);
    }
    | inl good ↦
        let flushed : Flushed lower sent arrived stream s msgs (try_finish_send lower s) =
          try_finish_send_lem lower sent arrived stream s msgs inv in
        let t : TcpConn L = flushed.after in
        let after : TcpConn L = record t { btcp_socket = (lower.finish t.btcp_socket).1 } in
        let kept : SendInv sent after msgs = lower-SendInv t msgs flushed.inv in
        let result : tcp_finish lower s ≡ some (finish_lower lower flushed.outcome t) =
          finish_good s t flushed.outcome good flushed.result_eq (never-abort flushed) in
        let same : SameReceiver arrived s after =
          SameReceiver-trans arrived flushed.same (lower-SameReceiver t) in
        elim (Option-cases (lower.finish t.btcp_socket).0) [
          | inr (e, failed) ↦ record {
            outcome = fail e;
            after = after;
            result_eq = result ∙ ground (arith, failed);
            inv = kept;
            same = same;
            flushed_or_failed = inr (e, refl);
          }
          | inl done ↦ record {
            outcome = flushed.outcome;
            after = after;
            result_eq = result ∙ ground (arith, done);
            inv = kept;
            same = same;
            flushed_or_failed = elim flushed.empty_or_failed [
              | inl (zero_result, empty) ↦ inl (
                zero_result,
                (stream.finish_keeps t.btcp_socket).0 ∙ empty-frames t msgs flushed.inv empty,
              )
              | inr failed ↦ inr failed
            ];
          }
        ]
  ]
