-- ===== src/Tcp/Receiver/Runs.antt =====
-- The calls on a connection of libxcm/tp/tcp/xcm_tp_tcp.c, from its tcp_init() on, in any order, and
-- what the calls at the two ends of a link say of the messages between them.
use xcm.Base.{ℕ, ◌≡◌, inl, inr, sym, ap, ◌∙◌, some, List, [], ◌∷◌, ◌++◌, drop, subst}
use mathlib.Core.Option.{some-injective}
use xcm.Errno.{Outcome}
use xcm.Mbuf.Frame.{frames}
use xcm.Tcp.Conn.{TcpConn, BtcpNew}
use xcm.Tcp.Interface.{Lower, Stream}
use xcm.Tcp.Sender.{tcp_send}
use xcm.Tcp.Sender.Send.{tcp_send_lem}
use xcm.Tcp.Finish.{tcp_finish}
use xcm.Tcp.Finish.Result.{tcp_finish_lem}
use xcm.Tcp.Receiver.{tcp_receive}
use xcm.Tcp.Receiver.Inv.{ReceiveInv}
use xcm.Tcp.Receiver.Receive.{SameReceiver-ReceiveInv, tcp_receive_lem}
use xcm.Tcp.Receiver.Start.{fresh_conn_lem, tcp_init-fresh}
use xcm.Tcp.Receiver.Order.{invariants-in_order}
use xcm.Tcp.Receiver.Calls.{
  SendCall, ReceiveCall, Accepted, no_sends, sent_msg, unsent_msg, broken_msg, Deliveries,
  no_receives, got_msg, got_closed, got_error, Reach, started, called_send, called_receive,
  called_finish, below, Explained,
}

module _ {L : Type 0} (btcp : BtcpNew L) (lower : Lower L) (sent arrived : L → List ℕ) where
  send_step :
      (stream : Stream lower sent arrived) (s t : TcpConn L) (sends : List SendCall)
      (receives : List ReceiveCall) (buf : List ℕ) (outcome : Outcome ℕ)
      → tcp_send lower buf s ≡ some (outcome, t)
      → Explained btcp lower sent arrived s sends receives
      → Explained btcp lower sent arrived t ((outcome, buf) ∷ sends) receives
  send_step stream s t sends receives buf outcome h (msgs, got, acc, del, si, ri) =
      let r = tcp_send_lem lower sent arrived stream buf s msgs si in
      let eq : (r.outcome, r.after) ≡ (outcome, t) =
        some-injective (r.outcome, r.after) (outcome, t) (sym r.result_eq ∙ h) in
      let ri' : ReceiveInv arrived r.after got =
        SameReceiver-ReceiveInv arrived s r.after got r.same ri in
      let here : Explained btcp lower sent arrived r.after ((r.outcome, buf) ∷ sends) receives =
        elim r.cases [
          | inl (ok, inv) ↦ (
            msgs ++ (buf ∷ []),
            got,
            subst (λ o. Accepted ((o, buf) ∷ sends) (msgs ++ (buf ∷ []))) (sym ok)
                (sent_msg buf acc),
            del,
            inv,
            ri',
          )
          | inr (inl (e, failed, inv)) ↦ (
            msgs,
            got,
            subst (λ o. Accepted ((o, buf) ∷ sends) msgs) (sym failed) (unsent_msg buf e acc),
            del,
            inv,
            ri',
          )
          | inr (inr (e, failed, other, inv)) ↦ (
            msgs ++ (buf ∷ []),
            got,
            subst (λ o. Accepted ((o, buf) ∷ sends) (msgs ++ (buf ∷ []))) (sym failed)
                (broken_msg buf e other acc),
            del,
            inv,
            ri',
          )
        ] in
      subst (λ p. Explained btcp lower sent arrived p.1 ((p.0, buf) ∷ sends) receives) eq here

  receive_step :
      (stream : Stream lower sent arrived) (s t : TcpConn L) (sends : List SendCall)
      (receives : List ReceiveCall) (capacity : ℕ) (outcome : Outcome (List ℕ))
      → tcp_receive lower capacity s ≡ some (outcome, t)
      → Explained btcp lower sent arrived s sends receives
      → Explained btcp lower sent arrived t sends ((outcome, capacity) ∷ receives)
  receive_step stream s t sends receives capacity outcome h (msgs, got, acc, del, si, ri) =
      let r = tcp_receive_lem lower sent arrived stream capacity s msgs got si ri in
      let eq : (r.outcome, r.after) ≡ (outcome, t) =
        some-injective (r.outcome, r.after) (outcome, t) (sym r.result_eq ∙ h) in
      let here : Explained btcp lower sent arrived r.after sends
          ((r.outcome, capacity) ∷ receives) =
        elim r.delivery [
          | inl (closed, inv) ↦ (
            msgs,
            got,
            acc,
            subst (λ o. Deliveries ((o, capacity) ∷ receives) got) (sym closed)
                (got_closed capacity del),
            r.send_inv,
            inv,
          )
          | inr (inl (e, failed, inv)) ↦ (
            msgs,
            got,
            acc,
            subst (λ o. Deliveries ((o, capacity) ∷ receives) got) (sym failed)
                (got_error capacity e del),
            r.send_inv,
            inv,
          )
          | inr (inr (msg, ok, some_bytes, short, inv)) ↦ (
            msgs,
            got ++ (msg ∷ []),
            acc,
            subst (λ o. Deliveries ((o, capacity) ∷ receives) (got ++ (msg ∷ []))) (sym ok)
                (got_msg capacity msg some_bytes del),
            r.send_inv,
            inv,
          )
        ] in
      subst (λ p. Explained btcp lower sent arrived p.1 sends ((p.0, capacity) ∷ receives)) eq here

  finish_step :
      (stream : Stream lower sent arrived) (s t : TcpConn L) (sends : List SendCall)
      (receives : List ReceiveCall) (outcome : Outcome ℕ)
      → tcp_finish lower s ≡ some (outcome, t)
      → Explained btcp lower sent arrived s sends receives
      → Explained btcp lower sent arrived t sends receives
  finish_step stream s t sends receives outcome h (msgs, got, acc, del, si, ri) =
      let r = tcp_finish_lem lower sent arrived stream s msgs si in
      let eq : (r.outcome, r.after) ≡ (outcome, t) =
        some-injective (r.outcome, r.after) (outcome, t) (sym r.result_eq ∙ h) in
      subst (λ p. Explained btcp lower sent arrived p.1 sends receives) eq
        (msgs, got, acc, del, r.inv, SameReceiver-ReceiveInv arrived s r.after got r.same ri)

  below_step :
      (s : TcpConn L) (sends : List SendCall) (receives : List ReceiveCall) (l : L)
      → sent l ≡ sent s.btcp_socket
      → arrived l ≡ arrived s.btcp_socket
      → Explained btcp lower sent arrived s sends receives
      → Explained btcp lower sent arrived (record s { btcp_socket = l }) sends receives
  below_step s sends receives l same_sent same_arrived (msgs, got, acc, del, si, ri) = (
    msgs,
    got,
    acc,
    del,
    record {
      stream = ap (λ b. b ++ drop s.mbuf_sent s.send_mbuf.wire_data) same_sent ∙ si.stream;
      pending = si.pending;
      short = si.short;
      counted = si.counted;
    },
    record {
      stream = same_arrived ∙ ri.stream;
      bytes = ri.bytes;
      partial = ri.partial;
      short = ri.short;
      delivered = ri.delivered;
      buffered = ri.buffered;
    },
  )

  -- Every connection meets the invariants of both halves, for the messages its calls tell.
  Reach-Explained :
      (stream : Stream lower sent arrived) {s : TcpConn L} {sends : List SendCall}
      {receives : List ReceiveCall}
      → Reach btcp lower sent arrived s sends receives
      → Explained btcp lower sent arrived s sends receives
  Reach-Explained stream {s = s} (started parent h nothing_sent nothing_arrived) =
      let (si, ri) = fresh_conn_lem sent arrived s.btcp_socket nothing_sent nothing_arrived in
      subst (λ c. Explained btcp lower sent arrived c [] []) (sym (tcp_init-fresh btcp parent s h))
        ([], [], no_sends, no_receives, si, ri)
  Reach-Explained stream (called_send buf outcome h run) =
      send_step stream _ _ _ _ buf outcome h (Reach-Explained stream run)
  Reach-Explained stream (called_receive capacity outcome h run) =
      receive_step stream _ _ _ _ capacity outcome h (Reach-Explained stream run)
  Reach-Explained stream (called_finish outcome h run) =
      finish_step stream _ _ _ _ outcome h (Reach-Explained stream run)
  Reach-Explained stream (below l same_sent same_arrived run) =
      below_step _ _ _ l same_sent same_arrived (Reach-Explained stream run)

-- Of two connections from their tcp_init() on, over BTCP sockets that have then moved no bytes, with
-- calls of tcp_send(), tcp_receive() and tcp_finish() in any order at both, let what BTCP hands out
-- at one be a first part of what it has accepted at the other. Then the messages that the calls of
-- tcp_receive() there have delivered are the first of those that the calls of tcp_send() here have
-- passed on, in order and each once: all those of calls that returned 0, none of calls that failed
-- with EAGAIN, and possibly those of calls that failed otherwise. Each delivery stored the first
-- bytes of its message, up to the capacity; a call that failed delivered none, nor did one with room
-- that returned no bytes. The bytes in the receive buffer, on their way in BTCP and in the send
-- buffer are the other messages in wire format.
pub delivered_in_order :
    {L M : Type 0} (btcp : BtcpNew L) (lower : Lower L) (sent arrived : L → List ℕ)
    (stream : Stream lower sent arrived) (peer_btcp : BtcpNew M) (peer_lower : Lower M)
    (peer_sent peer_arrived : M → List ℕ) (peer_stream : Stream peer_lower peer_sent peer_arrived)
    (s : TcpConn L) (t : TcpConn M) (sends peer_sends : List SendCall)
    (receives peer_receives : List ReceiveCall) (on_its_way : List ℕ)
    → Reach btcp lower sent arrived s sends receives
    → Reach peer_btcp peer_lower peer_sent peer_arrived t peer_sends peer_receives
    → peer_arrived t.btcp_socket ++ on_its_way ≡ sent s.btcp_socket
    → (got : List (List ℕ)) × (others : List (List ℕ)) × Accepted sends (got ++ others)
      × Deliveries peer_receives got
      × (t.receive_mbuf.wire_data ++ (on_its_way ++ drop s.mbuf_sent s.send_mbuf.wire_data)
          ≡ frames others)
delivered_in_order btcp lower sent arrived stream peer_btcp peer_lower peer_sent peer_arrived
      peer_stream s t sends peer_sends receives peer_receives on_its_way run peer_run link =
    let (msgs, got', acc, del', si, ri') = Reach-Explained btcp lower sent arrived stream run in
    let (msgs', got, acc', del, si', ri) =
      Reach-Explained peer_btcp peer_lower peer_sent peer_arrived peer_stream peer_run in
    let (others, split, rest) =
      invariants-in_order sent peer_arrived s t msgs got on_its_way si ri link in
    (got, others, subst (Accepted sends) split acc, del, rest)
