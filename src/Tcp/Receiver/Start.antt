-- ===== src/Tcp/Receiver/Start.antt =====
-- The connection that tcp_init() of libxcm/tp/tcp/xcm_tp_tcp.c leaves.
use xcm.Base.{
  ℕ, ◌≡◌, inl, inr, refl, sym, ap, ◌∙◌, List, [], arith, append-nil, Option, Option-cases,
}
use xcm.Errno.{Outcome, ret, fail, abort}
use xcm.Socket.{conn}
use xcm.Mbuf.{mbuf_init}
use xcm.Mbuf.Frame.{frames}
use xcm.Tcp.Conn.{TcpConn, BtcpNew, zeroed, init_mbufs, with_btcp, parent_btcp, tcp_init}
use xcm.Tcp.Sender.Inv.{SendInv}
use xcm.Tcp.Receiver.Inv.{ReceiveInv}

abbrev ret_or : {A : Type 0} → A → Outcome A → A
ret_or d (ret a) = a
ret_or d (fail e) = d
ret_or d abort = d

-- The connection that tcp_init() leaves when it does not fail.
abbrev pub fresh_conn : {L : Type 0} → L → TcpConn L
fresh_conn l = with_btcp (init_mbufs zeroed) l

-- Over a BTCP socket that has moved no bytes, no message has been accepted or delivered.
pub fresh_conn_lem :
    {L : Type 0} (sent arrived : L → List ℕ) (l : L)
    → sent l ≡ []
    → arrived l ≡ []
    → SendInv sent (fresh_conn l) [] × ReceiveInv arrived (fresh_conn l) []
unfolding mbuf_init frames
fresh_conn_lem sent arrived l h k = (
  record {
    stream = append-nil (sent l) ∙ h;
    pending = inl (refl, refl, refl);
    short = tt;
    counted = refl;
  },
  record {
    stream = k;
    bytes = tt;
    partial = λ p _. absurd (omega arith);
    short = tt;
    delivered = refl;
    buffered = refl;
  },
)

fresh_again :
    {L : Type 0} (l : L) (s : TcpConn L) → ret (fresh_conn l) ≡ ret s → s ≡ fresh_conn s.btcp_socket
fresh_again l s h =
    let same : fresh_conn l ≡ s = ap (λ o. ret_or (fresh_conn l) o) h in
    sym same ∙ ap (λ t. fresh_conn t.btcp_socket) same

-- A connection is fresh when tcp_init() returns.
pub tcp_init-fresh :
    {L : Type 0} (btcp : BtcpNew L) (parent : Option (TcpConn L)) (s : TcpConn L)
    → tcp_init btcp conn parent zeroed ≡ ret s
    → s ≡ fresh_conn s.btcp_socket
unfolding tcp_init
tcp_init-fresh btcp parent s h =
    let r = btcp.init (btcp.create conn) (parent_btcp parent) in
    elim (Option-cases r.0) [
      | inl ok ↦ fresh_again r.1 s cc
      | inr (e, failed) ↦ absurd (ground arith)
    ]
