-- ===== src/Examples/Links.antt =====
-- libxcm/tp/tcp/xcm_tp_tcp.c over a BTCP socket that moves a few bytes in each call.
use xcm.Base.{
  ℕ, zero, suc, ◌%◌, ◌≡◌, ◌≢◌, ◌≤◌, ◌<◌, inl, inr, refl, sym, ap, ◌∙◌, true, none, some, List, [],
  ◌∷◌, ◌++◌, length, drop, take, arith, subst, All, map, ◌==◌, if◌then◌else◌, Bool-cases,
  length-take, length-map,
}
use mathlib.Core.Option
use xcm.Errno.{eagain, ret}
use xcm.Mbuf.{
  Mbuf, mbuf_init, htonl, mbuf_set, mbuf_complete_payload_len, mbuf_is_complete, mbuf_is_hdr_valid,
  mbuf_payload, mbuf_wire_max, wire_len,
}
use xcm.Mbuf.Frame.{mbuf_set_lem, frame, frames}
use xcm.Tcp.Conn.{TcpConn, BtcpNew, tcp_init}
use xcm.Tcp.Interface.{Lower, Stream, SendResult, ReceiveResult, accepted, received, not_received}
use xcm.Tcp.Sender.{tcp_send, try_finish_send}
use xcm.Tcp.Sender.Inv.{SendInv}
use xcm.Tcp.Sender.Send.{Sent, tcp_send_lem}
use xcm.Tcp.Finish.{tcp_finish}
use xcm.Tcp.Finish.Result.{Finished, tcp_finish_lem}
use xcm.Tcp.Receiver.{
  tcp_receive, receive_msg, buffer_msg, buffer_hdr, buffer_receive, payload_received,
  buffer_payload, deliver,
}
use xcm.Tcp.Receiver.Inv.{ReceiveInv}
use xcm.Tcp.Receiver.Receive.{Received, tcp_receive_lem}
use xcm.Tcp.Receiver.Calls.{
  Accepted, Deliveries, Reach, started, called_send, called_receive, called_finish,
}
use xcm.Tcp.Receiver.Runs.{delivered_in_order}
use xcm.Tcp.Receiver.Start.{fresh_conn, fresh_conn_lem}

record Link : Type 0 where
  out : List ℕ
  seen : List ℕ
  incoming : List ℕ
  chunk : ℕ

-- At most `chunk` + 1 bytes in one call.
abbrev link_send : List ℕ → Link → SendResult × Link
link_send buf l =
    (accepted (length (take (suc l.chunk) buf)), record l { out = l.out ++ take (suc l.chunk) buf })

abbrev in_bytes : List ℕ → List ℕ
in_bytes = map (λ b. b % 256)

abbrev link_receive : ℕ → Link → ReceiveResult × Link
link_receive capacity l = if length l.incoming == 0 then (not_received eagain, l) else (
  received (in_bytes (take capacity l.incoming)),
  record l {
    seen = l.seen ++ in_bytes (take capacity l.incoming);
    incoming = drop capacity l.incoming;
  },
)

abbrev link : Lower Link
link = record { send = link_send; receive = link_receive; finish = λ l. (none, l) }

in_bytes_lem : (bs : List ℕ) → All (λ b. b < 256) (in_bytes bs)
in_bytes_lem [] = tt
in_bytes_lem (b ∷ bs) = (omega arith, in_bytes_lem bs)

take_chunk : (n : ℕ) (buf : List ℕ) → buf ≢ [] → 0 < length (take (suc n) buf)
take_chunk n [] h = absurd (h refl)
take_chunk n (b ∷ buf) h = omega arith

take-take-length : (n : ℕ) (buf : List ℕ) → take (length (take n buf)) buf ≡ take n buf
take-take-length zero buf = refl
take-take-length (suc n) [] = refl
take-take-length (suc n) (b ∷ buf) = ap (λ r. b ∷ r) (take-take-length n buf)

link_accepts :
    (buf : List ℕ) (l : Link) (n : ℕ)
    → buf ≢ []
    → (link_send buf l).0 ≡ accepted n
    → (0 < n) × (n ≤ length buf) × ((link_send buf l).1.out ≡ l.out ++ take n buf)
link_accepts buf l n h e =
    let size : length (take (suc l.chunk) buf) ≡ n = cc in
    (
      omega (arith, size, take_chunk l.chunk buf h),
      omega (arith, size, length-take {0} (suc l.chunk) buf),
      ap (λ b. l.out ++ b) (sym (take-take-length (suc l.chunk) buf) ∙ ap (λ k. take k buf) size),
    )

link_receives :
    (capacity : ℕ) (l : Link) (bytes : List ℕ)
    → (link_receive capacity l).0 ≡ received bytes
    → (length bytes ≤ capacity)
      × All (λ b. b < 256) bytes
      × ((link_receive capacity l).1.seen ≡ l.seen ++ bytes)
link_receives capacity l bytes h = elim (Bool-cases (length l.incoming == 0)) [
  | inl empty ↦ absurd (ground (arith, empty))
  | inr some_bytes ↦
      let same : in_bytes (take capacity l.incoming) ≡ bytes = ground (arith, some_bytes) in
      (
        omega (
          arith,
          ap length same,
          length-map {0, 0} (take capacity l.incoming) (λ b. b % 256),
          length-take {0} capacity l.incoming,
        ),
        subst (All (λ b. b < 256)) same (in_bytes_lem (take capacity l.incoming)),
        rw some_bytes (ap (λ b. l.seen ++ b) same),
      )
]

link-Stream : Stream link (λ l. l.out) (λ l. l.seen)
link-Stream = record {
  send_accepted = link_accepts;
  send_refused = λ buf l e h. absurd (cc);
  send_keeps = λ buf l. refl;
  receive_received = link_receives;
  receive_failed = λ capacity l e h. ground arith;
  receive_keeps = λ capacity l. ground arith;
  finish_keeps = λ l. (refl, refl);
}

abbrev fresh : Link
fresh = record { out = []; seen = []; incoming = 0 ∷ 0 ∷ 0 ∷ 2 ∷ 7 ∷ 8 ∷ []; chunk = 2 }

abbrev start : TcpConn Link
start = fresh_conn fresh

tcp_send_example :
    Sent link
      (λ l. l.out)
      (λ l. l.seen)
      link-Stream
      (7 ∷ 8 ∷ [])
      start
      []
      (tcp_send link (7 ∷ 8 ∷ []) start)
tcp_send_example =
    tcp_send_lem link (λ l. l.out) (λ l. l.seen) link-Stream (7 ∷ 8 ∷ []) start []
      (fresh_conn_lem (λ l. l.out) (λ l. l.seen) fresh refl refl).0

tcp_receive_example :
    Received link (λ l. l.out) (λ l. l.seen) link-Stream 1 start [] [] (tcp_receive link 1 start)
tcp_receive_example =
    tcp_receive_lem link (λ l. l.out) (λ l. l.seen) link-Stream 1 start [] []
      (fresh_conn_lem (λ l. l.out) (λ l. l.seen) fresh refl refl).0
      (fresh_conn_lem (λ l. l.out) (λ l. l.seen) fresh refl refl).1

-- The message 7, 8 has been sent, and its first three bytes in wire format have arrived.
abbrev sender : TcpConn Link
sender = record start {
  btcp_socket = record fresh { out = 0 ∷ 0 ∷ 0 ∷ 2 ∷ 7 ∷ 8 ∷ [] };
  cnts = record start.cnts { from_app_msgs = 1; to_lower_msgs = 1 };
}

abbrev receiver : TcpConn Link
receiver = record start {
  btcp_socket = record fresh { seen = 0 ∷ 0 ∷ 0 ∷ []; incoming = [] };
  receive_mbuf = record { wire_data = 0 ∷ 0 ∷ 0 ∷ []; wire_capacity = 4 };
}

sender-SendInv : SendInv (λ l. l.out) sender ((7 ∷ 8 ∷ []) ∷ [])
unfolding mbuf_init frames frame htonl
sender-SendInv = record {
  stream = refl;
  pending = inl (refl, refl, refl);
  short = (omega arith, tt);
  counted = refl;
}

receiver-ReceiveInv : ReceiveInv (λ l. l.seen) receiver []
unfolding mbuf_init frames frame htonl
receiver-ReceiveInv = record {
  stream = refl;
  bytes = omega arith;
  partial = λ h _. absurd (omega arith);
  short = tt;
  delivered = refl;
  buffered = refl;
}

-- The BTCP socket is initialised without an error.
abbrev btcp : BtcpNew Link
btcp = record { create = λ type. fresh; init = λ l parent. (none, l) }

-- The message 7, 8 has been sent three bytes at a time.
abbrev sent_two : TcpConn Link
sent_two = record start {
  btcp_socket = record fresh { out = 0 ∷ 0 ∷ 0 ∷ 2 ∷ 7 ∷ 8 ∷ [] };
  send_mbuf = record { wire_data = []; wire_capacity = 6 };
  cnts = record start.cnts {
    from_app_bytes = 2;
    to_lower_bytes = 2;
    from_app_msgs = 1;
    to_lower_msgs = 1;
  };
}

sends_two : Reach btcp link (λ l. l.out) (λ l. l.seen) sent_two ((ret 0, 7 ∷ 8 ∷ []) ∷ []) []
unfolding tcp_send tcp_init try_finish_send mbuf_init tcp_finish
sends_two =
    called_finish (ret 0) refl (called_send (7 ∷ 8 ∷ []) (ret 0) refl (started none refl refl refl))

-- The message 7, 8 has been received into a buffer of one byte.
abbrev got_one : TcpConn Link
got_one = record start {
  btcp_socket = record fresh { seen = 0 ∷ 0 ∷ 0 ∷ 2 ∷ 7 ∷ 8 ∷ []; incoming = [] };
  receive_mbuf = record { wire_data = []; wire_capacity = 6 };
  cnts = record start.cnts {
    from_lower_bytes = 2;
    to_app_bytes = 1;
    from_lower_msgs = 1;
    to_app_msgs = 1;
  };
}

receives_one : Reach btcp link (λ l. l.out) (λ l. l.seen) got_one [] ((ret (7 ∷ []), 1) ∷ [])
unfolding tcp_receive tcp_init mbuf_init try_finish_send receive_msg buffer_msg buffer_hdr
    buffer_receive payload_received buffer_payload deliver mbuf_is_hdr_valid mbuf_is_complete
    mbuf_payload
receives_one =
    called_receive {s = start} {t = got_one} 1 (ret (7 ∷ [])) refl (started none refl refl refl)

delivered_in_order_example :
    (got : List (List ℕ)) × (others : List (List ℕ)) × Accepted
      ((ret 0, 7 ∷ 8 ∷ []) ∷ [])
      (got ++ others)
    × Deliveries ((ret (7 ∷ []), 1) ∷ []) got
    × (got_one.receive_mbuf.wire_data
          ++ ([] ++ drop sent_two.mbuf_sent sent_two.send_mbuf.wire_data)
        ≡ frames others)
delivered_in_order_example =
    delivered_in_order btcp link (λ l. l.out) (λ l. l.seen) link-Stream btcp link (λ l. l.out)
      (λ l. l.seen) link-Stream sent_two got_one ((ret 0, 7 ∷ 8 ∷ []) ∷ []) [] []
      ((ret (7 ∷ []), 1) ∷ []) [] sends_two receives_one refl

-- A message of two bytes sent three bytes at a time, and one received into a buffer of one byte.
send_bytes :
    Option.map (λ r. r.1.btcp_socket.out) (tcp_send link (7 ∷ 8 ∷ []) start)
    ≡ some (0 ∷ 0 ∷ 0 ∷ 2 ∷ 7 ∷ 8 ∷ [])
unfolding tcp_send mbuf_init try_finish_send
send_bytes = refl

mbuf_set_example :
    (b' : Mbuf) × (mbuf_set mbuf_init (7 ∷ 8 ∷ []) ≡ some b')
    × (b'.wire_data ≡ frame (7 ∷ 8 ∷ []))
    × (mbuf_complete_payload_len b' ≡ some (length {0} {A = ℕ} (7 ∷ 8 ∷ [])))
    × (mbuf_is_complete b' ≡ true)
    × (mbuf_is_hdr_valid b' ≡ true)
    × (mbuf_payload b' ≡ (7 ∷ 8 ∷ []))
    × (wire_len b' ≤ mbuf_wire_max)
mbuf_set_example = mbuf_set_lem mbuf_init (7 ∷ 8 ∷ []) (omega arith)

tcp_finish_example :
    Finished link
      (λ l. l.out)
      (λ l. l.seen)
      link-Stream
      sender
      ((7 ∷ 8 ∷ []) ∷ [])
      (tcp_finish link sender)
tcp_finish_example =
    tcp_finish_lem link (λ l. l.out) (λ l. l.seen) link-Stream sender ((7 ∷ 8 ∷ []) ∷ [])
      sender-SendInv
