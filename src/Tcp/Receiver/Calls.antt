-- ===== src/Tcp/Receiver/Calls.antt =====
-- Sequences of calls on a connection of libxcm/tp/tcp/xcm_tp_tcp.c, from its tcp_init() on, and the
-- messages that they tell.
use xcm.Base.{ℕ, ◌≡◌, ◌<◌, some, false, List, [], ◌∷◌, ◌++◌, take, Option, length}
use xcm.Errno.{Errno, is_eagain, Outcome, ret, fail}
use xcm.Socket.{conn}
use xcm.Tcp.Conn.{TcpConn, BtcpNew, zeroed, tcp_init}
use xcm.Tcp.Interface.{Lower}
use xcm.Tcp.Sender.{tcp_send}
use xcm.Tcp.Sender.Inv.{SendInv}
use xcm.Tcp.Finish.{tcp_finish}
use xcm.Tcp.Receiver.{tcp_receive}
use xcm.Tcp.Receiver.Inv.{ReceiveInv}

-- A call of tcp_send(), with its buffer, and one of tcp_receive(), with its capacity.
abbrev pub SendCall : Type 0
SendCall = Outcome ℕ × List ℕ

abbrev pub ReceiveCall : Type 0
ReceiveCall = Outcome (List ℕ) × ℕ

-- The messages that calls of tcp_send(), the last one first, have passed on: those of the calls that
-- returned 0, and possibly those of calls that failed otherwise than by EAGAIN.
pub data Accepted : List SendCall → List (List ℕ) → Type 0 where
  no_sends : Accepted [] []
  sent_msg :
      {calls : List SendCall} {msgs : List (List ℕ)} (buf : List ℕ)
      → Accepted calls msgs
      → Accepted ((ret 0, buf) ∷ calls) (msgs ++ (buf ∷ []))
  unsent_msg :
      {calls : List SendCall} {msgs : List (List ℕ)} (buf : List ℕ) (e : Errno)
      → Accepted calls msgs
      → Accepted ((fail e, buf) ∷ calls) msgs
  broken_msg :
      {calls : List SendCall} {msgs : List (List ℕ)} (buf : List ℕ) (e : Errno)
      → is_eagain e ≡ false
      → Accepted calls msgs
      → Accepted ((fail e, buf) ∷ calls) (msgs ++ (buf ∷ []))

-- The messages that calls of tcp_receive(), the last one first, have delivered: each in one call,
-- which stored the first `capacity` bytes; calls that failed or returned no bytes because the
-- connection is closed delivered none.
pub data Deliveries : List ReceiveCall → List (List ℕ) → Type 0 where
  no_receives : Deliveries [] []
  got_msg :
      {calls : List ReceiveCall} {got : List (List ℕ)} (capacity : ℕ) (msg : List ℕ)
      → 0 < length msg
      → Deliveries calls got
      → Deliveries ((ret (take capacity msg), capacity) ∷ calls) (got ++ (msg ∷ []))
  got_closed :
      {calls : List ReceiveCall} {got : List (List ℕ)} (capacity : ℕ)
      → Deliveries calls got
      → Deliveries ((ret [], capacity) ∷ calls) got
  got_error :
      {calls : List ReceiveCall} {got : List (List ℕ)} (capacity : ℕ) (e : Errno)
      → Deliveries calls got
      → Deliveries ((fail e, capacity) ∷ calls) got

module _ {L : Type 0} (btcp : BtcpNew L) (lower : Lower L) (sent arrived : L → List ℕ) where
  -- A connection after its tcp_init() and calls in any order, the last one first in the lists;
  -- between the calls, BTCP may do work that neither accepts nor hands out bytes.
  pub data Reach : TcpConn L → List SendCall → List ReceiveCall → Type 0 where
    started :
        {s : TcpConn L} (parent : Option (TcpConn L))
        → tcp_init btcp conn parent zeroed ≡ ret s
        → sent s.btcp_socket ≡ []
        → arrived s.btcp_socket ≡ []
        → Reach s [] []
    called_send :
        {s t : TcpConn L} {sends : List SendCall} {receives : List ReceiveCall} (buf : List ℕ)
        (outcome : Outcome ℕ)
        → tcp_send lower buf s ≡ some (outcome, t)
        → Reach s sends receives
        → Reach t ((outcome, buf) ∷ sends) receives
    called_receive :
        {s t : TcpConn L} {sends : List SendCall} {receives : List ReceiveCall} (capacity : ℕ)
        (outcome : Outcome (List ℕ))
        → tcp_receive lower capacity s ≡ some (outcome, t)
        → Reach s sends receives
        → Reach t sends ((outcome, capacity) ∷ receives)
    called_finish :
        {s t : TcpConn L} {sends : List SendCall} {receives : List ReceiveCall}
        (outcome : Outcome ℕ)
        → tcp_finish lower s ≡ some (outcome, t)
        → Reach s sends receives
        → Reach t sends receives
    below :
        {s : TcpConn L} {sends : List SendCall} {receives : List ReceiveCall} (l : L)
        → sent l ≡ sent s.btcp_socket
        → arrived l ≡ arrived s.btcp_socket
        → Reach s sends receives
        → Reach (record s { btcp_socket = l }) sends receives

  -- The messages accepted and delivered, with the invariants of both halves.
  abbrev pub Explained : TcpConn L → List SendCall → List ReceiveCall → Type 0
  Explained s sends receives =
      (msgs : List (List ℕ)) × (got : List (List ℕ)) × Accepted sends msgs
      × Deliveries receives got
      × SendInv sent s msgs
      × ReceiveInv arrived s got
