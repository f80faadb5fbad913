-- ===== src/Examples/Sends.antt =====
-- xcm_send() of libxcm/core/xcm.c, and the turns of the control interface.
use xcm.Base.{
  ℕ, zero, suc, ◌-◌, ◌≡◌, ◌≤◌, ◌<◌, refl, sym, ap, ◌∙◌, Bool, true, false, Option, none, some, List,
  [], ◌∷◌, ◌++◌, length, take, arith, length-take,
}
use xcm.Errno.{Errno, Outcome, ret, fail}
use xcm.Socket.{Socket}
use xcm.Socket.Calls.{
  xcm_tp_socket_send, xcm_tp_socket_finish, xcm_tp_socket_update, after_call, consider_ctl, do_ctl,
  consider_auto_update, xcm_tp_socket_is_bytestream, failed_for_good, failed_for_now, error_of,
}
use xcm.Api.{await, socket_wait, xcm_send}
use xcm.Api.Send.{Keeps, Wakes}
use xcm.Api.Send.Message.{MessageTransport, SentOnce, xcm_send_lem}
use xcm.Api.Send.Bytes.{ByteTransport, SentBytes, xcm_send_bytes_lem}
use xcm.Examples.Nets.{
  Net, msg_send, byte_send, net_finish, net_ops, net_env, a_socket, a_net, msg_ops, byte_ops,
}

finish_busy : (w : Net) (e : Errno) → (net_finish w).0 ≡ some e → 0 < w.busy
finish_busy w e h = ground arith

module _ (send : List ℕ → Net → Outcome ℕ × Net) (max_msg : Option (Socket → Net → ℕ)) where
  -- A call leaves how long the transport is busy to the wait.
  call_busy :
      (permanently temporarly : Bool) (s : Socket) (w : Net)
      → (after_call (net_ops send max_msg) net_env permanently temporarly s w).1.busy ≡ w.busy
  unfolding after_call consider_ctl consider_auto_update do_ctl xcm_tp_socket_update
  call_busy permanently temporarly s w = ground arith

  wait_busy :
      (s : Socket) (condition : ℕ) (w : Net)
      → (socket_wait (net_ops send max_msg) net_env s condition w).2.busy ≡ w.busy - 1
  unfolding socket_wait await xcm_tp_socket_update
  wait_busy s condition w = refl

  module _ (same_busy : (buf : List ℕ) (w : Net) → (send buf w).1.busy ≡ w.busy)
      (fails_busy : (buf : List ℕ) (w : Net) (e : Errno)
        → (send buf w).0 ≡ fail e
        → 0 < w.busy) where
    sent_busy :
        (s : Socket) (buf : List ℕ) (w : Net)
        → (xcm_tp_socket_send (net_ops send max_msg) net_env s buf w).2.busy ≡ w.busy
    unfolding xcm_tp_socket_send
    sent_busy s buf w =
        call_busy (failed_for_good (error_of (send buf w).0))
          (failed_for_now (error_of (send buf w).0)) s (send buf w).1
        ∙ same_busy buf w

    finished_busy :
        (s : Socket) (w : Net)
        → (xcm_tp_socket_finish (net_ops send max_msg) net_env s w).2.busy ≡ w.busy
    unfolding xcm_tp_socket_finish
    finished_busy s w =
        let done : (net_finish w).1.busy ≡ w.busy = ground arith in
        call_busy (failed_for_good (net_finish w).0) (failed_for_now (net_finish w).0) s
          (net_finish w).1
        ∙ done

    net_Wakes : Wakes (net_ops send max_msg) net_env (λ w. w.busy)
    unfolding xcm_tp_socket_send xcm_tp_socket_finish
    net_Wakes = record {
      send_wakes = λ s buf w e failed again woken. omega (
        arith,
        fails_busy buf w e failed,
        sent_busy s buf w,
        wait_busy (xcm_tp_socket_send (net_ops send max_msg) net_env s buf w).1 2
            (xcm_tp_socket_send (net_ops send max_msg) net_env s buf w).2,
      );
      send_done = λ s buf w n done. omega (arith, sent_busy s buf w);
      finish_wakes = λ s w e failed more woken.
          let waits : 0 < w.busy = finish_busy w e failed in
          omega (
            arith,
            waits,
            finished_busy s w,
            wait_busy (xcm_tp_socket_finish (net_ops send max_msg) net_env s w).1 0
                (xcm_tp_socket_finish (net_ops send max_msg) net_env s w).2,
          );
    }

msg_same_busy : (buf : List ℕ) (w : Net) → (msg_send buf w).1.busy ≡ w.busy
msg_same_busy buf w = ground arith

msg_fails_busy : (buf : List ℕ) (w : Net) (e : Errno) → (msg_send buf w).0 ≡ fail e → 0 < w.busy
msg_fails_busy buf w e h = ground arith

byte_same_busy : (buf : List ℕ) (w : Net) → (byte_send buf w).1.busy ≡ w.busy
byte_same_busy buf w = ground arith

byte_fails_busy : (buf : List ℕ) (w : Net) (e : Errno) → (byte_send buf w).0 ≡ fail e → 0 < w.busy
byte_fails_busy buf w e h = ground arith

msg_contract : MessageTransport msg_ops net_env (λ w. w.msgs)
msg_contract = record {
  send_accepts = λ s buf w n h. ground arith;
  send_again = λ s buf w e h again. ground arith;
  send_fails = λ s buf w e h. ground arith;
  never_aborts = λ s buf w h. ground arith;
}

take-take-length : (n : ℕ) (buf : List ℕ) → take (length (take n buf)) buf ≡ take n buf
take-take-length zero buf = refl
take-take-length (suc n) [] = refl
take-take-length (suc n) (b ∷ buf) = ap (λ r. b ∷ r) (take-take-length n buf)

take_some : (buf : List ℕ) → 0 < length buf → 0 < length (take 3 buf)
take_some [] h = h
take_some (b ∷ buf) h = omega arith

byte_accepts :
    (buf : List ℕ) (w : Net) (n : ℕ)
    → (byte_send buf w).0 ≡ ret n
    → (n ≤ length buf)
      × (0 < length buf → 0 < n)
      × ((byte_send buf w).1.bytes ≡ w.bytes ++ take n buf)
byte_accepts buf w n h =
    let size : length (take 3 buf) ≡ n = ground arith in
    let moved : (byte_send buf w).1.bytes ≡ w.bytes ++ take 3 buf = ground arith in
    (
      omega (arith, size, length-take {0} 3 buf),
      λ some_byte. omega (arith, size, take_some buf some_byte),
      moved ∙ ap (λ b. w.bytes ++ b) (sym (take-take-length 3 buf) ∙ ap (λ k. take k buf) size),
    )

byte_contract : ByteTransport byte_ops net_env (λ w. w.bytes)
byte_contract = record {
  send_accepts = λ s buf w n h. byte_accepts buf w n h;
  send_fails = λ s buf w e h. ground arith;
  never_aborts = λ s buf w h. ground arith;
}

msg_Keeps : Keeps msg_ops net_env (λ w. w.msgs)
msg_Keeps = record {
  update_keeps = λ s w. refl;
  finish_keeps = λ s w. ground arith;
  poll_keeps = λ s w. refl;
  ctl_keeps = λ s w. refl;
}

byte_Keeps : Keeps byte_ops net_env (λ w. w.bytes)
byte_Keeps = record {
  update_keeps = λ s w. refl;
  finish_keeps = λ s w. ground arith;
  poll_keeps = λ s w. refl;
  ctl_keeps = λ s w. refl;
}

is_messaging : xcm_tp_socket_is_bytestream msg_ops net_env ≡ false
unfolding xcm_tp_socket_is_bytestream
is_messaging = refl

is_bytestream : xcm_tp_socket_is_bytestream byte_ops net_env ≡ true
unfolding xcm_tp_socket_is_bytestream
is_bytestream = refl

xcm_send_example :
    SentOnce msg_ops net_env
      (λ w. w.msgs)
      (7 ∷ 8 ∷ [])
      a_net
      (xcm_send msg_ops net_env 5 a_socket (7 ∷ 8 ∷ []) a_net)
xcm_send_example =
    xcm_send_lem msg_ops net_env (λ w. w.msgs) msg_contract msg_Keeps (λ w. w.busy)
      (net_Wakes msg_send (some (λ s w. 1000)) msg_same_busy msg_fails_busy) 5 a_socket (7 ∷ 8 ∷ [])
      a_net refl refl is_messaging (omega arith)

xcm_send_bytes_example :
    SentBytes byte_ops net_env
      (λ w. w.bytes)
      (1 ∷ 2 ∷ 3 ∷ 4 ∷ 5 ∷ [])
      []
      (xcm_send byte_ops net_env 9 a_socket (1 ∷ 2 ∷ 3 ∷ 4 ∷ 5 ∷ []) a_net)
xcm_send_bytes_example =
    xcm_send_bytes_lem byte_ops net_env (λ w. w.bytes) byte_contract byte_Keeps (λ w. w.busy)
      (net_Wakes byte_send none byte_same_busy byte_fails_busy) 9 a_socket (1 ∷ 2 ∷ 3 ∷ 4 ∷ 5 ∷ [])
      a_net refl refl is_bytestream (omega arith)
