-- ===== src/Api.antt =====
-- libxcm/core/xcm.c: the functions of the library's interface over a transport. A loop that waits
-- runs on fuel; a result `none` is the loop not ended by then. A function that returns a socket has
-- the result `fail` for NULL. Lengths stay below 2^31.
pub mod Attrs
pub mod Open
pub mod Send
use xcm.Base.{
  ℕ, zero, suc, ◌+◌, ◌-◌, Bool, true, false, not, ◌&&◌, ◌||◌, Option, none, some, List, [], ◌∷◌,
  Str, length, drop, ltb, leb, ◌==◌, if◌then◌else◌,
}
use xcm.Errno.{Errno, einval, is_eagain, is_einprogress, Outcome, ret, fail, abort}
use xcm.Socket.{Socket, SocketType, conn, server}
use xcm.Socket.Ops.{TpOps, Env}
use xcm.Socket.Calls.{
  xcm_tp_socket_update, xcm_tp_socket_send, xcm_tp_socket_receive, xcm_tp_socket_finish,
  xcm_tp_socket_is_bytestream, xcm_tp_socket_close, xcm_tp_socket_cleanup,
}

-- The bits of a condition
abbrev pub xcm_so_receivable : ℕ
xcm_so_receivable = 1

abbrev pub xcm_so_sendable : ℕ
xcm_so_sendable = 2

abbrev pub xcm_so_acceptable : ℕ
xcm_so_acceptable = 4

-- TP_IS_VALID_COND of libxcm/tp/common/common_tp.h: the two lowest bits of a connection, and the
-- third of a server.
abbrev pub is_valid_cond : SocketType → ℕ → Bool
is_valid_cond server condition = condition == 0 || condition == xcm_so_acceptable
is_valid_cond conn condition = ltb condition 4

module _ {W : Type 0} (ops : TpOps W) (env : Env W) where
  -- await()
  unfoldable pub await : Socket → ℕ → W → Socket × W
  unfolding xcm_tp_socket_update
  await s condition w =
      let s' : Socket = record s { condition = condition } in
      (s', xcm_tp_socket_update ops env s' w)

  -- socket_wait()
  unfoldable pub socket_wait : Socket → ℕ → W → Option Errno × Socket × W
  unfolding await
  socket_wait s condition w =
      let (s', w') = await s condition w in let (rc, w'') = env.poll s' w' in (rc, s', w'')

  -- errno == EAGAIN || errno == EINPROGRESS
  abbrev pub is_unfinished : Errno → Bool
  is_unfinished e = is_eagain e || is_einprogress e

  -- socket_finish()
  unfoldable pub socket_finish : ℕ → Socket → W → Option (Option Errno × Socket × W)
  socket_finish zero s w = none
  socket_finish (suc fuel) s w =
      let (rc, s1, w1) = xcm_tp_socket_finish ops env s w in
      elim rc [
        | none ↦ some (none, s1, w1)
        | some e ↦ elim (is_unfinished e) [
          | false ↦ some (some e, s1, w1)
          | true ↦
              let (waited, s2, w2) = socket_wait s1 0 w1 in
              elim waited [ some e' ↦ some (some e', s2, w2) | none ↦ socket_finish fuel s2 w2 ]
        ]
      ]

  -- bytestream_bsend(), from `sent` on
  unfoldable pub bytestream_bsend : ℕ → Socket → List ℕ → ℕ → W → Option (Outcome ℕ × Socket × W)
  bytestream_bsend zero s buf sent w = none
  bytestream_bsend (suc fuel) s buf sent w =
      let (rc, s1, w1) = xcm_tp_socket_send ops env s (drop sent buf) w in
      elim rc [
        | abort ↦ some (abort, s1, w1)
        | ret n ↦ elim (ltb (sent + n) (length buf)) [
          | true ↦ bytestream_bsend fuel s1 buf (sent + n) w1
          | false ↦ some (ret (sent + n), s1, w1)
        ]
        | fail e ↦ elim (is_eagain e) [
          | false ↦ some (fail e, s1, w1)
          | true ↦
              let (waited, s2, w2) = socket_wait s1 xcm_so_sendable w1 in
              elim waited [
                | some e' ↦ some (fail e', s2, w2)
                | none ↦ elim (ltb sent (length buf)) [
                  | true ↦ bytestream_bsend fuel s2 buf sent w2
                  | false ↦ some (ret sent, s2, w2)
                ]
              ]
        ]
      ]

  -- msg_bsend()
  unfoldable pub msg_bsend : ℕ → Socket → List ℕ → W → Option (Outcome ℕ × Socket × W)
  msg_bsend zero s buf w = none
  msg_bsend (suc fuel) s buf w =
      let (rc, s1, w1) = xcm_tp_socket_send ops env s buf w in
      elim rc [
        | abort ↦ some (abort, s1, w1)
        | ret n ↦ some (ret 0, s1, w1)
        | fail e ↦ elim (is_eagain e) [
          | false ↦ some (fail e, s1, w1)
          | true ↦
              let (waited, s2, w2) = socket_wait s1 xcm_so_sendable w1 in
              elim waited [ some e' ↦ some (fail e', s2, w2) | none ↦ msg_bsend fuel s2 buf w2 ]
        ]
      ]

  -- The end of xcm_send() of a blocking socket.
  unfoldable pub finish_send : ℕ → Outcome ℕ × Socket × W → Option (Outcome ℕ × Socket × W)
  finish_send fuel (ret n, s, w) = elim (socket_finish fuel s w) [
    | none ↦ none
    | some (none, s', w') ↦ some (ret n, s', w')
    | some (some e, s', w') ↦ some (fail e, s', w')
  ]
  finish_send fuel (fail e, s, w) = some (fail e, s, w)
  finish_send fuel (abort, s, w) = some (abort, s, w)

  -- The loop that xcm_send() chooses for a blocking socket.
  unfoldable pub bsend : ℕ → Socket → List ℕ → W → Option (Outcome ℕ × Socket × W)
  bsend fuel s buf w =
      if xcm_tp_socket_is_bytestream ops env
      then bytestream_bsend fuel s buf 0 w
      else msg_bsend fuel s buf w

  -- xcm_send()
  unfoldable pub xcm_send : ℕ → Socket → List ℕ → W → Option (Outcome ℕ × Socket × W)
  unfolding bsend
  xcm_send fuel s buf w = elim s.type [
    | server ↦ some (fail einval, s, w)
    | conn ↦
        if s.is_blocking
        then elim (bsend fuel s buf w) [ none ↦ none | some r ↦ finish_send fuel r ]
        else some (xcm_tp_socket_send ops env s buf w)
  ]

  -- The loop of xcm_receive()
  unfoldable pub receive_loop : ℕ → Socket → ℕ → W → Option (Outcome (List ℕ) × Socket × W)
  receive_loop zero s capacity w = none
  receive_loop (suc fuel) s capacity w =
      let (waited, s1, w1) = socket_wait s xcm_so_receivable w in
      elim waited [
        | some e ↦ some (fail e, s1, w1)
        | none ↦
            let (rc, s2, w2) = xcm_tp_socket_receive ops env s1 capacity w1 in
            elim rc [
              | ret bytes ↦ some (ret bytes, s2, w2)
              | abort ↦ some (abort, s2, w2)
              | fail e ↦ elim (is_eagain e) [
                | false ↦ some (fail e, s2, w2)
                | true ↦ receive_loop fuel s2 capacity w2
              ]
            ]
      ]

  -- xcm_receive()
  unfoldable pub xcm_receive : ℕ → Socket → ℕ → W → Option (Outcome (List ℕ) × Socket × W)
  unfolding receive_loop
  xcm_receive fuel s capacity w = elim s.type [
    | server ↦ some (fail einval, s, w)
    | conn ↦
        if s.is_blocking
        then receive_loop fuel s capacity w
        else some (xcm_tp_socket_receive ops env s capacity w)
  ]

  -- xcm_await()
  unfoldable pub xcm_await : Socket → ℕ → W → Option Errno × Socket × W
  unfolding await
  xcm_await s condition w =
      let (s', w') = await s condition w in
      if s.is_blocking
      then (some einval, s, w)
      else if not (is_valid_cond s.type condition)
      then (some einval, s, w)
      else (none, s', w')

  -- xcm_finish()
  unfoldable pub xcm_finish : Socket → W → Option Errno × Socket × W
  xcm_finish s w = if s.is_blocking then (some einval, s, w) else xcm_tp_socket_finish ops env s w

  -- xcm_set_blocking()
  unfoldable pub xcm_set_blocking : ℕ → Socket → Bool → W → Option (Option Errno × Socket × W)
  xcm_set_blocking fuel s should_block w =
      let changed = λ (t : Socket). record t { is_blocking = should_block } in
      if s.is_blocking
      then some (none, changed s, w)
      else if should_block
      then elim (socket_finish fuel s w) [
        | none ↦ none
        | some (some e, s', w') ↦ some (some e, s', w')
        | some (none, s', w') ↦ some (none, changed s', w')
      ]
      else some (none, s, w)

  -- xcm_is_blocking()
  unfoldable pub xcm_is_blocking : Socket → Bool
  xcm_is_blocking s = s.is_blocking
