-- ===== src/Socket/Calls.antt =====
-- The functions of libxcm/tp/common/xcm_tp.c that call an operation of the transport, with the
-- control interface (XCM_CTL).
use xcm.Base.{
  ℕ, ◌+◌, ◌/◌, Bool, true, false, not, ◌||◌, Option, none, some, List, [], Str, ltb, if◌then◌else◌,
}
use xcm.Errno.{Errno, eacces, is_eagain, Outcome, ret, fail, abort}
use xcm.Socket.{Socket, SocketType, TpAttr}
use xcm.Socket.Ops.{TpOps, Env}

abbrev pub max_skipped_ctl_calls : ℕ
max_skipped_ctl_calls = 256

abbrev pub max_wakeups_per_ctl_check : ℕ
max_wakeups_per_ctl_check = 4

-- `rc < 0 && errno != EAGAIN`, and `rc < 0 && errno == EAGAIN`
abbrev pub failed_for_good : Option Errno → Bool
failed_for_good none = false
failed_for_good (some e) = not (is_eagain e)

abbrev pub failed_for_now : Option Errno → Bool
failed_for_now none = false
failed_for_now (some e) = is_eagain e

-- The errno of a call that returns a value.
abbrev pub error_of {ℓ} : {A : Type ℓ} → Outcome A → Option Errno
error_of (ret a) = none
error_of (fail e) = some e
error_of abort = none

module _ {W : Type 0} (ops : TpOps W) (env : Env W) where
  -- xcm_tp_socket_create()
  unfoldable pub xcm_tp_socket_create : SocketType → Bool → Bool → Bool → W → Socket × W
  xcm_tp_socket_create type auto_enable_ctl auto_update is_blocking w =
      let (id, w') = env.next_id w in
      (
        record {
          type = type;
          sock_id = id;
          auto_enable_ctl = auto_enable_ctl;
          auto_update = auto_update;
          is_blocking = is_blocking;
          condition = 0;
          ctl = false;
          skipped_ctl_calls = 0;
        },
        w',
      )

  -- xcm_tp_socket_init()
  unfoldable pub xcm_tp_socket_init : Socket → Option Socket → W → Option Errno × W
  xcm_tp_socket_init s parent w = ops.init s parent w

  -- do_ctl()
  unfoldable pub do_ctl : Socket → W → W
  do_ctl s w = if s.ctl then env.ctl_process s w else w

  -- The count of consider_ctl() after the call.
  unfoldable pub skipped_after : Bool → ℕ → ℕ
  skipped_after temporarly_failed_op n =
      if temporarly_failed_op then n + max_skipped_ctl_calls / max_wakeups_per_ctl_check else n + 1

  -- consider_ctl()
  unfoldable pub consider_ctl : Socket → Bool → Bool → W → Socket × W
  unfolding skipped_after do_ctl
  consider_ctl s permanently_failed_op temporarly_failed_op w =
      let skipped = skipped_after temporarly_failed_op s.skipped_ctl_calls in
      if not s.ctl
      then (s, w)
      else if permanently_failed_op
      then (s, w)
      else if ltb max_skipped_ctl_calls skipped
      then (record s { skipped_ctl_calls = 0 }, do_ctl (record s { skipped_ctl_calls = skipped }) w)
      else (record s { skipped_ctl_calls = skipped }, w)

  -- xcm_tp_socket_update()
  unfoldable pub xcm_tp_socket_update : Socket → W → W
  xcm_tp_socket_update s w = ops.update s w

  -- consider_auto_update()
  unfoldable pub consider_auto_update : Socket → W → W
  unfolding xcm_tp_socket_update
  consider_auto_update s w = if s.auto_update then xcm_tp_socket_update s w else w

  -- xcm_tp_socket_enable_ctl()
  unfoldable pub xcm_tp_socket_enable_ctl : Socket → W → Socket × W
  xcm_tp_socket_enable_ctl s w = elim ops.enable_ctl [
    | some enable_ctl ↦ let (created, w') = enable_ctl s w in (record s { ctl = created }, w')
    | none ↦ let (created, w') = env.ctl_create s w in (record s { ctl = created }, w')
  ]

  -- consider_auto_enable_ctl()
  unfoldable pub consider_auto_enable_ctl : Socket → W → Socket × W
  unfolding xcm_tp_socket_enable_ctl
  consider_auto_enable_ctl s w = if s.auto_enable_ctl then xcm_tp_socket_enable_ctl s w else (s, w)

  -- What xcm_tp_socket_connect(), xcm_tp_socket_server() and xcm_tp_socket_accept() do after their
  -- operation has returned 0.
  unfoldable pub enable_and_update : Socket → W → Socket × W
  unfolding consider_auto_enable_ctl consider_auto_update
  enable_and_update s w =
      let (s', w') = consider_auto_enable_ctl s w in (s', consider_auto_update s' w')

  -- The end of these functions.
  unfoldable pub after_open : Option Errno → Socket → W → Option Errno × Socket × W
  unfolding enable_and_update
  after_open (some e) s w = (some e, s, w)
  after_open none s w = let (s', w') = enable_and_update s w in (none, s', w')

  -- xcm_tp_socket_connect()
  unfoldable pub xcm_tp_socket_connect : Socket → Str → W → Option Errno × Socket × W
  unfolding after_open do_ctl
  xcm_tp_socket_connect s remote_addr w =
      let (rc, w') = ops.connect s remote_addr (do_ctl s w) in after_open rc s w'

  -- xcm_tp_socket_server()
  unfoldable pub xcm_tp_socket_server : Socket → Str → W → Option Errno × Socket × W
  unfolding after_open do_ctl
  xcm_tp_socket_server s local_addr w =
      let (rc, w') = ops.server s local_addr (do_ctl s w) in after_open rc s w'

  -- xcm_tp_socket_close() and xcm_tp_socket_cleanup() of a socket that is not NULL.
  unfoldable pub xcm_tp_socket_close : Socket → W → W
  xcm_tp_socket_close s w = ops.close s (if s.ctl then env.ctl_destroy true s w else w)

  unfoldable pub xcm_tp_socket_cleanup : Socket → W → W
  xcm_tp_socket_cleanup s w = ops.cleanup s (if s.ctl then env.ctl_destroy false s w else w)

  -- xcm_tp_socket_accept(): the result, the two sockets and the world.
  unfoldable pub xcm_tp_socket_accept : Socket → Socket → W → Option Errno × Socket × Socket × W
  unfolding after_open consider_ctl xcm_tp_socket_update
  xcm_tp_socket_accept conn_s server_s w =
      let (rc, w1) = ops.accept conn_s server_s w in
      let (rc', conn_s', w2) = after_open rc conn_s w1 in
      let (server_s', w3) = consider_ctl server_s (failed_for_good rc) (failed_for_now rc) w2 in
      (rc', conn_s', server_s', xcm_tp_socket_update server_s' w3)

  -- The end of xcm_tp_socket_send(), xcm_tp_socket_receive() and xcm_tp_socket_finish().
  unfoldable pub after_call : Bool → Bool → Socket → W → Socket × W
  unfolding consider_ctl consider_auto_update
  after_call permanently temporarly s w =
      let (s', w') = consider_ctl s permanently temporarly w in (s', consider_auto_update s' w')

  -- xcm_tp_socket_send()
  unfoldable pub xcm_tp_socket_send : Socket → List ℕ → W → Outcome ℕ × Socket × W
  unfolding after_call
  xcm_tp_socket_send s buf w =
      let (rc, w') = ops.send s buf w in
      let (s', w'') =
        after_call (failed_for_good (error_of rc)) (failed_for_now (error_of rc)) s w' in
      (rc, s', w'')

  -- rc == 0 of xcm_tp_socket_receive()
  abbrev pub at_end : Outcome (List ℕ) → Bool
  at_end (ret []) = true
  at_end _ = false

  -- xcm_tp_socket_receive(): the bytes stored in the buffer.
  unfoldable pub xcm_tp_socket_receive : Socket → ℕ → W → Outcome (List ℕ) × Socket × W
  unfolding after_call
  xcm_tp_socket_receive s capacity w =
      let (rc, w') = ops.receive s capacity w in
      let (s', w'') =
        after_call (at_end rc || failed_for_good (error_of rc)) (failed_for_now (error_of rc)) s
          w' in
      (rc, s', w'')

  -- xcm_tp_socket_finish()
  unfoldable pub xcm_tp_socket_finish : Socket → W → Option Errno × Socket × W
  unfolding after_call
  xcm_tp_socket_finish s w =
      let (rc, w') = ops.finish s w in
      let (s', w'') = after_call (failed_for_good rc) (failed_for_now rc) s w' in (rc, s', w'')

  -- xcm_tp_socket_get_transport()
  unfoldable pub xcm_tp_socket_get_transport : Socket → W → Str
  xcm_tp_socket_get_transport s w = elim ops.get_transport [
    | some get_transport ↦ get_transport s w
    | none ↦ ops.name
  ]

  -- xcm_tp_socket_is_bytestream()
  unfoldable pub xcm_tp_socket_is_bytestream : Bool
  xcm_tp_socket_is_bytestream = elim ops.max_msg [ none ↦ true | some max_msg ↦ false ]

  -- xcm_tp_socket_set_local_addr()
  unfoldable pub xcm_tp_socket_set_local_addr : Socket → Str → W → Option Errno × W
  xcm_tp_socket_set_local_addr s local_addr w = elim ops.set_local_addr [
    | some set_local_addr ↦ set_local_addr s local_addr w
    | none ↦ (some eacces, w)
  ]

  -- xcm_tp_socket_attr_foreach(), as the list of the attributes that it calls back.
  unfoldable pub xcm_tp_socket_attr_foreach : Socket → W → List (TpAttr W)
  xcm_tp_socket_attr_foreach s w = elim ops.attr_foreach [
    | some attr_foreach ↦ attr_foreach s w
    | none ↦ []
  ]
