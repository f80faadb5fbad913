-- ===== src/Tconnect/Process.antt =====
-- The life of a track of libxcm/tp/tcp/tconnect.c. A result `none` is a failed assertion, or the use
-- of a timer that is not there.
use xcm.Base.{ℕ, Bool, true, false, Option, none, some}
use xcm.Errno.{Errno, eagain, etimedout, is_einprogress, Outcome, ret, fail}
use xcm.Tconnect.{TrackEnv}
use xcm.Tconnect.Track.{
  Track, initial_delay, connecting, connected, finished, bad, current_ip, track_get_current_fd,
  track_disassociate_current_fd, track_get_current_scope, fd_reg_release, timer_release,
  track_abort_connect, track_connect_next,
}

module _ {W Opts Time : Type 0} (env : TrackEnv W Opts Time) where
  -- track_create(); `delay` is none for an initial delay that is not above 0, and the first argument
  -- has the fields as they are given, with the others reset.
  unfoldable pub track_create : Track Opts Time → Option Time → W → Option (Track Opts Time × W)
  track_create track delay w = elim delay [
    | none ↦ track_connect_next env (record track { state = connecting }) w
    | some initial ↦ elim (env.timer_mgr_schedule initial w) [
      | none ↦ none
      | some (timer, w') ↦ some (record track { timer_id = some timer; state = initial_delay }, w')
    ]
  ]

  -- track_process_initial_delay()
  unfoldable pub track_process_initial_delay : Track Opts Time → W → Option (Track Opts Time × W)
  track_process_initial_delay track w = elim track.timer_id [
    | none ↦ none
    | some timer ↦ elim (env.timer_mgr_has_expired timer w) [
      | none ↦ none
      | some false ↦ some (track, w)
      | some true ↦ elim (env.timer_mgr_ack timer w) [
        | none ↦ none
        | some w' ↦ track_connect_next env (record track { timer_id = none; state = connecting }) w'
      ]
    ]
  ]

  -- The connection attempt has failed: on to the next address.
  unfoldable pub give_up : Errno → Track Opts Time → W → Option (Track Opts Time × W)
  give_up e track w = elim (track_abort_connect env (record track { badness_reason = some e }) w) [
    | none ↦ none
    | some (track', w') ↦ track_connect_next env track' w'
  ]

  -- track_process_connecting() before the timeout
  unfoldable pub process_established : Track Opts Time → W → Option (Track Opts Time × W)
  unfolding give_up
  process_established track w =
      let (rc, w') = env.ut_established (track_get_current_fd env track) w in
      elim rc [
        | none ↦ some (record track { state = connected }, w')
        | some e ↦ elim (is_einprogress e) [ true ↦ some (track, w') | false ↦ give_up e track w' ]
      ]

  -- track_process_connecting()
  unfoldable pub track_process_connecting : Track Opts Time → W → Option (Track Opts Time × W)
  unfolding give_up process_established
  track_process_connecting track w = elim track.timer_id [
    | none ↦ none
    | some timer ↦ elim (env.timer_mgr_has_expired timer w) [
      | none ↦ none
      | some false ↦ process_established track w
      | some true ↦ elim (env.timer_mgr_ack timer w) [
        | none ↦ none
        | some w' ↦ give_up etimedout (record track { timer_id = none }) w'
      ]
    ]
  ]

  -- The second half of track_process(), after the first has made the track what it is.
  unfoldable pub process_if_connecting : Track Opts Time → W → Option (Track Opts Time × W)
  unfolding track_process_connecting
  process_if_connecting track w = elim track.state [
    | connecting ↦ track_process_connecting track w
    | initial_delay ↦ some (track, w)
    | connected ↦ some (track, w)
    | finished ↦ some (track, w)
    | bad ↦ some (track, w)
  ]

  -- track_process()
  unfoldable pub track_process : Track Opts Time → W → Option (Track Opts Time × W)
  unfolding track_process_initial_delay process_if_connecting
  track_process track w = elim track.state [
    | initial_delay ↦ elim (track_process_initial_delay track w) [
      | none ↦ none
      | some (track', w') ↦ process_if_connecting track' w'
    ]
    | connecting ↦ process_if_connecting track w
    | connected ↦ some (track, w)
    | finished ↦ some (track, w)
    | bad ↦ some (track, w)
  ]

  -- What track_get_connected_fd() returns: the descriptor, the scope and the options.
  pub record Established : Type 0 where
    pub fd : Option ℕ
    pub scope : Option ℕ
    pub tcp_opts : Opts

  -- track_get_connected_fd() of a connected track; none is the assertion of xpoll_fd_reg_del() for
  -- a track without a registration.
  unfoldable pub hand_over :
      Track Opts Time → W → Option (Outcome Established × Track Opts Time × W)
  unfolding track_disassociate_current_fd track_get_current_fd
  hand_over track w = elim track.fd_reg_id [
    | none ↦ none
    | some id ↦ elim (env.xpoll_fd_reg_del id w) [
      | none ↦ none
      | some w' ↦
          let scope : Option ℕ = elim (current_ip env track) [
            | none ↦ none
            | some ip ↦ track_get_current_scope env track ip
          ] in
          let track' : Track Opts Time = record track { fd_reg_id = none } in
          some (
            ret (record {
              fd = track_get_current_fd env track;
              scope = scope;
              tcp_opts = track.tcp_opts;
            }),
            record (track_disassociate_current_fd env track') { state = finished },
            w',
          )
    ]
  ]

  -- track_get_connected_fd() after track_process(); none is a failed assertion.
  unfoldable pub connected_fd :
      Track Opts Time → W → Option (Outcome Established × Track Opts Time × W)
  unfolding hand_over
  connected_fd track w = elim track.state [
    | connecting ↦ some (fail eagain, track, w)
    | initial_delay ↦ some (fail eagain, track, w)
    | connected ↦ hand_over track w
    | finished ↦ none
    | bad ↦ elim track.badness_reason [ none ↦ none | some e ↦ some (fail e, track, w) ]
  ]

  -- track_get_connected_fd()
  unfoldable pub track_get_connected_fd :
      Track Opts Time → W → Option (Outcome Established × Track Opts Time × W)
  unfolding track_process connected_fd
  track_get_connected_fd track w = elim (track_process track w) [
    | none ↦ none
    | some (track', w') ↦ connected_fd track' w'
  ]

  -- track_destroy() of a track that is there
  unfoldable pub track_destroy : Track Opts Time → Bool → W → Option W
  track_destroy track true w = elim (fd_reg_release env track w) [
    | none ↦ none
    | some (track1, w1) ↦ elim (timer_release env track1 w1) [
      | none ↦ none
      | some (track2, w2) ↦ some w2
    ]
  ]
  track_destroy track false w = some w
