-- ===== src/Tconnect/Track.antt =====
-- A track of libxcm/tp/tcp/tconnect.c: the addresses are tried one after another.
use xcm.Base.{
  ◌≡◌, ◌⊎◌, inl, inr, refl, ℕ, ◌+◌, Bool, true, false, Option, none, some, List, [], ◌∷◌, drop,
  get_elem?,
}
use xcm.Errno.{Errno, enoent, is_einprogress}
use xcm.Addr.Hosts.{Ip, ip4, ip6}
use xcm.Tconnect.{SockAddr, TrackEnv}

-- enum track_state, less track_state_none, which no track is in.
pub data TrackState : Type 0 where
  initial_delay connecting connected finished bad : TrackState

pub TrackState-cases :
    (s : TrackState)
    → (s ≡ initial_delay) ⊎ (s ≡ connecting) ⊎ (s ≡ connected) ⊎ (s ≡ finished) ⊎ (s ≡ bad)
TrackState-cases initial_delay = inl refl
TrackState-cases connecting = inr (inl refl)
TrackState-cases connected = inr (inr (inl refl))
TrackState-cases finished = inr (inr (inr (inl refl)))
TrackState-cases bad = inr (inr (inr (inr refl)))

-- struct track, less what does not change and stands in the environment.
pub record Track (Opts Time : Type 0) : Type 0 where
  pub fd4 : Option ℕ
  pub fd6 : Option ℕ
  pub fd_reg_id : Option ℕ
  pub tcp_connect_timeout : Time
  pub tcp_opts : Opts
  pub local_ip : Option Ip
  pub local_port : ℕ
  pub scope : Option ℕ
  pub remote_ips : List Ip
  pub remote_port : ℕ
  pub timer_id : Option ℕ
  pub state : TrackState
  pub ip_idx : Option ℕ
  pub badness_reason : Option Errno

module _ {W Opts Time : Type 0} (env : TrackEnv W Opts Time) where
  -- The descriptor of the family of an address.
  abbrev pub family_fd : Track Opts Time → Ip → Option ℕ
  family_fd track (ip4 a) = track.fd4
  family_fd track (ip6 a) = track.fd6

  -- remote_ips[ip_idx]; none is a read out of bounds.
  abbrev pub current_ip : Track Opts Time → Option Ip
  current_ip track = elim track.ip_idx [ none ↦ none | some i ↦ get_elem? track.remote_ips i ]

  -- track_get_current_fd()
  unfoldable pub track_get_current_fd : Track Opts Time → Option ℕ
  track_get_current_fd track = elim (current_ip track) [
    | none ↦ none
    | some ip ↦ family_fd track ip
  ]

  -- track_disassociate_current_fd()
  unfoldable pub track_disassociate_current_fd : Track Opts Time → Track Opts Time
  track_disassociate_current_fd track = elim (current_ip track) [
    | none ↦ track
    | some (ip4 a) ↦ record track { fd4 = none }
    | some (ip6 a) ↦ record track { fd6 = none }
  ]

  -- track_get_current_scope() with the family of an address
  unfoldable pub track_get_current_scope : Track Opts Time → Ip → Option ℕ
  track_get_current_scope track (ip4 a) = none
  track_get_current_scope track (ip6 a) = elim track.scope [
    | none ↦ some 0
    | some scope ↦ some scope
  ]

  -- track_supports_family()
  unfoldable pub track_supports_family : Track Opts Time → Ip → Bool
  track_supports_family track ip = elim (family_fd track ip) [ none ↦ false | some fd ↦ true ]

  -- xpoll_fd_reg_del_if_valid() of the track, with the reset of `fd_reg_id`
  unfoldable pub fd_reg_release : Track Opts Time → W → Option (Track Opts Time × W)
  fd_reg_release track w = elim track.fd_reg_id [
    | none ↦ some (track, w)
    | some id ↦ elim (env.xpoll_fd_reg_del id w) [
      | none ↦ none
      | some w' ↦ some (record track { fd_reg_id = none }, w')
    ]
  ]

  -- timer_mgr_cancel() of the track's timer
  unfoldable pub timer_release : Track Opts Time → W → Option (Track Opts Time × W)
  timer_release track w = elim track.timer_id [
    | none ↦ some (track, w)
    | some id ↦ elim (env.timer_mgr_cancel id w) [
      | none ↦ none
      | some w' ↦ some (record track { timer_id = none }, w')
    ]
  ]

  -- track_abort_connect()
  unfoldable pub track_abort_connect : Track Opts Time → W → Option (Track Opts Time × W)
  unfolding track_get_current_fd fd_reg_release timer_release
  track_abort_connect track w =
      let w1 = env.disconnect (track_get_current_fd track) w in
      elim (fd_reg_release track w1) [ none ↦ none | some (track2, w2) ↦ timer_release track2 w2 ]

  -- What track_connect_next() finds before connect(): the errno of tcp_opts_effectuate() or bind().
  unfoldable pub prepare : Ip → Track Opts Time → W → Option Errno × W
  unfolding track_get_current_fd track_get_current_scope
  prepare remote_ip track w =
      let fd = track_get_current_fd track in
      let (rc, w1) = env.tcp_opts_effectuate track.tcp_opts fd w in
      elim rc [
        | some e ↦ (some e, w1)
        | none ↦ elim track.local_ip [
          | none ↦ (none, w1)
          | some ip ↦
              let laddr : SockAddr = record {
                ip = ip;
                port = track.local_port;
                scope = track_get_current_scope track remote_ip;
              } in
              env.bind fd laddr w1
        ]
      ]

  -- What an attempt leaves: the next address is to be tried, or not.
  pub data Attempt : Type 0 where
    again : Track Opts Time → W → Attempt
    stop : Track Opts Time → W → Attempt

  -- track_connect_next() after connect(), with its errno, if any, and the registered track.
  unfoldable pub after_connect : Option Errno → Track Opts Time → W → Option Attempt
  after_connect none track w = some (stop (record track { state = connected }) w)
  after_connect (some e) track w = elim (is_einprogress e) [
    | true ↦ elim (env.timer_mgr_schedule track.tcp_connect_timeout w) [
      | none ↦ none
      | some (timer, w') ↦ some (stop (record track { timer_id = some timer }) w')
    ]
    | false ↦ elim (track_abort_connect (record track { badness_reason = some e }) w) [
      | none ↦ none
      | some (track', w') ↦ some (again track' w')
    ]
  ]

  -- track_connect_next() from xpoll_fd_reg_add() on; none is a failed assertion.
  unfoldable pub start_connect : Ip → Track Opts Time → W → Option Attempt
  unfolding track_get_current_fd after_connect
  start_connect remote_ip track w =
      let fd = track_get_current_fd track in
      elim (env.xpoll_fd_reg_add fd w) [
        | none ↦ none
        | some (id, w1) ↦
            let servaddr : SockAddr = record {
              ip = remote_ip;
              port = track.remote_port;
              scope = track.scope;
            } in
            let (rc, w2) = env.connect fd servaddr w1 in
            after_connect rc (record track { fd_reg_id = some id }) w2
      ]

  -- track_connect_next() of an address whose index has been stored; none is a failed assertion.
  unfoldable pub attempt : Ip → Track Opts Time → W → Option Attempt
  unfolding prepare start_connect
  attempt remote_ip track w =
      let (rc, w1) = prepare remote_ip track w in
      elim rc [
        | some e ↦ some (again (record track { badness_reason = some e }) w1)
        | none ↦ elim track.fd_reg_id [ some id ↦ none | none ↦ start_connect remote_ip track w1 ]
      ]

  -- The end of track_connect_next() when no address is left.
  unfoldable pub exhausted : Track Opts Time → Track Opts Time
  exhausted track = elim track.badness_reason [
    | none ↦ record track { state = bad; badness_reason = some enoent }
    | some e ↦ record track { state = bad }
  ]

  -- track_connect_next() with the calls of itself, on the addresses from the index `idx` on.
  unfoldable pub connect_loop : ℕ → List Ip → Track Opts Time → W → Option (Track Opts Time × W)
  unfolding track_supports_family
  connect_loop idx [] track w = some (exhausted track, w)
  connect_loop idx (candidate ∷ rest) track w = elim (track_supports_family track candidate) [
    | false ↦ connect_loop (idx + 1) rest track w
    | true ↦ elim (attempt candidate (record track { ip_idx = some idx }) w) [
      | none ↦ none
      | some (stop track' w') ↦ some (track', w')
      | some (again track' w') ↦ connect_loop (idx + 1) rest track' w'
    ]
  ]

  -- ip_idx + 1
  abbrev pub next_idx : Track Opts Time → ℕ
  next_idx track = elim track.ip_idx [ none ↦ 0 | some i ↦ i + 1 ]

  -- track_connect_next(); none is a failed assertion.
  unfoldable pub track_connect_next : Track Opts Time → W → Option (Track Opts Time × W)
  unfolding connect_loop
  track_connect_next track w = elim track.state [
    | connecting ↦ connect_loop (next_idx track) (drop (next_idx track) track.remote_ips) track w
    | initial_delay ↦ none
    | connected ↦ none
    | finished ↦ none
    | bad ↦ none
  ]
