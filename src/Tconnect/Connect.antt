-- ===== src/Tconnect/Connect.antt =====
-- The tracks of a connection in libxcm/tp/tcp/tconnect.c. The array `tracks` with `num_tracks` is a
-- list. A result `none` is a failed assertion in a track.
use xcm.Base.{
  ℕ, Bool, true, false, Option, none, some, List, [], ◌∷◌, take, length, ◌==◌, if◌then◌else◌, ◌++◌,
}
use xcm.Errno.{Errno, eagain, einval, enoent, enotsup, is_eagain, Outcome, ret, fail, abort}
use xcm.Addr.Hosts.{Ip, ip4, ip6}
use xcm.Tconnect.{TrackEnv, TconnectAlgorithm, no_algorithm, single, sequential, happy_eyeballs}
use xcm.Tconnect.Track.{Track, initial_delay}
use xcm.Tconnect.Process.{Established, track_create, track_get_connected_fd, track_destroy}

-- struct tconnect
pub record Tconnect (Opts Time : Type 0) : Type 0 where
  pub algorithm : TconnectAlgorithm
  pub fd4 : Option ℕ
  pub fd6 : Option ℕ
  pub tracks : List (Track Opts Time)

-- The parameters of tconnect_connect()
pub record Target (Opts Time : Type 0) : Type 0 where
  pub local_ip : Option Ip
  pub local_port : ℕ
  pub scope : Option ℕ
  pub tcp_connect_timeout : Time
  pub tcp_opts : Opts
  pub remote_ips : List Ip
  pub remote_port : ℕ

-- has_family_ip(), for AF_INET and for AF_INET6
unfoldable pub has_ip4 : List Ip → Bool
has_ip4 [] = false
has_ip4 (ip4 a ∷ rest) = true
has_ip4 (ip6 a ∷ rest) = has_ip4 rest

unfoldable pub has_ip6 : List Ip → Bool
has_ip6 [] = false
has_ip6 (ip4 a ∷ rest) = has_ip6 rest
has_ip6 (ip6 a ∷ rest) = true

-- check_scope_conf(): whether it returns 0
unfoldable pub check_scope_conf : Option ℕ → List Ip → Bool
check_scope_conf (some scope) (ip4 a ∷ []) = false
check_scope_conf _ _ = true

-- The fields of a track as track_create() resets them, and as it is given them.
abbrev pub new_track :
    {Opts Time : Type 0} → Option ℕ → Option ℕ → Option ℕ → Target Opts Time → Track Opts Time
new_track fd4 fd6 scope target = record {
  fd4 = fd4;
  fd6 = fd6;
  fd_reg_id = none;
  tcp_connect_timeout = target.tcp_connect_timeout;
  tcp_opts = target.tcp_opts;
  local_ip = target.local_ip;
  local_port = target.local_port;
  scope = scope;
  remote_ips = target.remote_ips;
  remote_port = target.remote_port;
  timer_id = none;
  state = initial_delay;
  ip_idx = none;
  badness_reason = none;
}

module _ {W Opts Time : Type 0} (env : TrackEnv W Opts Time) where
  -- tconnect_connect_sequential(): the new track
  unfoldable pub tconnect_connect_sequential :
      Tconnect Opts Time → Target Opts Time → W → Option (Tconnect Opts Time × W)
  unfolding track_create
  tconnect_connect_sequential tconnect target w =
      elim (track_create env (new_track tconnect.fd4 tconnect.fd6 target.scope target) none w) [
        | none ↦ none
        | some (track, w') ↦ some (record tconnect { tracks = track ∷ [] }, w')
      ]

  -- The IPv4 track of tconnect_connect_happy(), if there is one.
  unfoldable pub happy_track4 :
      Tconnect Opts Time → Target Opts Time → W → Option (List (Track Opts Time) × W)
  unfolding has_ip4 has_ip6 track_create
  happy_track4 tconnect target w =
      let delay : Option Time =
        if has_ip6 target.remote_ips then some env.initial_ipv4_delay else none in
      if has_ip4 target.remote_ips
      then elim (track_create env (new_track tconnect.fd4 none none target) delay w) [
        | none ↦ none
        | some (track, w') ↦ some (track ∷ [], w')
      ]
      else some ([], w)

  -- The IPv6 track of tconnect_connect_happy(), if there is one.
  unfoldable pub happy_track6 :
      Tconnect Opts Time → Target Opts Time → W → Option (List (Track Opts Time) × W)
  unfolding has_ip6 track_create
  happy_track6 tconnect target w =
      if has_ip6 target.remote_ips
      then elim (track_create env (new_track none tconnect.fd6 target.scope target) none w) [
        | none ↦ none
        | some (track, w') ↦ some (track ∷ [], w')
      ]
      else some ([], w)

  -- tconnect_connect_happy(); none is also the assertion that there is a track.
  unfoldable pub tconnect_connect_happy :
      Tconnect Opts Time → Target Opts Time → W → Option (Tconnect Opts Time × W)
  unfolding happy_track4 happy_track6
  tconnect_connect_happy tconnect target w = elim (happy_track4 tconnect target w) [
    | none ↦ none
    | some (tracks4, w1) ↦ elim (happy_track6 tconnect target w1) [
      | none ↦ none
      | some (tracks6, w2) ↦ elim (tracks4 ++ tracks6) [
        | [] ↦ none
        | track ∷ rest ↦ some (record tconnect { tracks = track ∷ rest }, w2)
      ]
    ]
  ]

  -- The result of a function that does not fail.
  abbrev pub succeeded :
      Option (Tconnect Opts Time × W) → Option (Option Errno × Tconnect Opts Time × W)
  succeeded none = none
  succeeded (some (tconnect, w)) = some (none, tconnect, w)

  -- tconnect_connect() after check_scope_conf()
  unfoldable pub connect_by_algorithm :
      Tconnect Opts Time → Target Opts Time → W → Option (Option Errno × Tconnect Opts Time × W)
  unfolding tconnect_connect_sequential tconnect_connect_happy
  connect_by_algorithm tconnect target w = elim tconnect.algorithm [
    | single ↦
        let first : Target Opts Time = record target { remote_ips = take 1 target.remote_ips } in
        succeeded (tconnect_connect_sequential tconnect first w)
    | sequential ↦ succeeded (tconnect_connect_sequential tconnect target w)
    | happy_eyeballs ↦ succeeded (tconnect_connect_happy tconnect target w)
    | no_algorithm ↦ some (some enotsup, tconnect, w)
  ]

  -- tconnect_connect()
  unfoldable pub tconnect_connect :
      Tconnect Opts Time → Target Opts Time → W → Option (Option Errno × Tconnect Opts Time × W)
  unfolding connect_by_algorithm check_scope_conf
  tconnect_connect tconnect target w =
      if length target.remote_ips == 0
      then none
      else if check_scope_conf target.scope target.remote_ips
      then connect_by_algorithm tconnect target w
      else some (some einval, tconnect, w)

  -- What the loop of tconnect_get_connected_fd() returns: the first connection, or whether a track is
  -- in progress and the errno of the last that is not.
  pub data Progress : Type 0 where
    won : Established env → Progress
    waiting : Bool → Errno → Progress

  -- The loop of tconnect_get_connected_fd(), with its variables: the tracks after it.
  unfoldable pub tracks_loop :
      List (Track Opts Time) → Bool → Errno → W → Option (Progress × List (Track Opts Time) × W)
  unfolding track_get_connected_fd
  tracks_loop [] in_progress fatal_errno w = some (waiting in_progress fatal_errno, [], w)
  tracks_loop (track ∷ rest) in_progress fatal_errno w = elim (track_get_connected_fd env track w) [
    | none ↦ none
    | some (ret established, track', w') ↦ some (won established, track' ∷ rest, w')
    | some (abort, track', w') ↦ none
    | some (fail e, track', w') ↦ elim (is_eagain e) [
      | true ↦ elim (tracks_loop rest true fatal_errno w') [
        | none ↦ none
        | some (r, rest', w2) ↦ some (r, track' ∷ rest', w2)
      ]
      | false ↦ elim (tracks_loop rest in_progress e w') [
        | none ↦ none
        | some (r, rest', w2) ↦ some (r, track' ∷ rest', w2)
      ]
    ]
  ]

  -- fd1 == fd2
  abbrev pub same_fd : Option ℕ → Option ℕ → Bool
  same_fd none none = true
  same_fd (some a) (some b) = a == b
  same_fd _ _ = false

  -- tconnect_get_connected_fd() of a connection: its descriptor is no longer one of `tconnect`.
  unfoldable pub take_fd : Established env → Tconnect Opts Time → Option (Tconnect Opts Time)
  take_fd established tconnect =
      if same_fd established.fd tconnect.fd4
      then some (record tconnect { fd4 = none })
      else if same_fd established.fd tconnect.fd6
      then some (record tconnect { fd6 = none })
      else none

  -- tconnect_get_connected_fd()
  unfoldable pub tconnect_get_connected_fd :
      Tconnect Opts Time → W → Option (Outcome (Established env) × Tconnect Opts Time × W)
  tconnect_get_connected_fd tconnect w = elim (tracks_loop tconnect.tracks false enoent w) [
    | none ↦ none
    | some (won established, tracks, w') ↦
        elim (take_fd established (record tconnect { tracks = tracks })) [
          | none ↦ none
          | some tconnect' ↦ some (ret established, tconnect', w')
        ]
    | some (waiting in_progress fatal_errno, tracks, w') ↦
        let error = if in_progress then eagain else fatal_errno in
        some (fail error, record tconnect { tracks = tracks }, w')
  ]

  -- The loop of tconnect_destroy()
  unfoldable pub destroy_loop : List (Track Opts Time) → Bool → W → Option W
  unfolding track_destroy
  destroy_loop [] owner w = some w
  destroy_loop (track ∷ rest) owner w = elim (track_destroy env track owner w) [
    | none ↦ none
    | some w' ↦ destroy_loop rest owner w'
  ]

  -- ut_close_if_valid()
  unfoldable pub ut_close_if_valid : Option ℕ → W → W
  ut_close_if_valid none w = w
  ut_close_if_valid (some fd) w = env.close fd w

  -- tconnect_destroy() of a connection that is there, but for the destruction of its timer manager
  unfoldable pub tconnect_destroy : Tconnect Opts Time → Bool → W → Option W
  unfolding destroy_loop ut_close_if_valid
  tconnect_destroy tconnect owner w = elim (destroy_loop tconnect.tracks owner w) [
    | none ↦ none
    | some w' ↦ some (ut_close_if_valid tconnect.fd6 (ut_close_if_valid tconnect.fd4 w'))
  ]
