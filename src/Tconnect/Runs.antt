-- ===== src/Tconnect/Runs.antt =====
-- The descriptor that tconnect_get_connected_fd() of libxcm/tp/tcp/tconnect.c hands out, after
-- tconnect_connect() and any number of calls.
use xcm.Base.{
  ℕ, ◌≡◌, refl, sym, Option, none, some, List, [], ◌∷◌, ◌++◌, arith, subst, take, length, ◌==◌,
  if◌then◌else◌,
}
use xcm.Errno.{Errno, enotsup, Outcome}
use xcm.Tconnect.{TrackEnv, TconnectAlgorithm, no_algorithm, single, sequential, happy_eyeballs}
use xcm.Tconnect.Track.{Track}
use xcm.Tconnect.Process.{Established, track_create}
use xcm.Tconnect.Connect.{
  Tconnect, Target, has_ip4, has_ip6, check_scope_conf, new_track, tconnect_connect_sequential,
  happy_track4, happy_track6, tconnect_connect_happy, succeeded, connect_by_algorithm,
  tconnect_connect, tconnect_get_connected_fd,
}
use xcm.Tconnect.Evidence.{Leaves, same_lem, then_lem, HonestPair}
use xcm.Tconnect.Handed.{create_lem}
use xcm.Tconnect.Asked.{if_lem, left_lem, AllHonest, Answer, Answered, get_connected_lem}

module _ {W Opts Time : Type 0} (env : TrackEnv W Opts Time) (port : ℕ) where
  abbrev ListPair : List (Track Opts Time) × W → Type 0
  ListPair r = AllHonest env port r.0

  abbrev ConnPair : Tconnect Opts Time × W → Type 0
  ConnPair r = AllHonest env port r.0.tracks

  abbrev Connected : Option Errno × Tconnect Opts Time × W → Type 0
  Connected r = AllHonest env port r.1.tracks

  sequential_lem :
      (tconnect : Tconnect Opts Time) (target : Target Opts Time) (w : W)
      → target.remote_port ≡ port
      → Leaves ConnPair (tconnect_connect_sequential env tconnect target w)
  unfolding tconnect_connect_sequential
  sequential_lem tconnect target w h =
      let t : Track Opts Time = new_track tconnect.fd4 tconnect.fd6 target.scope target in
      then_lem (HonestPair env port) ConnPair (track_create env t none w) _
        (create_lem env port t none w h) (λ p k. (k, tt))

  track4_lem :
      (tconnect : Tconnect Opts Time) (target : Target Opts Time) (w : W)
      → target.remote_port ≡ port
      → Leaves ListPair (happy_track4 env tconnect target w)
  unfolding happy_track4
  track4_lem tconnect target w h =
      let t : Track Opts Time = new_track tconnect.fd4 none none target in
      let delay : Option Time =
        if has_ip6 target.remote_ips then some env.initial_ipv4_delay else none in
      if_lem ListPair (has_ip4 target.remote_ips) _ _
        (then_lem (HonestPair env port) ListPair (track_create env t delay w) _
          (create_lem env port t delay w h) (λ p k. (k, tt)))
        tt

  track6_lem :
      (tconnect : Tconnect Opts Time) (target : Target Opts Time) (w : W)
      → target.remote_port ≡ port
      → Leaves ListPair (happy_track6 env tconnect target w)
  unfolding happy_track6
  track6_lem tconnect target w h =
      let t : Track Opts Time = new_track none tconnect.fd6 target.scope target in
      if_lem ListPair (has_ip6 target.remote_ips) _ _
        (then_lem (HonestPair env port) ListPair (track_create env t none w) _
          (create_lem env port t none w h) (λ p k. (k, tt)))
        tt

  AllHonest-append :
      (xs ys : List (Track Opts Time))
      → AllHonest env port xs
      → AllHonest env port ys
      → AllHonest env port (xs ++ ys)
  AllHonest-append [] ys h k = k
  AllHonest-append (x ∷ xs) ys h k = (h.0, AllHonest-append xs ys h.1 k)

  both_lem :
      (tconnect : Tconnect Opts Time) (xs ys : List (Track Opts Time)) (w : W)
      → AllHonest env port xs
      → AllHonest env port ys
      → Leaves ConnPair (elim (xs ++ ys) [
        | [] ↦ none
        | track ∷ rest ↦ some (record tconnect { tracks = track ∷ rest }, w)
      ])
  both_lem tconnect [] [] w hx hy = tt
  both_lem tconnect [] (y ∷ ys) w hx hy = hy
  both_lem tconnect (x ∷ xs) ys w hx hy = (hx.0, AllHonest-append xs ys hx.1 hy)

  happy_lem :
      (tconnect : Tconnect Opts Time) (target : Target Opts Time) (w : W)
      → target.remote_port ≡ port
      → Leaves ConnPair (tconnect_connect_happy env tconnect target w)
  unfolding tconnect_connect_happy
  happy_lem tconnect target w h =
      then_lem ListPair ConnPair (happy_track4 env tconnect target w) _
        (track4_lem tconnect target w h)
        (λ p k.
          then_lem ListPair ConnPair (happy_track6 env tconnect target p.1) _
            (track6_lem tconnect target p.1 h) (λ q m. both_lem tconnect p.0 q.0 q.1 k m))

  succeeded_lem :
      (result : Option (Tconnect Opts Time × W))
      → Leaves ConnPair result
      → Leaves Connected (succeeded env result)
  succeeded_lem none h = tt
  succeeded_lem (some (tconnect, w)) h = h

  algorithm_lem :
      (tconnect : Tconnect Opts Time) (target : Target Opts Time) (w : W) (a : TconnectAlgorithm)
      → tconnect.algorithm ≡ a
      → target.remote_port ≡ port
      → AllHonest env port tconnect.tracks
      → Leaves Connected (connect_by_algorithm env tconnect target w)
  unfolding connect_by_algorithm
  algorithm_lem tconnect target w single e h k =
      let first : Target Opts Time = record target { remote_ips = take 1 target.remote_ips } in
      same_lem Connected (connect_by_algorithm env tconnect target w)
        (succeeded env (tconnect_connect_sequential env tconnect first w)) (ground (arith, e))
        (succeeded_lem (tconnect_connect_sequential env tconnect first w)
          (sequential_lem tconnect first w h))
  algorithm_lem tconnect target w sequential e h k =
      same_lem Connected (connect_by_algorithm env tconnect target w)
        (succeeded env (tconnect_connect_sequential env tconnect target w)) (ground (arith, e))
        (succeeded_lem (tconnect_connect_sequential env tconnect target w)
          (sequential_lem tconnect target w h))
  algorithm_lem tconnect target w happy_eyeballs e h k =
      same_lem Connected (connect_by_algorithm env tconnect target w)
        (succeeded env (tconnect_connect_happy env tconnect target w)) (ground (arith, e))
        (succeeded_lem (tconnect_connect_happy env tconnect target w)
          (happy_lem tconnect target w h))
  algorithm_lem tconnect target w no_algorithm e h k =
      same_lem Connected (connect_by_algorithm env tconnect target w)
        (some (some enotsup, tconnect, w)) (ground (arith, e)) k

  -- What tconnect_connect() leaves of a connection without tracks.
  connect_lem :
      (tconnect : Tconnect Opts Time) (target : Target Opts Time) (w : W)
      → target.remote_port ≡ port
      → AllHonest env port tconnect.tracks
      → Leaves Connected (tconnect_connect env tconnect target w)
  unfolding tconnect_connect
  connect_lem tconnect target w h k = if_lem Connected (length target.remote_ips == 0) _ _ tt (
      if_lem Connected (check_scope_conf target.scope target.remote_ips) _ _
        (algorithm_lem tconnect target w tconnect.algorithm refl h k) k)

-- A connection, made without tracks, after tconnect_connect() to a target and any number of calls of
-- tconnect_get_connected_fd(), between which the world may change in any way.
pub data ConnectRun {W Opts Time : Type 0} (env : TrackEnv W Opts Time) (target : Target Opts Time)
    : Tconnect Opts Time → Type 0 where
  started :
      (tconnect : Tconnect Opts Time) {tconnect' : Tconnect Opts Time} (w w' : W)
      (rc : Option Errno)
      → tconnect.tracks ≡ []
      → tconnect_connect env tconnect target w ≡ some (rc, tconnect', w')
      → ConnectRun env target tconnect'
  looked :
      (tconnect : Tconnect Opts Time) {tconnect' : Tconnect Opts Time} (w w' : W)
      (outcome : Outcome (Established env))
      → ConnectRun env target tconnect
      → tconnect_get_connected_fd env tconnect w ≡ some (outcome, tconnect', w')
      → ConnectRun env target tconnect'

run-AllHonest :
    {W Opts Time : Type 0} (env : TrackEnv W Opts Time) (target : Target Opts Time)
    {tconnect : Tconnect Opts Time}
    → ConnectRun env target tconnect
    → AllHonest env target.remote_port tconnect.tracks
run-AllHonest env target (started before w w' rc empty h) =
    left_lem (Connected env target.remote_port) _ _ h (
      connect_lem env target.remote_port before target w refl
        (subst (AllHonest env target.remote_port) (sym empty) tt))
run-AllHonest env target (looked before w w' outcome run h) =
    (left_lem (Answered env target.remote_port before) _ _ h
      (get_connected_lem env target.remote_port before w (run-AllHonest env target run))).1

-- After tconnect_connect() to a target and any number of calls of tconnect_get_connected_fd(), in any
-- states of the kernel, the timers and the epoll instance: a call that ends without a failed
-- assertion and returns a descriptor returns one that a connect() to the port of the target, or an
-- ut_established(), has reported as connected; the registration that the call has deleted last has
-- the id that xpoll_fd_reg_add() returned for that descriptor; the descriptor was one of the
-- connection's two, and is the connection's no longer, while the other still is. A call that fails
-- leaves both.
pub tconnect_get_connected_fd_lem :
    {W Opts Time : Type 0} (env : TrackEnv W Opts Time) (target : Target Opts Time)
    (tconnect tconnect' : Tconnect Opts Time) (w w' : W) (outcome : Outcome (Established env))
    → ConnectRun env target tconnect
    → tconnect_get_connected_fd env tconnect w ≡ some (outcome, tconnect', w')
    → Answer env target.remote_port tconnect outcome tconnect' w'
tconnect_get_connected_fd_lem env target tconnect tconnect' w w' outcome run h =
    (left_lem (Answered env target.remote_port tconnect) _ _ h
      (get_connected_lem env target.remote_port tconnect w (run-AllHonest env target run))).0
