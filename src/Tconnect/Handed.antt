-- ===== src/Tconnect/Handed.antt =====
-- What tconnect_get_connected_fd() of libxcm/tp/tcp/tconnect.c hands out, after tconnect_connect() and
-- any number of calls.
use xcm.Base.{ℕ, ◌≡◌, inl, inr, refl, ◌∙◌, true, false, Option, none, some, arith, Option-cases}
use xcm.Errno.{eagain, Outcome, ret, fail, abort}
use xcm.Addr.Hosts.{ip4, ip6}
use xcm.Tconnect.{TrackEnv}
use xcm.Tconnect.Track.{
  Track, TrackState-cases, connecting, connected, finished, current_ip, track_get_current_fd,
  track_disassociate_current_fd, track_get_current_scope, track_connect_next,
}
use xcm.Tconnect.Process.{
  track_create, track_process_initial_delay, track_process_connecting, process_if_connecting,
  track_process, Established, hand_over, connected_fd, track_get_connected_fd,
}
use xcm.Tconnect.Evidence.{
  Added, self_lem, Leaves, AnyOf, same_lem, then_lem, any_lem, Succeeded, IsHonest, HonestPair,
  next_lem, connecting_lem,
}

module _ {W Opts Time : Type 0} (env : TrackEnv W Opts Time) (port : ℕ) where
  delay_lem :
      (t : Track Opts Time) (w : W)
      → IsHonest env port t
      → Leaves (HonestPair env port) (track_process_initial_delay env t w)
  unfolding track_process_initial_delay
  delay_lem t w h =
      let goal = same_lem (HonestPair env port) (track_process_initial_delay env t w) in
      elim (Option-cases t.timer_id) [
        | inl nowhere ↦ goal none (ground (arith, nowhere)) tt
        | inr (timer, there) ↦ elim (Option-cases (env.timer_mgr_has_expired timer w)) [
          | inl gone ↦ goal none (ground (arith, there, gone)) tt
          | inr (false, early) ↦ goal (some (t, w)) (ground (arith, there, early)) h
          | inr (true, late) ↦
              let t' : Track Opts Time = record t { timer_id = none; state = connecting } in
              goal
                (elim (env.timer_mgr_ack timer w) [
                  | none ↦ none
                  | some w' ↦ track_connect_next env t' w'
                ])
                (ground (arith, there, late))
                (then_lem AnyOf (HonestPair env port) (env.timer_mgr_ack timer w) _
                  (any_lem (env.timer_mgr_ack timer w))
                  (λ w' _. next_lem env port t' w' (h.0, refl)))
        ]
      ]

  if_connecting_lem :
      (t : Track Opts Time) (w : W)
      → IsHonest env port t
      → Leaves (HonestPair env port) (process_if_connecting env t w)
  unfolding process_if_connecting
  if_connecting_lem t w h =
      let goal = same_lem (HonestPair env port) (process_if_connecting env t w) in
      let stays : process_if_connecting env t w ≡ some (t, w)
          → Leaves (HonestPair env port) (process_if_connecting env t w) =
        λ e. goal (some (t, w)) e h in
      elim (TrackState-cases t.state) [
        | inl s ↦ stays (ground (arith, s))
        | inr (inl s) ↦
            goal (track_process_connecting env t w) (ground (arith, s))
              (connecting_lem env port t w (h.0, s) (h.2 (inl s)))
        | inr (inr (inl s)) ↦ stays (ground (arith, s))
        | inr (inr (inr (inl s))) ↦ stays (ground (arith, s))
        | inr (inr (inr (inr s))) ↦ stays (ground (arith, s))
      ]

  -- What track_process() leaves of an honest track is honest.
  process_lem :
      (t : Track Opts Time) (w : W)
      → IsHonest env port t
      → Leaves (HonestPair env port) (track_process env t w)
  unfolding track_process
  process_lem t w h =
      let goal = same_lem (HonestPair env port) (track_process env t w) in
      elim (TrackState-cases t.state) [
        | inl s ↦
            goal
              (elim (track_process_initial_delay env t w) [
                | none ↦ none
                | some (track', w') ↦ process_if_connecting env track' w'
              ])
              (ground (arith, s))
              (then_lem (HonestPair env port) (HonestPair env port)
                (track_process_initial_delay env t w) _ (delay_lem t w h)
                (λ p k. if_connecting_lem p.0 p.1 k))
        | inr (inl s) ↦
            goal (process_if_connecting env t w) (ground (arith, s)) (if_connecting_lem t w h)
        | inr (inr (inl s)) ↦ goal (some (t, w)) (ground (arith, s)) h
        | inr (inr (inr (inl s))) ↦ goal (some (t, w)) (ground (arith, s)) h
        | inr (inr (inr (inr s))) ↦ goal (some (t, w)) (ground (arith, s)) h
      ]

  -- The registration of the descriptor has just been deleted.
  abbrev pub Unregistered : Option ℕ → W → Type 0
  Unregistered fd after =
      (id : ℕ) × (w : W) × Added env port fd id × (env.xpoll_fd_reg_del id w ≡ some after)

  -- What is handed out has been connected, and is registered no longer.
  abbrev pub Handed : Outcome (Established env) → W → Type 0
  Handed (ret established) after =
      Succeeded env port established.fd × Unregistered established.fd after
  Handed (fail e) after = Unit {0}
  Handed abort after = ⊥

  abbrev pub HandedPair : Outcome (Established env) × Track Opts Time × W → Type 0
  HandedPair r = Handed r.0 r.2 × IsHonest env port r.1

  disassociate-port :
      (t : Track Opts Time) → (track_disassociate_current_fd env t).remote_port ≡ t.remote_port
  unfolding track_disassociate_current_fd
  disassociate-port t = elim (Option-cases (current_ip env t)) [
    | inl nowhere ↦ ground (arith, nowhere)
    | inr (ip4 a, there) ↦ ground (arith, there)
    | inr (ip6 a, there) ↦ ground (arith, there)
  ]

  hand_over_lem :
      (t : Track Opts Time) (w : W)
      → IsHonest env port t
      → t.state ≡ connected
      → Leaves HandedPair (hand_over env t w)
  unfolding hand_over
  hand_over_lem t w h s =
      let goal = same_lem HandedPair (hand_over env t w) in
      elim (Option-cases t.fd_reg_id) [
        | inl nowhere ↦ goal none (ground (arith, nowhere)) tt
        | inr (id, there) ↦
            let t' : Track Opts Time = record t { fd_reg_id = none } in
            let scope : Option ℕ = elim (current_ip env t) [
              | none ↦ none
              | some ip ↦ track_get_current_scope env t ip
            ] in
            goal
              (elim (env.xpoll_fd_reg_del id w) [
                | none ↦ none
                | some w' ↦ some (
                  ret (record {
                    fd = track_get_current_fd env t;
                    scope = scope;
                    tcp_opts = t.tcp_opts;
                  }),
                  record (track_disassociate_current_fd env t') { state = finished },
                  w',
                )
              ])
              (ground (arith, there))
              (then_lem (λ w'. env.xpoll_fd_reg_del id w ≡ some w') HandedPair
                (env.xpoll_fd_reg_del id w) _ (self_lem (env.xpoll_fd_reg_del id w))
                (λ w' deleted. (
                  (h.1 s, (id, w, h.2 (inr s) id there, deleted)),
                  (
                    disassociate-port t' ∙ h.0,
                    λ k. absurd (cc),
                    λ k. elim k [ inl a ↦ absurd (cc) | inr b ↦ absurd (cc) ],
                  ),
                )))
      ]

  connected_fd_lem :
      (t : Track Opts Time) (w : W) → IsHonest env port t → Leaves HandedPair (connected_fd env t w)
  unfolding connected_fd
  connected_fd_lem t w h =
      let goal = same_lem HandedPair (connected_fd env t w) in
      elim (TrackState-cases t.state) [
        | inl s ↦ goal (some (fail eagain, t, w)) (ground (arith, s)) (tt, h)
        | inr (inl s) ↦ goal (some (fail eagain, t, w)) (ground (arith, s)) (tt, h)
        | inr (inr (inl s)) ↦ goal (hand_over env t w) (ground (arith, s)) (hand_over_lem t w h s)
        | inr (inr (inr (inl s))) ↦ goal none (ground (arith, s)) tt
        | inr (inr (inr (inr s))) ↦ elim (Option-cases t.badness_reason) [
          | inl nothing ↦ goal none (ground (arith, s, nothing)) tt
          | inr (e, known) ↦ goal (some (fail e, t, w)) (ground (arith, s, known)) (tt, h)
        ]
      ]

  pub get_lem :
      (t : Track Opts Time) (w : W)
      → IsHonest env port t
      → Leaves HandedPair (track_get_connected_fd env t w)
  unfolding track_get_connected_fd
  get_lem t w h =
      then_lem (HonestPair env port) HandedPair (track_process env t w) _ (process_lem t w h)
        (λ p k. connected_fd_lem p.0 p.1 k)

  pub create_lem :
      (t : Track Opts Time) (delay : Option Time) (w : W)
      → t.remote_port ≡ port
      → Leaves (HonestPair env port) (track_create env t delay w)
  unfolding track_create
  create_lem t none w h = next_lem env port (record t { state = connecting }) w (h, refl)
  create_lem t (some initial) w h =
      then_lem AnyOf (HonestPair env port) (env.timer_mgr_schedule initial w) _
        (any_lem (env.timer_mgr_schedule initial w))
        (λ p _. (h, λ k. absurd (cc), λ k. elim k [ inl a ↦ absurd (cc) | inr b ↦ absurd (cc) ]))
