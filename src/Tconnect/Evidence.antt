-- ===== src/Tconnect/Evidence.antt =====
-- What a connected track of libxcm/tp/tcp/tconnect.c rests on: a connect() or an ut_established()
-- of its descriptor that has succeeded.
use xcm.Base.{
  subst, Bool, ℕ, ◌+◌, ◌≡◌, ◌⊎◌, inl, inr, refl, sym, true, false, Option, none, some, List, [],
  ◌∷◌, drop, arith, Bool-cases, Option-cases,
}
use mathlib.Core.Option.{some-injective}
use xcm.Errno.{etimedout, Errno, is_einprogress}
use xcm.Addr.Hosts.{Ip}
use xcm.Tconnect.{SockAddr, TrackEnv}
use xcm.Tconnect.Track.{
  Track, connecting, connected, Attempt, again, stop, track_get_current_fd, track_supports_family,
  fd_reg_release, timer_release, track_abort_connect, prepare, after_connect, start_connect,
  attempt, exhausted, connect_loop, next_idx, track_connect_next,
}
use xcm.Tconnect.Process.{give_up, process_established, track_process_connecting}

-- What a function that ends leaves meets a predicate.
abbrev pub Leaves : {A : Type 0} → (A → Type 0) → Option A → Type 0
Leaves P none = Unit {0}
Leaves P (some a) = P a

pub same_lem : {A : Type 0} (P : A → Type 0) (o o' : Option A) → o ≡ o' → Leaves P o' → Leaves P o
same_lem P o o' e h = subst (Leaves P) (sym e) h

pub then_lem :
    {A B : Type 0} (Q : A → Type 0) (P : B → Type 0) (o : Option A) (f : A → Option B)
    → Leaves Q o
    → ((a : A) → Q a → Leaves P (f a))
    → Leaves P (elim o [ none ↦ none | some a ↦ f a ])
then_lem Q P none f h k = tt
then_lem Q P (some a) f h k = k a h

abbrev pub AnyOf : {A : Type 0} → A → Type 0
AnyOf a = Unit {0}

pub any_lem : {A : Type 0} (o : Option A) → Leaves AnyOf o
any_lem none = tt
any_lem (some a) = tt

pub self_lem : {A : Type 0} (o : Option A) → Leaves (λ a. o ≡ some a) o
self_lem none = tt
self_lem (some a) = refl

pub branch_lem :
    {B : Type 0} (P : B → Type 0) (b : Bool) (x y : Option B)
    → Leaves P x
    → Leaves P y
    → Leaves P (elim b [ true ↦ x | false ↦ y ])
branch_lem P true x y h k = h
branch_lem P false x y h k = k

module _ {W Opts Time : Type 0} (env : TrackEnv W Opts Time) (port : ℕ) where
  -- A connect() of the descriptor to the port, or an ut_established() of it, has succeeded.
  abbrev pub Succeeded : Option ℕ → Type 0
  Succeeded fd =
      ((addr : SockAddr) × (w : W) × (addr.port ≡ port) × ((env.connect fd addr w).0 ≡ none))
      ⊎ ((w : W) × ((env.ut_established fd w).0 ≡ none))

  -- The id is what xpoll_fd_reg_add() has returned for the descriptor.
  abbrev pub Added : Option ℕ → ℕ → Type 0
  Added fd id = (w : W) × (w' : W) × (env.xpoll_fd_reg_add fd w ≡ some (id, w'))

  abbrev pub RegIsOwn : Track Opts Time → Type 0
  RegIsOwn t = (id : ℕ) → t.fd_reg_id ≡ some id → Added (track_get_current_fd env t) id

  -- A track to the port that is connected has been connected by its current descriptor, for which
  -- its registration has been made, as for that of one that is connecting.
  abbrev pub IsHonest : Track Opts Time → Type 0
  IsHonest t =
      (t.remote_port ≡ port)
      × (t.state ≡ connected → Succeeded (track_get_current_fd env t))
      × ((t.state ≡ connecting) ⊎ (t.state ≡ connected) → RegIsOwn t)

  abbrev pub IsTrying : Track Opts Time → Type 0
  IsTrying t = (t.remote_port ≡ port) × (t.state ≡ connecting)

  abbrev pub TryingPair : Track Opts Time × W → Type 0
  TryingPair p = IsTrying p.0

  abbrev pub HonestPair : Track Opts Time × W → Type 0
  HonestPair p = IsHonest p.0

  abbrev pub LeavesTrack : (Track Opts Time → Type 0) → Option (Track Opts Time × W) → Type 0
  LeavesTrack P o = Leaves (λ p. P p.0) o

  abbrev AttemptIsHonest : Attempt env → Type 0
  AttemptIsHonest (again t w) = IsTrying t
  AttemptIsHonest (stop t w) = IsHonest t

  trying-IsHonest : (t : Track Opts Time) → IsTrying t → RegIsOwn t → IsHonest t
  trying-IsHonest t (at, going) own = (at, λ h. absurd (cc), λ _. own)

  reg_lem :
      (t : Track Opts Time) (w : W) → IsTrying t → LeavesTrack IsTrying (fd_reg_release env t w)
  unfolding fd_reg_release
  reg_lem t w h = elim (Option-cases t.fd_reg_id) [
    | inl free ↦ rw free h
    | inr (id, there) ↦ rw there (
        then_lem AnyOf TryingPair (env.xpoll_fd_reg_del id w) _
          (any_lem (env.xpoll_fd_reg_del id w)) (λ w' _. h))
  ]

  timer_lem :
      (t : Track Opts Time) (w : W) → IsTrying t → LeavesTrack IsTrying (timer_release env t w)
  unfolding timer_release
  timer_lem t w h = elim (Option-cases t.timer_id) [
    | inl free ↦ rw free h
    | inr (id, there) ↦ rw there (
        then_lem AnyOf TryingPair (env.timer_mgr_cancel id w) _
          (any_lem (env.timer_mgr_cancel id w)) (λ w' _. h))
  ]

  abort_lem :
      (t : Track Opts Time) (w : W)
      → IsTrying t
      → LeavesTrack IsTrying (track_abort_connect env t w)
  unfolding track_abort_connect
  abort_lem t w h =
      let w1 : W = env.disconnect (track_get_current_fd env t) w in
      then_lem TryingPair TryingPair (fd_reg_release env t w1) _ (reg_lem t w1 h)
        (λ p k. timer_lem p.0 p.1 k)

  after_lem :
      (rc : Option Errno) (t : Track Opts Time) (w : W)
      → IsTrying t
      → RegIsOwn t
      → (rc ≡ none → Succeeded (track_get_current_fd env t))
      → Leaves AttemptIsHonest (after_connect env rc t w)
  unfolding after_connect track_get_current_fd
  after_lem none t w h own k = (h.0, λ _. k refl, λ _. own)
  after_lem (some e) t w h own k =
      branch_lem AttemptIsHonest (is_einprogress e) _ _
        (then_lem AnyOf AttemptIsHonest (env.timer_mgr_schedule t.tcp_connect_timeout w) _
          (any_lem (env.timer_mgr_schedule t.tcp_connect_timeout w))
          (λ p _. trying-IsHonest (record t { timer_id = some p.0 }) h own))
        (then_lem TryingPair AttemptIsHonest
          (track_abort_connect env (record t { badness_reason = some e }) w) _
          (abort_lem (record t { badness_reason = some e }) w h) (λ p r. r))

  start_lem :
      (ip : Ip) (t : Track Opts Time) (w : W)
      → IsTrying t
      → Leaves AttemptIsHonest (start_connect env ip t w)
  unfolding start_connect track_get_current_fd
  start_lem ip t w h =
      let fd : Option ℕ = track_get_current_fd env t in
      let addr : SockAddr = record { ip = ip; port = t.remote_port; scope = t.scope } in
      then_lem (λ p. env.xpoll_fd_reg_add fd w ≡ some p) AttemptIsHonest (env.xpoll_fd_reg_add fd w)
        _ (self_lem (env.xpoll_fd_reg_add fd w))
        (λ p added.
          let c : Option Errno × W = env.connect fd addr p.1 in
          after_lem c.0 (record t { fd_reg_id = some p.0 }) c.1 h
            (λ id e. subst (Added fd) (some-injective p.0 id e) (w, p.1, added))
            (λ done. inl (addr, p.1, h.0, done)))

  attempt_lem :
      (ip : Ip) (t : Track Opts Time) (w : W)
      → IsTrying t
      → Leaves AttemptIsHonest (attempt env ip t w)
  unfolding attempt
  attempt_lem ip t w h =
      let p : Option Errno × W = prepare env ip t w in
      elim (Option-cases p.0) [
        | inr (e, failed) ↦
            same_lem AttemptIsHonest (attempt env ip t w)
              (some (again (record t { badness_reason = some e }) p.1)) (ground (arith, failed)) h
        | inl ok ↦ elim (Option-cases t.fd_reg_id) [
          | inr (id, there) ↦
              same_lem AttemptIsHonest (attempt env ip t w) none (ground (arith, ok, there)) tt
          | inl free ↦
              same_lem AttemptIsHonest (attempt env ip t w) (start_connect env ip t p.1)
                (ground (arith, ok, free)) (start_lem ip t p.1 h)
        ]
      ]

  exhausted-IsHonest : (t : Track Opts Time) → IsTrying t → IsHonest (exhausted env t)
  unfolding exhausted
  exhausted-IsHonest t h = elim (Option-cases t.badness_reason) [
    | inl first ↦
        rw first (h.0, λ k. absurd (cc), λ k. elim k [ inl a ↦ absurd (cc) | inr b ↦ absurd (cc) ])
    | inr (e, known) ↦
        rw known (h.0, λ k. absurd (cc), λ k. elim k [ inl a ↦ absurd (cc) | inr b ↦ absurd (cc) ])
  ]

  loop_step :
      (idx : ℕ) (rest : List Ip) (result : Option (Attempt env))
      → ((t : Track Opts Time) (w : W)
          → IsTrying t
          → Leaves HonestPair (connect_loop env (idx + 1) rest t w))
      → Leaves AttemptIsHonest result
      → Leaves HonestPair (elim result [
        | none ↦ none
        | some (stop t' w') ↦ some (t', w')
        | some (again t' w') ↦ connect_loop env (idx + 1) rest t' w'
      ])
  loop_step idx rest none later h = tt
  loop_step idx rest (some (stop t w)) later h = h
  loop_step idx rest (some (again t w)) later h = later t w h

  loop_lem :
      (idx : ℕ) (rest : List Ip) (t : Track Opts Time) (w : W)
      → IsTrying t
      → Leaves HonestPair (connect_loop env idx rest t w)
  unfolding connect_loop
  loop_lem idx [] t w h = exhausted-IsHonest t h
  loop_lem idx (ip ∷ rest) t w h =
      let later = loop_lem (idx + 1) rest in
      elim (Bool-cases (track_supports_family env t ip)) [
        | inr unsupported ↦
            same_lem HonestPair (connect_loop env idx (ip ∷ rest) t w)
              (connect_loop env (idx + 1) rest t w) (ground (arith, unsupported)) (later t w h)
        | inl supported ↦
            let t1 : Track Opts Time = record t { ip_idx = some idx } in
            same_lem HonestPair (connect_loop env idx (ip ∷ rest) t w)
              (elim (attempt env ip t1 w) [
                | none ↦ none
                | some (stop t' w') ↦ some (t', w')
                | some (again t' w') ↦ connect_loop env (idx + 1) rest t' w'
              ])
              (ground (arith, supported))
              (loop_step idx rest (attempt env ip t1 w) later (attempt_lem ip t1 w h))
      ]

  pub next_lem :
      (t : Track Opts Time) (w : W) → IsTrying t → Leaves HonestPair (track_connect_next env t w)
  unfolding track_connect_next
  next_lem t w h =
      let rest : List Ip = drop (next_idx env t) t.remote_ips in
      same_lem HonestPair (track_connect_next env t w) (connect_loop env (next_idx env t) rest t w)
        (ground (arith, h.1)) (loop_lem (next_idx env t) rest t w h)

  give_up_lem :
      (e : Errno) (t : Track Opts Time) (w : W) → IsTrying t → Leaves HonestPair (give_up env e t w)
  unfolding give_up
  give_up_lem e t w h =
      then_lem TryingPair HonestPair
        (track_abort_connect env (record t { badness_reason = some e }) w) _
        (abort_lem (record t { badness_reason = some e }) w h) (λ p k. next_lem p.0 p.1 k)

  established_lem :
      (t : Track Opts Time) (w : W)
      → IsTrying t
      → RegIsOwn t
      → Leaves HonestPair (process_established env t w)
  unfolding process_established track_get_current_fd
  established_lem t w h own =
      let r : Option Errno × W = env.ut_established (track_get_current_fd env t) w in
      elim (Option-cases r.0) [
        | inl ok ↦
            same_lem HonestPair (process_established env t w)
              (some (record t { state = connected }, r.1)) (ground (arith, ok))
              (h.0, λ _. inr (w, ok), λ _. own)
        | inr (e, failed) ↦
            same_lem HonestPair (process_established env t w)
              (elim (is_einprogress e) [ true ↦ some (t, r.1) | false ↦ give_up env e t r.1 ])
              (ground (arith, failed))
              (branch_lem HonestPair (is_einprogress e) _ _ (trying-IsHonest t h own)
                (give_up_lem e t r.1 h))
      ]

  pub connecting_lem :
      (t : Track Opts Time) (w : W)
      → IsTrying t
      → RegIsOwn t
      → Leaves HonestPair (track_process_connecting env t w)
  unfolding track_process_connecting
  connecting_lem t w h own = elim (Option-cases t.timer_id) [
    | inl nowhere ↦
        same_lem HonestPair (track_process_connecting env t w) none (ground (arith, nowhere)) tt
    | inr (timer, there) ↦ elim (Option-cases (env.timer_mgr_has_expired timer w)) [
      | inl gone ↦
          same_lem HonestPair (track_process_connecting env t w) none (ground (arith, there, gone))
            tt
      | inr (true, late) ↦
          same_lem HonestPair (track_process_connecting env t w)
            (elim (env.timer_mgr_ack timer w) [
              | none ↦ none
              | some w' ↦ give_up env etimedout (record t { timer_id = none }) w'
            ])
            (ground (arith, there, late))
            (then_lem AnyOf HonestPair (env.timer_mgr_ack timer w) _
              (any_lem (env.timer_mgr_ack timer w))
              (λ w' _. give_up_lem etimedout (record t { timer_id = none }) w' h))
      | inr (false, early) ↦
          same_lem HonestPair (track_process_connecting env t w) (process_established env t w)
            (ground (arith, there, early)) (established_lem t w h own)
    ]
  ]
