-- ===== src/Timers.antt =====
-- libxcm/core/timer_mgr.c: the timers that share one timer descriptor, which is set to the time at
-- which the first of them expires. `mtimers` is the list of that name, and `next_timer_id` stays
-- below 2^63. A result `none` is the end of the process, or the use of a timer that is not there.
pub mod Schedule
pub mod Ids
use xcm.Base.{
  ℕ, zero, suc, ◌+◌, Bool, true, false, ◌&&◌, Option, none, some, List, [], ◌∷◌, ℤ, pos, minus_one,
  is_nonneg, eq_ℤ, to_int, ◌==◌, if◌then◌else◌,
}

-- What the code takes from outside: the arithmetic of double, as far as it uses it, with
-- ut_f_to_timespec() in seconds and nanoseconds, ut_ftime(), and timerfd_settime() of the timer
-- descriptor with an absolute time, which is `none` if it fails. `T` is the type double, and `K` the
-- kernel's state.
pub record Clock (T K : Type 0) : Type 0 where
  pub lt : T → T → Bool
  pub add : T → T → T
  pub zero_time : T
  pub to_timespec : T → ℕ × ℕ
  pub now : K → T
  pub settime : ℕ × ℕ → K → Option K

-- struct mtimer
pub record Mtimer (T : Type 0) : Type 0 where
  pub id : ℤ
  pub expiry_time : T

-- struct timer_mgr, with the kernel's state
pub record TimerMgr (T K : Type 0) : Type 0 where
  pub mtimers : List (Mtimer T)
  pub next_timer_id : ℕ
  pub kernel_state : K

-- The loop of find_mtimer()
unfoldable pub find_mtimer : {T : Type 0} → List (Mtimer T) → ℤ → Option (Mtimer T)
find_mtimer [] timer_id = none
find_mtimer (mtimer ∷ rest) timer_id =
    if eq_ℤ mtimer.id timer_id then some mtimer else find_mtimer rest timer_id

-- LIST_REMOVE() of the timer that find_mtimer() returns
unfoldable pub remove_found : {T : Type 0} → List (Mtimer T) → ℤ → List (Mtimer T)
remove_found [] timer_id = []
remove_found (mtimer ∷ rest) timer_id =
    if eq_ℤ mtimer.id timer_id then rest else mtimer ∷ remove_found rest timer_id

module _ {T K : Type 0} (clock : Clock T K) where
  -- The value that arm_timer_fd() sets the descriptor to.
  unfoldable pub arm_value : T → ℕ × ℕ
  arm_value relative_timeout =
      let timeout =
        if clock.lt relative_timeout clock.zero_time then clock.zero_time else relative_timeout in
      let (sec, nsec) =
        if clock.lt clock.zero_time timeout then clock.to_timespec timeout else (0, 0) in
      if sec == 0 && nsec == 0 then (sec, 1) else (sec, nsec)

  -- arm_timer_fd()
  unfoldable pub arm_timer_fd : T → K → Option K
  unfolding arm_value
  arm_timer_fd relative_timeout k = clock.settime (arm_value relative_timeout) k

  -- disarm_timer_fd()
  unfoldable pub disarm_timer_fd : K → Option K
  disarm_timer_fd k = clock.settime (0, 0) k

  -- The loop of update_epoll()
  unfoldable pub candidate_loop : Mtimer T → List (Mtimer T) → Mtimer T
  candidate_loop candidate [] = candidate
  candidate_loop candidate (mtimer ∷ rest) =
      candidate_loop
        (if clock.lt mtimer.expiry_time candidate.expiry_time then mtimer else candidate) rest

  -- update_epoll()
  unfoldable pub update_epoll : List (Mtimer T) → K → Option K
  unfolding disarm_timer_fd arm_timer_fd candidate_loop
  update_epoll [] k = disarm_timer_fd k
  update_epoll (mtimer ∷ rest) k = arm_timer_fd (candidate_loop mtimer rest).expiry_time k

  -- What follows a change of the list: the timers `mtimers`, with the descriptor set for them.
  unfoldable pub updated : TimerMgr T K → List (Mtimer T) → Option (TimerMgr T K)
  unfolding update_epoll
  updated timer mtimers = elim (update_epoll mtimers timer.kernel_state) [
    | none ↦ none
    | some k ↦ some (record timer { mtimers = mtimers; kernel_state = k })
  ]

  -- schedule_abs(): the id, which passes through an int.
  unfoldable pub schedule_abs : TimerMgr T K → T → Option (ℤ × TimerMgr T K)
  schedule_abs timer abs_mtimer =
      let timer_id = to_int (pos timer.next_timer_id) in
      let mtimer : Mtimer T = record { id = timer_id; expiry_time = abs_mtimer } in
      elim (updated timer (mtimer ∷ timer.mtimers)) [
        | none ↦ none
        | some timer' ↦ some (timer_id, record timer' { next_timer_id = timer.next_timer_id + 1 })
      ]

  -- timer_mgr_schedule()
  unfoldable pub timer_mgr_schedule : TimerMgr T K → T → Option (ℤ × TimerMgr T K)
  unfolding schedule_abs
  timer_mgr_schedule timer relative_mtimer =
      let relative =
        if clock.lt relative_mtimer clock.zero_time then clock.zero_time else relative_mtimer in
      schedule_abs timer (clock.add (clock.now timer.kernel_state) relative)

  -- timer_mgr_has_expired()
  unfoldable pub timer_mgr_has_expired : TimerMgr T K → ℤ → Option Bool
  unfolding find_mtimer
  timer_mgr_has_expired timer timer_id = elim (find_mtimer timer.mtimers timer_id) [
    | none ↦ none
    | some mtimer ↦ some (clock.lt mtimer.expiry_time (clock.now timer.kernel_state))
  ]

  -- try_cancel()
  unfoldable pub try_cancel : TimerMgr T K → ℤ → Option (Bool × TimerMgr T K)
  try_cancel timer timer_id = elim (find_mtimer timer.mtimers timer_id) [
    | none ↦ some (false, timer)
    | some mtimer ↦ elim (updated timer (remove_found timer.mtimers timer_id)) [
      | none ↦ none
      | some timer' ↦ some (true, timer')
    ]
  ]

  -- timer_mgr_cancel(): the new value of *timer_id, and the timers.
  unfoldable pub timer_mgr_cancel : TimerMgr T K → ℤ → Option (ℤ × TimerMgr T K)
  timer_mgr_cancel timer timer_id = elim (try_cancel timer timer_id) [
    | none ↦ none
    | some (existed, timer') ↦ some (minus_one, timer')
  ]

  -- timer_mgr_ack(): the same, with an assertion.
  unfoldable pub timer_mgr_ack : TimerMgr T K → ℤ → Option (ℤ × TimerMgr T K)
  timer_mgr_ack timer timer_id = elim (try_cancel timer timer_id) [
    | none ↦ none
    | some (existed, timer') ↦ if existed then some (minus_one, timer') else none
  ]

  -- timer_mgr_reschedule(): the new value of *timer_id, and the timers.
  unfoldable pub timer_mgr_reschedule : TimerMgr T K → T → ℤ → Option (ℤ × TimerMgr T K)
  unfolding timer_mgr_cancel timer_mgr_schedule
  timer_mgr_reschedule timer relative_mtimer timer_id =
      if is_nonneg timer_id
      then elim (timer_mgr_cancel timer timer_id) [
        | none ↦ none
        | some (cancelled, timer') ↦ timer_mgr_schedule timer' relative_mtimer
      ]
      else timer_mgr_schedule timer relative_mtimer
