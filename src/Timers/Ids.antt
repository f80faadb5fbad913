-- ===== src/Timers/Ids.antt =====
-- Scheduling and cancelling timers of libxcm/core/timer_mgr.c, as changes of a map from ids to
-- timers.
use xcm.Base.{
  ℕ, ◌+◌, ◌^◌, ◌≡◌, ◌≤◌, ◌<◌, ◌⊎◌, inl, inr, sym, ap, ◌∙◌, subst, none, some, List, [], ◌∷◌, ℤ, pos,
  minus_one, eq_ℤ, eq_ℤ_iff, if◌then◌else◌, arith, Bool-cases, Option-cases,
}
use xcm.Timers.{
  Clock, Mtimer, TimerMgr, find_mtimer, remove_found, updated, schedule_abs, timer_mgr_schedule,
  try_cancel, timer_mgr_cancel,
}
use xcm.Timers.Schedule.{IsOrdered, IsSetFor, update_epoll_lem}

-- Each id stands on the list once.
abbrev pub IsUnique : {T : Type 0} → List (Mtimer T) → Type 0
IsUnique [] = Unit {0}
IsUnique (m ∷ rest) = (find_mtimer rest m.id ≡ none) × IsUnique rest

find-remove :
    {T : Type 0} (xs : List (Mtimer T)) (id j : ℤ)
    → IsUnique xs
    → find_mtimer (remove_found xs id) j ≡ (if eq_ℤ j id then none else find_mtimer xs j)
unfolding find_mtimer remove_found
find-remove [] id j u = ground arith
find-remove (m ∷ rest) id j u = elim (Bool-cases (eq_ℤ m.id id)) [
  | inl e ↦ ground (arith, e, u.0, eq_ℤ_iff m.id id, eq_ℤ_iff j id, eq_ℤ_iff m.id j)
  | inr e ↦
      ground (arith, e, find-remove rest id j u.1, eq_ℤ_iff m.id id, eq_ℤ_iff j id, eq_ℤ_iff m.id j)
]

remove-IsUnique :
    {T : Type 0} (xs : List (Mtimer T)) (id : ℤ) → IsUnique xs → IsUnique (remove_found xs id)
unfolding remove_found
remove-IsUnique [] id u = tt
remove-IsUnique (m ∷ rest) id u = elim (Bool-cases (eq_ℤ m.id id)) [
  | inl e ↦
      let gone : remove_found (m ∷ rest) id ≡ rest = ground (arith, e) in
      subst IsUnique (sym gone) u.1
  | inr e ↦
      let kept : remove_found (m ∷ rest) id ≡ m ∷ remove_found rest id = ground (arith, e) in
      let missing : find_mtimer (remove_found rest id) m.id ≡ none =
        find-remove rest id m.id u.1 ∙ ground (arith, e, u.0) in
      let both : IsUnique (m ∷ remove_found rest id) = (missing, remove-IsUnique rest id u.1) in
      subst IsUnique (sym kept) both
]

find-cons :
    {T : Type 0} (xs : List (Mtimer T)) (n : ℕ) (expiry : T) (j : ℤ)
    → find_mtimer (record { id = pos n; expiry_time = expiry } ∷ xs) j ≡ (
        if eq_ℤ j (pos n) then some (record { id = j; expiry_time = expiry }) else find_mtimer xs j)
unfolding find_mtimer
find-cons xs n expiry j = elim (Bool-cases (eq_ℤ (pos n) j)) [
  | inl e ↦
      let same : pos n ≡ j = (eq_ℤ_iff (pos n) j).0 e in
      rw (e, (eq_ℤ_iff j (pos n)).1 (sym same))
        (ap (λ i. some (record { id = i; expiry_time = expiry })) same)
  | inr e ↦ ground (arith, e, eq_ℤ_iff j (pos n), eq_ℤ_iff (pos n) j)
]

module _ {T K : Type 0} (clock : Clock T K) (setting : K → ℕ × ℕ)
    (settime_sets : (value : ℕ × ℕ) (k k' : K)
      → clock.settime value k ≡ some k'
      → setting k' ≡ value) where
  -- The ids are unique and below the next one, and the descriptor is set for the timers.
  pub record TimerInv (timer : TimerMgr T K) : Type 0 where
    pub unique : IsUnique timer.mtimers
    pub fresh : (n : ℕ) → timer.next_timer_id ≤ n → find_mtimer timer.mtimers (pos n) ≡ none
    pub set : IsSetFor clock (setting timer.kernel_state) timer.mtimers

  -- The new timers, with the descriptor set for them, unless timerfd_settime() fails.
  updated_lem :
      (timer : TimerMgr T K) (xs : List (Mtimer T))
      → IsOrdered clock
      → ((value : ℕ × ℕ) × (clock.settime value timer.kernel_state ≡ none)
          × (updated clock timer xs ≡ none))
        ⊎ ((k : K) × (updated clock timer xs
              ≡ some (record timer { mtimers = xs; kernel_state = k }))
            × IsSetFor clock (setting k) xs)
  unfolding updated
  updated_lem timer xs o =
      let (value, set, first) = update_epoll_lem clock xs timer.kernel_state o in
      elim (Option-cases (clock.settime value timer.kernel_state)) [
        | inl fails ↦ inl (value, fails, ground (arith, set, fails))
        | inr (k, done) ↦ inr (
          k,
          ground (arith, set, done),
          subst (λ v. IsSetFor clock v xs) (sym (settime_sets value timer.kernel_state k done))
              first,
        )
      ]

  -- A time, or zero for one below it.
  abbrev pub non_negative : T → T
  non_negative t = if clock.lt t clock.zero_time then clock.zero_time else t

  -- With ordered times and below 2^31 ids, timer_mgr_schedule() keeps the invariant and returns a new
  -- id, under which a timer is found that expires the given time after the current time, or at the
  -- current time if the given one is negative; every other id finds what it found before. Only if timerfd_settime() fails, the
  -- process ends.
  pub timer_mgr_schedule_lem :
      (timer : TimerMgr T K) (relative : T)
      → IsOrdered clock
      → timer.next_timer_id < 2 ^ 31
      → TimerInv timer
      → ((value : ℕ × ℕ) × (clock.settime value timer.kernel_state ≡ none)
          × (timer_mgr_schedule clock timer relative ≡ none))
        ⊎ ((timer' : TimerMgr T K) × (timer_mgr_schedule clock timer relative
              ≡ some (pos timer.next_timer_id, timer'))
            × TimerInv timer'
            × (find_mtimer timer.mtimers (pos timer.next_timer_id) ≡ none)
            × ((j : ℤ)
                → find_mtimer timer'.mtimers j ≡ (
                    if eq_ℤ j (pos timer.next_timer_id)
                    then some (record {
                      id = j;
                      expiry_time =
                          clock.add (clock.now timer.kernel_state) (non_negative relative);
                    })
                    else find_mtimer timer.mtimers j)))
  unfolding timer_mgr_schedule schedule_abs
  timer_mgr_schedule_lem timer relative o small inv =
      let since : T = if clock.lt relative clock.zero_time then clock.zero_time else relative in
      let expiry : T = clock.add (clock.now timer.kernel_state) since in
      let new : Mtimer T = record { id = pos timer.next_timer_id; expiry_time = expiry } in
      let absent : find_mtimer timer.mtimers (pos timer.next_timer_id) ≡ none =
        inv.fresh timer.next_timer_id (omega arith) in
      elim (updated_lem timer (new ∷ timer.mtimers) o) [
        | inl (value, fails, none_left) ↦ inl (value, fails, ground (arith, small, none_left))
        | inr (k, done, set) ↦ inr (
          record {
            mtimers = new ∷ timer.mtimers;
            next_timer_id = timer.next_timer_id + 1;
            kernel_state = k;
          },
          ground (arith, small, done),
          record {
            unique = (absent, inv.unique);
            fresh = λ n h. unfold find_mtimer in ground (arith, inv.fresh n (omega arith));
            set = set;
          },
          absent,
          λ j. find-cons timer.mtimers timer.next_timer_id expiry j,
        )
      ]

  -- With ordered times, timer_mgr_cancel() keeps the invariant: the id finds no timer any longer, every other id finds
  -- what it found before. Only if timerfd_settime() fails, the process ends.
  pub timer_mgr_cancel_lem :
      (timer : TimerMgr T K) (id : ℤ)
      → IsOrdered clock
      → TimerInv timer
      → ((value : ℕ × ℕ) × (clock.settime value timer.kernel_state ≡ none)
          × (timer_mgr_cancel clock timer id ≡ none))
        ⊎ ((timer' : TimerMgr T K) × (timer_mgr_cancel clock timer id ≡ some (minus_one, timer'))
            × TimerInv timer'
            × ((j : ℤ)
                → find_mtimer timer'.mtimers j
                  ≡ (if eq_ℤ j id then none else find_mtimer timer.mtimers j)))
  unfolding timer_mgr_cancel try_cancel
  timer_mgr_cancel_lem timer id o inv = elim (Option-cases (find_mtimer timer.mtimers id)) [
    | inl absent ↦
        inr (timer, rw (absent, timer_mgr_cancel), inv, λ j. ground (arith, absent, eq_ℤ_iff j id))
    | inr (m, found) ↦ elim (updated_lem timer (remove_found timer.mtimers id) o) [
      | inl (value, fails, none_left) ↦ inl (value, fails, ground (arith, found, none_left))
      | inr (k, done, set) ↦ inr (
        record timer { mtimers = remove_found timer.mtimers id; kernel_state = k },
        ground (arith, found, done),
        record {
          unique = remove-IsUnique timer.mtimers id inv.unique;
          fresh = λ n h.
              find-remove timer.mtimers id (pos n) inv.unique ∙ ground (arith, inv.fresh n h);
          set = set;
        },
        λ j. find-remove timer.mtimers id j inv.unique,
      )
    ]
  ]
