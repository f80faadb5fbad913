-- ===== src/Examples/Timers.antt =====
-- libxcm/core/timer_mgr.c with a clock of whole seconds.
use xcm.Base.{
  ℕ, zero, suc, get_elem?, ◌+◌, ◌≡◌, ◌⊎◌, refl, sym, ap, false, none, some, [], ◌∷◌, ℤ, pos,
  minus_one, eq_ℤ, ltb, if◌then◌else◌, arith,
}
use xcm.Timers.{
  arm_value, Clock, Mtimer, TimerMgr, find_mtimer, timer_mgr_schedule, timer_mgr_cancel,
}
use xcm.Timers.Schedule.{IsOrdered}
use xcm.Timers.Ids.{TimerInv, timer_mgr_schedule_lem, timer_mgr_cancel_lem}

-- The kernel's state is the time, and the value of the descriptor.
abbrev clock : Clock ℕ (ℕ × (ℕ × ℕ))
clock = record {
  lt = ltb;
  add = λ a b. a + b;
  zero_time = 0;
  to_timespec = λ t. (t, 0);
  now = λ k. k.0;
  settime = λ value k. some (k.0, value);
}

abbrev setting : ℕ × (ℕ × ℕ) → ℕ × ℕ
setting k = k.1

clock_sets :
    (value : ℕ × ℕ) (k k' : ℕ × (ℕ × ℕ)) → clock.settime value k ≡ some k' → setting k' ≡ value
clock_sets value k k' h = let same : (k.0, value) ≡ k' = cc in ap setting (sym same)

clock-IsOrdered : IsOrdered clock
clock-IsOrdered = record {
  irreflexive = λ a. ground arith;
  transitive = λ a b c h k. ground arith;
  asymmetric = λ a b h. ground arith;
}

-- One timer, with id 0, which expires at 9.
abbrev nine : Mtimer ℕ
nine = record { id = pos 0; expiry_time = 9 }

abbrev one_timer : TimerMgr ℕ (ℕ × (ℕ × ℕ))
one_timer = record { mtimers = nine ∷ []; next_timer_id = 1; kernel_state = (5, (9, 0)) }

nine_alone : (i : ℕ) (m : Mtimer ℕ) → get_elem? (nine ∷ []) i ≡ some m → ltb m.expiry_time 9 ≡ false
nine_alone zero m e = let same : nine ≡ m = cc in ap (λ t. ltb t.expiry_time 9) (sym same)
nine_alone (suc i) m e = cc

one_timer-TimerInv : TimerInv clock setting clock_sets one_timer
unfolding find_mtimer arm_value
one_timer-TimerInv = record {
  unique = (refl, tt);
  fresh = λ n h. ground arith;
  set = (nine, record { member = (0, refl); before = nine_alone }, refl, λ h. cc);
}

timer_mgr_schedule_example :
    ((value : ℕ × ℕ) × (clock.settime value one_timer.kernel_state ≡ none)
      × (timer_mgr_schedule clock one_timer 2 ≡ none))
    ⊎ ((timer' : TimerMgr ℕ (ℕ × (ℕ × ℕ))) × (timer_mgr_schedule clock one_timer 2
          ≡ some (pos 1, timer'))
        × TimerInv clock setting clock_sets timer'
        × (find_mtimer one_timer.mtimers (pos 1) ≡ none)
        × ((j : ℤ)
            → find_mtimer timer'.mtimers j ≡ (
                if eq_ℤ j (pos 1)
                then some (record {
                  id = j;
                  expiry_time = clock.add (clock.now one_timer.kernel_state) 2;
                })
                else find_mtimer one_timer.mtimers j)))
timer_mgr_schedule_example =
    timer_mgr_schedule_lem clock setting clock_sets one_timer 2 clock-IsOrdered (omega arith)
      one_timer-TimerInv

timer_mgr_cancel_example :
    ((value : ℕ × ℕ) × (clock.settime value one_timer.kernel_state ≡ none)
      × (timer_mgr_cancel clock one_timer (pos 0) ≡ none))
    ⊎ ((timer' : TimerMgr ℕ (ℕ × (ℕ × ℕ))) × (timer_mgr_cancel clock one_timer (pos 0)
          ≡ some (minus_one, timer'))
        × TimerInv clock setting clock_sets timer'
        × ((j : ℤ)
            → find_mtimer timer'.mtimers j
              ≡ (if eq_ℤ j (pos 0) then none else find_mtimer one_timer.mtimers j)))
timer_mgr_cancel_example =
    timer_mgr_cancel_lem clock setting clock_sets one_timer (pos 0) clock-IsOrdered
      one_timer-TimerInv
