-- ===== src/Timers/Schedule.antt =====
-- The value that libxcm/core/timer_mgr.c sets its descriptor to: the first time at which a timer
-- expires.
use xcm.Base.{
  ℕ, zero, suc, ◌≡◌, ◌≢◌, inl, inr, refl, sym, ap, ◌∙◌, subst, true, false, some, List, [], ◌∷◌,
  get_elem?, if◌then◌else◌, arith, Bool-cases,
}
use xcm.Timers.{
  Clock, Mtimer, arm_value, arm_timer_fd, disarm_timer_fd, candidate_loop, update_epoll,
}

module _ {T K : Type 0} (clock : Clock T K) where
  -- The times that the code compares, among which there is no NaN: they are ordered.
  pub record IsOrdered : Type 0 where
    pub irreflexive : (a : T) → clock.lt a a ≡ false
    pub transitive :
        (a b c : T) → clock.lt b a ≡ false → clock.lt c b ≡ false → clock.lt c a ≡ false
    pub asymmetric : (a b : T) → clock.lt a b ≡ true → clock.lt b a ≡ false

  -- The timer is one of the list, and none of the list expires before it.
  pub record IsFirst (c : Mtimer T) (xs : List (Mtimer T)) : Type 0 where
    pub member : (i : ℕ) × (get_elem? xs i ≡ some c)
    pub before :
        (i : ℕ) (m : Mtimer T)
        → get_elem? xs i ≡ some m
        → clock.lt m.expiry_time c.expiry_time ≡ false

  -- A timer in front of the list that is not earlier than one of the list.
  before-cons :
      (r c : Mtimer T) (xs : List (Mtimer T))
      → clock.lt c.expiry_time r.expiry_time ≡ false
      → ((i : ℕ) (m : Mtimer T)
          → get_elem? xs i ≡ some m
          → clock.lt m.expiry_time r.expiry_time ≡ false)
      → (i : ℕ) (m : Mtimer T) → get_elem? (c ∷ xs) i ≡ some m
      → clock.lt m.expiry_time r.expiry_time ≡ false
  before-cons r c xs h k zero m e =
      let same : c ≡ m = cc in ap (λ x. clock.lt x.expiry_time r.expiry_time) (sym same) ∙ h
  before-cons r c xs h k (suc i) m e = k i m e

  candidate-replaced :
      (r c x : Mtimer T) (xs : List (Mtimer T))
      → IsOrdered
      → clock.lt x.expiry_time c.expiry_time ≡ true
      → IsFirst r (x ∷ xs)
      → IsFirst r (c ∷ x ∷ xs)
  candidate-replaced r c x xs o h first = record {
    member = let (i, e) = first.member in (suc i, e);
    before =
        before-cons r c (x ∷ xs)
          (o.transitive r.expiry_time x.expiry_time c.expiry_time (first.before 0 x refl)
            (o.asymmetric x.expiry_time c.expiry_time h))
          first.before;
  }

  member-between :
      (r c x : Mtimer T) (xs : List (Mtimer T)) (i : ℕ)
      → get_elem? (c ∷ xs) i ≡ some r
      → (j : ℕ) × (get_elem? (c ∷ x ∷ xs) j ≡ some r)
  member-between r c x xs zero e = (0, e)
  member-between r c x xs (suc i) e = (suc (suc i), e)

  candidate-kept :
      (r c x : Mtimer T) (xs : List (Mtimer T))
      → IsOrdered
      → clock.lt x.expiry_time c.expiry_time ≡ false
      → IsFirst r (c ∷ xs)
      → IsFirst r (c ∷ x ∷ xs)
  candidate-kept r c x xs o h first = record {
    member = member-between r c x xs first.member.0 first.member.1;
    before = before-cons r c (x ∷ xs) (first.before 0 c refl) (
        before-cons r x xs
          (o.transitive r.expiry_time c.expiry_time x.expiry_time (first.before 0 c refl) h)
          (λ i m e. first.before (suc i) m e));
  }

  candidate_loop_lem :
      (c : Mtimer T) (xs : List (Mtimer T))
      → IsOrdered
      → IsFirst (candidate_loop clock c xs) (c ∷ xs)
  unfolding candidate_loop
  candidate_loop_lem c [] o = record {
    member = (0, refl);
    before = before-cons c c [] (o.irreflexive c.expiry_time) (λ i m e. absurd (cc));
  }
  candidate_loop_lem c (x ∷ xs) o = elim (Bool-cases (clock.lt x.expiry_time c.expiry_time)) [
    | inl h ↦
        subst (λ b. IsFirst (candidate_loop clock (if b then x else c) xs) (c ∷ x ∷ xs)) (sym h)
          (candidate-replaced (candidate_loop clock x xs) c x xs o h (candidate_loop_lem x xs o))
    | inr h ↦
        subst (λ b. IsFirst (candidate_loop clock (if b then x else c) xs) (c ∷ x ∷ xs)) (sym h)
          (candidate-kept (candidate_loop clock c xs) c x xs o h (candidate_loop_lem c xs o))
  ]

  arm_value-nonzero : (t : T) → arm_value clock t ≢ (0, 0)
  unfolding arm_value
  arm_value-nonzero t = λ h. ground (arith, h)

  -- The value that the descriptor is set to for the timers: it is not set if there is none, and
  -- otherwise set for the first to expire, and never to zero, which would stop it.
  abbrev pub IsSetFor : ℕ × ℕ → List (Mtimer T) → Type 0
  IsSetFor value [] = value ≡ (0, 0)
  IsSetFor value (m ∷ rest) =
      (c : Mtimer T) × IsFirst c (m ∷ rest)
      × (value ≡ arm_value clock c.expiry_time)
      × (value ≢ (0, 0))

  pub update_epoll_lem :
      (xs : List (Mtimer T)) (k : K)
      → IsOrdered
      → (value : ℕ × ℕ) × (update_epoll clock xs k ≡ clock.settime value k) × IsSetFor value xs
  unfolding update_epoll disarm_timer_fd arm_timer_fd
  update_epoll_lem [] k o = ((0, 0), refl, refl)
  update_epoll_lem (m ∷ rest) k o =
      let c : Mtimer T = candidate_loop clock m rest in
      (
        arm_value clock c.expiry_time,
        refl,
        (c, candidate_loop_lem m rest o, refl, arm_value-nonzero c.expiry_time),
      )
