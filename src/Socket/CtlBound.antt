-- ===== src/Socket/CtlBound.antt =====
-- How long the control interface of libxcm/tp/common/xcm_tp.c waits for its turn.
use xcm.Base.{ℕ, ◌+◌, ◌≡◌, ◌≤◌, ◌⊎◌, Bool, true, false, List, [], ◌∷◌}
use xcm.Socket.{Socket}
use xcm.Socket.Ops.{TpOps, Env}
use xcm.Socket.Calls.{consider_ctl, max_skipped_ctl_calls}

module _ {W : Type 0} (ops : TpOps W) (env : Env W) where
  -- The calls of consider_ctl() by operations that have not failed for good; each is whether the
  -- operation has failed for the moment.
  unfoldable pub consider_all : Socket → List Bool → W → Socket × W
  consider_all s [] w = (s, w)
  consider_all s (temporarly ∷ rest) w =
      let (s', w') = consider_ctl ops env s false temporarly w in consider_all s' rest w'

  module _ (processed : W → ℕ)
      (counts : (s : Socket) (w : W) → processed (env.ctl_process s w) ≡ processed w + 1) where
    -- What a call leaves of the count and of the control interface.
    record Step (s : Socket) (w : W) (r : Socket × W) : Type 0 where
      on : r.0.ctl ≡ true
      within : r.0.skipped_ctl_calls ≤ max_skipped_ctl_calls
      grows : processed w ≤ processed r.1
      counted :
          (s.skipped_ctl_calls + 1 ≤ r.0.skipped_ctl_calls) ⊎ (processed w + 1 ≤ processed r.1)

    -- What a sequence of calls leaves.
    record Steps (n : ℕ) (s : Socket) (w : W) (r : Socket × W) : Type 0 where
      within : r.0.skipped_ctl_calls ≤ max_skipped_ctl_calls
      grows : processed w ≤ processed r.1
      counted :
          (s.skipped_ctl_calls + n ≤ r.0.skipped_ctl_calls) ⊎ (processed w + 1 ≤ processed r.1)
