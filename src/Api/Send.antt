-- ===== src/Api/Send.antt =====
-- What the blocking functions of libxcm/core/xcm.c promise over a transport that keeps its contract.
pub mod Message
pub mod Bytes
use xcm.Base.{
  ℕ, zero, suc, ◌+◌, ◌-◌, ◌≡◌, ◌≤◌, ◌<◌, ◌⊎◌, inl, inr, refl, sym, ap, ◌∙◌, Bool, true, false,
  Option, none, some, List, [], ◌∷◌, ◌++◌, arith, Bool-cases, Option-cases,
}
use xcm.Errno.{Errno, is_eagain, Outcome, Outcome-cases, ret, fail, abort}
use xcm.Socket.{Socket}
use xcm.Socket.Ops.{TpOps, Env}
use xcm.Socket.Calls.{
  xcm_tp_socket_send, xcm_tp_socket_finish, xcm_tp_socket_update, consider_ctl, failed_for_good,
  failed_for_now, consider_auto_update, skipped_after, after_call, do_ctl,
}
use xcm.Api.{await, socket_wait, socket_finish, is_unfinished, xcm_so_sendable}

module _ {W : Type 0} (ops : TpOps W) (env : Env W) where
  -- `view` is something that only sending changes, such as the messages accepted so far.
  pub record Keeps {V : Type 0} (view : W → V) : Type 0 where
    pub update_keeps : (s : Socket) (w : W) → view (ops.update s w) ≡ view w
    pub finish_keeps : (s : Socket) (w : W) → view (ops.finish s w).1 ≡ view w
    pub poll_keeps : (s : Socket) (w : W) → view (env.poll s w).1 ≡ view w
    pub ctl_keeps : (s : Socket) (w : W) → view (env.ctl_process s w) ≡ view w

  -- The wait after a call that has failed.
  abbrev pub after_send : Socket → List ℕ → W → Option Errno × Socket × W
  after_send s buf w =
      let r = xcm_tp_socket_send ops env s buf w in socket_wait ops env r.1 xcm_so_sendable r.2

  abbrev pub after_finish : Socket → W → Option Errno × Socket × W
  after_finish s w = let r = xcm_tp_socket_finish ops env s w in socket_wait ops env r.1 0 r.2

  -- Waiting gets a blocking call on: `rounds` is a bound for how often a call can fail with EAGAIN
  -- (or, for finish, EINPROGRESS) although the wait before it has ended well.
  pub record Wakes (rounds : W → ℕ) : Type 0 where
    pub send_wakes :
        (s : Socket) (buf : List ℕ) (w : W) (e : Errno)
        → (xcm_tp_socket_send ops env s buf w).0 ≡ fail e
        → is_eagain e ≡ true
        → (after_send s buf w).0 ≡ none
        → rounds (after_send s buf w).2 < rounds w
    pub send_done :
        (s : Socket) (buf : List ℕ) (w : W) (n : ℕ)
        → (xcm_tp_socket_send ops env s buf w).0 ≡ ret n
        → rounds (xcm_tp_socket_send ops env s buf w).2 ≤ rounds w
    pub finish_wakes :
        (s : Socket) (w : W) (e : Errno)
        → (xcm_tp_socket_finish ops env s w).0 ≡ some e
        → is_unfinished ops env e ≡ true
        → (after_finish s w).0 ≡ none
        → rounds (after_finish s w).2 < rounds w

  module _ {V : Type 0} (view : W → V) (keeps : Keeps view) where
    pub after_call-view :
        (permanently temporarly : Bool) (s : Socket) (w : W)
        → view (after_call ops env permanently temporarly s w).1 ≡ view w
    unfolding after_call consider_ctl consider_auto_update do_ctl xcm_tp_socket_update
    after_call-view permanently temporarly s w = ground (
      arith,
      keeps.ctl_keeps
          (record s { skipped_ctl_calls = skipped_after ops env temporarly s.skipped_ctl_calls }) w,
      keeps.update_keeps (consider_ctl ops env s permanently temporarly w).0
          (consider_ctl ops env s permanently temporarly w).1,
    )

    pub socket_wait-view :
        (s : Socket) (condition : ℕ) (w : W) → view (socket_wait ops env s condition w).2 ≡ view w
    unfolding socket_wait await xcm_tp_socket_update
    socket_wait-view s condition w =
        keeps.poll_keeps (record s { condition = condition })
          (ops.update (record s { condition = condition }) w)
        ∙ keeps.update_keeps (record s { condition = condition }) w

    finish-view : (s : Socket) (w : W) → view (xcm_tp_socket_finish ops env s w).2 ≡ view w
    unfolding xcm_tp_socket_finish
    finish-view s w =
        after_call-view (failed_for_good (ops.finish s w).0) (failed_for_now (ops.finish s w).0) s
          (ops.finish s w).1
        ∙ keeps.finish_keeps s w

    after_finish-view : (s : Socket) (w : W) → view (after_finish s w).2 ≡ view w
    after_finish-view s w =
        socket_wait-view (xcm_tp_socket_finish ops env s w).1 0 (xcm_tp_socket_finish ops env s w).2
        ∙ finish-view s w

    pub socket_finish_lem :
        (rounds : W → ℕ)
        → Wakes rounds
        → (fuel : ℕ) (s : Socket) (w : W) → rounds w < fuel
        → (rc : Option Errno) × (s' : Socket) × (w' : W) × (socket_finish ops env fuel s w
            ≡ some (rc, s', w'))
          × (view w' ≡ view w)
    unfolding socket_finish
    socket_finish_lem rounds wakes zero s w h = elim h [ ]
    socket_finish_lem rounds wakes (suc fuel) s w h =
        let r : Option Errno × Socket × W = xcm_tp_socket_finish ops env s w in
        let q : Option Errno × Socket × W = after_finish s w in
        elim (Option-cases r.0) [
          | inl done ↦ (none, r.1, r.2, ground (arith, done), finish-view s w)
          | inr (e, failed) ↦ elim (Bool-cases (is_unfinished ops env e)) [
            | inr over ↦ (some e, r.1, r.2, ground (arith, failed, over), finish-view s w)
            | inl more ↦ elim (Option-cases q.0) [
              | inr (e', lost) ↦
                  (some e', q.1, q.2, ground (arith, failed, more, lost), after_finish-view s w)
              | inl woken ↦
                  let fewer : rounds q.2 < rounds w = wakes.finish_wakes s w e failed more woken in
                  let (rc, s', w', result, same) =
                    socket_finish_lem rounds wakes fuel q.1 q.2 (omega arith) in
                  (
                    rc,
                    s',
                    w',
                    ground (arith, failed, more, woken, result),
                    same ∙ after_finish-view s w,
                  )
            ]
          ]
        ]
