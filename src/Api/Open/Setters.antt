-- ===== src/Api/Open/Setters.antt =====
-- Setting the attributes of a socket ends and keeps what the socket holds.
use xcm.Base.{
  subst, ℕ, zero, suc, ◌≡◌, ◌<◌, inl, inr, refl, ◌∙◌, Bool, true, false, Option, none, some, List,
  [], ◌∷◌, Str, c_str, str_eq, length, arith, Bool-cases, Option-cases,
}
use xcm.Errno.{Errno, einval, eacces, Outcome}
use xcm.AttrMap.{AttrType, bool, str}
use xcm.Socket.{Socket, TpAttr}
use xcm.Socket.Ops.{TpOps, Env}
use xcm.Socket.Calls.{
  xcm_tp_socket_finish, after_call, consider_ctl, failed_for_good, failed_for_now,
}
use xcm.Socket.Attrs.{set_service_attr, set_local_attr}
use xcm.Api.{socket_wait, socket_finish, is_unfinished, await, xcm_set_blocking}
use xcm.Api.Attrs.{valid_set_attr_len, set_blocking_attr, blocking_attr}
use xcm.Api.Send.{Wakes, after_finish, socket_finish_lem}
use xcm.Socket.Attrs.{read_only, actual_service, xcm_tp_set_bool_attr, byte_bool, str_of}
use xcm.Socket.Calls.{xcm_tp_socket_set_local_addr, after_call, consider_auto_update, do_ctl}
use xcm.Api.Open.Ledger.{Ledger, Set, Settable, AllSettable, Accounts}

module _ {W : Type 0} (ops : TpOps W) (env : Env W) where
  call-ctl :
      (permanently temporarly : Bool) (s : Socket) (w : W)
      → (after_call ops env permanently temporarly s w).0.ctl ≡ s.ctl
  unfolding after_call consider_ctl consider_auto_update do_ctl
  call-ctl permanently temporarly s w = ground arith

  tp_finish-ctl : (s : Socket) (w : W) → (xcm_tp_socket_finish ops env s w).1.ctl ≡ s.ctl
  unfolding xcm_tp_socket_finish
  tp_finish-ctl s w =
      call-ctl (failed_for_good (ops.finish s w).0) (failed_for_now (ops.finish s w).0) s
        (ops.finish s w).1

  after_finish-ctl : (s : Socket) (w : W) → (after_finish ops env s w).1.ctl ≡ s.ctl
  unfolding socket_wait await
  after_finish-ctl s w = tp_finish-ctl s w

  pub socket_finish-ctl :
      (fuel : ℕ) (s s' : Socket) (w w' : W) (rc : Option Errno)
      → socket_finish ops env fuel s w ≡ some (rc, s', w')
      → s'.ctl ≡ s.ctl
  unfolding socket_finish
  socket_finish-ctl zero s s' w w' rc h = ground arith
  socket_finish-ctl (suc fuel) s s' w w' rc h =
      let r : Option Errno × Socket × W = xcm_tp_socket_finish ops env s w in
      let q : Option Errno × Socket × W = after_finish ops env s w in
      elim (Option-cases r.0) [
        | inl done ↦ ground (arith, h, done, tp_finish-ctl s w)
        | inr (e, failed) ↦ elim (Bool-cases (is_unfinished ops env e)) [
          | inr over ↦ ground (arith, h, failed, over, tp_finish-ctl s w)
          | inl more ↦ elim (Option-cases q.0) [
            | inr (e', lost) ↦ ground (arith, h, failed, more, lost, after_finish-ctl s w)
            | inl woken ↦
                socket_finish-ctl fuel q.1 s' q.2 w' rc (ground (arith, h, failed, more, woken))
                ∙ after_finish-ctl s w
          ]
        ]
      ]

  module _ (ledger : W → Ledger) (accounts : Accounts ops env ledger) (rounds : W → ℕ)
      (wakes : Wakes ops env rounds) (fuel : ℕ) (enough : (w : W) → rounds w < fuel) where
    -- Waiting for a socket to finish ends, and keeps the ledger.
    pub finish-Set : (s : Socket) (w : W) → Set ops env ledger s w (socket_finish ops env fuel s w)
    finish-Set s w =
        let (rc, s', w', result, same) =
          socket_finish_lem ops env ledger accounts.keeps rounds wakes fuel s w (enough w) in
        record {
          rc = rc;
          socket = s';
          after = w';
          result_eq = result;
          same_ledger = same;
          same_ctl = socket_finish-ctl fuel s s' w w' rc result;
        }

    -- A setter that ends at once.
    pub at_once :
        (s s' : Socket) (w : W) (rc : Option Errno) (result : Option (Option Errno × Socket × W))
        → result ≡ some (rc, s', w)
        → s'.ctl ≡ s.ctl
        → Set ops env ledger s w result
    at_once s s' w rc result h k = record {
      rc = rc;
      socket = s';
      after = w;
      result_eq = h;
      same_ledger = refl;
      same_ctl = k;
    }

    set_blocking-Set :
        (s : Socket) (should_block : Bool) (w : W)
        → Set ops env ledger s w (xcm_set_blocking ops env fuel s should_block w)
    unfolding xcm_set_blocking
    set_blocking-Set s should_block w =
        let changed : Socket = record s { is_blocking = should_block } in
        elim (Bool-cases s.is_blocking) [
          | inl blocks ↦ at_once s changed w none _ (ground (arith, blocks)) refl
          | inr free ↦ elim (Bool-cases should_block) [
            | inr off ↦ at_once s s w none _ (ground (arith, free, off)) refl
            | inl on ↦
                let waited : Set ops env ledger s w (socket_finish ops env fuel s w) =
                  finish-Set s w in
                elim (Option-cases waited.rc) [
                  | inr (e, failed) ↦ record {
                    rc = some e;
                    socket = waited.socket;
                    after = waited.after;
                    result_eq = ground (arith, free, on, waited.result_eq, failed);
                    same_ledger = waited.same_ledger;
                    same_ctl = waited.same_ctl;
                  }
                  | inl done ↦ record {
                    rc = none;
                    socket = record waited.socket { is_blocking = should_block };
                    after = waited.after;
                    result_eq = ground (arith, free, on, waited.result_eq, done);
                    same_ledger = waited.same_ledger;
                    same_ctl = waited.same_ctl;
                  }
                ]
          ]
        ]

    is_setter :
        (attr : TpAttr W) (f : List ℕ → Socket → W → Option (Option Errno × Socket × W))
        → attr.set ≡ some f
        → ((value : List ℕ) (s : Socket) (w : W)
            → valid_set_attr_len attr.type (length value) ≡ true
            → Set ops env ledger s w (f value s w))
        → Settable ops env ledger attr
    is_setter attr f has set setter value s w h len =
        let same : f ≡ setter = cc in
        subst (λ g. Set ops env ledger s w (g value s w)) same (set value s w len)

    abbrev pub all_read_only : List (TpAttr W) → Bool
    all_read_only [] = true
    all_read_only (attr ∷ rest) = elim attr.set [ none ↦ all_read_only rest | some setter ↦ false ]

    pub read_only-Settable :
        (name : Str) (type : AttrType) (getter : ℕ → Socket → W → Outcome (List ℕ))
        → Settable ops env ledger (read_only name type getter)
    read_only-Settable name type getter setter value s w h len = ground (arith, h)

    pub read_only-AllSettable :
        (attrs : List (TpAttr W)) → all_read_only attrs ≡ true → AllSettable ops env ledger attrs
    read_only-AllSettable [] h = tt
    read_only-AllSettable (attr ∷ rest) h = elim (Option-cases attr.set) [
      | inr (f, there) ↦ ground (arith, h, there)
      | inl no_set ↦ (
        λ setter value s w has len. ground (arith, no_set, has),
        read_only-AllSettable rest (ground (arith, h, no_set)),
      )
    ]

    set_blocking_attr-Set :
        (value : List ℕ) (s : Socket) (w : W)
        → valid_set_attr_len bool (length value) ≡ true
        → Set ops env ledger s w (set_blocking_attr ops env fuel value s w)
    unfolding set_blocking_attr xcm_tp_set_bool_attr
    set_blocking_attr-Set [] s w h = ground (arith, h)
    set_blocking_attr-Set (b ∷ value) s w h = set_blocking-Set s (byte_bool b) w

    pub blocking-Settable : Settable ops env ledger (blocking_attr ops env fuel)
    unfolding blocking_attr
    blocking-Settable =
        is_setter (blocking_attr ops env fuel) (set_blocking_attr ops env fuel) refl
          set_blocking_attr-Set

    service-Set :
        (value : List ℕ) (s : Socket) (w : W)
        → Set ops env ledger s w (set_service_attr ops env value s w)
    unfolding set_service_attr
    service-Set value s w = elim (Bool-cases (str_eq (str_of value) (c_str "any"))) [
      | inl any ↦ at_once s s w none _ (ground (arith, any)) refl
      | inr given ↦ elim (Bool-cases (str_eq (actual_service ops env) (str_of value))) [
        | inl right ↦ at_once s s w none _ (ground (arith, given, right)) refl
        | inr wrong ↦ at_once s s w (some einval) _ (ground (arith, given, wrong)) refl
      ]
    ]

    local-Set :
        (value : List ℕ) (s : Socket) (w : W)
        → Set ops env ledger s w (set_local_attr ops env value s w)
    unfolding set_local_attr xcm_tp_socket_set_local_addr
    local-Set value s w = elim (Option-cases ops.set_local_addr) [
      | inl missing ↦ at_once s s w (some eacces) _ (ground (arith, missing)) refl
      | inr (set, there) ↦ record {
        rc = (set s (str_of value) w).0;
        socket = s;
        after = (set s (str_of value) w).1;
        result_eq = ground (arith, there);
        same_ledger = accounts.set_local_addr_lem set s (str_of value) w there;
        same_ctl = refl;
      }
    ]

    pub service-Settable :
        (name : Str) (getter : ℕ → Socket → W → Outcome (List ℕ))
        → Settable ops env ledger (record {
          name = name;
          type = str;
          set = some (set_service_attr ops env);
          get = some getter;
        })
    service-Settable name getter =
        is_setter
          (record {
            name = name;
            type = str;
            set = some (set_service_attr ops env);
            get = some getter;
          })
          (set_service_attr ops env) refl (λ value s w len. service-Set value s w)

    pub local-Settable :
        (name : Str) (getter : ℕ → Socket → W → Outcome (List ℕ))
        → Settable ops env ledger (record {
          name = name;
          type = str;
          set = some (set_local_attr ops env);
          get = some getter;
        })
    local-Settable name getter =
        is_setter
          (record {
            name = name;
            type = str;
            set = some (set_local_attr ops env);
            get = some getter;
          })
          (set_local_attr ops env) refl (λ value s w len. local-Set value s w)
