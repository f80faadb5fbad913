-- ===== src/Api/Open/Steps.antt =====
-- What the steps of opening and closing a socket hold and release.
use xcm.Base.{
  ◌≡◌, ◌⊎◌, inl, inr, refl, sym, ap, ◌∙◌, Bool, true, false, Option, none, some, Str, arith,
  Bool-cases, Option-cases, subst,
}
use xcm.Errno.{Errno, Outcome, ret, fail}
use xcm.Socket.{Socket, SocketType}
use xcm.Socket.Ops.{TpOps, Env}
use xcm.Socket.Calls.{
  xcm_tp_socket_create, xcm_tp_socket_connect, xcm_tp_socket_server, xcm_tp_socket_close,
  after_open, enable_and_update, consider_auto_enable_ctl, xcm_tp_socket_enable_ctl,
  consider_auto_update, xcm_tp_socket_update, do_ctl,
}
use xcm.Api.Open.{socket_destroy, err_close, err_destroy, xcm_close}
use xcm.Api.Open.Ledger.{
  Ledger, with_transport, less_transport, with_poll, less_poll, with_ctl, less_ctl, Accounts,
}

-- What a socket holds from xpoll_create() on, from the transport's init on, and when it is open.
abbrev pub inited : Ledger → Ledger
inited base = with_transport (with_poll base)

abbrev pub opened : Bool → Ledger → Ledger
opened ctl base = with_ctl ctl (inited base)

less_poll-with_poll : (l : Ledger) → less_poll (with_poll l) ≡ l
less_poll-with_poll l = ground arith

less_transport-inited : (l : Ledger) → less_transport (inited l) ≡ with_poll l
less_transport-inited l = ground arith

less_ctl-opened : (l : Ledger) → less_ctl (opened true l) ≡ inited l
less_ctl-opened l = ground arith

module _ {W : Type 0} (ops : TpOps W) (env : Env W) (ledger : W → Ledger) where
  -- A socket holds one of each, the control interface if it has one, and xcm_close() releases them;
  -- an error leaves nothing held.
  pub record Opened (base : Ledger) (result : Option (Outcome Socket × W)) : Type 0 where
    pub outcome : Outcome Socket
    pub after : W
    pub result_eq : result ≡ some (outcome, after)
    pub cases :
        ((s : Socket) × (outcome ≡ ret s)
          × (ledger after ≡ opened s.ctl base)
          × (ledger (xcm_close env ops s after) ≡ base))
        ⊎ ((e : Errno) × (outcome ≡ fail e) × (ledger after ≡ base))

  module _ (accounts : Accounts ops env ledger) where
    destroy_lem :
        (s : Socket) (w : W) (base : Ledger)
        → ledger w ≡ with_poll base
        → ledger (socket_destroy env ops s w) ≡ base
    unfolding socket_destroy
    destroy_lem s w base h =
        accounts.xpoll_destroy_lem s w ∙ ap (λ l. less_poll l) h ∙ less_poll-with_poll base

    close_lem :
        (s : Socket) (w : W) (base : Ledger)
        → ledger w ≡ opened s.ctl base
        → ledger (xcm_tp_socket_close ops env s w) ≡ with_poll base
    unfolding xcm_tp_socket_close
    close_lem s w base h = elim (Bool-cases s.ctl) [
      | inr no_ctl ↦
          let same : ledger w ≡ inited base = ground (arith, h, no_ctl) in
          let result : xcm_tp_socket_close ops env s w ≡ ops.close s w = ground (arith, no_ctl) in
          ap ledger result
          ∙ accounts.close_lem s w
          ∙ ap (λ l. less_transport l) same
          ∙ less_transport-inited base
      | inl has_ctl ↦
          let same : ledger w ≡ opened true base = h ∙ ap (λ b. opened b base) has_ctl in
          let result : xcm_tp_socket_close ops env s w ≡ ops.close s (env.ctl_destroy true s w) =
            ground (arith, has_ctl) in
          ap ledger result
          ∙ accounts.close_lem s (env.ctl_destroy true s w)
          ∙ ap (λ l. less_transport l)
              (accounts.ctl_destroy_lem true s w ∙ ap (λ l. less_ctl l) same ∙ less_ctl-opened base)
          ∙ less_transport-inited base
    ]

    xcm_close_lem :
        (s : Socket) (w : W) (base : Ledger)
        → ledger w ≡ opened s.ctl base
        → ledger (xcm_close env ops s w) ≡ base
    unfolding xcm_close
    xcm_close_lem s w base h =
        destroy_lem s (xcm_tp_socket_close ops env s w) base (close_lem s w base h)

    pub closed-Opened :
        (s : Socket) (e : Errno) (w : W) (base : Ledger) (result : Option (Outcome Socket × W))
        → result ≡ some (err_close env ops s e w)
        → ledger w ≡ opened s.ctl base
        → Opened base result
    unfolding err_close
    closed-Opened s e w base result h k = record {
      outcome = fail e;
      after = socket_destroy env ops s (xcm_tp_socket_close ops env s w);
      result_eq = h;
      cases =
          inr
            (e, refl, destroy_lem s (xcm_tp_socket_close ops env s w) base (close_lem s w base k));
    }

    pub destroyed-Opened :
        (s : Socket) (e : Errno) (w : W) (base : Ledger) (result : Option (Outcome Socket × W))
        → result ≡ some (err_destroy env ops s e w)
        → ledger w ≡ with_poll base
        → Opened base result
    unfolding err_destroy
    destroyed-Opened s e w base result h k = record {
      outcome = fail e;
      after = socket_destroy env ops s w;
      result_eq = h;
      cases = inr (e, refl, destroy_lem s w base k);
    }

    pub ret-Opened :
        (s : Socket) (w : W) (base : Ledger) (result : Option (Outcome Socket × W))
        → result ≡ some (ret s, w)
        → ledger w ≡ opened s.ctl base
        → Opened base result
    ret-Opened s w base result h k = record {
      outcome = ret s;
      after = w;
      result_eq = h;
      cases = inl (s, refl, k, xcm_close_lem s w base k);
    }

    update_lem : (s : Socket) (w : W) → ledger (consider_auto_update ops env s w) ≡ ledger w
    unfolding consider_auto_update xcm_tp_socket_update
    update_lem s w = ground (arith, accounts.keeps.update_keeps s w)

    auto_enable_lem :
        (s : Socket) (w : W) (base : Ledger)
        → s.ctl ≡ false
        → ledger w ≡ inited base
        → ledger (consider_auto_enable_ctl ops env s w).1
          ≡ opened (consider_auto_enable_ctl ops env s w).0.ctl base
    unfolding consider_auto_enable_ctl xcm_tp_socket_enable_ctl
    auto_enable_lem s w base no_ctl h = elim (Bool-cases s.auto_enable_ctl) [
      | inr off ↦ ground (arith, h, no_ctl, off)
      | inl on ↦ elim (Option-cases ops.enable_ctl) [
        | inr (enable, own) ↦
            let made : consider_auto_enable_ctl ops env s w
                ≡ (record s { ctl = (enable s w).0 }, (enable s w).1) =
              ground (arith, on, own) in
            subst (λ r. ledger r.1 ≡ opened r.0.ctl base) (sym made)
              (accounts.enable_ctl_lem enable s w own ∙ ap (λ l. with_ctl (enable s w).0 l) h)
        | inl none_own ↦
            let made : consider_auto_enable_ctl ops env s w
                ≡ (record s { ctl = (env.ctl_create s w).0 }, (env.ctl_create s w).1) =
              ground (arith, on, none_own) in
            subst (λ r. ledger r.1 ≡ opened r.0.ctl base) (sym made)
              (accounts.ctl_create_lem s w ∙ ap (λ l. with_ctl (env.ctl_create s w).0 l) h)
      ]
    ]

    enable_lem :
        (s : Socket) (w : W) (base : Ledger)
        → s.ctl ≡ false
        → ledger w ≡ inited base
        → ledger (enable_and_update ops env s w).1
          ≡ opened (enable_and_update ops env s w).0.ctl base
    unfolding enable_and_update
    enable_lem s w base no_ctl h =
        update_lem (consider_auto_enable_ctl ops env s w).0 (consider_auto_enable_ctl ops env s w).1
        ∙ auto_enable_lem s w base no_ctl h

    do_ctl_lem : (s : Socket) (w : W) → ledger (do_ctl ops env s w) ≡ ledger w
    unfolding do_ctl
    do_ctl_lem s w = ground (arith, accounts.keeps.ctl_keeps s w)

    pub create_lem :
        (type : SocketType) (w : W)
        → ledger (xcm_tp_socket_create ops env type true true true w).1 ≡ ledger w
    unfolding xcm_tp_socket_create
    create_lem type w = accounts.next_id_lem w

    pub create-ctl :
        (type : SocketType) (w : W)
        → (xcm_tp_socket_create ops env type true true true w).0.ctl ≡ false
    unfolding xcm_tp_socket_create
    create-ctl type w = refl

    -- What connect and server of the transport leave.
    abbrev pub Called : Ledger → Option Errno × Socket × W → Type 0
    Called base r =
        ((r.0 ≡ none) × (ledger r.2 ≡ opened r.1.ctl base))
        ⊎ ((e : Errno) × (r.0 ≡ some e) × (ledger r.2 ≡ with_poll base))

    after_open_lem :
        (rc : Option Errno) (s : Socket) (w : W) (base : Ledger)
        → s.ctl ≡ false
        → (rc ≡ none → ledger w ≡ inited base)
        → ((e : Errno) → rc ≡ some e → ledger w ≡ less_transport (inited base))
        → Called base (after_open ops env rc s w)
    unfolding after_open
    after_open_lem none s w base no_ctl ok fails = inl (refl, enable_lem s w base no_ctl (ok refl))
    after_open_lem (some e) s w base no_ctl ok fails =
        inr (e, refl, fails e refl ∙ less_transport-inited base)

    pub connect_lem :
        (s : Socket) (addr : Str) (w : W) (base : Ledger)
        → s.ctl ≡ false
        → ledger w ≡ inited base
        → Called base (xcm_tp_socket_connect ops env s addr w)
    unfolding xcm_tp_socket_connect
    connect_lem s addr w base no_ctl h =
        let same : ledger (do_ctl ops env s w) ≡ inited base = do_ctl_lem s w ∙ h in
        after_open_lem (ops.connect s addr (do_ctl ops env s w)).0 s
          (ops.connect s addr (do_ctl ops env s w)).1 base no_ctl
          (λ ok. accounts.connect_ok s addr (do_ctl ops env s w) ok ∙ same)
          (λ e failed.
            accounts.connect_fails s addr (do_ctl ops env s w) e failed
            ∙ ap (λ l. less_transport l) same)

    pub server_lem :
        (s : Socket) (addr : Str) (w : W) (base : Ledger)
        → s.ctl ≡ false
        → ledger w ≡ inited base
        → Called base (xcm_tp_socket_server ops env s addr w)
    unfolding xcm_tp_socket_server
    server_lem s addr w base no_ctl h =
        let same : ledger (do_ctl ops env s w) ≡ inited base = do_ctl_lem s w ∙ h in
        after_open_lem (ops.server s addr (do_ctl ops env s w)).0 s
          (ops.server s addr (do_ctl ops env s w)).1 base no_ctl
          (λ ok. accounts.server_ok s addr (do_ctl ops env s w) ok ∙ same)
          (λ e failed.
            accounts.server_fails s addr (do_ctl ops env s w) e failed
            ∙ ap (λ l. less_transport l) same)
