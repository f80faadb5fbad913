-- ===== src/Api/Open/Release.antt =====
-- What xcm_connect_a() and xcm_server_a() of libxcm/core/xcm.c hold when they return.
use xcm.Base.{
  ℕ, ◌≡◌, ◌<◌, inl, inr, refl, sym, ap, ◌∙◌, Bool, true, false, Option, none, List, Str, arith,
  Option-cases, subst,
}
use xcm.Errno.{Errno, Outcome, ret, fail}
use xcm.AttrMap.{AttrMap}
use xcm.Socket.{Socket, SocketType, conn, server}
use xcm.Socket.Ops.{TpOps, Env}
use xcm.Socket.Calls.{
  xcm_tp_socket_create, xcm_tp_socket_init, xcm_tp_socket_connect, xcm_tp_socket_server,
}
use xcm.Api.{socket_finish}
use xcm.Api.Attrs.{set_attrs}
use xcm.Api.Open.{
  socket_create, finish_open, connect_inited, server_inited, create_and_init, TpProto,
  xcm_tp_proto_by_addr, xcm_connect_a, xcm_server_a,
}
use xcm.Api.Send.{Wakes}
use xcm.Api.Open.Steps.{
  inited, opened, Opened, closed-Opened, destroyed-Opened, ret-Opened, connect_lem, server_lem,
  create_lem, create-ctl,
}
use xcm.Api.Open.Ledger.{Ledger, with_transport, with_poll, Set, Accounts}
use xcm.Api.Open.Setters.{finish-Set}
use xcm.Api.Open.SetAttrs.{set_attrs-Set}

module _ {W : Type 0} (ops : TpOps W) (env : Env W) (ledger : W → Ledger)
    (accounts : Accounts ops env ledger) where
  module _ (rounds : W → ℕ) (wakes : Wakes ops env rounds) (fuel : ℕ)
      (enough : (w : W) → rounds w < fuel) where
    finish_open-Opened :
        (is_blocking : Bool) (s : Socket) (w : W) (base : Ledger)
        → ledger w ≡ opened s.ctl base
        → Opened ops env ledger base (finish_open env ops fuel is_blocking s w)
    unfolding finish_open
    finish_open-Opened false s w base h = ret-Opened ops env ledger accounts s w base _ refl h
    finish_open-Opened true s w base h =
        let waited : Set ops env ledger s w (socket_finish ops env fuel s w) =
          finish-Set ops env ledger accounts rounds wakes fuel enough s w in
        let held : ledger waited.after ≡ opened waited.socket.ctl base =
          waited.same_ledger ∙ h ∙ ap (λ b. opened b base) (sym waited.same_ctl) in
        elim (Option-cases waited.rc) [
          | inl ok ↦
              ret-Opened ops env ledger accounts waited.socket waited.after base _
                (ground (arith, waited.result_eq, ok)) held
          | inr (e, failed) ↦
              closed-Opened ops env ledger accounts waited.socket e waited.after base _
                (ground (arith, waited.result_eq, failed)) held
        ]

    connect_inited-Opened :
        (addr : Str) (attrs : Option AttrMap) (s : Socket) (w : W) (base : Ledger)
        → s.ctl ≡ false
        → ledger w ≡ inited base
        → Opened ops env ledger base (connect_inited env ops fuel addr attrs s w)
    unfolding connect_inited
    connect_inited-Opened addr attrs s w base no_ctl h =
        let set : Set ops env ledger s w (set_attrs ops env fuel s none attrs w) =
          set_attrs-Set ops env ledger accounts rounds wakes fuel enough s none attrs w in
        let still : set.socket.ctl ≡ false = set.same_ctl ∙ no_ctl in
        let held : ledger set.after ≡ inited base = set.same_ledger ∙ h in
        let r : Option Errno × Socket × W =
          xcm_tp_socket_connect ops env set.socket addr set.after in
        elim (Option-cases set.rc) [
          | inr (e, failed) ↦
              closed-Opened ops env ledger accounts set.socket e set.after base _
                (ground (arith, set.result_eq, failed)) (held ∙ ap (λ b. opened b base) (sym still))
          | inl ok ↦
              elim (connect_lem ops env ledger accounts set.socket addr set.after base still held) [
                | inr (e, lost, view) ↦
                    destroyed-Opened ops env ledger accounts r.1 e r.2 base _
                      (ground (arith, set.result_eq, ok, lost)) view
                | inl (done, view) ↦
                    subst (Opened ops env ledger base)
                      (sym (ground (arith, set.result_eq, ok, done)))
                      (finish_open-Opened r.1.is_blocking r.1 r.2 base view)
              ]
        ]

    server_inited-Opened :
        (addr : Str) (attrs : Option AttrMap) (s : Socket) (w : W) (base : Ledger)
        → s.ctl ≡ false
        → ledger w ≡ inited base
        → Opened ops env ledger base (server_inited env ops fuel addr attrs s w)
    unfolding server_inited
    server_inited-Opened addr attrs s w base no_ctl h =
        let set : Set ops env ledger s w (set_attrs ops env fuel s none attrs w) =
          set_attrs-Set ops env ledger accounts rounds wakes fuel enough s none attrs w in
        let still : set.socket.ctl ≡ false = set.same_ctl ∙ no_ctl in
        let held : ledger set.after ≡ inited base = set.same_ledger ∙ h in
        let r : Option Errno × Socket × W =
          xcm_tp_socket_server ops env set.socket addr set.after in
        elim (Option-cases set.rc) [
          | inr (e, failed) ↦
              closed-Opened ops env ledger accounts set.socket e set.after base _
                (ground (arith, set.result_eq, failed)) (held ∙ ap (λ b. opened b base) (sym still))
          | inl ok ↦
              elim (server_lem ops env ledger accounts set.socket addr set.after base still held) [
                | inr (e, lost, view) ↦
                    destroyed-Opened ops env ledger accounts r.1 e r.2 base _
                      (ground (arith, set.result_eq, ok, lost)) view
                | inl (done, view) ↦
                    ret-Opened ops env ledger accounts r.1 r.2 base _
                      (ground (arith, set.result_eq, ok, done)) view
              ]
        ]

    create_and_init-Opened :
        (type : SocketType) (continue : Socket → W → Option (Outcome Socket × W)) (w : W)
        → ((s : Socket) (w' : W)
            → s.ctl ≡ false
            → ledger w' ≡ inited (ledger w)
            → Opened ops env ledger (ledger w) (continue s w'))
        → Opened ops env ledger (ledger w) (create_and_init env ops type continue w)
    unfolding create_and_init socket_create xcm_tp_socket_init
    create_and_init-Opened type continue w goes =
        let made : Socket × W = xcm_tp_socket_create ops env type true true true w in
        let base : ledger made.1 ≡ ledger w = create_lem ops env ledger accounts type w in
        let p : Option Errno × W = env.xpoll_create made.0 made.1 in
        elim (Option-cases p.0) [
          | inr (e, failed) ↦ record {
            outcome = fail e;
            after = p.1;
            result_eq = ground (arith, failed);
            cases = inr (e, refl, accounts.xpoll_fails made.0 made.1 e failed ∙ base);
          }
          | inl ok ↦
              let polled : ledger p.1 ≡ with_poll (ledger w) =
                accounts.xpoll_ok made.0 made.1 ok ∙ ap (λ l. with_poll l) base in
              let i : Option Errno × W = ops.init made.0 none p.1 in
              elim (Option-cases i.0) [
                | inr (e, failed) ↦
                    destroyed-Opened ops env ledger accounts made.0 e i.1 (ledger w) _
                      (ground (arith, ok, failed))
                      (accounts.init_fails made.0 none p.1 e failed ∙ polled)
                | inl done ↦
                    subst (Opened ops env ledger (ledger w)) (sym (ground (arith, ok, done))) (
                      goes made.0 i.1 (create-ctl ops env ledger accounts type w)
                        (accounts.init_ok made.0 none p.1 done ∙ ap (λ l. with_transport l) polled))
              ]
        ]

module _ {W : Type 0} (env : Env W) (ledger : W → Ledger) (protos : List (TpProto W))
    (proto : TpProto W) (accounts : Accounts proto.ops env ledger) (rounds : W → ℕ)
    (wakes : Wakes proto.ops env rounds) (fuel : ℕ) (enough : (w : W) → rounds w < fuel) where
  -- If the address names a transport that keeps its contract, and the waits of a socket that can end
  -- without progress are fewer than the fuel in every state, xcm_connect_a() ends, with any
  -- attributes. A socket that it returns holds one transport's data, one epoll instance and, if it
  -- has one, a control interface, and xcm_close() releases them all. If it fails, whether in
  -- creating the socket, in an attribute, in connecting or in waiting for it, what is held is what
  -- was held before.
  pub xcm_connect_a_lem :
      (addr : Str) (attrs : Option AttrMap) (w : W)
      → xcm_tp_proto_by_addr protos addr ≡ ret proto
      → Opened proto.ops env ledger (ledger w) (xcm_connect_a env protos fuel addr attrs w)
  unfolding xcm_connect_a
  xcm_connect_a_lem addr attrs w h =
      subst (Opened proto.ops env ledger (ledger w)) (sym (ground (arith, h))) (
        create_and_init-Opened proto.ops env ledger accounts rounds wakes fuel enough conn
          (connect_inited env proto.ops fuel addr attrs) w
          (λ s w' no_ctl held.
            connect_inited-Opened proto.ops env ledger accounts rounds wakes fuel enough addr attrs
              s w' (ledger w) no_ctl held))

  -- If the address names a transport that keeps its contract, and the waits of a socket that can end
  -- without progress are fewer than the fuel in every state, xcm_server_a() ends, with any
  -- attributes. A socket that it returns holds one transport's data, one epoll instance and, if it
  -- has one, a control interface, and xcm_close() releases them all. If it fails, what is held is
  -- what was held before.
  pub xcm_server_a_lem :
      (addr : Str) (attrs : Option AttrMap) (w : W)
      → xcm_tp_proto_by_addr protos addr ≡ ret proto
      → Opened proto.ops env ledger (ledger w) (xcm_server_a env protos fuel addr attrs w)
  unfolding xcm_server_a
  xcm_server_a_lem addr attrs w h =
      subst (Opened proto.ops env ledger (ledger w)) (sym (ground (arith, h))) (
        create_and_init-Opened proto.ops env ledger accounts rounds wakes fuel enough server
          (server_inited env proto.ops fuel addr attrs) w
          (λ s w' no_ctl held.
            server_inited-Opened proto.ops env ledger accounts rounds wakes fuel enough addr attrs s
              w' (ledger w) no_ctl held))
