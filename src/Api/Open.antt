-- ===== src/Api/Open.antt =====
-- Opening and closing sockets in libxcm/core/xcm.c, and the table of transports of
-- libxcm/tp/common/xcm_tp.c. `fail` is NULL with errno.
pub mod Ledger
pub mod Setters
pub mod Settables
pub mod SetAttrs
pub mod Steps
pub mod Release
use xcm.Base.{
  ℕ, zero, suc, ◌+◌, Bool, true, false, not, ◌&&◌, Option, none, some, List, [], ◌∷◌, ◌++◌, Str,
  c_str, str_eq, length, ltb, leb, if◌then◌else◌,
}
use xcm.Errno.{Errno, einval, enoprotoopt, is_eagain, Outcome, ret, fail, abort}
use xcm.Addr.{xcm_addr_parse_proto, xcm_addr_max_proto_len}
use xcm.AttrMap.{AttrMap, xcm_attr_map_create, xcm_attr_map_add_bool}
use xcm.Socket.{Socket, SocketType, conn, server}
use xcm.Socket.Ops.{TpOps, Env}
use xcm.Socket.Calls.{
  xcm_tp_socket_create, xcm_tp_socket_init, xcm_tp_socket_connect, xcm_tp_socket_server,
  xcm_tp_socket_accept, xcm_tp_socket_close, xcm_tp_socket_cleanup,
}
use xcm.Api.{socket_wait, socket_finish, xcm_so_acceptable}
use xcm.Api.Attrs.{set_attrs}

-- struct xcm_tp_proto
pub record TpProto (W : Type 0) : Type 0 where
  pub name : Str
  pub ops : TpOps W

abbrev pub max_protos : ℕ
max_protos = 8

-- xcm_tp_proto_by_name()
unfoldable pub xcm_tp_proto_by_name : {W : Type 0} → List (TpProto W) → Str → Option (TpProto W)
xcm_tp_proto_by_name [] proto_name = none
xcm_tp_proto_by_name (proto ∷ rest) proto_name =
    if str_eq proto.name proto_name then some proto else xcm_tp_proto_by_name rest proto_name

-- xcm_tp_proto_by_addr()
unfoldable pub xcm_tp_proto_by_addr : {W : Type 0} → List (TpProto W) → Str → Outcome (TpProto W)
xcm_tp_proto_by_addr protos addr = elim (xcm_addr_parse_proto addr (xcm_addr_max_proto_len + 1)) [
  | fail e ↦ fail e
  | abort ↦ abort
  | ret proto_s ↦ elim (xcm_tp_proto_by_name protos proto_s) [
    | none ↦ fail enoprotoopt
    | some proto ↦ ret proto
  ]
]

-- xcm_tp_register(); none is a failed assertion.
unfoldable pub xcm_tp_register :
    {W : Type 0} → List (TpProto W) → Str → TpOps W → Option (List (TpProto W))
xcm_tp_register protos proto_name ops =
    if not (ltb (length protos) max_protos)
    then none
    else if not (leb (length proto_name) xcm_addr_max_proto_len)
    then none
    else elim (xcm_tp_proto_by_name protos proto_name) [
      | some proto ↦ none
      | none ↦ some (protos ++ (record { name = proto_name; ops = ops } ∷ []))
    ]

module _ {W : Type 0} (env : Env W) where
  module _ (ops : TpOps W) where
    -- socket_create()
    unfoldable pub socket_create : SocketType → Bool → W → Outcome Socket × W
    socket_create type is_blocking w =
        let (s, w1) = xcm_tp_socket_create ops env type true true is_blocking w in
        let (error, w2) = env.xpoll_create s w1 in
        elim error [ some e ↦ (fail e, w2) | none ↦ (ret s, w2) ]

    -- socket_destroy() of a socket that is not NULL
    unfoldable pub socket_destroy : Socket → W → W
    socket_destroy s w = env.xpoll_destroy s w

    -- The label err_close of the functions that open a socket, and the label err_destroy
    unfoldable pub err_close : Socket → Errno → W → Outcome Socket × W
    unfolding socket_destroy
    err_close s e w = (fail e, socket_destroy s (xcm_tp_socket_close ops env s w))

    unfoldable pub err_destroy : Socket → Errno → W → Outcome Socket × W
    unfolding socket_destroy
    err_destroy s e w = (fail e, socket_destroy s w)

    -- The end of xcm_connect_a() and of xcm_accept_a(), once the transport has the connection.
    unfoldable pub finish_open : ℕ → Bool → Socket → W → Option (Outcome Socket × W)
    finish_open fuel is_blocking s w =
        if is_blocking
        then elim (socket_finish ops env fuel s w) [
          | none ↦ none
          | some (none, s', w') ↦ some (ret s', w')
          | some (some e, s', w') ↦ some (err_close s' e w')
        ]
        else some (ret s, w)

    -- xcm_connect_a() after xcm_tp_socket_init()
    unfoldable pub connect_inited :
        ℕ → Str → Option AttrMap → Socket → W → Option (Outcome Socket × W)
    connect_inited fuel remote_addr attrs s w = elim (set_attrs ops env fuel s none attrs w) [
      | none ↦ none
      | some (some e, s', w') ↦ some (err_close s' e w')
      | some (none, s', w') ↦
          let (rc, s'', w'') = xcm_tp_socket_connect ops env s' remote_addr w' in
          elim rc [
            | some e ↦ some (err_destroy s'' e w'')
            | none ↦ finish_open fuel s''.is_blocking s'' w''
          ]
    ]

    -- xcm_server_a() after xcm_tp_socket_init()
    unfoldable pub server_inited :
        ℕ → Str → Option AttrMap → Socket → W → Option (Outcome Socket × W)
    server_inited fuel local_addr attrs s w = elim (set_attrs ops env fuel s none attrs w) [
      | none ↦ none
      | some (some e, s', w') ↦ some (err_close s' e w')
      | some (none, s', w') ↦
          let (rc, s'', w'') = xcm_tp_socket_server ops env s' local_addr w' in
          elim rc [ some e ↦ some (err_destroy s'' e w'') | none ↦ some (ret s'', w'') ]
    ]

    -- From socket_create() to xcm_tp_socket_init() in xcm_connect_a() and xcm_server_a()
    unfoldable pub create_and_init :
        SocketType → (Socket → W → Option (Outcome Socket × W)) → W → Option (Outcome Socket × W)
    create_and_init type continue w =
        let (created, w1) = socket_create type true w in
        elim created [
          | fail e ↦ some (fail e, w1)
          | abort ↦ some (abort, w1)
          | ret s ↦
              let (rc, w2) = xcm_tp_socket_init ops env s none w1 in
              elim rc [ some e ↦ some (err_destroy s e w2) | none ↦ continue s w2 ]
        ]

  -- xcm_connect_a()
  unfoldable pub xcm_connect_a :
      List (TpProto W) → ℕ → Str → Option AttrMap → W → Option (Outcome Socket × W)
  xcm_connect_a protos fuel remote_addr attrs w = elim (xcm_tp_proto_by_addr protos remote_addr) [
    | fail e ↦ some (fail e, w)
    | abort ↦ some (abort, w)
    | ret proto ↦ create_and_init proto.ops conn (connect_inited proto.ops fuel remote_addr attrs) w
  ]

  -- xcm_connect(), by whether `flags` holds XCM_NONBLOCK
  unfoldable pub xcm_connect : List (TpProto W) → ℕ → Str → Bool → W → Option (Outcome Socket × W)
  xcm_connect protos fuel remote_addr nonblock w =
      if nonblock
      then elim (xcm_attr_map_add_bool xcm_attr_map_create (c_str "xcm.blocking") false) [
        | none ↦ none
        | some m ↦ xcm_connect_a protos fuel remote_addr (some m) w
      ]
      else xcm_connect_a protos fuel remote_addr none w

  -- xcm_server_a()
  unfoldable pub xcm_server_a :
      List (TpProto W) → ℕ → Str → Option AttrMap → W → Option (Outcome Socket × W)
  xcm_server_a protos fuel local_addr attrs w = elim (xcm_tp_proto_by_addr protos local_addr) [
    | fail e ↦ some (fail e, w)
    | abort ↦ some (abort, w)
    | ret proto ↦ create_and_init proto.ops server (server_inited proto.ops fuel local_addr attrs) w
  ]

  -- xcm_server()
  unfoldable pub xcm_server : List (TpProto W) → ℕ → Str → W → Option (Outcome Socket × W)
  xcm_server protos fuel local_addr w = xcm_server_a protos fuel local_addr none w

  module _ (ops : TpOps W) where
    -- xcm_close() and xcm_cleanup() of a socket that is not NULL
    unfoldable pub xcm_close : Socket → W → W
    xcm_close s w = socket_destroy ops s (xcm_tp_socket_close ops env s w)

    unfoldable pub xcm_cleanup : Socket → W → W
    xcm_cleanup s w = socket_destroy ops s (xcm_tp_socket_cleanup ops env s w)

    -- The wait of xcm_accept_a() for a connection
    unfoldable pub accept_wait : Bool → Socket → W → Option Errno × Socket × W
    accept_wait is_blocking server_s w =
        if is_blocking
        then socket_wait ops env server_s xcm_so_acceptable w
        else (none, server_s, w)

    -- xcm_accept_a() from the label `restart` on: the connection, the server socket and the world.
    unfoldable pub accept_loop :
        ℕ → ℕ → Socket → Option AttrMap → W → Option (Outcome Socket × Socket × W)
    accept_loop zero fuel server_s attrs w = none
    accept_loop (suc rounds) fuel server_s attrs w =
        let is_blocking = server_s.is_blocking in
        let (created, w1) = socket_create ops conn is_blocking w in
        elim created [
          | fail e ↦ some (fail e, server_s, w1)
          | abort ↦ some (abort, server_s, w1)
          | ret conn_s ↦
              let (waited, server1, w2) = accept_wait is_blocking server_s w1 in
              elim waited [
                | some e ↦ let (r, w3) = err_destroy ops conn_s e w2 in some (r, server1, w3)
                | none ↦
                    let (rc, w3) = xcm_tp_socket_init ops env conn_s (some server1) w2 in
                    elim rc [
                      | some e ↦ let (r, w4) = err_destroy ops conn_s e w3 in some (r, server1, w4)
                      | none ↦ elim (set_attrs ops env fuel conn_s (some server1) attrs w3) [
                        | none ↦ none
                        | some (some e, conn1, w4) ↦
                            let (r, w5) = err_close ops conn1 e w4 in some (r, server1, w5)
                        | some (none, conn1, w4) ↦
                            let (acc, conn2, server2, w5) =
                              xcm_tp_socket_accept ops env conn1 server1 w4 in
                            elim acc [
                              | none ↦ elim (finish_open ops fuel is_blocking conn2 w5) [
                                | none ↦ none
                                | some (r, w6) ↦ some (r, server2, w6)
                              ]
                              | some e ↦ elim (is_blocking && is_eagain e) [
                                | true ↦
                                    accept_loop rounds fuel server2 attrs
                                      (socket_destroy ops conn2 w5)
                                | false ↦
                                    let (r, w6) = err_destroy ops conn2 e w5 in
                                    some (r, server2, w6)
                              ]
                            ]
                      ]
                    ]
              ]
        ]

    -- xcm_accept_a()
    unfoldable pub xcm_accept_a :
        ℕ → ℕ → Socket → Option AttrMap → W → Option (Outcome Socket × Socket × W)
    xcm_accept_a rounds fuel server_s attrs w = elim server_s.type [
      | conn ↦ some (fail einval, server_s, w)
      | server ↦ accept_loop rounds fuel server_s attrs w
    ]

    -- xcm_accept()
    unfoldable pub xcm_accept : ℕ → ℕ → Socket → W → Option (Outcome Socket × Socket × W)
    xcm_accept rounds fuel server_s w = xcm_accept_a rounds fuel server_s none w
