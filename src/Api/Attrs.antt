-- ===== src/Api/Attrs.antt =====
-- The attributes of a socket in libxcm/core/xcm.c, with xcm.blocking and the list of the common
-- attributes of libxcm/tp/common/xcm_tp.c. A result `none` is a loop out of fuel, or a call of an
-- attribute's function that is NULL.
pub mod All
use xcm.Base.{
  ℕ, zero, suc, ◌+◌, ◌*◌, Bool, true, false, not, Option, none, some, List, [], ◌∷◌, ◌++◌, Str,
  c_str, str_eq, length, leb, ltb, ◌==◌, if◌then◌else◌,
}
use xcm.Errno.{Errno, eacces, einval, enoent, eoverflow, is_eoverflow, Outcome, ret, fail, abort}
use xcm.AttrMap.{
  Attr, AttrMap, AttrType, bool, int64, double, str, bin, type_eq, xcm_attr_map_exists,
}
use xcm.Socket.{Socket, SocketType, conn, server, TpAttr}
use xcm.Socket.Ops.{TpOps, Env}
use xcm.Socket.Calls.{xcm_tp_socket_attr_foreach, xcm_tp_socket_is_bytestream}
use xcm.Socket.Attrs.{
  bool_byte, byte_bool, xcm_tp_get_bool_attr, xcm_tp_set_bool_attr, common_attrs, common_conn_attrs,
  read_only, get_max_msg_attr, get_local_attr, msg_cnt_attrs, bytestream_cnt_attrs,
  xcm_service_messaging, xcm_service_bytestream,
}
use xcm.Api.{xcm_set_blocking}

-- valid_set_attr_len()
abbrev pub valid_set_attr_len : AttrType → ℕ → Bool
valid_set_attr_len bool len = len == 1
valid_set_attr_len int64 len = len == 8
valid_set_attr_len double len = len == 8
valid_set_attr_len str len = ltb 0 len
valid_set_attr_len bin len = true

-- valid_get_attr_capacity()
abbrev pub valid_get_attr_capacity : AttrType → ℕ → Bool
valid_get_attr_capacity bool capacity = leb 1 capacity
valid_get_attr_capacity int64 capacity = leb 8 capacity
valid_get_attr_capacity double capacity = leb 8 capacity
valid_get_attr_capacity str capacity = ltb 0 capacity
valid_get_attr_capacity bin capacity = true

-- xcm_tp_attr_list_foreach() with attr_find_cb(): the first attribute of the name.
unfoldable pub find_attr : {W : Type 0} → Str → List (TpAttr W) → Option (TpAttr W)
find_attr name [] = none
find_attr name (attr ∷ rest) = if str_eq attr.name name then some attr else find_attr name rest

module _ {W : Type 0} (ops : TpOps W) (env : Env W) (fuel : ℕ) where
  -- set_blocking_attr() of libxcm/tp/common/xcm_tp.c
  unfoldable pub set_blocking_attr : List ℕ → Socket → W → Option (Option Errno × Socket × W)
  unfolding xcm_tp_set_bool_attr
  set_blocking_attr value s w = elim (xcm_tp_set_bool_attr value) [
    | none ↦ none
    | some is_blocking ↦ xcm_set_blocking ops env fuel s is_blocking w
  ]

  -- get_blocking_attr() of libxcm/tp/common/xcm_tp.c
  unfoldable pub get_blocking_attr : ℕ → Socket → W → Outcome (List ℕ)
  unfolding xcm_tp_get_bool_attr
  get_blocking_attr capacity s w = xcm_tp_get_bool_attr s.is_blocking capacity

  -- The attribute xcm.blocking of COMMON_ATTRS
  unfoldable pub blocking_attr : TpAttr W
  blocking_attr = record {
    name = c_str "xcm.blocking";
    type = bool;
    set = some set_blocking_attr;
    get = some get_blocking_attr;
  }

  -- msg_conn_attrs[], bytestream_conn_attrs[] and server_attrs[]
  unfoldable pub msg_conn_attrs : List (TpAttr W)
  unfolding common_conn_attrs msg_cnt_attrs
  msg_conn_attrs =
      blocking_attr
      ∷ (common_conn_attrs ops env
          ++ (read_only (c_str "xcm.max_msg_size") int64 (get_max_msg_attr ops env)
              ∷ msg_cnt_attrs ops env))

  unfoldable pub bytestream_conn_attrs : List (TpAttr W)
  unfolding common_conn_attrs bytestream_cnt_attrs
  bytestream_conn_attrs =
      blocking_attr ∷ (common_conn_attrs ops env ++ bytestream_cnt_attrs ops env)

  unfoldable pub server_attrs : List (TpAttr W)
  unfolding common_attrs
  server_attrs =
      blocking_attr
      ∷ (common_attrs ops env
          ++ (read_only (c_str "xcm.local_addr") str (get_local_attr ops env) ∷ []))

  -- xcm_tp_common_attr_foreach(), as the list of the attributes that it calls back.
  unfoldable pub xcm_tp_common_attr_foreach : Socket → List (TpAttr W)
  xcm_tp_common_attr_foreach s = elim s.type [
    | conn ↦ if xcm_tp_socket_is_bytestream ops env then bytestream_conn_attrs else msg_conn_attrs
    | server ↦ server_attrs
  ]

  -- socket_attr_lookup()
  unfoldable pub socket_attr_lookup : Socket → Str → W → Option (TpAttr W)
  unfolding find_attr
  socket_attr_lookup s name w = elim (find_attr name (xcm_tp_common_attr_foreach s)) [
    | some attr ↦ some attr
    | none ↦ find_attr name (xcm_tp_socket_attr_foreach ops env s w)
  ]

  -- xcm_attr_set() of an attribute that is there, whose `set` is not NULL
  unfoldable pub set_found :
      TpAttr W
      → (List ℕ → Socket → W → Option (Option Errno × Socket × W))
      → Socket
      → AttrType
      → List ℕ
      → W
      → Option (Option Errno × Socket × W)
  set_found attr setter s type value w =
      if not (type_eq type attr.type) then some (some einval, s, w) else setter value s w

  -- xcm_attr_set()
  unfoldable pub xcm_attr_set :
      Socket → Str → AttrType → List ℕ → W → Option (Option Errno × Socket × W)
  unfolding set_found
  xcm_attr_set s name type value w =
      if not (valid_set_attr_len type (length value))
      then some (some einval, s, w)
      else elim (socket_attr_lookup s name w) [
        | none ↦ some (some enoent, s, w)
        | some attr ↦ elim attr.set [
          | none ↦ some (some eacces, s, w)
          | some setter ↦ set_found attr setter s type value w
        ]
      ]

  -- xcm_attr_set_bool(), and xcm_attr_set_str() with the NUL
  unfoldable pub xcm_attr_set_bool : Socket → Str → Bool → W → Option (Option Errno × Socket × W)
  xcm_attr_set_bool s name value w = xcm_attr_set s name bool (bool_byte value ∷ []) w

  unfoldable pub xcm_attr_set_str : Socket → Str → Str → W → Option (Option Errno × Socket × W)
  xcm_attr_set_str s name value w = xcm_attr_set s name str (value ++ (0 ∷ [])) w

  -- xcm_attr_get(): the type, and the bytes that it writes.
  unfoldable pub xcm_attr_get : Socket → Str → ℕ → W → Outcome (AttrType × List ℕ)
  xcm_attr_get s name capacity w = elim (socket_attr_lookup s name w) [
    | none ↦ fail enoent
    | some attr ↦ elim attr.get [
      | none ↦ fail eacces
      | some getter ↦
          if not (valid_get_attr_capacity attr.type capacity)
          then fail einval
          else elim (getter capacity s w) [
            | ret value ↦ ret (attr.type, value)
            | fail e ↦ fail e
            | abort ↦ abort
          ]
    ]
  ]

  -- attr_get_with_type()
  unfoldable pub attr_get_with_type : Socket → Str → AttrType → ℕ → W → Outcome (List ℕ)
  attr_get_with_type s name required_type capacity w = elim (xcm_attr_get s name capacity w) [
    | fail e ↦ fail (if is_eoverflow e then enoent else e)
    | abort ↦ abort
    | ret (actual_type, value) ↦
        if not (type_eq actual_type required_type) then fail enoent else ret value
  ]

  -- xcm_attr_get_bool()
  unfoldable pub xcm_attr_get_bool : Socket → Str → W → Outcome (List ℕ)
  unfolding attr_get_with_type
  xcm_attr_get_bool s name w = attr_get_with_type s name bool 1 w

  -- xcm_attr_get_int64() and xcm_attr_get_double()
  unfoldable pub xcm_attr_get_int64 : Socket → Str → W → Outcome (List ℕ)
  unfolding attr_get_with_type
  xcm_attr_get_int64 s name w = attr_get_with_type s name int64 8 w

  unfoldable pub xcm_attr_get_double : Socket → Str → W → Outcome (List ℕ)
  unfolding attr_get_with_type
  xcm_attr_get_double s name w = attr_get_with_type s name double 8 w

  -- The body of xcm_attr_get_str() and xcm_attr_get_bin()
  unfoldable pub get_of_type : Socket → Str → AttrType → ℕ → W → Outcome (List ℕ)
  get_of_type s name type capacity w = elim (xcm_attr_get s name capacity w) [
    | fail e ↦ fail e
    | abort ↦ abort
    | ret (actual, value) ↦ if not (type_eq actual type) then fail enoent else ret value
  ]

  -- xcm_attr_get_str()
  unfoldable pub xcm_attr_get_str : Socket → Str → ℕ → W → Outcome (List ℕ)
  unfolding get_of_type
  xcm_attr_get_str s name capacity w = get_of_type s name str capacity w

  -- xcm_attr_get_bin()
  unfoldable pub xcm_attr_get_bin : Socket → Str → ℕ → W → Outcome (List ℕ)
  unfolding get_of_type
  xcm_attr_get_bin s name capacity w = get_of_type s name bin capacity w

  -- set_default_attrs(): `parent_s` is a socket of the same transport.
  unfoldable pub set_default_attrs :
      Socket → Option Socket → Option AttrMap → W → Option (Option Errno × Socket × W)
  set_default_attrs s parent_s attrs w =
      let bytestream : Bool = elim parent_s [
        | none ↦ false
        | some parent ↦ xcm_tp_socket_is_bytestream ops env
      ] in
      let service = if bytestream then xcm_service_bytestream else xcm_service_messaging in
      let given : Bool = elim attrs [
        | none ↦ false
        | some m ↦ xcm_attr_map_exists m (c_str "xcm.service")
      ] in
      if given then some (none, s, w) else xcm_attr_set_str s (c_str "xcm.service") service w

  -- xcm_attr_map_foreach() with set_attr_cb(), which does nothing after the first failure.
  unfoldable pub set_user_loop : Socket → List Attr → W → Option (Option Errno × Socket × W)
  set_user_loop s [] w = some (none, s, w)
  set_user_loop s (attr ∷ rest) w = elim (xcm_attr_set s attr.name attr.type attr.value w) [
    | none ↦ none
    | some (some e, s', w') ↦ some (some e, s', w')
    | some (none, s', w') ↦ set_user_loop s' rest w'
  ]

  -- set_user_attrs()
  unfoldable pub set_user_attrs : Socket → Option AttrMap → W → Option (Option Errno × Socket × W)
  unfolding set_user_loop
  set_user_attrs s none w = some (none, s, w)
  set_user_attrs s (some attrs) w = set_user_loop s attrs.attrs w

  -- set_attrs()
  unfoldable pub set_attrs :
      Socket → Option Socket → Option AttrMap → W → Option (Option Errno × Socket × W)
  set_attrs s parent_s attrs w = elim (set_default_attrs s parent_s attrs w) [
    | none ↦ none
    | some (some e, s', w') ↦ some (some e, s', w')
    | some (none, s', w') ↦ set_user_attrs s' attrs w'
  ]

-- The loop of attr_forward_cb(), for a getter of the socket
unfoldable pub grow_loop : ℕ → (ℕ → Outcome (List ℕ)) → ℕ → Option (Outcome (List ℕ))
grow_loop zero getter value_capacity = none
grow_loop (suc fuel) getter value_capacity = elim (getter value_capacity) [
  | ret value ↦ some (ret value)
  | abort ↦ some abort
  | fail e ↦ elim (is_eoverflow e) [
    | true ↦ grow_loop fuel getter (value_capacity * 2)
    | false ↦ some (fail e)
  ]
]

module _ {W : Type 0} (fuel : ℕ) (s : Socket) (w : W) where
  -- attr_forward_cb(): the call of the user's function, if there is one.
  unfoldable pub attr_forward_cb : TpAttr W → Option (Option (Str × AttrType × List ℕ))
  unfolding grow_loop
  attr_forward_cb attr = elim attr.get [
    | none ↦ none
    | some getter ↦ elim (grow_loop fuel (λ capacity. getter capacity s w) 256) [
      | none ↦ none
      | some (ret value) ↦ some (some (attr.name, attr.type, value))
      | some (fail e) ↦ some none
      | some abort ↦ none
    ]
  ]

  -- xcm_tp_attr_list_foreach() with attr_forward_cb(): the calls, in order.
  unfoldable pub forward_loop : List (TpAttr W) → Option (List (Str × AttrType × List ℕ))
  unfolding attr_forward_cb
  forward_loop [] = some []
  forward_loop (attr ∷ rest) =
      let later = forward_loop rest in
      elim (attr_forward_cb attr) [
        | none ↦ none
        | some none ↦ later
        | some (some call) ↦ elim later [ none ↦ none | some calls ↦ some (call ∷ calls) ]
      ]

-- xcm_attr_get_all(): the calls of the user's function.
unfoldable pub xcm_attr_get_all :
    {W : Type 0} → TpOps W → Env W → ℕ → ℕ → Socket → W → Option (List (Str × AttrType × List ℕ))
unfolding forward_loop
xcm_attr_get_all ops env fuel grow_fuel s w =
    forward_loop grow_fuel s w
      (xcm_tp_common_attr_foreach ops env fuel s ++ xcm_tp_socket_attr_foreach ops env s w)
