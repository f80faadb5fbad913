-- ===== src/Socket/Attrs.antt =====
-- The attributes that libxcm/tp/common/xcm_tp.c gives to every socket, less xcm.blocking, whose
-- setter calls libxcm/core/xcm.c.
use xcm.Base.{
  ℕ, zero, suc, ◌/◌, ◌%◌, Bool, true, false, Option, none, some, List, [], ◌∷◌, ◌++◌, Str, c_str,
  str_eq, length, ltb, leb, if◌then◌else◌,
}
use xcm.Errno.{Errno, einval, enoent, eoverflow, Outcome, ret, fail, abort}
use xcm.AttrMap.{AttrType, int64, str}
use xcm.Socket.{Socket, SocketType, conn, server, TpAttr}
use xcm.Socket.Ops.{
  TpOps, Env, CntName, to_app_bytes, from_app_bytes, to_lower_bytes, from_lower_bytes, to_app_msgs,
  from_app_msgs, to_lower_msgs, from_lower_msgs,
}
use xcm.Socket.Calls.{
  xcm_tp_socket_get_transport, xcm_tp_socket_is_bytestream, xcm_tp_socket_set_local_addr,
}

-- xcm_tp_socket_type_name()
abbrev pub xcm_tp_socket_type_name : SocketType → Str
xcm_tp_socket_type_name conn = c_str "connection"
xcm_tp_socket_type_name server = c_str "server"

-- xcm_tp_get_str_attr(): the bytes that it writes, with the NUL.
unfoldable pub xcm_tp_get_str_attr : Str → ℕ → Outcome (List ℕ)
xcm_tp_get_str_attr value capacity =
    if leb capacity (length value) then fail eoverflow else ret (value ++ (0 ∷ []))

-- xcm_tp_get_bin_attr()
unfoldable pub xcm_tp_get_bin_attr : List ℕ → ℕ → Outcome (List ℕ)
xcm_tp_get_bin_attr value capacity =
    if ltb capacity (length value) then fail eoverflow else ret value

-- The byte of a bool, and the bool of a byte.
abbrev pub bool_byte : Bool → ℕ
bool_byte true = 1
bool_byte false = 0

abbrev pub byte_bool : ℕ → Bool
byte_bool zero = false
byte_bool (suc n) = true

-- xcm_tp_get_bool_attr()
unfoldable pub xcm_tp_get_bool_attr : Bool → ℕ → Outcome (List ℕ)
xcm_tp_get_bool_attr value capacity = ret (bool_byte value ∷ [])

-- xcm_tp_set_bool_attr(): none reads past the buffer.
unfoldable pub xcm_tp_set_bool_attr : List ℕ → Option Bool
xcm_tp_set_bool_attr [] = none
xcm_tp_set_bool_attr (b ∷ rest) = some (byte_bool b)

-- The bytes of a number on a little-endian machine, as many as given.
unfoldable pub le_bytes : ℕ → ℕ → List ℕ
le_bytes zero n = []
le_bytes (suc size) n = (n % 256) ∷ le_bytes size (n / 256)

-- The string that a buffer holds, up to its first NUL.
unfoldable pub str_of : List ℕ → Str
str_of [] = []
str_of (zero ∷ rest) = []
str_of (suc c ∷ rest) = suc c ∷ str_of rest

-- XCM_SERVICE_MESSAGING, XCM_SERVICE_BYTESTREAM and XCM_SERVICE_ANY
abbrev pub xcm_service_messaging : Str
xcm_service_messaging = c_str "messaging"

abbrev pub xcm_service_bytestream : Str
xcm_service_bytestream = c_str "bytestream"

abbrev pub xcm_service_any : Str
xcm_service_any = c_str "any"

-- addr_to_attr()
unfoldable pub addr_to_attr : Option Str → ℕ → Outcome (List ℕ)
unfolding xcm_tp_get_str_attr
addr_to_attr none capacity = fail enoent
addr_to_attr (some addr) capacity = xcm_tp_get_str_attr addr capacity

-- A read-only attribute.
abbrev pub read_only :
    {W : Type 0} → Str → AttrType → (ℕ → Socket → W → Outcome (List ℕ)) → TpAttr W
read_only attr_name attr_type getter = record {
  name = attr_name;
  type = attr_type;
  set = none;
  get = some getter;
}

module _ {W : Type 0} (ops : TpOps W) (env : Env W) where
  -- The service that the socket provides.
  unfoldable pub actual_service : Str
  unfolding xcm_tp_socket_is_bytestream
  actual_service =
      if xcm_tp_socket_is_bytestream ops env then xcm_service_bytestream else xcm_service_messaging

  -- get_type_attr()
  unfoldable pub get_type_attr : ℕ → Socket → W → Outcome (List ℕ)
  get_type_attr capacity s w = xcm_tp_get_str_attr (xcm_tp_socket_type_name s.type) capacity

  -- get_transport_attr()
  unfoldable pub get_transport_attr : ℕ → Socket → W → Outcome (List ℕ)
  get_transport_attr capacity s w =
      xcm_tp_get_str_attr (xcm_tp_socket_get_transport ops env s w) capacity

  -- set_service_attr()
  unfoldable pub set_service_attr : List ℕ → Socket → W → Option (Option Errno × Socket × W)
  unfolding str_of actual_service
  set_service_attr value s w =
      if str_eq (str_of value) xcm_service_any
      then some (none, s, w)
      else if str_eq actual_service (str_of value)
      then some (none, s, w)
      else some (some einval, s, w)

  -- get_service_attr()
  unfoldable pub get_service_attr : ℕ → Socket → W → Outcome (List ℕ)
  unfolding actual_service
  get_service_attr capacity s w = xcm_tp_get_str_attr actual_service capacity

  -- set_local_attr()
  unfoldable pub set_local_attr : List ℕ → Socket → W → Option (Option Errno × Socket × W)
  unfolding str_of xcm_tp_socket_set_local_addr
  set_local_attr value s w =
      let (rc, w') = xcm_tp_socket_set_local_addr ops env s (str_of value) w in some (rc, s, w')

  -- get_local_attr(), with xcm_local_addr() of libxcm/core/xcm.c
  unfoldable pub get_local_attr : ℕ → Socket → W → Outcome (List ℕ)
  get_local_attr capacity s w = addr_to_attr (ops.get_local_addr s w) capacity

  -- xcm_remote_addr() of libxcm/core/xcm.c
  unfoldable pub xcm_remote_addr : Socket → W → Option Str
  xcm_remote_addr s w = elim s.type [ conn ↦ ops.get_remote_addr s w | server ↦ none ]

  -- get_remote_attr()
  unfoldable pub get_remote_attr : ℕ → Socket → W → Outcome (List ℕ)
  unfolding xcm_remote_addr
  get_remote_attr capacity s w = addr_to_attr (xcm_remote_addr s w) capacity

  -- get_max_msg_attr(); none calls an operation that the transport has not.
  unfoldable pub get_max_msg_attr : ℕ → Socket → W → Outcome (List ℕ)
  unfolding le_bytes
  get_max_msg_attr capacity s w = elim s.type [
    | server ↦ fail enoent
    | conn ↦
        if ltb capacity 8
        then fail eoverflow
        else elim ops.max_msg [ none ↦ abort | some max_msg ↦ ret (le_bytes 8 (max_msg s w)) ]
  ]

  -- The getters of GEN_CNT_ATTR_GETTER
  unfoldable pub get_cnt_attr : CntName → ℕ → Socket → W → Outcome (List ℕ)
  unfolding le_bytes
  get_cnt_attr cnt_name capacity s w =
      if ltb capacity 8 then fail eoverflow else ret (le_bytes 8 (ops.get_cnt s cnt_name w))

  -- MSG_CNT_ATTRS
  unfoldable pub msg_cnt_attrs : List (TpAttr W)
  msg_cnt_attrs =
      read_only (c_str "xcm.to_app_msgs") int64 (get_cnt_attr to_app_msgs)
      ∷ read_only (c_str "xcm.to_app_bytes") int64 (get_cnt_attr to_app_bytes)
      ∷ read_only (c_str "xcm.from_app_msgs") int64 (get_cnt_attr from_app_msgs)
      ∷ read_only (c_str "xcm.from_app_bytes") int64 (get_cnt_attr from_app_bytes)
      ∷ read_only (c_str "xcm.to_lower_msgs") int64 (get_cnt_attr to_lower_msgs)
      ∷ read_only (c_str "xcm.to_lower_bytes") int64 (get_cnt_attr to_lower_bytes)
      ∷ read_only (c_str "xcm.from_lower_msgs") int64 (get_cnt_attr from_lower_msgs)
      ∷ read_only (c_str "xcm.from_lower_bytes") int64 (get_cnt_attr from_lower_bytes)
      ∷ []

  -- BYTESTREAM_CNT_ATTRS
  unfoldable pub bytestream_cnt_attrs : List (TpAttr W)
  bytestream_cnt_attrs =
      read_only (c_str "xcm.to_app_bytes") int64 (get_cnt_attr to_app_bytes)
      ∷ read_only (c_str "xcm.from_app_bytes") int64 (get_cnt_attr from_app_bytes)
      ∷ read_only (c_str "xcm.to_lower_bytes") int64 (get_cnt_attr to_lower_bytes)
      ∷ read_only (c_str "xcm.from_lower_bytes") int64 (get_cnt_attr from_lower_bytes)
      ∷ []

  -- The attributes of COMMON_ATTRS after xcm.blocking.
  unfoldable pub common_attrs : List (TpAttr W)
  common_attrs =
      read_only (c_str "xcm.type") str get_type_attr
      ∷ read_only (c_str "xcm.transport") str get_transport_attr
      ∷ record {
        name = c_str "xcm.service";
        type = str;
        set = some set_service_attr;
        get = some get_service_attr;
      }
      ∷ []

  -- The attributes of COMMON_CONN_ATTRS after xcm.blocking.
  unfoldable pub common_conn_attrs : List (TpAttr W)
  unfolding common_attrs
  common_conn_attrs =
      common_attrs
      ++ (record {
        name = c_str "xcm.local_addr";
        type = str;
        set = some set_local_attr;
        get = some get_local_attr;
      }
          ∷ read_only (c_str "xcm.remote_addr") str get_remote_attr
          ∷ [])
