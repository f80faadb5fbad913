-- ===== src/Examples/Sockets.antt =====
-- The attributes of a socket in libxcm/core/xcm.c.
use xcm.Base.{
  ℕ, ◌+◌, ◌≡◌, ◌≢◌, ◌<◌, refl, false, none, some, List, [], ◌∷◌, ◌++◌, Str, c_str, length, arith,
}
use xcm.Errno.{Errno, Outcome, ret, fail, abort}
use xcm.Socket.{Socket, server}
use xcm.Socket.Calls.{xcm_tp_socket_is_bytestream}
use xcm.Errno.{is_eoverflow, enoent}
use xcm.Socket.Calls.{xcm_tp_socket_attr_foreach, xcm_tp_socket_get_transport}
use xcm.Socket.Attrs.{
  xcm_tp_get_str_attr, xcm_tp_get_bool_attr, common_attrs, get_type_attr, get_transport_attr,
  get_service_attr, get_local_attr, actual_service, addr_to_attr,
}
use xcm.Api.Attrs.{
  xcm_tp_common_attr_foreach, server_attrs, blocking_attr, get_blocking_attr, xcm_attr_get_all,
  xcm_attr_set_bool, xcm_attr_get_bool,
}
use xcm.Api.{xcm_set_blocking}
use xcm.Api.Attrs.All.{IsSized, AllReadable, values, xcm_attr_get_all_lem, xcm_set_blocking_lem}
use xcm.Examples.Nets.{Net, net_env, a_socket, a_net, msg_ops}

-- A getter that fits whatever the capacity.
always :
    (limit : ℕ) (getter : ℕ → Outcome (List ℕ)) (result : Outcome (List ℕ))
    → ((capacity : ℕ) → getter capacity ≡ result)
    → result ≢ abort
    → ((e : Errno) → result ≡ fail e → is_eoverflow e ≡ false)
    → IsSized limit getter
always limit getter result same no_abort no_overflow = record {
  size = 0;
  result = result;
  small = omega arith;
  not_abort = no_abort;
  not_overflow = no_overflow;
  getter_eq = λ capacity. ground (arith, same capacity);
}

string :
    (limit : ℕ) (value : Str) → length value < limit → IsSized limit (xcm_tp_get_str_attr value)
unfolding xcm_tp_get_str_attr
string limit value h = record {
  size = length value + 1;
  result = ret (value ++ (0 ∷ []));
  small = omega arith;
  not_abort = λ e. ground arith;
  not_overflow = λ e h. ground arith;
  getter_eq = λ capacity. ground arith;
}

abbrev a_server : Socket
a_server = record a_socket { type = server }

type_IsSized : IsSized 300 (λ capacity. get_type_attr msg_ops net_env capacity a_server a_net)
unfolding get_type_attr
type_IsSized = string 300 (c_str "server") (omega arith)

transport_IsSized :
    IsSized 300 (λ capacity. get_transport_attr msg_ops net_env capacity a_server a_net)
unfolding get_transport_attr xcm_tp_socket_get_transport
transport_IsSized = string 300 (c_str "net") (omega arith)

service_IsSized : IsSized 300 (λ capacity. get_service_attr msg_ops net_env capacity a_server a_net)
unfolding get_service_attr actual_service xcm_tp_socket_is_bytestream
service_IsSized = string 300 (c_str "messaging") (omega arith)

blocking_IsSized :
    IsSized 300 (λ capacity. get_blocking_attr msg_ops net_env 5 capacity a_server a_net)
unfolding get_blocking_attr xcm_tp_get_bool_attr
blocking_IsSized =
    always 300 (λ capacity. get_blocking_attr msg_ops net_env 5 capacity a_server a_net)
      (ret (1 ∷ [])) (λ capacity. refl) (λ e. ground arith) (λ e h. ground arith)

-- The address is unknown, and its getter fails.
local_IsSized : IsSized 300 (λ capacity. get_local_attr msg_ops net_env capacity a_server a_net)
unfolding get_local_attr addr_to_attr
local_IsSized =
    always 300 (λ capacity. get_local_attr msg_ops net_env capacity a_server a_net) (fail enoent)
      (λ capacity. refl) (λ e. ground arith) (λ e h. ground arith)

readable : AllReadable 300 a_server a_net (
    xcm_tp_common_attr_foreach msg_ops net_env 5 a_server
    ++ xcm_tp_socket_attr_foreach msg_ops net_env a_server a_net)
unfolding xcm_tp_common_attr_foreach server_attrs common_attrs blocking_attr
    xcm_tp_socket_attr_foreach
readable = (
  record {
    getter = get_blocking_attr msg_ops net_env 5;
    has_getter = refl;
    sized = blocking_IsSized;
  },
  (
    record { getter = get_type_attr msg_ops net_env; has_getter = refl; sized = type_IsSized },
    (
      record {
        getter = get_transport_attr msg_ops net_env;
        has_getter = refl;
        sized = transport_IsSized;
      },
      (
        record {
          getter = get_service_attr msg_ops net_env;
          has_getter = refl;
          sized = service_IsSized;
        },
        (
          record {
            getter = get_local_attr msg_ops net_env;
            has_getter = refl;
            sized = local_IsSized;
          },
          tt,
        ),
      ),
    ),
  ),
)

xcm_attr_get_all_example :
    xcm_attr_get_all msg_ops net_env 5 301 a_server a_net
    ≡ some (
        values 300 a_server a_net
          (xcm_tp_common_attr_foreach msg_ops net_env 5 a_server
            ++ xcm_tp_socket_attr_foreach msg_ops net_env a_server a_net)
          readable)
xcm_attr_get_all_example =
    xcm_attr_get_all_lem msg_ops net_env 300 5 301 a_server a_net readable (omega arith)

xcm_set_blocking_example :
    (xcm_attr_set_bool msg_ops net_env 5 a_socket (c_str "xcm.blocking") false a_net
      ≡ xcm_set_blocking msg_ops net_env 5 a_socket false a_net)
    × ((s' : Socket) (w' : Net)
        → xcm_attr_set_bool msg_ops net_env 5 a_socket (c_str "xcm.blocking") false a_net
          ≡ some (none, s', w')
        → xcm_attr_get_bool msg_ops net_env 5 s' (c_str "xcm.blocking") w' ≡ ret (0 ∷ []))
xcm_set_blocking_example = xcm_set_blocking_lem msg_ops net_env 5 a_socket false a_net
