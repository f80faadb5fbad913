-- ===== src/Examples/Opens.antt =====
-- Opening sockets in libxcm/core/xcm.c over a transport that refuses the address "net:down".
use xcm.Base.{
  ◌≡◌, refl, true, Option, none, some, [], ◌∷◌, Str, c_str, str_eq, arith, if◌then◌else◌,
}
use xcm.Errno.{Errno, econnrefused, ret, fail}
use xcm.Socket.Ops.{TpOps, Env}
use xcm.Socket.Calls.{xcm_tp_socket_attr_foreach, xcm_tp_socket_send, xcm_tp_socket_finish}
use xcm.Api.Send.{Keeps, Wakes}
use xcm.Api.Open.{TpProto, xcm_tp_proto_by_addr, xcm_tp_proto_by_name, xcm_connect_a, xcm_server_a}
use xcm.Addr.{xcm_addr_parse_proto, proto_addr_parse}
use xcm.Api.Open.Ledger.{
  Ledger, with_transport, less_transport, with_poll, less_poll, with_ctl, less_ctl, Accounts,
}
use xcm.Api.Open.Steps.{Opened}
use xcm.Api.Open.Release.{xcm_connect_a_lem, xcm_server_a_lem}

abbrev open_call : Str → Ledger → Option Errno × Ledger
open_call addr l =
    if str_eq addr (c_str "net:down") then (some econnrefused, less_transport l) else (none, l)

abbrev ledger_ops : TpOps Ledger
ledger_ops = record {
  init = λ s parent l. (none, with_transport l);
  connect = λ s addr l. open_call addr l;
  server = λ s addr l. open_call addr l;
  close = λ s l. less_transport l;
  cleanup = λ s l. less_transport l;
  accept = λ c s l. (none, l);
  send = λ s buf l. (fail econnrefused, l);
  receive = λ s capacity l. (fail econnrefused, l);
  update = λ s l. l;
  finish = λ s l. (none, l);
  name = c_str "net";
  get_transport = none;
  get_remote_addr = λ s l. none;
  get_local_addr = λ s l. none;
  set_local_addr = none;
  max_msg = some (λ s l. 1000);
  get_cnt = λ s name l. 0;
  enable_ctl = none;
  attr_foreach = none;
}

abbrev ledger_env : Env Ledger
ledger_env = record {
  ctl_create = λ s l. (true, with_ctl true l);
  ctl_process = λ s l. l;
  ctl_destroy = λ owner s l. less_ctl l;
  next_id = λ l. (0, l);
  xpoll_create = λ s l. (none, with_poll l);
  xpoll_destroy = λ s l. less_poll l;
  poll = λ s l. (none, l);
}

open_ok : (addr : Str) (l : Ledger) → (open_call addr l).0 ≡ none → (open_call addr l).1 ≡ l
open_ok addr l h = ground arith

open_fails :
    (addr : Str) (l : Ledger) (e : Errno)
    → (open_call addr l).0 ≡ some e
    → (open_call addr l).1 ≡ less_transport l
open_fails addr l e h = ground arith

ledger_Keeps : Keeps ledger_ops ledger_env (λ l. l)
ledger_Keeps = record {
  update_keeps = λ s l. refl;
  finish_keeps = λ s l. refl;
  poll_keeps = λ s l. refl;
  ctl_keeps = λ s l. refl;
}

ledger_Accounts : Accounts ledger_ops ledger_env (λ l. l)
unfolding xcm_tp_socket_attr_foreach
ledger_Accounts = record {
  init_ok = λ s p l h. refl;
  init_fails = λ s p l e h. ground (arith, h);
  connect_ok = λ s addr l h. open_ok addr l h;
  connect_fails = λ s addr l e h. open_fails addr l e h;
  server_ok = λ s addr l h. open_ok addr l h;
  server_fails = λ s addr l e h. open_fails addr l e h;
  close_lem = λ s l. refl;
  next_id_lem = λ l. refl;
  xpoll_ok = λ s l h. refl;
  xpoll_fails = λ s l e h. ground (arith, h);
  xpoll_destroy_lem = λ s l. refl;
  ctl_create_lem = λ s l. refl;
  ctl_destroy_lem = λ owner s l. refl;
  enable_ctl_lem = λ f s l h. ground (arith, h);
  set_local_addr_lem = λ f s addr l h. ground (arith, h);
  keeps = ledger_Keeps;
  own_attrs = λ s l. tt;
}

ledger_Wakes : Wakes ledger_ops ledger_env (λ l. 0)
unfolding xcm_tp_socket_send xcm_tp_socket_finish
ledger_Wakes = record {
  send_wakes = λ s buf l e failed again woken. ground (arith, failed, again);
  send_done = λ s buf l n done. omega arith;
  finish_wakes = λ s l e failed more woken. ground (arith, failed);
}

abbrev a_proto : TpProto Ledger
a_proto = record { name = c_str "net"; ops = ledger_ops }

abbrev a_ledger : Ledger
a_ledger = record { transports = 3; polls = 4; ctls = 2 }

by_addr_down : xcm_tp_proto_by_addr (a_proto ∷ []) (c_str "net:down") ≡ ret a_proto
unfolding xcm_tp_proto_by_addr xcm_tp_proto_by_name xcm_addr_parse_proto str_eq proto_addr_parse
by_addr_down = refl

xcm_connect_a_example :
    Opened ledger_ops ledger_env
      (λ l. l)
      a_ledger
      (xcm_connect_a ledger_env (a_proto ∷ []) 1 (c_str "net:down") none a_ledger)
xcm_connect_a_example =
    xcm_connect_a_lem ledger_env (λ l. l) (a_proto ∷ []) a_proto ledger_Accounts (λ l. 0)
      ledger_Wakes 1 (λ l. omega arith) (c_str "net:down") none a_ledger by_addr_down

xcm_server_a_example :
    Opened ledger_ops ledger_env
      (λ l. l)
      a_ledger
      (xcm_server_a ledger_env (a_proto ∷ []) 1 (c_str "net:down") none a_ledger)
xcm_server_a_example =
    xcm_server_a_lem ledger_env (λ l. l) (a_proto ∷ []) a_proto ledger_Accounts (λ l. 0)
      ledger_Wakes 1 (λ l. omega arith) (c_str "net:down") none a_ledger by_addr_down
