-- ===== src/Examples/Nets.antt =====
-- Transports that are busy for some calls, one for messages and one for bytes.
use xcm.Base.{
  ℕ, zero, suc, ◌+◌, ◌-◌, true, Option, none, some, List, [], ◌∷◌, ◌++◌, c_str, length, take,
}
use xcm.Errno.{Errno, eagain, einprogress, Outcome, ret, fail}
use xcm.Socket.{Socket, conn}
use xcm.Socket.Ops.{TpOps, Env}

-- What has been sent, for how many waits the transport is busy, and how often the control interface
-- has been served.
pub record Net : Type 0 where
  pub msgs : List (List ℕ)
  pub bytes : List ℕ
  pub busy : ℕ
  pub served : ℕ

abbrev pub msg_send : List ℕ → Net → Outcome ℕ × Net
msg_send buf w = elim w.busy [
  | zero ↦ (ret 0, record w { msgs = w.msgs ++ (buf ∷ []) })
  | suc n ↦ (fail eagain, w)
]

-- At most three bytes in one call.
abbrev pub byte_send : List ℕ → Net → Outcome ℕ × Net
byte_send buf w = elim w.busy [
  | zero ↦ (ret (length (take 3 buf)), record w { bytes = w.bytes ++ take 3 buf })
  | suc n ↦ (fail eagain, w)
]

abbrev pub net_finish : Net → Option Errno × Net
net_finish w = elim w.busy [ zero ↦ (none, w) | suc n ↦ (some einprogress, w) ]

abbrev pub net_ops : (List ℕ → Net → Outcome ℕ × Net) → Option (Socket → Net → ℕ) → TpOps Net
net_ops send max_msg = record {
  init = λ s parent w. (none, w);
  connect = λ s addr w. (none, w);
  server = λ s addr w. (none, w);
  close = λ s w. w;
  cleanup = λ s w. w;
  accept = λ c s w. (none, w);
  send = λ s buf w. send buf w;
  receive = λ s capacity w. (fail eagain, w);
  update = λ s w. w;
  finish = λ s w. net_finish w;
  name = c_str "net";
  get_transport = none;
  get_remote_addr = λ s w. none;
  get_local_addr = λ s w. none;
  set_local_addr = none;
  max_msg = max_msg;
  get_cnt = λ s name w. 0;
  enable_ctl = none;
  attr_foreach = none;
}

abbrev pub net_env : Env Net
net_env = record {
  ctl_create = λ s w. (true, w);
  ctl_process = λ s w. record w { served = w.served + 1 };
  ctl_destroy = λ owner s w. w;
  next_id = λ w. (0, w);
  xpoll_create = λ s w. (none, w);
  xpoll_destroy = λ s w. w;
  poll = λ s w. (none, record w { busy = w.busy - 1 });
}

abbrev pub a_socket : Socket
a_socket = record {
  type = conn;
  sock_id = 0;
  auto_enable_ctl = true;
  auto_update = true;
  is_blocking = true;
  condition = 0;
  ctl = true;
  skipped_ctl_calls = 250;
}

abbrev pub a_net : Net
a_net = record { msgs = []; bytes = []; busy = 2; served = 0 }

abbrev pub msg_ops : TpOps Net
msg_ops = net_ops msg_send (some (λ s w. 1000))

abbrev pub byte_ops : TpOps Net
byte_ops = net_ops byte_send none
