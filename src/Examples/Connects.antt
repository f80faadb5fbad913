-- ===== src/Examples/Connects.antt =====
-- libxcm/tp/tcp/tconnect.c where the first address refuses, and a connection to the second is made
-- at the first look at it.
use xcm.Base.{ℕ, suc, ◌≡◌, ◌==◌, refl, false, Option, none, some, List, [], ◌∷◌, if◌then◌else◌}
use xcm.Errno.{Errno, econnrefused, einprogress, ret}
use xcm.Addr.Hosts.{Ip, ip4, ip6}
use xcm.Tconnect.{TrackEnv, sequential}
use xcm.Tconnect.Track.{
  Track, connecting, finished, track_connect_next, attempt, track_abort_connect,
  track_get_current_scope,
}
use xcm.Tconnect.Process.{Established}
use xcm.Tconnect.Connect.{
  Tconnect, Target, tconnect_connect, tracks_loop, take_fd, tconnect_get_connected_fd,
}
use xcm.Tconnect.Asked.{Answer}
use xcm.Tconnect.Runs.{ConnectRun, started, tconnect_get_connected_fd_lem}

-- The ids of the registrations and of the timers that there are, and the next id.
record Held : Type 0 where
  regs : List ℕ
  timers : List ℕ
  next : ℕ

abbrev without : ℕ → List ℕ → Option (List ℕ)
without id [] = none
without id (x ∷ xs) =
    let rest = without id xs in
    if x == id then some xs else elim rest [ none ↦ none | some ys ↦ some (x ∷ ys) ]

abbrev connect_result : Ip → Option Errno
connect_result (ip4 a) = some econnrefused
connect_result (ip6 a) = some einprogress

abbrev del_reg : ℕ → Held → Option Held
del_reg id w = elim (without id w.regs) [ none ↦ none | some ids ↦ some (record w { regs = ids }) ]

abbrev ack_timer : ℕ → Held → Option Held
ack_timer id w = elim (without id w.timers) [
  | none ↦ none
  | some ids ↦ some (record w { timers = ids })
]

abbrev cancel_timer : ℕ → Held → Option Held
cancel_timer id w = elim (without id w.timers) [
  | none ↦ some w
  | some ids ↦ some (record w { timers = ids })
]

abbrev held_env : TrackEnv Held ℕ ℕ
held_env = record {
  tcp_opts_effectuate = λ opts fd w. (none, w);
  bind = λ fd addr w. (none, w);
  connect = λ fd addr w. (connect_result addr.ip, w);
  disconnect = λ fd w. w;
  ut_established = λ fd w. (none, w);
  xpoll_fd_reg_add = λ fd w. some (w.next, record w { regs = w.next ∷ w.regs; next = suc w.next });
  xpoll_fd_reg_del = del_reg;
  timer_mgr_schedule =
      λ time w. some (w.next, record w { timers = w.next ∷ w.timers; next = suc w.next });
  timer_mgr_has_expired =
      λ id w. elim (without id w.timers) [ none ↦ none | some ids ↦ some false ];
  timer_mgr_ack = ack_timer;
  timer_mgr_cancel = cancel_timer;
  close = λ fd w. w;
  initial_ipv4_delay = 200;
}

abbrev a_target : Target ℕ ℕ
a_target = record {
  local_ip = none;
  local_port = 0;
  scope = none;
  tcp_connect_timeout = 3;
  tcp_opts = 0;
  remote_ips = ip4 16777343 ∷ ip6 (0 ∷ 1 ∷ []) ∷ [];
  remote_port = 4711;
}

abbrev a_tconnect : Tconnect ℕ ℕ
a_tconnect = record { algorithm = sequential; fd4 = some 5; fd6 = some 6; tracks = [] }

abbrev before : Held
before = record { regs = []; timers = []; next = 1 }

-- The connection in progress to the second address.
abbrev a_track : Track ℕ ℕ
a_track = record {
  fd4 = some 5;
  fd6 = some 6;
  fd_reg_id = some 2;
  tcp_connect_timeout = 3;
  tcp_opts = 0;
  local_ip = none;
  local_port = 0;
  scope = none;
  remote_ips = ip4 16777343 ∷ ip6 (0 ∷ 1 ∷ []) ∷ [];
  remote_port = 4711;
  timer_id = some 3;
  state = connecting;
  ip_idx = some 1;
  badness_reason = some econnrefused;
}

abbrev in_progress : Tconnect ℕ ℕ
in_progress = record a_tconnect { tracks = a_track ∷ [] }

abbrev established : Established held_env
established = record { fd = some 6; scope = some 0; tcp_opts = 0 }

-- The connection with its second descriptor handed out.
abbrev handed_out : Tconnect ℕ ℕ
handed_out = record a_tconnect {
  fd6 = none;
  tracks = record a_track { fd6 = none; fd_reg_id = none; state = finished } ∷ [];
}

abbrev during : Held
during = record { regs = 2 ∷ []; timers = 3 ∷ []; next = 4 }

abbrev after : Held
after = record { regs = []; timers = 3 ∷ []; next = 4 }

run : ConnectRun held_env a_target in_progress
unfolding tconnect_connect track_connect_next attempt track_abort_connect
run = started a_tconnect before during none refl refl

hands_out :
    tconnect_get_connected_fd held_env in_progress during
    ≡ some (ret established, handed_out, after)
unfolding tconnect_get_connected_fd tracks_loop take_fd track_get_current_scope
hands_out = refl

tconnect_get_connected_fd_example :
    Answer held_env 4711 in_progress (ret established) handed_out after
tconnect_get_connected_fd_example =
    tconnect_get_connected_fd_lem held_env a_target in_progress handed_out during after
      (ret established) run hands_out
