-- ===== src/Tconnect.antt =====
-- libxcm/tp/tcp/tconnect.c: connecting to a list of IP addresses, along one track after another, or
-- along two at once. A descriptor, an id or a scope of -1 is none.
pub mod Track
pub mod Process
pub mod Connect
pub mod Evidence
pub mod Handed
pub mod Asked
pub mod Runs
use xcm.Base.{
  ℕ, ◌≡◌, refl, Bool, true, false, Option, none, some, List, Str, c_str, str_eq, if◌then◌else◌,
}
use xcm.Errno.{Errno}
use xcm.Addr.Hosts.{Ip}

-- enum tconnect_algorithm
pub data TconnectAlgorithm : Type 0 where
  no_algorithm single sequential happy_eyeballs : TconnectAlgorithm

-- tconnect_algorithm_str()
unfoldable pub tconnect_algorithm_str : TconnectAlgorithm → Str
tconnect_algorithm_str no_algorithm = c_str "none"
tconnect_algorithm_str single = c_str "single"
tconnect_algorithm_str sequential = c_str "sequential"
tconnect_algorithm_str happy_eyeballs = c_str "happy_eyeballs"

-- tconnect_algorithm_enum()
unfoldable pub tconnect_algorithm_enum : Str → TconnectAlgorithm
tconnect_algorithm_enum str =
    if str_eq str (c_str "single")
    then single
    else if str_eq str (c_str "sequential")
    then sequential
    else if str_eq str (c_str "happy_eyeballs")
    then happy_eyeballs
    else no_algorithm

-- What tp_ip_to_sockaddr() makes: the address, the port and the scope.
pub record SockAddr : Type 0 where
  pub ip : Ip
  pub port : ℕ
  pub scope : Option ℕ

-- The system calls, the timers and the epoll instance of a connection, and tcp_opts_effectuate(),
-- with W the state of all of them, Opts struct tcp_opts, and Time a number of seconds. A system call
-- that fails returns errno. The functions of xpoll.c and timer_mgr.c end the process, none, by a
-- failed assertion or system call: of a descriptor that is registered already, or an id that is not
-- registered, or a timer that is not there; timer_mgr_cancel() of such a timer does nothing.
pub record TrackEnv (W Opts Time : Type 0) : Type 0 where
  pub tcp_opts_effectuate : Opts → Option ℕ → W → Option Errno × W
  pub bind : Option ℕ → SockAddr → W → Option Errno × W
  pub connect : Option ℕ → SockAddr → W → Option Errno × W
  pub disconnect : Option ℕ → W → W
  pub ut_established : Option ℕ → W → Option Errno × W
  pub xpoll_fd_reg_add : Option ℕ → W → Option (ℕ × W)
  pub xpoll_fd_reg_del : ℕ → W → Option W
  pub timer_mgr_schedule : Time → W → Option (ℕ × W)
  pub timer_mgr_has_expired : ℕ → W → Option Bool
  pub timer_mgr_ack : ℕ → W → Option W
  pub timer_mgr_cancel : ℕ → W → Option W
  pub close : ℕ → W → W
  pub initial_ipv4_delay : Time
