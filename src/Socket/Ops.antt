-- ===== src/Socket/Ops.antt =====
-- struct xcm_tp_ops of libxcm/tp/common/xcm_tp.h, and what libxcm/tp/common/xcm_tp.c calls besides.
use xcm.Base.{ℕ, Bool, Option, List, Str}
use xcm.Errno.{Errno, Outcome}
use xcm.Socket.{Socket, TpAttr}

-- enum xcm_tp_cnt
pub data CntName : Type 0 where
  to_app_bytes from_app_bytes to_lower_bytes from_lower_bytes : CntName
  to_app_msgs from_app_msgs to_lower_msgs from_lower_msgs : CntName

-- The operations of one transport; an operation that may be NULL is an option. One that returns an
-- int without a value returns errno if it fails. A transport changes its own data and the kernel's
-- state, and no field of the socket but `ctl`, which enable_ctl may set: it returns whether the
-- pointer is then not NULL.
pub record TpOps (W : Type 0) : Type 0 where
  pub init : Socket → Option Socket → W → Option Errno × W
  pub connect : Socket → Str → W → Option Errno × W
  pub server : Socket → Str → W → Option Errno × W
  pub close : Socket → W → W
  pub cleanup : Socket → W → W
  pub accept : Socket → Socket → W → Option Errno × W
  pub send : Socket → List ℕ → W → Outcome ℕ × W
  pub receive : Socket → ℕ → W → Outcome (List ℕ) × W
  pub update : Socket → W → W
  pub finish : Socket → W → Option Errno × W
  pub name : Str
  pub get_transport : Option (Socket → W → Str)
  pub get_remote_addr : Socket → W → Option Str
  pub get_local_addr : Socket → W → Option Str
  pub set_local_addr : Option (Socket → Str → W → Option Errno × W)
  pub max_msg : Option (Socket → W → ℕ)
  pub get_cnt : Socket → CntName → W → ℕ
  pub enable_ctl : Option (Socket → W → Bool × W)
  pub attr_foreach : Option (Socket → W → List (TpAttr W))

-- The functions of libxcm/ctl/ctl.c, those of libxcm/core/xpoll.c as far as they create and destroy
-- an instance, and poll(2) of the instance's descriptor without a time limit: none if it is ready,
-- and errno if the call fails. ctl_create() returns whether it succeeded.
pub record Env (W : Type 0) : Type 0 where
  pub ctl_create : Socket → W → Bool × W
  pub ctl_process : Socket → W → W
  pub ctl_destroy : Bool → Socket → W → W
  pub next_id : W → ℕ × W
  pub xpoll_create : Socket → W → Option Errno × W
  pub xpoll_destroy : Socket → W → W
  pub poll : Socket → W → Option Errno × W
