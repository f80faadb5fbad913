-- ===== src/Socket.antt =====
-- libxcm/tp/common/xcm_tp.c and xcm_tp.h: a socket, and the operations that pass it on to its
-- transport. A socket's own fields are a record; all else, the private data of every socket and the
-- kernel's state, is the world `W`, and `sock_id` tells the transport whose data to use. `ctl` is
-- whether the pointer of that name is not NULL.
pub mod Ops
pub mod Calls
pub mod Attrs
pub mod CtlBound
use xcm.Base.{◌≡◌, ◌⊎◌, inl, inr, refl, ℕ, Bool, Option, List, Str}
use xcm.Errno.{Errno, Outcome}
use xcm.AttrMap.{AttrType}

-- enum xcm_socket_type
pub data SocketType : Type 0 where
  conn server : SocketType

pub SocketType-cases : (type : SocketType) → (type ≡ conn) ⊎ (type ≡ server)
SocketType-cases conn = inl refl
SocketType-cases server = inr refl

-- struct xcm_socket, less `proto` and `xpoll`: the transport is a parameter of what follows, and
-- the epoll instance stands in the world.
pub record Socket : Type 0 where
  pub type : SocketType
  pub sock_id : ℕ
  pub auto_enable_ctl : Bool
  pub auto_update : Bool
  pub is_blocking : Bool
  pub condition : ℕ
  pub ctl : Bool
  pub skipped_ctl_calls : ℕ

-- struct xcm_tp_attr with the socket that stands behind it; a NULL `set` or `get` is none. `get`
-- takes the capacity and returns the bytes that it writes, and `set` returns errno if it fails, or
-- none at all if a loop in it runs out of fuel.
pub record TpAttr (W : Type 0) : Type 0 where
  pub name : Str
  pub type : AttrType
  pub set : Option (List ℕ → Socket → W → Option (Option Errno × Socket × W))
  pub get : Option (ℕ → Socket → W → Outcome (List ℕ))
