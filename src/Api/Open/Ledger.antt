-- ===== src/Api/Open/Ledger.antt =====
-- What the functions of libxcm/core/xcm.c that open a socket hold and release: a transport's data,
-- an epoll instance, and a control interface.
use xcm.Base.{
  ℕ, ◌+◌, ◌-◌, ◌≡◌, Bool, true, Option, none, some, List, [], ◌∷◌, Str, length, if◌then◌else◌,
}
use xcm.Errno.{Errno}
use xcm.Socket.{Socket, TpAttr}
use xcm.Socket.Ops.{TpOps, Env}
use xcm.Socket.Calls.{xcm_tp_socket_attr_foreach}
use xcm.Api.Attrs.{valid_set_attr_len}
use xcm.Api.Send.{Keeps}

-- How much of each is held by the sockets that the API has opened. A control interface of a socket
-- below one of them is part of its transport's data, as that socket is.
pub record Ledger : Type 0 where
  pub transports : ℕ
  pub polls : ℕ
  pub ctls : ℕ

abbrev pub with_transport : Ledger → Ledger
with_transport l = record l { transports = l.transports + 1 }

abbrev pub less_transport : Ledger → Ledger
less_transport l = record l { transports = l.transports - 1 }

abbrev pub with_poll : Ledger → Ledger
with_poll l = record l { polls = l.polls + 1 }

abbrev pub less_poll : Ledger → Ledger
less_poll l = record l { polls = l.polls - 1 }

abbrev pub with_ctl : Bool → Ledger → Ledger
with_ctl ctl l = if ctl then record l { ctls = l.ctls + 1 } else l

abbrev pub less_ctl : Ledger → Ledger
less_ctl l = record l { ctls = l.ctls - 1 }

module _ {W : Type 0} (ops : TpOps W) (env : Env W) (ledger : W → Ledger) where
  -- What setting an attribute leaves.
  pub record Set (s : Socket) (w : W) (result : Option (Option Errno × Socket × W)) : Type 0 where
    pub rc : Option Errno
    pub socket : Socket
    pub after : W
    pub result_eq : result ≡ some (rc, socket, after)
    pub same_ledger : ledger after ≡ ledger w
    pub same_ctl : socket.ctl ≡ s.ctl

  -- An attribute whose setter, for a value of a length of its type, ends and keeps the ledger.
  abbrev pub Settable : TpAttr W → Type 0
  Settable attr =
      (setter : List ℕ → Socket → W → Option (Option Errno × Socket × W)) (value : List ℕ)
      (s : Socket) (w : W)
      → attr.set ≡ some setter
      → valid_set_attr_len attr.type (length value) ≡ true
      → Set s w (setter value s w)

  abbrev pub AllSettable : List (TpAttr W) → Type 0
  AllSettable [] = Unit {0}
  AllSettable (attr ∷ rest) = Settable attr × AllSettable rest

  -- What libxcm/tp/common/xcm_tp.h asks of a transport's operations, and what those of the control
  -- interface and of xpoll do: an operation that fails releases the transport's data, except for
  -- init, which then holds none.
  pub record Accounts : Type 0 where
    pub init_ok :
        (s : Socket) (parent : Option Socket) (w : W)
        → (ops.init s parent w).0 ≡ none
        → ledger (ops.init s parent w).1 ≡ with_transport (ledger w)
    pub init_fails :
        (s : Socket) (parent : Option Socket) (w : W) (e : Errno)
        → (ops.init s parent w).0 ≡ some e
        → ledger (ops.init s parent w).1 ≡ ledger w
    pub connect_ok :
        (s : Socket) (addr : Str) (w : W)
        → (ops.connect s addr w).0 ≡ none
        → ledger (ops.connect s addr w).1 ≡ ledger w
    pub connect_fails :
        (s : Socket) (addr : Str) (w : W) (e : Errno)
        → (ops.connect s addr w).0 ≡ some e
        → ledger (ops.connect s addr w).1 ≡ less_transport (ledger w)
    pub server_ok :
        (s : Socket) (addr : Str) (w : W)
        → (ops.server s addr w).0 ≡ none
        → ledger (ops.server s addr w).1 ≡ ledger w
    pub server_fails :
        (s : Socket) (addr : Str) (w : W) (e : Errno)
        → (ops.server s addr w).0 ≡ some e
        → ledger (ops.server s addr w).1 ≡ less_transport (ledger w)
    pub close_lem : (s : Socket) (w : W) → ledger (ops.close s w) ≡ less_transport (ledger w)
    pub next_id_lem : (w : W) → ledger (env.next_id w).1 ≡ ledger w
    pub xpoll_ok :
        (s : Socket) (w : W)
        → (env.xpoll_create s w).0 ≡ none
        → ledger (env.xpoll_create s w).1 ≡ with_poll (ledger w)
    pub xpoll_fails :
        (s : Socket) (w : W) (e : Errno)
        → (env.xpoll_create s w).0 ≡ some e
        → ledger (env.xpoll_create s w).1 ≡ ledger w
    pub xpoll_destroy_lem :
        (s : Socket) (w : W) → ledger (env.xpoll_destroy s w) ≡ less_poll (ledger w)
    pub ctl_create_lem :
        (s : Socket) (w : W)
        → ledger (env.ctl_create s w).1 ≡ with_ctl (env.ctl_create s w).0 (ledger w)
    pub ctl_destroy_lem :
        (owner : Bool) (s : Socket) (w : W)
        → ledger (env.ctl_destroy owner s w) ≡ less_ctl (ledger w)
    pub enable_ctl_lem :
        (enable : Socket → W → Bool × W) (s : Socket) (w : W)
        → ops.enable_ctl ≡ some enable
        → ledger (enable s w).1 ≡ with_ctl (enable s w).0 (ledger w)
    pub set_local_addr_lem :
        (set : Socket → Str → W → Option Errno × W) (s : Socket) (addr : Str) (w : W)
        → ops.set_local_addr ≡ some set
        → ledger (set s addr w).1 ≡ ledger w
    pub keeps : Keeps ops env ledger
    pub own_attrs : (s : Socket) (w : W) → AllSettable (xcm_tp_socket_attr_foreach ops env s w)
