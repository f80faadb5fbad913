-- ===== src/Xpoll.antt =====
-- libxcm/core/xpoll.c: an epoll instance with a table of file descriptors and a table of "bells",
-- which make the instance readable while one rings. `fd_regs_capacity` and `bell_regs_capacity` are
-- the lengths of the tables, which stay far below the range of int. Logging is left out, and memory
-- does not run out. A result `none` is a failed assertion, a ut_fatal(), or an access outside a
-- table.
pub mod Regs
pub mod Bells
use xcm.Base.{ℕ, ℤ, Bool, List}

-- struct xpoll_fd_reg; a free entry has the descriptor -1.
pub record FdReg : Type 0 where
  pub fd : ℤ
  pub event : ℕ

-- struct xpoll_bell_reg
pub record BellReg : Type 0 where
  pub free : Bool
  pub ringing : Bool
